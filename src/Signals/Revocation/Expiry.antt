-- ===== src/Signals/Revocation/Expiry.antt =====
-- Revocation, expiry and cleanup.
use project_starfly_fabrics.Prelude.{
  ℕ, ◌≤◌, String, ◌==◌, ◌≡◌, refl, sym, ap, ◌∙◌, Bool, true, false, not, Bool-cases, inl, inr,
  Option, none, some, arith, is_empty, if◌then◌else◌, ok,
}
use project_starfly_fabrics.Dict.{lookup, insert, keep_value, lookup-insert, lookup-keep}
use project_starfly_fabrics.Signals.Revocation.{
  RevocationEntry, InMemoryRevocationIndex, expired, new_entry, revoke, unless_expired, is_revoked,
  cleanup,
}

-- What has expired stays expired.
pub expired_later :
    (now later : ℕ) (entry : RevocationEntry)
    → now ≤ later
    → expired now entry ≡ true
    → expired later entry ≡ true
unfolding expired
expired_later now later entry h e = ground arith

kept_answer :
    (now later : ℕ) (o : Option RevocationEntry)
    → now ≤ later
    → unless_expired later (keep_value (λ entry. not (expired now entry)) o)
      ≡ unless_expired later o
kept_answer now later none h = refl
kept_answer now later (some entry) h = elim (Bool-cases (expired now entry)) [
  | inl old ↦ rw (old, expired_later now later entry h old) refl
  | inr young ↦ rw young refl
]

-- A cleanup changes no answer that the index gives at the time of the cleanup or later, as long as
-- nothing else changes the index in between.
pub cleanup-is_revoked :
    (now later : ℕ) (subject_id : String) (idx : InMemoryRevocationIndex)
    → now ≤ later
    → is_revoked later subject_id (cleanup now idx).1 ≡ is_revoked later subject_id idx
unfolding is_revoked cleanup
cleanup-is_revoked now later subject_id idx h =
    ap (unless_expired later) (lookup-keep _ subject_id idx.entries)
    ∙ kept_answer now later (lookup subject_id idx.entries) h

-- What a revocation leaves under every subject.
pub lookup-revoke :
    (now expires_at : ℕ) (subject_id reason j : String) (idx idx' : InMemoryRevocationIndex)
    → revoke now subject_id reason expires_at idx ≡ ok idx'
    → lookup j idx'.entries ≡ (
        if subject_id == j
        then some (new_entry now subject_id reason expires_at)
        else lookup j idx.entries)
unfolding revoke
lookup-revoke now expires_at subject_id reason j idx idx' h =
    elim (Bool-cases (is_empty subject_id)) [
      | inl unnamed ↦ cc (rw (unnamed, if◌then◌else◌) at h)
      | inr named ↦
          let same : record {
            entries = insert subject_id (new_entry now subject_id reason expires_at) idx.entries;
          }
              ≡ idx' =
            cc (rw (named, if◌then◌else◌) at h) in
          ap (λ (v : InMemoryRevocationIndex). lookup j v.entries) (sym same)
          ∙ lookup-insert subject_id j (new_entry now subject_id reason expires_at) idx.entries
    ]

unless_expired-if :
    (later : ℕ) (b : Bool) (o p : Option RevocationEntry)
    → unless_expired later (if b then o else p)
      ≡ (if b then unless_expired later o else unless_expired later p)
unless_expired-if later true o p = refl
unless_expired-if later false o p = refl

-- A revocation changes the answers for its own subject only.
pub revoke-is_revoked :
    (now later expires_at : ℕ) (subject_id reason j : String) (idx idx' : InMemoryRevocationIndex)
    → revoke now subject_id reason expires_at idx ≡ ok idx'
    → is_revoked later j idx' ≡ (
        if subject_id == j
        then unless_expired later (some (new_entry now subject_id reason expires_at))
        else is_revoked later j idx)
unfolding is_revoked
revoke-is_revoked now later expires_at subject_id reason j idx idx' h =
    ap (unless_expired later) (lookup-revoke now expires_at subject_id reason j idx idx' h)
    ∙ unless_expired-if later (subject_id == j) _ (lookup j idx.entries)
