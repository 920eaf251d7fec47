-- ===== src/Signals/Revocation/Held.antt =====
-- How long a revocation lasts while the index is used.
use project_starfly_fabrics.Prelude.{
  ℕ, ◌≤◌, ◌<◌, String, ◌==◌, eq_refl, ◌≡◌, ◌≢◌, refl, ap, ◌∙◌, ◌⊎◌, inl, inr, true, false, Option,
  none, some, List, arith, Bool-cases, ok,
}
use project_starfly_fabrics.Dict.{lookup, lookup-keep}
use project_starfly_fabrics.Signals.Revocation.{
  RevocationEntry, RevocationSnapshot, InMemoryRevocationIndex, expired, new_entry, revoke,
  unless_expired, is_revoked, cleanup, import_snapshot,
}
use project_starfly_fabrics.Signals.Revocation.Expiry.{lookup-revoke}
use project_starfly_fabrics.Signals.Revocation.Merge.{first_entry, import_snapshot-lookup}

-- What an index may have been through up to some time: revocations of other subjects, cleanups, and
-- imports of the snapshots that are allowed.
pub data Used (subject : String) (later : ℕ) (allowed : RevocationSnapshot → Type 0)
    (idx : InMemoryRevocationIndex) : InMemoryRevocationIndex → Type 0 where
  unused : Used subject later allowed idx idx
  revoked :
      {idx' idx'' : InMemoryRevocationIndex}
      → Used subject later allowed idx idx'
      → (now expires_at : ℕ) (other reason : String) → (other == subject) ≡ false
      → revoke now other reason expires_at idx' ≡ ok idx''
      → Used subject later allowed idx idx''
  imported :
      {idx' idx'' : InMemoryRevocationIndex}
      → Used subject later allowed idx idx'
      → (digest : List RevocationEntry → Option String) (snapshot : RevocationSnapshot)
      → allowed snapshot
      → import_snapshot digest snapshot idx' ≡ ok idx''
      → Used subject later allowed idx idx''
  cleaned :
      {idx' : InMemoryRevocationIndex}
      → Used subject later allowed idx idx'
      → (now : ℕ) → now ≤ later
      → Used subject later allowed idx (cleanup now idx').1

-- Any snapshot.
abbrev pub AnySnapshot : RevocationSnapshot → Type 0
AnySnapshot snapshot = Unit

-- A snapshot that does not name the subject.
abbrev pub Without : String → RevocationSnapshot → Type 0
Without subject snapshot = first_entry subject snapshot.entries ≡ none

-- The entry lasts up to its expiry, which the zero time stands for none.
abbrev pub InForce : ℕ → ℕ → Type 0
InForce later expires_at = (expires_at ≡ 0) ⊎ (later ≤ expires_at)

not_expired :
    (now later revoked_at expires_at : ℕ) (subject reason : String)
    → InForce later expires_at
    → now ≤ later
    → expired now (new_entry revoked_at subject reason expires_at) ≡ false
unfolding expired
not_expired now later revoked_at expires_at subject reason (inl never) h = ground arith
not_expired now later revoked_at expires_at subject reason (inr ends) h = ground arith

module _ (subject : String) (later : ℕ) {idx : InMemoryRevocationIndex} (entry : RevocationEntry)
    (held : lookup subject idx.entries ≡ some entry) where
  -- An entry that has not expired stays through every use.
  Used-stays :
      ((now : ℕ) → now ≤ later → expired now entry ≡ false)
      → {idx' : InMemoryRevocationIndex} → Used subject later AnySnapshot idx idx'
      → lookup subject idx'.entries ≡ some entry
  unfolding cleanup
  Used-stays young unused = held
  Used-stays young (revoked u now expires_at other reason n e) =
      lookup-revoke now expires_at other reason subject _ _ e ∙ rw n (Used-stays young u)
  Used-stays young (imported u digest snapshot a e) =
      import_snapshot-lookup digest snapshot _ _ e subject ∙ rw (Used-stays young u) refl
  Used-stays young (cleaned {idx'} u now h) =
      lookup-keep _ subject idx'.entries ∙ rw (Used-stays young u, young now h) refl

  -- What stays of it where no snapshot names its subject.
  Used-leaves :
      {idx' : InMemoryRevocationIndex}
      → Used subject later (Without subject) idx idx'
      → (lookup subject idx'.entries ≡ some entry) ⊎ (lookup subject idx'.entries ≡ none)
  unfolding cleanup
  Used-leaves unused = inl held
  Used-leaves (revoked u now expires_at other reason n e) =
      rw (lookup-revoke now expires_at other reason subject _ _ e, n) (Used-leaves u)
  Used-leaves (imported u digest snapshot a e) = elim (Used-leaves u) [
    | inl here ↦ inl (import_snapshot-lookup digest snapshot _ _ e subject ∙ rw here refl)
    | inr gone ↦ inr (import_snapshot-lookup digest snapshot _ _ e subject ∙ rw (gone, a) refl)
  ]
  Used-leaves (cleaned {idx'} u now h) = elim (Used-leaves u) [
    | inl here ↦ elim (Bool-cases (expired now entry)) [
      | inl old ↦ inr (lookup-keep _ subject idx'.entries ∙ rw (here, old) refl)
      | inr young ↦ inl (lookup-keep _ subject idx'.entries ∙ rw (here, young) refl)
    ]
    | inr gone ↦ inr (lookup-keep _ subject idx'.entries ∙ rw gone refl)
  ]

-- A revoked subject is reported with the entry of its revocation up to the entry's expiry, at any
-- time for an entry without one, however the index is used in between: other subjects are revoked,
-- snapshots are imported, and expired entries are cleaned up by the time of the answer.
pub revoked_until_expiry :
    (now later expires_at : ℕ) (subject reason : String) (idx idx' idx'' : InMemoryRevocationIndex)
    → revoke now subject reason expires_at idx ≡ ok idx'
    → Used subject later AnySnapshot idx' idx''
    → InForce later expires_at
    → is_revoked later subject idx'' ≡ some (new_entry now subject reason expires_at)
unfolding is_revoked
revoked_until_expiry now later expires_at subject reason idx idx' idx'' h u force =
    let entry = new_entry now subject reason expires_at in
    let held : lookup subject idx'.entries ≡ some entry =
      lookup-revoke now expires_at subject reason subject idx idx' h ∙ rw (eq_refl subject) refl in
    let young = λ (t : ℕ). not_expired t later now expires_at subject reason force in
    ap (unless_expired later) (Used-stays subject later entry held young u)
    ∙ rw (young later (omega arith)) refl

left_over :
    (later : ℕ) (entry : RevocationEntry) (o : Option RevocationEntry)
    → expired later entry ≡ true
    → (o ≡ some entry) ⊎ (o ≡ none)
    → unless_expired later o ≡ none
left_over later entry o old (inl here) = rw (here, old) refl
left_over later entry o old (inr gone) = rw gone refl

-- After its expiry a subject that was revoked is reported as revoked no more, however the index was
-- used since, provided that the subject was not revoked again and no imported snapshot names it.
pub revocation_ends :
    (now later expires_at : ℕ) (subject reason : String) (idx idx' idx'' : InMemoryRevocationIndex)
    → revoke now subject reason expires_at idx ≡ ok idx'
    → Used subject later (Without subject) idx' idx''
    → expires_at ≢ 0
    → expires_at < later
    → is_revoked later subject idx'' ≡ none
unfolding is_revoked expired
revocation_ends now later expires_at subject reason idx idx' idx'' h u some_time past =
    let entry = new_entry now subject reason expires_at in
    let held : lookup subject idx'.entries ≡ some entry =
      lookup-revoke now expires_at subject reason subject idx idx' h ∙ rw (eq_refl subject) refl in
    let old : expired later entry ≡ true = ground arith in
    left_over later entry (lookup subject idx''.entries) old
      (Used-leaves subject later entry held u)
