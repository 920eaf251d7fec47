-- ===== src/Signals/Revocation/Cleanups.antt =====
-- When the cleanup of the index runs.
use project_starfly_fabrics.Prelude.{
  ℕ, ◌≤◌, String, ◌==◌, ◌≡◌, refl, sym, ap, ◌∙◌, inl, inr, some, List, [], ◌∷◌, is_empty,
  if◌then◌else◌, All, Bool-cases, Result, ok, err,
}
use project_starfly_fabrics.Dict.{insert}
use project_starfly_fabrics.Signals.Revocation.{
  InMemoryRevocationIndex, RevocationError, unless_expired, new_entry, revoke, is_revoked, cleanup,
}
use project_starfly_fabrics.Signals.Revocation.Expiry.{cleanup-is_revoked, revoke-is_revoked}

-- A cleanup at a time, or a revocation of a subject for a reason.
pub data Use : Type 0 where
  sweep : ℕ → Use
  revocation : (now expires_at : ℕ) (subject reason : String) → Use

abbrev pub kept_on_error :
    InMemoryRevocationIndex
    → Result RevocationError InMemoryRevocationIndex
    → InMemoryRevocationIndex
kept_on_error idx (ok idx') = idx'
kept_on_error idx (err e) = idx

unfoldable pub use_index : Use → InMemoryRevocationIndex → InMemoryRevocationIndex
unfolding cleanup revoke
use_index (sweep now) idx = (cleanup now idx).1
use_index (revocation now expires_at subject reason) idx =
    kept_on_error idx (revoke now subject reason expires_at idx)

unfoldable pub use_all : List Use → InMemoryRevocationIndex → InMemoryRevocationIndex
unfolding use_index
use_all [] idx = idx
use_all (u ∷ us) idx = use_all us (use_index u idx)

-- The cleanups that run up to a time.
abbrev pub SweptBy : ℕ → Use → Type 0
SweptBy later (sweep now) = now ≤ later
SweptBy later (revocation now expires_at subject reason) = Unit

-- The same answers at a time.
abbrev SameAnswers : ℕ → InMemoryRevocationIndex → InMemoryRevocationIndex → Type 0
SameAnswers later a b = (j : String) → is_revoked later j a ≡ is_revoked later j b

revoked-SameAnswers :
    (later now expires_at : ℕ) (subject reason : String) (a b : InMemoryRevocationIndex)
    → SameAnswers later a b
    → SameAnswers later
        (kept_on_error a (revoke now subject reason expires_at a))
        (kept_on_error b (revoke now subject reason expires_at b))
unfolding revoke
revoked-SameAnswers later now expires_at subject reason a b same =
    elim (Bool-cases (is_empty subject)) [
      | inl unnamed ↦ rw (unnamed, if◌then◌else◌, kept_on_error) same
      | inr named ↦
          let after = λ (idx : InMemoryRevocationIndex). record idx {
            entries = insert subject (new_entry now subject reason expires_at) idx.entries;
          } in
          let accepted : (idx : InMemoryRevocationIndex)
              → revoke now subject reason expires_at idx ≡ ok (after idx) =
            λ idx. rw (named, if◌then◌else◌) refl in
          rw (named, if◌then◌else◌, kept_on_error)
            (λ j.
              revoke-is_revoked now later expires_at subject reason j a (after a) (accepted a)
              ∙ ap
                  (λ rest.
                    if subject == j
                    then unless_expired later (some (new_entry now subject reason expires_at))
                    else rest)
                  (same j)
              ∙ sym (
                  revoke-is_revoked now later expires_at subject reason j b (after b) (accepted b)))
    ]

used-SameAnswers :
    (later : ℕ) (us : List Use) (a b : InMemoryRevocationIndex)
    → All (SweptBy later) us
    → SameAnswers later a b
    → SameAnswers later (use_all us a) (use_all us b)
unfolding use_all use_index
used-SameAnswers later [] a b times same = same
used-SameAnswers later (sweep now ∷ us) a b (time, times) same =
    used-SameAnswers later us _ _ times (λ j.
      cleanup-is_revoked now later j a time ∙ same j ∙ sym (cleanup-is_revoked now later j b time))
used-SameAnswers later (revocation now expires_at subject reason ∷ us) a b (time, times) same =
    used-SameAnswers later us _ _ times
      (revoked-SameAnswers later now expires_at subject reason a b same)

-- A cleanup changes no answer that the index gives at its time or later, whatever is revoked after
-- it, and cleaned up by the time of the answer, as long as nothing is imported after it.
pub cleanup_unnoticed :
    (now later : ℕ) (us : List Use) (subject : String) (idx : InMemoryRevocationIndex)
    → now ≤ later
    → All (SweptBy later) us
    → is_revoked later subject (use_all us (cleanup now idx).1)
      ≡ is_revoked later subject (use_all us idx)
cleanup_unnoticed now later us subject idx time times =
    used-SameAnswers later us _ idx times (λ j. cleanup-is_revoked now later j idx time) subject
