-- ===== src/Exchange/Nonce/Replay.antt =====
-- Replay protection: what the tracker remembers, and for how long.
use project_starfly_fabrics.Prelude.{
  ℕ, ◌+◌, ◌-◌, ◌≤◌, String, ◌==◌, eq_iff, ◌≡◌, refl, ◌⊎◌, inl, inr, true, false, Option, none, some,
  List, [], ◌∷◌, arith, Bool-cases, Option-cases, All, ok, err, leb, le→leb, if◌then◌else◌, Bool,
  subst, ◌∙◌, eq_refl, ◌↔◌,
}
use project_starfly_fabrics.Dict.{lookup, keep_value, lookup-insert, lookup-keep}
use project_starfly_fabrics.Exchange.Nonce.{
  NonceTracker, cleanup_due, count_op, cleanup_locked, tidy, record_nonce, check, run, nonce_replay,
}

-- The nonce was recorded at the time `t`.
abbrev pub Remembers : String → ℕ → NonceTracker → Type 0
Remembers nonce t n = lookup nonce n.seen ≡ some t

keep_some :
    (p : ℕ → Bool) (o : Option ℕ) (t : ℕ) → o ≡ some t → p t ≡ true → keep_value p o ≡ some t
keep_some p o t e h = rw (e, keep_value) (rw h)

tidy-lookup :
    (now : ℕ) (n : NonceTracker) (k : String)
    → lookup k (tidy now n).seen ≡ (
        if cleanup_due (count_op n)
        then keep_value (λ ts. leb (now - ts) n.max_age) (lookup k n.seen)
        else lookup k n.seen)
unfolding tidy cleanup_locked count_op
tidy-lookup now n k = elim (Bool-cases (cleanup_due (count_op n))) [
  | inl due ↦ rw due (lookup-keep _ k n.seen)
  | inr not_due ↦ rw not_due
]

max_age-tidy : (now : ℕ) (n : NonceTracker) → (tidy now n).max_age ≡ n.max_age
unfolding tidy cleanup_locked count_op
max_age-tidy now n = ground arith

tidy-Remembers :
    (k : String) (t now : ℕ) (n : NonceTracker)
    → now ≤ t + n.max_age
    → Remembers k t n
    → Remembers k t (tidy now n)
tidy-Remembers k t now n h r =
    rw (tidy-lookup now n k) (elim (Bool-cases (cleanup_due (count_op n))) [
      | inl due ↦ rw due (keep_some _ (lookup k n.seen) t r (le→leb _ _ (omega arith)))
      | inr not_due ↦ rw not_due r
    ])

max_age-check : (now : ℕ) (k : String) (n : NonceTracker) → (check now k n).1.max_age ≡ n.max_age
unfolding check record_nonce
max_age-check now k n = ground (arith, max_age-tidy now n)

record-Remembers :
    (k j : String) (t now : ℕ) (n : NonceTracker) (o : Option ℕ)
    → lookup j n.seen ≡ o
    → Remembers k t n
    → Remembers k t (record_nonce o now j n).1
unfolding record_nonce
record-Remembers k j t now n (some ts) e r = r
record-Remembers k j t now n none e r =
    rw (lookup-insert j k now n.seen) (elim (Bool-cases (j == k)) [
      | inl same ↦ cc (subst (λ x. lookup x n.seen ≡ none) ((eq_iff j k).0 same) e, r)
      | inr other ↦ rw other r
    ])

check-Remembers :
    (k j : String) (t now : ℕ) (n : NonceTracker)
    → now ≤ t + n.max_age
    → Remembers k t n
    → Remembers k t (check now j n).1
unfolding check
check-Remembers k j t now n h r =
    record-Remembers k j t now (tidy now n) (lookup j (tidy now n).seen) refl
      (tidy-Remembers k t now n h r)

run-Remembers :
    (k : String) (t m : ℕ) (n : NonceTracker) (cs : List (ℕ × String))
    → n.max_age ≡ m
    → All (λ c. c.0 ≤ t + m) cs
    → Remembers k t n
    → Remembers k t (run cs n) × ((run cs n).max_age ≡ m)
unfolding run
run-Remembers k t m n [] e hs r = (r, e)
run-Remembers k t m n ((now, j) ∷ cs) e hs r =
    run-Remembers k t m (check now j n).1 cs (max_age-check now j n ∙ e) hs.1
      (check-Remembers k j t now n (rw e hs.0) r)

check-recorded :
    (k : String) (t : ℕ) (n : NonceTracker)
    → (check t k n).0 ≡ ok tt
    → Remembers k t (check t k n).1
unfolding check record_nonce
check-recorded k t n h = elim (Option-cases (lookup k (tidy t n).seen)) [
  | inl fresh ↦ rw (fresh, record_nonce) (simp (lookup-insert, eq_refl))
  | inr (ts, e) ↦ cc (rw (e, record_nonce) at h)
]

refused_of_Remembers :
    (k : String) (t now : ℕ) (n : NonceTracker)
    → now ≤ t + n.max_age
    → Remembers k t n
    → (check now k n).0 ≡ err nonce_replay
unfolding check record_nonce
refused_of_Remembers k t now n h r = rw (tidy-Remembers k t now n h r, record_nonce)

-- A nonce that was accepted is refused for as long as the tracker's age limit lasts, whatever
-- calls come in between.
pub replay_refused :
    (n : NonceTracker) (t later : ℕ) (k : String) (cs : List (ℕ × String))
    → (check t k n).0 ≡ ok tt
    → All (λ c. c.0 ≤ t + n.max_age) cs
    → later ≤ t + n.max_age
    → (check later k (run cs (check t k n).1)).0 ≡ err nonce_replay
replay_refused n t later k cs h hs l =
    let (r, e) =
      run-Remembers k t n.max_age (check t k n).1 cs (max_age-check t k n) hs
        (check-recorded k t n h) in
    refused_of_Remembers k t later (run cs (check t k n).1) (rw e l) r

-- A nonce is refused exactly when it was recorded, and either no cleanup is due or its age is
-- within the limit.
pub check_refuses_iff :
    (n : NonceTracker) (now : ℕ) (k : String)
    → ((check now k n).0 ≡ err nonce_replay) ↔ (
        (t : ℕ) × (lookup k n.seen ≡ some t)
        × ((cleanup_due (count_op n) ≡ false) ⊎ (now ≤ t + n.max_age)))
unfolding check record_nonce
check_refuses_iff n now k = ground (arith, tidy-lookup now n k)
