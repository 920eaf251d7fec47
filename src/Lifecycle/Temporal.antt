-- ===== src/Lifecycle/Temporal.antt =====
-- Activities as Temporal runs them for the workflows of pkg/lifecycle: at least once, up to the
-- attempts of the retry policy. What becomes of each attempt is an argument, and the scheduler that
-- decides it is not under this repository.
use project_starfly_fabrics.Prelude.{ℕ, suc, ◌≡◌, refl, ◌∙◌, List, [], ◌∷◌, Result, ok, err}

-- An attempt never starts, runs without its result being seen, or runs and returns.
pub data Attempt : Type 0 where
  not_started lost returned : Attempt

-- An activity is a change of the state; its number tells its attempts apart.
abbrev pub Activity {ℓ κ} : Type ℓ → Type κ → Type (ℓ ⊔ κ)
Activity S A = ℕ → S → Result (Unit {0}) A × S

abbrev pub or_retry {ℓ κ} :
    {S : Type ℓ} {A : Type κ}
    → (S → Result (Unit {0}) A × S)
    → Result (Unit {0}) A × S
    → Result (Unit {0}) A × S
or_retry retry (ok a, s) = (ok a, s)
or_retry retry (err e, s) = retry s

-- `workflow.ExecuteActivity(ctx, f).Get(ctx, &a)`
unfoldable pub execute {ℓ κ} :
    {S : Type ℓ} {A : Type κ} → List Attempt → ℕ → Activity S A → S → Result (Unit {0}) A × S
execute [] n f s = (err tt, s)
execute (not_started ∷ attempts) n f s = execute attempts (suc n) f s
execute (lost ∷ attempts) n f s = execute attempts (suc n) f (f n s).1
execute (returned ∷ attempts) n f s = or_retry (execute attempts (suc n) f) (f n s)

-- A relation that every run of an activity keeps.
module _ {ℓ κ μ} {S : Type ℓ} {A : Type κ} (R : S → S → Type μ) (R_refl : (s : S) → R s s)
    (R_trans : (s s' s'' : S) → R s s' → R s' s'' → R s s'') where
  retry_keeps :
      (s : S) (r : Result (Unit {0}) A × S) (retry : S → Result (Unit {0}) A × S)
      → R s r.1
      → ((s' : S) → R s' (retry s').1)
      → R s (or_retry retry r).1
  retry_keeps s (ok a, s') retry k h = k
  retry_keeps s (err e, s') retry k h = R_trans s s' _ k (h s')

  pub execute_keeps :
      (f : Activity S A)
      → ((n : ℕ) (s : S) → R s (f n s).1)
      → (attempts : List Attempt) (n : ℕ) (s : S) → R s (execute attempts n f s).1
  unfolding execute
  execute_keeps f keeps [] n s = R_refl s
  execute_keeps f keeps (not_started ∷ attempts) n s = execute_keeps f keeps attempts (suc n) s
  execute_keeps f keeps (lost ∷ attempts) n s =
      R_trans s (f n s).1 _ (keeps n s) (execute_keeps f keeps attempts (suc n) (f n s).1)
  execute_keeps f keeps (returned ∷ attempts) n s =
      retry_keeps s (f n s) (execute attempts (suc n) f) (keeps n s)
        (execute_keeps f keeps attempts (suc n))

module _ {ℓ κ} {S : Type ℓ} {A : Type κ} (f : Activity S A) (a : A) where
  -- The result of some attempt, and what it left.
  abbrev pub ResultOf : S → Type (ℓ ⊔ κ)
  ResultOf s' = (m : ℕ) × (before : S) × (f m before ≡ (ok a, s'))

  retry-ResultOf :
      (n : ℕ) (s s' : S) (r : Result (Unit {0}) A × S) (retry : S → Result (Unit {0}) A × S)
      → f n s ≡ r
      → or_retry retry r ≡ (ok a, s')
      → ((s1 : S) → retry s1 ≡ (ok a, s') → ResultOf s')
      → ResultOf s'
  retry-ResultOf n s s' (ok b, s1) retry e k h = (n, s, e ∙ k)
  retry-ResultOf n s s' (err x, s1) retry e k h = h s1 k

  -- A result that is seen is the result of an attempt.
  pub execute-ResultOf :
      (attempts : List Attempt) (n : ℕ) (s s' : S)
      → execute attempts n f s ≡ (ok a, s')
      → ResultOf s'
  unfolding execute
  execute-ResultOf [] n s s' h = cc
  execute-ResultOf (not_started ∷ attempts) n s s' h = execute-ResultOf attempts (suc n) s s' h
  execute-ResultOf (lost ∷ attempts) n s s' h = execute-ResultOf attempts (suc n) (f n s).1 s' h
  execute-ResultOf (returned ∷ attempts) n s s' h =
      retry-ResultOf n s s' (f n s) (execute attempts (suc n) f) refl h
        (λ s1. execute-ResultOf attempts (suc n) s1 s')

-- The first attempt runs and returns.
abbrev pub Prompt : List Attempt → Type 0
Prompt attempts = (rest : List Attempt) × (attempts ≡ returned ∷ rest)

pub execute_prompt {ℓ κ} :
    {S : Type ℓ} {A : Type κ} (f : Activity S A) (attempts : List Attempt) (s s' : S) {a : A}
    → Prompt attempts
    → f 0 s ≡ (ok a, s')
    → execute attempts 0 f s ≡ (ok a, s')
unfolding execute
execute_prompt f attempts s s' p e = rw (p.1, e, or_retry) refl

-- An activity that always fails without a change fails however it is scheduled.
pub execute_fails {ℓ κ} :
    {S : Type ℓ} {A : Type κ} (f : Activity S A) (attempts : List Attempt) (n : ℕ) (s : S)
    → ((m : ℕ) → f m s ≡ (err tt, s))
    → execute attempts n f s ≡ (err tt, s)
unfolding execute
execute_fails f [] n s h = refl
execute_fails f (not_started ∷ attempts) n s h = execute_fails f attempts (suc n) s h
execute_fails f (lost ∷ attempts) n s h = rw (h n) (execute_fails f attempts (suc n) s h)
execute_fails f (returned ∷ attempts) n s h =
    rw (h n, or_retry) (execute_fails f attempts (suc n) s h)
