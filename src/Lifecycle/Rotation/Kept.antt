-- ===== src/Lifecycle/Rotation/Kept.antt =====
-- The signing key and the keys, as the activities of a rotation keep them.
use project_starfly_fabrics.Prelude.{
  ℕ, String, ◌==◌, ◌≡◌, refl, sym, ap, ◌∙◌, inl, inr, is_some, List, Bool-cases, Result, ok, err,
}
use project_starfly_fabrics.Dict.{lookup, delete, lookup-delete}
use project_starfly_fabrics.Exchange.Keyring.{Keyring, active_key_of, activate_key, remove_key}
use project_starfly_fabrics.Lifecycle.Temporal.{Attempt, Activity, execute, execute_keeps}
use project_starfly_fabrics.Lifecycle.Rotation.{
  ExecutionScopeInput, LifecycleSignal, Fabric, Surroundings, Schedule, on_keyring,
  swap_signing_key, verify_new_key, remove, sent, emit_lifecycle_signal,
  mint_execution_scoped_token, attempt_activity, finish,
}

module _ {ℓ} {K : Type ℓ} where
  -- The same keys.
  abbrev pub SameKeys : Fabric K → Fabric K → Type ℓ
  SameKeys s s' = s'.keyring.keys ≡ s.keyring.keys

  -- The same signing key: its kid, and what the keyring holds under it.
  abbrev pub SameSigner : Fabric K → Fabric K → Type ℓ
  SameSigner s s' =
      (s'.keyring.active_kid ≡ s.keyring.active_kid)
      × (active_key_of s'.keyring ≡ active_key_of s.keyring)

  SameSigner-trans : (s s' s'' : Fabric K) → SameSigner s s' → SameSigner s' s'' → SameSigner s s''
  SameSigner-trans s s' s'' p q = (q.0 ∙ p.0, q.1 ∙ p.1)

  removed_signer :
      (kid : String) (kr : Keyring K) (s : Fabric K)
      → s.keyring ≡ kr
      → SameSigner s (on_keyring {A = Unit {0}} tt s (remove_key kid kr)).1
  unfolding remove_key active_key_of
  removed_signer kid kr s e = elim (Bool-cases (kid == kr.active_kid)) [
    | inl active ↦ rw active (refl, refl)
    | inr other ↦
        let kept : lookup kr.active_kid (delete kid kr.keys) ≡ lookup kr.active_kid kr.keys =
          lookup-delete kid kr.active_kid kr.keys ∙ rw other refl in
        rw other (
          ap (λ (k : Keyring K). k.active_kid) (sym e),
          kept ∙ ap (λ (k : Keyring K). lookup k.active_kid k.keys) (sym e),
        )
  ]

  remove-SameSigner : (kid : String) (n : ℕ) (s : Fabric K) → SameSigner s (remove kid n s).1
  unfolding remove
  remove-SameSigner kid n s = removed_signer kid s.keyring s refl

  sent-SameSigner :
      (signal : LifecycleSignal) (s : Fabric K) (r : Result String (Unit {0}))
      → SameSigner s (sent signal s r).1
  sent-SameSigner signal s (ok x) = (refl, refl)
  sent-SameSigner signal s (err e) = (refl, refl)

  emit-SameSigner :
      (env : Surroundings K) (signal : LifecycleSignal) (n : ℕ) (s : Fabric K)
      → SameSigner s (emit_lifecycle_signal env signal n s).1
  unfolding emit_lifecycle_signal
  emit-SameSigner env signal n s = sent-SameSigner signal s (env.transmit signal)

  attempt-SameSigner :
      (attempts : List Attempt) (f : Activity (Fabric K) (Unit {0}))
      → ((n : ℕ) (s : Fabric K) → SameSigner s (f n s).1)
      → (s : Fabric K) → SameSigner s (attempt_activity attempts f s)
  unfolding attempt_activity
  attempt-SameSigner attempts f keeps s =
      execute_keeps SameSigner (λ s. (refl, refl)) SameSigner-trans f keeps attempts 0 s

  pub finish-SameSigner :
      (env : Surroundings K) (t : Schedule) (old_kid new_kid : String) (s : Fabric K)
      → SameSigner s (finish env t old_kid new_kid s)
  unfolding finish
  finish-SameSigner env t old_kid new_kid s =
      let left = attempt_activity t.removed (remove old_kid) s in
      SameSigner-trans s left (finish env t old_kid new_kid s)
        (attempt-SameSigner t.removed _ (remove-SameSigner old_kid) s)
        (attempt-SameSigner t.announced _ (emit-SameSigner env _) left)

  pub execute-SameKeys {κ} :
      {A : Type κ} (attempts : List Attempt) (f : Activity (Fabric K) A)
      → ((n : ℕ) (s : Fabric K) → SameKeys s (f n s).1)
      → (s s' : Fabric K) (r : Result (Unit {0}) A) → execute attempts 0 f s ≡ (r, s')
      → SameKeys s s'
  execute-SameKeys {A} attempts f keeps s s' r e =
      ap (λ (x : Result (Unit {0}) A × Fabric K). x.1.keyring.keys) (sym e)
      ∙ execute_keeps SameKeys (λ s. refl) (λ s s' s'' p q. q ∙ p) f keeps attempts 0 s

  pub swap-SameKeys :
      (new_kid : String) (n : ℕ) (s : Fabric K) → SameKeys s (swap_signing_key new_kid n s).1
  unfolding swap_signing_key activate_key
  swap-SameKeys new_kid n s = elim (Bool-cases (is_some (lookup new_kid s.keyring.keys))) [
    | inl known ↦ rw known refl
    | inr unknown ↦ rw unknown refl
  ]

  pub verify-SameKeys :
      (new_kid : String) (n : ℕ) (s : Fabric K) → SameKeys s (verify_new_key new_kid n s).1
  unfolding verify_new_key
  verify-SameKeys new_kid n s = elim (Bool-cases (s.keyring.active_kid == new_kid)) [
    | inl same ↦ rw same refl
    | inr other ↦ rw other refl
  ]

  pub mint-SameKeys :
      (env : Surroundings K) (scope : ExecutionScopeInput) (n : ℕ) (s : Fabric K)
      → SameKeys s (mint_execution_scoped_token env scope n s).1
  unfolding mint_execution_scoped_token
  mint-SameKeys env scope n s = refl
