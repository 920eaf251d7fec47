-- ===== src/Lifecycle/Rotation/Undone.antt =====
-- Rotations that are not authorised.
use project_starfly_fabrics.Prelude.{
  ℕ, String, ◌==◌, eq_iff, ◌≡◌, refl, sym, ap, ◌∙◌, ◌≢◌, inl, inr, false, none, some, [], ◌∷◌,
  Bool-cases, Result, ok, err,
}
use project_starfly_fabrics.Dict.{Dict, lookup, insert, delete, lookup-insert, lookup-delete}
use project_starfly_fabrics.Exchange.Keyring.{Keyring}
use project_starfly_fabrics.Lifecycle.Temporal.{
  Prompt, execute_prompt, execute_fails, execute_keeps,
}
use project_starfly_fabrics.Lifecycle.Rotation.{
  RotationParams, LifecycleSignal, RotationError, Fabric, Surroundings, Schedule,
  with_default_params, remove, sent, emit_lifecycle_signal, execution_scope_for_swap, answer_of,
  mint_execution_scoped_token, attempt_activity, roll_back, or_abort, mint_and_swap,
  rotation_workflow, minting_token,
}
use project_starfly_fabrics.Lifecycle.Rotation.Completed.{
  Undisturbed, distinct, removed_first, publishes, initiates,
}

module _ {ℓ} {K : Type ℓ} where
  aborted {κ} :
      {A : Type κ} (e : RotationError) (clean_up : Fabric K → Fabric K)
      (go_on : A → Fabric K → Result RotationError (Unit {0}) × Fabric K)
      (r : Result (Unit {0}) A × Fabric K) (s : Fabric K)
      → r ≡ (err tt, s)
      → or_abort e clean_up go_on r ≡ (err e, clean_up s)
  unfolding or_abort
  aborted e clean_up go_on r s h = rw h refl

  refused :
      (env : Surroundings K) (new_kid reason : String) (n : ℕ) (s : Fabric K)
      → env.mint (execution_scope_for_swap env new_kid) n ≡ err reason
      → mint_execution_scoped_token env (execution_scope_for_swap env new_kid) n s ≡ (err tt, s)
  unfolding mint_execution_scoped_token
  refused env new_kid reason n s h = rw (h, answer_of) refl

  sent-keyring :
      (signal : LifecycleSignal) (s : Fabric K) (r : Result String (Unit {0}))
      → (sent signal s r).1.keyring ≡ s.keyring
  sent-keyring signal s (ok x) = refl
  sent-keyring signal s (err e) = refl

  emit-keyring :
      (env : Surroundings K) (signal : LifecycleSignal) (n : ℕ) (s : Fabric K)
      → (emit_lifecycle_signal env signal n s).1.keyring ≡ s.keyring
  unfolding emit_lifecycle_signal
  emit-keyring env signal n s = sent-keyring signal s (env.transmit signal)

  rolled_back_keyring :
      (env : Surroundings K) (t : Schedule) (kid : String) (claims : Dict String) (s : Fabric K)
      → Prompt t.rolled_back
      → (kid == s.keyring.active_kid) ≡ false
      → (roll_back env t (remove kid) claims s).keyring
        ≡ record s.keyring { keys = delete kid s.keyring.keys }
  unfolding roll_back attempt_activity
  rolled_back_keyring env t kid claims s p other =
      execute_keeps (λ (s s' : Fabric K). s'.keyring ≡ s.keyring) (λ s. refl)
        (λ s s' s'' p q. q ∙ p) _ (emit-keyring env _) t.announced 0 _
      ∙ ap (λ (r : Result (Unit {0}) (Unit {0}) × Fabric K). r.1.keyring)
          (execute_prompt (remove kid) t.rolled_back s _ p (removed_first kid s other))

  unauthorised :
      (env : Surroundings K) (t : Schedule) (kid : String) (reason : ℕ → String) (s : Fabric K)
      → ((n : ℕ) → env.mint (execution_scope_for_swap env kid) n ≡ err (reason n))
      → mint_and_swap env t kid s ≡ (
        err minting_token,
        roll_back env t
            (remove kid)
            (("reason", "exec-token-mint-failed") ∷ ("new_kid", kid) ∷ [])
            s,
      )
  unfolding mint_and_swap
  unauthorised env t kid reason s m = aborted _ _ _ _ s (
      execute_fails (mint_execution_scoped_token env (execution_scope_for_swap env kid)) t.minted 0
        s (λ n. refused env kid (reason n) n s (m n)))

  undone_lookup :
      (kid j : String) (key : K) (keys : Dict K)
      → lookup kid keys ≡ none
      → lookup j (delete kid (insert kid key keys)) ≡ lookup j keys
  undone_lookup kid j key keys unknown =
      lookup-delete kid j (insert kid key keys) ∙ elim (Bool-cases (kid == j)) [
        | inl same ↦ rw same (sym unknown ∙ ap (λ k. lookup k keys) ((eq_iff kid j).0 same))
        | inr other ↦ rw other (lookup-insert kid j key keys ∙ rw other refl)
      ]

  -- A rotation of which the exchange refuses every attempt at the token reports the failure and
  -- leaves the keyring as it was, the same active key and the same key under every kid, under these
  -- conditions: every activity, the removal of the rollback included, runs and returns at its first
  -- attempt, no sleep is interrupted, every signal is taken, the generation succeeds, and its kid is
  -- neither the active one nor known to the keyring.
  pub rotation_undone :
      (env : Surroundings K) (t : Schedule) (params : RotationParams) (s : Fabric K) (kid : String)
      (reason : ℕ → String) (key : K)
      → Undisturbed t
      → Prompt t.rolled_back
      → ((signal : LifecycleSignal) → env.transmit signal ≡ ok tt)
      → env.generate (with_default_params params).key_type 0 ≡ ok (kid, some key)
      → ((n : ℕ) → env.mint (execution_scope_for_swap env kid) n ≡ err (reason n))
      → kid ≢ s.keyring.active_kid
      → lookup kid s.keyring.keys ≡ none
      → ((rotation_workflow env t params s).0 ≡ err minting_token)
        × ((rotation_workflow env t params s).1.keyring.active_kid ≡ s.keyring.active_kid)
        × ((j : String)
            → lookup j (rotation_workflow env t params s).1.keyring.keys ≡ lookup j s.keyring.keys)
  rotation_undone env t params s kid reason key u p sends g m new unknown =
      let run =
        initiates env t params s u sends
        ∙ publishes env t _ kid key _ u g
        ∙ unauthorised env t kid reason _ m in
      let undone =
        ap (λ (r : Result RotationError (Unit {0}) × Fabric K). r.1.keyring) run
        ∙ rolled_back_keyring env t kid _ _ p
            (distinct kid s.keyring.active_kid (λ e. new (sym e))) in
      (
        ap (λ (r : Result RotationError (Unit {0}) × Fabric K). r.0) run,
        ap (λ (k : Keyring K). k.active_kid) undone,
        λ j.
            ap (λ (k : Keyring K). lookup j k.keys) undone
            ∙ undone_lookup kid j key s.keyring.keys unknown,
      )
