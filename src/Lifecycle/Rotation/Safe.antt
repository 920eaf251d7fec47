-- ===== src/Lifecycle/Rotation/Safe.antt =====
-- What every rotation keeps of the keyring, however its activities are scheduled.
use project_starfly_fabrics.Prelude.{
  ℕ, String, ◌==◌, ◌≡◌, refl, inl, inr, Bool, true, false, Option, some, List, Bool-cases,
  if◌then◌else◌, Result, ok, err,
}
use project_starfly_fabrics.Dict.{Dict}
use project_starfly_fabrics.Exchange.Keyring.{Keyring, KeyringError, active_key_of}
use project_starfly_fabrics.Exchange.Keyring.Laws.{
  Step, Reachable, stepped, added, activated, removed, Reachable-signs,
}
use project_starfly_fabrics.Lifecycle.Temporal.{Attempt, Activity, execute, execute_keeps}
use project_starfly_fabrics.Lifecycle.Rotation.{
  RotationParams, LifecycleSignal, RotationError, Fabric, Surroundings, Schedule, on_keyring,
  publish, generate_and_publish_key, swap_signing_key, verify_new_key, remove, then_remove,
  rollback_to_key, sent, emit_lifecycle_signal, execution_scope_for_swap,
  mint_execution_scoped_token, attempt_activity, roll_back, or_abort, finish, verify_and_finish,
  swap_and_finish, mint_and_swap, publish_and_rotate, rotation_workflow, generating_key,
  initiated_signal, swapping_key, minting_token,
}

module _ {ℓ} {K : Type ℓ} where
  -- The keyring stays one that its own operations make.
  record Safe (s s' : Fabric K) : Type ℓ where
    pub keeps : Reachable s.keyring → Reachable s'.keyring

  Safe-refl : (s : Fabric K) → Safe s s
  Safe-refl s = record { keeps = λ r. r }

  Safe-trans : (s s' s'' : Fabric K) → Safe s s' → Safe s' s'' → Safe s s''
  Safe-trans s s' s'' f g = record { keeps = λ r. g.keeps (f.keeps r) }

  on_keyring-Safe {κ} :
      {A : Type κ} (a : A) (s : Fabric K) (r : Result KeyringError (Keyring K))
      → ((kr : Keyring K) → r ≡ ok kr → Step s.keyring kr)
      → Safe s (on_keyring a s r).1
  on_keyring-Safe a s (ok kr) step = record { keeps = λ h. stepped h (step kr refl) }
  on_keyring-Safe a s (err e) step = Safe-refl s

  publish-Safe : (s : Fabric K) (r : Result String (String × Option K)) → Safe s (publish s r).1
  publish-Safe s (err e) = Safe-refl s
  publish-Safe s (ok material) = on_keyring-Safe material.0 s _ (λ kr. added material.0 material.1)

  generate-Safe :
      (env : Surroundings K) (key_type : String) (n : ℕ) (s : Fabric K)
      → Safe s (generate_and_publish_key env key_type n s).1
  unfolding generate_and_publish_key
  generate-Safe env key_type n s = publish-Safe s (env.generate key_type n)

  swap-Safe : (new_kid : String) (n : ℕ) (s : Fabric K) → Safe s (swap_signing_key new_kid n s).1
  unfolding swap_signing_key
  swap-Safe new_kid n s = on_keyring-Safe s.keyring.active_kid s _ (λ kr. activated new_kid)

  verify-Safe : (new_kid : String) (n : ℕ) (s : Fabric K) → Safe s (verify_new_key new_kid n s).1
  unfolding verify_new_key
  verify-Safe new_kid n s = elim (Bool-cases (s.keyring.active_kid == new_kid)) [
    | inl same ↦ rw same (Safe-refl s)
    | inr other ↦ rw other (Safe-refl s)
  ]

  remove-Safe : (kid : String) (n : ℕ) (s : Fabric K) → Safe s (remove kid n s).1
  unfolding remove
  remove-Safe kid n s = on_keyring-Safe tt s _ (λ kr. removed kid)

  then_remove-Safe :
      (new_kid : String) (s : Fabric K) (r : Result (Unit {0}) (Unit {0}) × Fabric K)
      → Safe s r.1
      → Safe s (then_remove new_kid r).1
  then_remove-Safe new_kid s (ok x, s') k =
      Safe-trans s s' _ k (on_keyring-Safe tt s' _ (λ kr. removed new_kid))
  then_remove-Safe new_kid s (err e, s') k = k

  rollback-Safe :
      (old_kid new_kid : String) (n : ℕ) (s : Fabric K)
      → Safe s (rollback_to_key old_kid new_kid n s).1
  unfolding rollback_to_key
  rollback-Safe old_kid new_kid n s =
      then_remove-Safe new_kid s _ (on_keyring-Safe tt s _ (λ kr. activated old_kid))

  sent-Safe :
      (signal : LifecycleSignal) (s : Fabric K) (r : Result String (Unit {0}))
      → Safe s (sent signal s r).1
  sent-Safe signal s (ok x) = record { keeps = λ h. h }
  sent-Safe signal s (err e) = Safe-refl s

  emit-Safe :
      (env : Surroundings K) (signal : LifecycleSignal) (n : ℕ) (s : Fabric K)
      → Safe s (emit_lifecycle_signal env signal n s).1
  unfolding emit_lifecycle_signal
  emit-Safe env signal n s = sent-Safe signal s (env.transmit signal)

  execute-Safe {κ} :
      {A : Type κ} (f : Activity (Fabric K) A)
      → ((n : ℕ) (s : Fabric K) → Safe s (f n s).1)
      → (attempts : List Attempt) (s : Fabric K) → Safe s (execute attempts 0 f s).1
  execute-Safe f keeps attempts s = execute_keeps Safe Safe-refl Safe-trans f keeps attempts 0 s

  roll_back-Safe :
      (env : Surroundings K) (t : Schedule) (undo : Activity (Fabric K) (Unit {0}))
      (claims : Dict String)
      → ((n : ℕ) (s : Fabric K) → Safe s (undo n s).1)
      → (s : Fabric K) → Safe s (roll_back env t undo claims s)
  unfolding roll_back attempt_activity
  roll_back-Safe env t undo claims keeps s =
      Safe-trans s _ _ (execute-Safe undo keeps t.rolled_back s)
        (execute-Safe _ (emit-Safe env _) t.announced _)

  or_abort-Safe {κ} :
      {A : Type κ} (e : RotationError) (clean_up : Fabric K → Fabric K)
      (go_on : A → Fabric K → Result RotationError (Unit {0}) × Fabric K) (s : Fabric K)
      (r : Result (Unit {0}) A × Fabric K)
      → Safe s r.1
      → ((s' : Fabric K) → Safe s' (clean_up s'))
      → ((a : A) (s' : Fabric K) → Safe s' (go_on a s').1)
      → Safe s (or_abort e clean_up go_on r).1
  unfolding or_abort
  or_abort-Safe e clean_up go_on s (ok a, s') k c g = Safe-trans s s' _ k (g a s')
  or_abort-Safe e clean_up go_on s (err x, s') k c g = Safe-trans s s' _ k (c s')

  choose-Safe :
      (b : Bool) (s : Fabric K) (x y : Result RotationError (Unit {0}) × Fabric K)
      → Safe s x.1
      → Safe s y.1
      → Safe s (if b then x else y).1
  choose-Safe true s x y f g = f
  choose-Safe false s x y f g = g

  finish-Safe :
      (env : Surroundings K) (t : Schedule) (old_kid new_kid : String) (s : Fabric K)
      → Safe s (finish env t old_kid new_kid s)
  unfolding finish attempt_activity
  finish-Safe env t old_kid new_kid s =
      Safe-trans s _ _ (execute-Safe _ (remove-Safe old_kid) t.removed s)
        (execute-Safe _ (emit-Safe env _) t.announced _)

  verify_and_finish-Safe :
      (env : Surroundings K) (t : Schedule) (new_kid old_kid : String) (s : Fabric K)
      → Safe s (verify_and_finish env t new_kid old_kid s).1
  unfolding verify_and_finish
  verify_and_finish-Safe env t new_kid old_kid s =
      or_abort-Safe _ _ _ s _ (execute-Safe _ (verify-Safe new_kid) t.verified s)
        (roll_back-Safe env t _ _ (rollback-Safe old_kid new_kid))
        (λ a s'. choose-Safe t.graced s' _ _ (finish-Safe env t old_kid new_kid s') (Safe-refl s'))

  mint-Safe :
      (env : Surroundings K) (new_kid : String) (n : ℕ) (s : Fabric K)
      → Safe s (mint_execution_scoped_token env (execution_scope_for_swap env new_kid) n s).1
  unfolding mint_execution_scoped_token
  mint-Safe env new_kid n s = Safe-refl s

  swap_and_finish-Safe :
      (env : Surroundings K) (t : Schedule) (new_kid : String) (s : Fabric K)
      → Safe s (swap_and_finish env t new_kid s).1
  unfolding swap_and_finish
  swap_and_finish-Safe env t new_kid s =
      or_abort-Safe swapping_key _ _ s _
        (execute-Safe (swap_signing_key new_kid) (swap-Safe new_kid) t.swapped s)
        (roll_back-Safe env t (remove new_kid) _ (remove-Safe new_kid))
        (verify_and_finish-Safe env t new_kid)

  mint_and_swap-Safe :
      (env : Surroundings K) (t : Schedule) (new_kid : String) (s : Fabric K)
      → Safe s (mint_and_swap env t new_kid s).1
  unfolding mint_and_swap
  mint_and_swap-Safe env t new_kid s =
      or_abort-Safe minting_token _ (λ token. swap_and_finish env t new_kid) s
        (execute t.minted 0 (mint_execution_scoped_token env (execution_scope_for_swap env new_kid))
          s)
        (execute-Safe (mint_execution_scoped_token env (execution_scope_for_swap env new_kid))
          (mint-Safe env new_kid) t.minted s)
        (roll_back-Safe env t (remove new_kid) _ (remove-Safe new_kid))
        (λ token. swap_and_finish-Safe env t new_kid)

  publish_and_rotate-Safe :
      (env : Surroundings K) (t : Schedule) (key_type : String) (s : Fabric K)
      → Safe s (publish_and_rotate env t key_type s).1
  unfolding publish_and_rotate
  publish_and_rotate-Safe env t key_type s =
      or_abort-Safe generating_key _ _ s _
        (execute-Safe (generate_and_publish_key env key_type) (generate-Safe env key_type)
          t.generated s)
        Safe-refl
        (λ new_kid s'.
          choose-Safe t.propagated s' _ _ (mint_and_swap-Safe env t new_kid s') (Safe-refl s'))

  rotation_workflow-Safe :
      (env : Surroundings K) (t : Schedule) (params : RotationParams) (s : Fabric K)
      → Safe s (rotation_workflow env t params s).1
  unfolding rotation_workflow
  rotation_workflow-Safe env t params s =
      or_abort-Safe initiated_signal _ _ s _ (execute-Safe _ (emit-Safe env _) t.initiated s)
        Safe-refl (λ _. publish_and_rotate-Safe env t _)

  -- However a rotation goes, whichever of its activities are retried after their results were lost,
  -- fail or never run, and whatever it returns, the keyring has a key to sign with.
  pub rotation_signs :
      (env : Surroundings K) (t : Schedule) (params : RotationParams) (s : Fabric K)
      → Reachable s.keyring
      → (k : K) × (active_key_of (rotation_workflow env t params s).1.keyring ≡ some k)
  rotation_signs env t params s r =
      Reachable-signs ((rotation_workflow-Safe env t params s).keeps r)
