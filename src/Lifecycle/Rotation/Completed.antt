-- ===== src/Lifecycle/Rotation/Completed.antt =====
-- Rotations whose activities run at the first attempt.
use project_starfly_fabrics.Prelude.{
  String, ◌==◌, eq_iff, ◌≡◌, refl, sym, ap, ◌∙◌, ◌≢◌, inl, inr, true, false, some, [], ◌∷◌, is_some,
  Bool-cases, if◌then◌else◌, Result, ok,
}
use project_starfly_fabrics.Dict.{Dict, lookup, insert, delete, lookup-insert}
use project_starfly_fabrics.Exchange.Keyring.{Keyring, add_key, activate_key, remove_key}
use project_starfly_fabrics.Lifecycle.Temporal.{Prompt, execute, execute_prompt}
use project_starfly_fabrics.Lifecycle.Rotation.{
  RotationParams, LifecycleSignal, RotationError, Fabric, Surroundings, Schedule,
  with_default_params, on_keyring, publish, generate_and_publish_key, swap_signing_key,
  verify_new_key, remove, sent, emit_lifecycle_signal, execution_scope_for_swap, key_signal,
  initiated_claims, event_type_rotation_initiated, event_type_rotation_complete, answer_of,
  mint_execution_scoped_token, attempt_activity, or_abort, finish, verify_and_finish,
  swap_and_finish, mint_and_swap, publish_and_rotate, rotation_workflow,
}

-- Every activity runs and returns at its first attempt, and no sleep is interrupted.
pub record Undisturbed (t : Schedule) : Type 0 where
  pub initiated : Prompt t.initiated
  pub generated : Prompt t.generated
  pub propagated : t.propagated ≡ true
  pub minted : Prompt t.minted
  pub swapped : Prompt t.swapped
  pub verified : Prompt t.verified
  pub graced : t.graced ≡ true
  pub removed : Prompt t.removed
  pub announced : Prompt t.announced

abbrev pub complete_signal : String → String → LifecycleSignal
complete_signal old_kid new_kid =
    key_signal event_type_rotation_complete (("old_kid", old_kid) ∷ ("new_kid", new_kid) ∷ [])

pub distinct : (a b : String) → b ≢ a → (a == b) ≡ false
distinct a b h = elim (Bool-cases (a == b)) [
  | inl same ↦ absurd (h (sym ((eq_iff a b).0 same)))
  | inr other ↦ other
]

module _ {ℓ} {K : Type ℓ} where
  -- The keyring with a new key that signs and without the old one.
  abbrev pub rotated : String → K → Keyring K → Keyring K
  rotated kid key kr = record {
    active_kid = kid;
    keys = delete kr.active_kid (insert kid key kr.keys);
  }

  abbrev pub with_keyring : Fabric K → Keyring K → Fabric K
  with_keyring s kr = record s { keyring = kr }

  or_abort_of {κ} :
      {A : Type κ} (e : RotationError) (clean_up : Fabric K → Fabric K)
      (go_on : A → Fabric K → Result RotationError (Unit {0}) × Fabric K)
      (r : Result (Unit {0}) A × Fabric K) (a : A) (s : Fabric K)
      → r ≡ (ok a, s)
      → or_abort e clean_up go_on r ≡ go_on a s
  unfolding or_abort
  or_abort_of e clean_up go_on r a s h = rw h refl

  pub emitted :
      (env : Surroundings K) (signal : LifecycleSignal) (s : Fabric K)
      → env.transmit signal ≡ ok tt
      → emit_lifecycle_signal env signal 0 s ≡ (ok tt, record s { signals = signal ∷ s.signals })
  unfolding emit_lifecycle_signal
  emitted env signal s h = rw (h, sent) refl

  generated_first :
      (env : Surroundings K) (key_type kid : String) (key : K) (s : Fabric K)
      → env.generate key_type 0 ≡ ok (kid, some key)
      → generate_and_publish_key env key_type 0 s
        ≡ (ok kid, with_keyring s (record s.keyring { keys = insert kid key s.keyring.keys }))
  unfolding generate_and_publish_key add_key
  generated_first env key_type kid key s h = rw (h, publish, add_key, on_keyring) refl

  minted_first :
      (env : Surroundings K) (new_kid token : String) (s : Fabric K)
      → env.mint (execution_scope_for_swap env new_kid) 0 ≡ ok token
      → mint_execution_scoped_token env (execution_scope_for_swap env new_kid) 0 s ≡ (ok token, s)
  unfolding mint_execution_scoped_token
  minted_first env new_kid token s h = rw (h, answer_of) refl

  swapped_first :
      (new_kid : String) (s : Fabric K)
      → is_some (lookup new_kid s.keyring.keys) ≡ true
      → swap_signing_key new_kid 0 s
        ≡ (ok s.keyring.active_kid, with_keyring s (record s.keyring { active_kid = new_kid }))
  unfolding swap_signing_key activate_key
  swapped_first new_kid s h = rw (h, if◌then◌else◌, on_keyring) refl

  verified_first :
      (new_kid : String) (s : Fabric K)
      → (s.keyring.active_kid == new_kid) ≡ true
      → verify_new_key new_kid 0 s ≡ (ok tt, s)
  unfolding verify_new_key
  verified_first new_kid s h = rw (h, if◌then◌else◌) refl

  pub removed_first :
      (kid : String) (s : Fabric K)
      → (kid == s.keyring.active_kid) ≡ false
      → remove kid 0 s
        ≡ (ok tt, with_keyring s (record s.keyring { keys = delete kid s.keyring.keys }))
  unfolding remove remove_key
  removed_first kid s h = rw (h, if◌then◌else◌, on_keyring) refl

  finished :
      (env : Surroundings K) (t : Schedule) (old_kid new_kid : String) (s : Fabric K)
      → Undisturbed t
      → env.transmit (complete_signal old_kid new_kid) ≡ ok tt
      → (old_kid == s.keyring.active_kid) ≡ false
      → (finish env t old_kid new_kid s).keyring
        ≡ record s.keyring { keys = delete old_kid s.keyring.keys }
  unfolding finish attempt_activity
  finished env t old_kid new_kid s u h other =
      let announce = emit_lifecycle_signal env (complete_signal old_kid new_kid) in
      let first =
        execute_prompt (remove old_kid) t.removed s _ u.removed (removed_first old_kid s other) in
      ap
        (λ (r : Result (Unit {0}) (Unit {0}) × Fabric K).
          (execute t.announced 0 announce r.1).1.keyring)
        first
      ∙ ap (λ (r : Result (Unit {0}) (Unit {0}) × Fabric K). r.1.keyring)
          (execute_prompt announce t.announced _ _ u.announced (emitted env _ _ h))

  lookup_inserted :
      (kid : String) (key : K) (keys : Dict K) → is_some (lookup kid (insert kid key keys)) ≡ true
  lookup_inserted kid key keys = rw (lookup-insert kid kid key keys, (eq_iff kid kid).1 refl) refl

  verifies :
      (env : Surroundings K) (t : Schedule) (new_kid old_kid : String) (s : Fabric K)
      → Undisturbed t
      → (s.keyring.active_kid == new_kid) ≡ true
      → verify_and_finish env t new_kid old_kid s ≡ (ok tt, finish env t old_kid new_kid s)
  unfolding verify_and_finish
  verifies env t new_kid old_kid s u active =
      or_abort_of _ _ _ (execute t.verified 0 (verify_new_key new_kid) s) tt s (
        execute_prompt (verify_new_key new_kid) t.verified s s u.verified
          (verified_first new_kid s active))
      ∙ rw u.graced refl

  swaps :
      (env : Surroundings K) (t : Schedule) (new_kid : String) (s : Fabric K)
      → Undisturbed t
      → is_some (lookup new_kid s.keyring.keys) ≡ true
      → let swapped = with_keyring s (record s.keyring { active_kid = new_kid }) in
        swap_and_finish env t new_kid s ≡ (ok tt, finish env t s.keyring.active_kid new_kid swapped)
  unfolding swap_and_finish
  swaps env t new_kid s u known =
      or_abort_of _ _ (verify_and_finish env t new_kid)
        (execute t.swapped 0 (swap_signing_key new_kid) s) s.keyring.active_kid _
        (execute_prompt (swap_signing_key new_kid) t.swapped s _ u.swapped
          (swapped_first new_kid s known))
      ∙ verifies env t new_kid s.keyring.active_kid _ u ((eq_iff new_kid new_kid).1 refl)

  mints :
      (env : Surroundings K) (t : Schedule) (new_kid token : String) (s : Fabric K)
      → Undisturbed t
      → env.mint (execution_scope_for_swap env new_kid) 0 ≡ ok token
      → mint_and_swap env t new_kid s ≡ swap_and_finish env t new_kid s
  unfolding mint_and_swap
  mints env t new_kid token s u m =
      let activity = mint_execution_scoped_token env (execution_scope_for_swap env new_kid) in
      or_abort_of _ _ (λ token. swap_and_finish env t new_kid) (execute t.minted 0 activity s) token
        s (execute_prompt activity t.minted s s u.minted (minted_first env new_kid token s m))

  pub publishes :
      (env : Surroundings K) (t : Schedule) (key_type kid : String) (key : K) (s : Fabric K)
      → Undisturbed t
      → env.generate key_type 0 ≡ ok (kid, some key)
      → publish_and_rotate env t key_type s
        ≡ mint_and_swap env t kid
            (with_keyring s (record s.keyring { keys = insert kid key s.keyring.keys }))
  unfolding publish_and_rotate
  publishes env t key_type kid key s u g =
      or_abort_of _ _ _ (execute t.generated 0 (generate_and_publish_key env key_type) s) kid _ (
        execute_prompt (generate_and_publish_key env key_type) t.generated s _ u.generated
          (generated_first env key_type kid key s g))
      ∙ rw u.propagated refl

  pub initiates :
      (env : Surroundings K) (t : Schedule) (params : RotationParams) (s : Fabric K)
      → Undisturbed t
      → ((signal : LifecycleSignal) → env.transmit signal ≡ ok tt)
      → let key_type = (with_default_params params).key_type in
        let signal = key_signal event_type_rotation_initiated (initiated_claims key_type) in
        rotation_workflow env t params s
        ≡ publish_and_rotate env t key_type (record s { signals = signal ∷ s.signals })
  unfolding rotation_workflow
  initiates env t params s u sends =
      let key_type = (with_default_params params).key_type in
      let signal = key_signal event_type_rotation_initiated (initiated_claims key_type) in
      or_abort_of _ _ (λ _. publish_and_rotate env t key_type)
        (execute t.initiated 0 (emit_lifecycle_signal env signal) s) tt _
        (execute_prompt (emit_lifecycle_signal env signal) t.initiated s _ u.initiated
          (emitted env signal s (sends signal)))

  -- A rotation completes when its activities run at their first attempt, its sleeps are not
  -- interrupted, its signals are taken, its key is generated under a kid other than the active one
  -- and its token is minted: it reports success, the generated key signs, the old key is gone, and every
  -- other key is still there.
  pub rotation_completes :
      (env : Surroundings K) (t : Schedule) (params : RotationParams) (s : Fabric K)
      (kid token : String) (key : K)
      → Undisturbed t
      → ((signal : LifecycleSignal) → env.transmit signal ≡ ok tt)
      → env.generate (with_default_params params).key_type 0 ≡ ok (kid, some key)
      → env.mint (execution_scope_for_swap env kid) 0 ≡ ok token
      → kid ≢ s.keyring.active_kid
      → ((rotation_workflow env t params s).0 ≡ ok tt)
        × ((rotation_workflow env t params s).1.keyring ≡ rotated kid key s.keyring)
  rotation_completes env t params s kid token key u sends g m new =
      let run =
        initiates env t params s u sends
        ∙ publishes env t _ kid key _ u g
        ∙ mints env t kid token _ u m
        ∙ swaps env t kid _ u (lookup_inserted kid key s.keyring.keys) in
      (
        ap (λ (r : Result RotationError (Unit {0}) × Fabric K). r.0) run,
        ap (λ (r : Result RotationError (Unit {0}) × Fabric K). r.1.keyring) run
            ∙ finished env t s.keyring.active_kid kid _ u (sends _)
                (distinct s.keyring.active_kid kid new),
      )
