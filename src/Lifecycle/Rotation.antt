-- ===== src/Lifecycle/Rotation.antt =====
-- The rotation of the signing key, pkg/lifecycle/rotation_workflow.go, over the keyring of
-- pkg/exchange/keyring.go. The scheduling of every activity, the ends of the two sleeps, the
-- generated keys, the exchange that mints the authorising token and the transmission of signals are
-- arguments. Signals are kept with the newest first.
pub mod Safe
pub mod Kept
pub mod Swapped
pub mod Completed
pub mod Undone
mod Tests
use Prim.Native.String.{◌++◌}
use project_starfly_fabrics.Prelude.{
  ℕ, ◌*◌, String, ◌==◌, Bool, true, false, not, Option, none, some, List, [], ◌∷◌, is_empty,
  nat_beq, if◌then◌else◌, Result, ok, err, bind,
}
use project_starfly_fabrics.Dict.{Dict}
use project_starfly_fabrics.Exchange.Nonce.{second}
use project_starfly_fabrics.Exchange.Keyring.{
  Keyring, KeyringError, add_key, activate_key, remove_key,
}
use project_starfly_fabrics.Lifecycle.Temporal.{Attempt, Activity, execute}

pub record RotationParams : Type 0 where
  pub key_type : String
  pub grace_period : ℕ
  pub propagation_timeout : ℕ

abbrev pub default_rotation_params : RotationParams
default_rotation_params = record {
  key_type = "RSA-2048";
  grace_period = 300 * second;
  propagation_timeout = 30 * second;
}

pub record ExecutionScopeInput : Type 0 where
  pub method : String
  pub uri : String
  pub payload_hash : String
  pub nonce : String

pub record LifecycleSignal : Type 0 where
  pub event_type : String
  pub subject_id : String
  pub claims : Dict String

pub data RotationError : Type 0 where
  initiated_signal generating_key propagation_wait minting_token : RotationError
  swapping_key verifying_key grace_wait : RotationError

-- What the workflow works on.
pub record Fabric {ℓ} (K : Type ℓ) : Type ℓ where
  pub keyring : Keyring K
  pub signals : List LifecycleSignal

-- Its surroundings: the key that an attempt generates for a key type, as the keyring's JOSE library
-- imports it; the hash of a text and the nonce for a kid; what the exchange
-- answers an attempt for a scope, whose nonce it may have seen before; and the transmitter.
pub record Surroundings {ℓ} (K : Type ℓ) : Type ℓ where
  pub generate : String → ℕ → Result String (String × Option K)
  pub sha256 : String → String
  pub nonce_for : String → String
  pub mint : ExecutionScopeInput → ℕ → Result String String
  pub transmit : LifecycleSignal → Result String (Unit {0})

-- The attempts of each activity, and whether the sleeps end without an error.
pub record Schedule : Type 0 where
  pub initiated : List Attempt
  pub generated : List Attempt
  pub propagated : Bool
  pub minted : List Attempt
  pub swapped : List Attempt
  pub verified : List Attempt
  pub graced : Bool
  pub removed : List Attempt
  pub rolled_back : List Attempt
  pub announced : List Attempt

unfoldable pub with_default_params : RotationParams → RotationParams
with_default_params p = record {
  key_type = if is_empty p.key_type then "RSA-2048" else p.key_type;
  grace_period = if nat_beq p.grace_period 0 then 300 * second else p.grace_period;
  propagation_timeout =
      if nat_beq p.propagation_timeout 0 then 30 * second else p.propagation_timeout;
}

abbrev pub answer_of : Result String String → Result (Unit {0}) String
answer_of (ok token) = ok token
answer_of (err e) = err tt

abbrev pub key_signal : String → Dict String → LifecycleSignal
key_signal event_type claims = record {
  event_type = event_type;
  subject_id = "urn:starfly:signing-key";
  claims = claims;
}

abbrev pub event_type_rotation_initiated : String
event_type_rotation_initiated =
    "https://schemas.openid.net/secevent/starfly/event-type/rotation-initiated"

abbrev pub event_type_rotation_complete : String
event_type_rotation_complete =
    "https://schemas.openid.net/secevent/starfly/event-type/rotation-complete"

abbrev pub event_type_rotation_rollback : String
event_type_rotation_rollback =
    "https://schemas.openid.net/secevent/starfly/event-type/rotation-rollback"

abbrev pub initiated_claims : String → Dict String
initiated_claims key_type = ("key_type", key_type) ∷ []

module _ {ℓ} {K : Type ℓ} where
  -- A change of the keyring that may be refused.
  abbrev pub on_keyring {κ} :
      {A : Type κ} → A → Fabric K → Result KeyringError (Keyring K) → Result (Unit {0}) A × Fabric K
  on_keyring a s (ok kr) = (ok a, record s { keyring = kr })
  on_keyring a s (err e) = (err tt, s)

  abbrev pub publish :
      Fabric K → Result String (String × Option K) → Result (Unit {0}) String × Fabric K
  publish s (err e) = (err tt, s)
  publish s (ok material) = on_keyring material.0 s (add_key material.0 material.1 s.keyring)

  unfoldable pub generate_and_publish_key : Surroundings K → String → Activity (Fabric K) String
  generate_and_publish_key env key_type n s = publish s (env.generate key_type n)

  unfoldable pub swap_signing_key : String → Activity (Fabric K) String
  swap_signing_key new_kid n s = on_keyring s.keyring.active_kid s (activate_key new_kid s.keyring)

  unfoldable pub verify_new_key : String → Activity (Fabric K) (Unit {0})
  verify_new_key new_kid n s = if s.keyring.active_kid == new_kid then (ok tt, s) else (err tt, s)

  unfoldable pub remove : String → Activity (Fabric K) (Unit {0})
  remove kid n s = on_keyring tt s (remove_key kid s.keyring)

  abbrev then_remove :
      String → Result (Unit {0}) (Unit {0}) × Fabric K → Result (Unit {0}) (Unit {0}) × Fabric K
  then_remove new_kid (ok _, s) = on_keyring tt s (remove_key new_kid s.keyring)
  then_remove new_kid (err e, s) = (err e, s)

  unfoldable pub rollback_to_key : String → String → Activity (Fabric K) (Unit {0})
  rollback_to_key old_kid new_kid n s =
      then_remove new_kid (on_keyring tt s (activate_key old_kid s.keyring))

  abbrev sent :
      LifecycleSignal
      → Fabric K
      → Result String (Unit {0})
      → Result (Unit {0}) (Unit {0}) × Fabric K
  sent signal s (ok _) = (ok tt, record s { signals = signal ∷ s.signals })
  sent signal s (err e) = (err tt, s)

  unfoldable pub emit_lifecycle_signal :
      Surroundings K → LifecycleSignal → Activity (Fabric K) (Unit {0})
  emit_lifecycle_signal env signal n s = sent signal s (env.transmit signal)

  unfoldable pub mint_execution_scoped_token :
      Surroundings K → ExecutionScopeInput → Activity (Fabric K) String
  mint_execution_scoped_token env scope n s = (answer_of (env.mint scope n), s)

  abbrev pub execution_scope_for_swap : Surroundings K → String → ExecutionScopeInput
  execution_scope_for_swap env new_kid = record {
    method = "POST";
    uri = "/internal/signing-key";
    payload_hash = env.sha256 new_kid;
    nonce = env.nonce_for new_kid;
  }

  -- An activity whose error is dropped.
  unfoldable pub attempt_activity :
      List Attempt → Activity (Fabric K) (Unit {0}) → Fabric K → Fabric K
  unfolding execute
  attempt_activity attempts f s = (execute attempts 0 f s).1

  -- The rollback signal after the given undoing.
  unfoldable pub roll_back :
      Surroundings K → Schedule → Activity (Fabric K) (Unit {0}) → Dict String → Fabric K → Fabric K
  unfolding attempt_activity emit_lifecycle_signal
  roll_back env t undo claims s =
      attempt_activity t.announced
        (emit_lifecycle_signal env (key_signal event_type_rotation_rollback claims))
        (attempt_activity t.rolled_back undo s)

  -- Continues with the result of an activity; after an error it cleans up and returns.
  unfoldable pub or_abort {κ} :
      {A : Type κ}
      → RotationError
      → (Fabric K → Fabric K)
      → (A → Fabric K → Result RotationError (Unit {0}) × Fabric K)
      → Result (Unit {0}) A × Fabric K
      → Result RotationError (Unit {0}) × Fabric K
  or_abort e clean_up go_on (ok a, s) = go_on a s
  or_abort e clean_up go_on (err x, s) = (err e, clean_up s)

  abbrev pub unchanged : Fabric K → Fabric K
  unchanged s = s

  -- Steps 8 and 9.
  unfoldable pub finish : Surroundings K → Schedule → String → String → Fabric K → Fabric K
  unfolding attempt_activity emit_lifecycle_signal remove
  finish env t old_kid new_kid s =
      attempt_activity t.announced
        (emit_lifecycle_signal env (
          key_signal event_type_rotation_complete
            (("old_kid", old_kid) ∷ ("new_kid", new_kid) ∷ [])))
        (attempt_activity t.removed (remove old_kid) s)

  -- Steps 6 to 9.
  unfoldable pub verify_and_finish :
      Surroundings K
      → Schedule
      → String
      → String
      → Fabric K
      → Result RotationError (Unit {0}) × Fabric K
  unfolding roll_back rollback_to_key verify_new_key finish execute or_abort
  verify_and_finish env t new_kid old_kid s =
      or_abort verifying_key
        (roll_back env t (rollback_to_key old_kid new_kid)
          (("reason", "verify-failed") ∷ ("old_kid", old_kid) ∷ ("new_kid", new_kid) ∷ []))
        (λ _ s'.
          if t.graced then (ok tt, finish env t old_kid new_kid s') else (err grace_wait, s'))
        (execute t.verified 0 (verify_new_key new_kid) s)

  -- Steps 5 to 9.
  unfoldable pub swap_and_finish :
      Surroundings K → Schedule → String → Fabric K → Result RotationError (Unit {0}) × Fabric K
  unfolding roll_back remove swap_signing_key verify_and_finish execute or_abort
  swap_and_finish env t new_kid s =
      or_abort swapping_key
        (roll_back env t (remove new_kid) (("reason", "swap-failed") ∷ ("new_kid", new_kid) ∷ []))
        (verify_and_finish env t new_kid) (execute t.swapped 0 (swap_signing_key new_kid) s)

  -- Steps 4 to 9.
  unfoldable pub mint_and_swap :
      Surroundings K → Schedule → String → Fabric K → Result RotationError (Unit {0}) × Fabric K
  unfolding roll_back remove mint_execution_scoped_token swap_and_finish execute or_abort
  mint_and_swap env t new_kid s =
      or_abort minting_token
        (roll_back env t (remove new_kid)
          (("reason", "exec-token-mint-failed") ∷ ("new_kid", new_kid) ∷ []))
        (λ token. swap_and_finish env t new_kid)
        (execute t.minted 0 (mint_execution_scoped_token env (execution_scope_for_swap env new_kid))
          s)

  -- Steps 2 to 9.
  unfoldable pub publish_and_rotate :
      Surroundings K → Schedule → String → Fabric K → Result RotationError (Unit {0}) × Fabric K
  unfolding generate_and_publish_key mint_and_swap execute or_abort
  publish_and_rotate env t key_type s =
      or_abort generating_key unchanged
        (λ new_kid s'.
          if t.propagated then mint_and_swap env t new_kid s' else (err propagation_wait, s'))
        (execute t.generated 0 (generate_and_publish_key env key_type) s)

  unfoldable pub rotation_workflow :
      Surroundings K
      → Schedule
      → RotationParams
      → Fabric K
      → Result RotationError (Unit {0}) × Fabric K
  unfolding with_default_params emit_lifecycle_signal publish_and_rotate execute or_abort
  rotation_workflow env t params s =
      let key_type = (with_default_params params).key_type in
      or_abort initiated_signal unchanged (λ _. publish_and_rotate env t key_type)
        (execute t.initiated 0
          (emit_lifecycle_signal env
            (key_signal event_type_rotation_initiated (initiated_claims key_type)))
          s)
