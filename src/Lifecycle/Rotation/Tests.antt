-- ===== src/Lifecycle/Rotation/Tests.antt =====
-- Runs of the rotation over texts as keys.
use Prim.Native.String.{◌++◌}
use project_starfly_fabrics.Dict.{insert}
use project_starfly_fabrics.Exchange.Keyring.{activate_key, add_key, remove_key}
use project_starfly_fabrics.Prelude.{is_empty}
use project_starfly_fabrics.Prelude.{
  ℕ, String, eq_iff, ◌≡◌, refl, ◌≢◌, true, false, some, List, [], ◌∷◌, ok, err,
}
use project_starfly_fabrics.Dict.{lookup}
use project_starfly_fabrics.Exchange.Keyring.{Keyring, active_key_of, new_keyring}
use project_starfly_fabrics.Exchange.Keyring.Laws.{Reachable, made}
use project_starfly_fabrics.Lifecycle.Temporal.{Attempt, lost, returned}
use project_starfly_fabrics.Lifecycle.Rotation.{
  Fabric, Surroundings, Schedule, default_rotation_params, rotation_workflow, minting_token,
}
use project_starfly_fabrics.Lifecycle.Rotation.Safe.{rotation_signs}
use project_starfly_fabrics.Lifecycle.Rotation.Swapped.{rotation_swaps}
use project_starfly_fabrics.Lifecycle.Rotation.Completed.{Undisturbed, rotated, rotation_completes}
use project_starfly_fabrics.Lifecycle.Rotation.Undone.{rotation_undone}

abbrev old_ring : Keyring String
old_ring = record { active_kid = "old"; keys = ("old", "key 1") ∷ [] }

abbrev fabric : Fabric String
fabric = record { keyring = old_ring; signals = [] }

abbrev around : Surroundings String
around = record {
  generate = λ key_type n. ok ("new", some "key 2");
  sha256 = λ s. "#" ++ s;
  nonce_for = λ kid. "rotate-" ++ kid;
  mint = λ scope n. ok "jwt";
  transmit = λ signal. ok tt;
}

abbrev refusing : Surroundings String
refusing = record around { mint = λ scope n. err "denied" }

abbrev once : List Attempt
once = returned ∷ []

abbrev prompt : Schedule
prompt = record {
  initiated = once;
  generated = once;
  propagated = true;
  minted = once;
  swapped = once;
  verified = once;
  graced = true;
  removed = once;
  rolled_back = once;
  announced = once;
}

abbrev retried_swap : Schedule
retried_swap = record prompt { swapped = lost ∷ returned ∷ [] }

abbrev lost_swap : Schedule
lost_swap = record prompt { swapped = lost ∷ [] }

prompt-Undisturbed : Undisturbed prompt
prompt-Undisturbed = record {
  initiated = ([], refl);
  generated = ([], refl);
  propagated = refl;
  minted = ([], refl);
  swapped = ([], refl);
  verified = ([], refl);
  graced = refl;
  removed = ([], refl);
  announced = ([], refl);
}

new_differs : ◌≢◌ {A = String} "new" "old"
new_differs e = cc ((eq_iff "new" "old").1 e)

old-Reachable : Reachable old_ring
unfolding new_keyring is_empty
old-Reachable = made (some "old") "key 1" refl

completed : (rotation_workflow around prompt default_rotation_params fabric).0 ≡ ok tt
unfolding rotation_workflow add_key activate_key lookup insert
completed = refl

-- A swap that is retried takes the new kid for the old one, and the old key stays.
old_key_stays :
    lookup "old"
      (rotation_workflow around retried_swap default_rotation_params fabric).1.keyring.keys
    ≡ some "key 1"
unfolding rotation_workflow lookup add_key activate_key insert remove_key
old_key_stays = refl

-- After a swap whose result is lost the rollback cannot remove the new key, which still signs.
new_key_signs :
    (rotation_workflow around lost_swap default_rotation_params fabric).1.keyring.active_kid ≡ "new"
unfolding rotation_workflow add_key remove_key activate_key lookup insert
new_key_signs = refl

-- An interrupted wait leaves the new key published.
new_key_published :
    lookup "new"
      (rotation_workflow around
        (record prompt { propagated = false })
        default_rotation_params
        fabric).1.keyring.keys
    ≡ some "key 2"
unfolding rotation_workflow lookup add_key insert
new_key_published = refl

rotation_signs_example :
    (k : String) × (active_key_of
        (rotation_workflow around lost_swap default_rotation_params fabric).1.keyring
      ≡ some k)
rotation_signs_example =
    rotation_signs around lost_swap default_rotation_params fabric old-Reachable

abbrev rotated_fabric : Fabric String
rotated_fabric = (rotation_workflow around prompt default_rotation_params fabric).1

rotation_swaps_example :
    (n : ℕ) × (around.generate "RSA-2048" n
      ≡ ok (rotated_fabric.keyring.active_kid, active_key_of rotated_fabric.keyring))
unfolding rotation_workflow add_key activate_key lookup insert
rotation_swaps_example =
    rotation_swaps around prompt default_rotation_params fabric rotated_fabric refl

rotation_completes_example :
    ((rotation_workflow around prompt default_rotation_params fabric).0 ≡ ok tt)
    × ((rotation_workflow around prompt default_rotation_params fabric).1.keyring
        ≡ rotated "new" "key 2" old_ring)
rotation_completes_example =
    rotation_completes around prompt default_rotation_params fabric "new" "jwt" "key 2"
      prompt-Undisturbed (λ signal. refl) refl refl new_differs

rotation_undone_example :
    ((rotation_workflow refusing prompt default_rotation_params fabric).0 ≡ err minting_token)
    × ((rotation_workflow refusing prompt default_rotation_params fabric).1.keyring.active_kid
        ≡ "old")
    × ((j : String)
        → lookup j (rotation_workflow refusing prompt default_rotation_params fabric).1.keyring.keys
          ≡ lookup j old_ring.keys)
unfolding lookup
rotation_undone_example =
    rotation_undone refusing prompt default_rotation_params fabric "new" (λ n. "denied") "key 2"
      prompt-Undisturbed ([], refl) (λ signal. refl) refl (λ n. refl) new_differs refl
