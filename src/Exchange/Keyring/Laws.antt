-- ===== src/Exchange/Keyring/Laws.antt =====
-- Rotations of the signing keyring as sequences of its operations.
use project_starfly_fabrics.Prelude.{
  String, ◌==◌, eq_refl, ◌≡◌, refl, true, false, Option, none, some, arith, is_some, ok,
}
use project_starfly_fabrics.Dict.{lookup, lookup-insert, lookup-delete}
use project_starfly_fabrics.Exchange.Keyring.{
  Keyring, new_keyring, active_key_of, add_key, activate_key, remove_key,
}

module _ {ℓ} {K : Type ℓ} where
  -- One successful operation of the keyring.
  pub data Step (kr : Keyring K) : Keyring K → Type ℓ where
    added :
        (kid : String) (key : Option K) {kr' : Keyring K}
        → add_key kid key kr ≡ ok kr'
        → Step kr kr'
    activated : (kid : String) {kr' : Keyring K} → activate_key kid kr ≡ ok kr' → Step kr kr'
    removed : (kid : String) {kr' : Keyring K} → remove_key kid kr ≡ ok kr' → Step kr kr'

  pub data Reachable : Keyring K → Type ℓ where
    made :
        (kid : Option String) (key : K) {kr : Keyring K}
        → new_keyring kid key ≡ ok kr
        → Reachable kr
    stepped : {kr kr' : Keyring K} → Reachable kr → Step kr kr' → Reachable kr'

  abbrev HasActive : Keyring K → Type 0
  HasActive kr = is_some (active_key_of kr) ≡ true

  some_of_is_some : (o : Option K) → is_some o ≡ true → (k : K) × (o ≡ some k)
  some_of_is_some none h = cc
  some_of_is_some (some k) h = (k, refl)

  new-HasActive :
      (kid : Option String) (key : K) (kr : Keyring K) → new_keyring kid key ≡ ok kr → HasActive kr
  unfolding new_keyring active_key_of lookup
  new-HasActive none key kr h = cc
  new-HasActive (some kid) key kr h = ground (arith, eq_refl kid)

  add-HasActive :
      (kid : String) (key : Option K) (kr kr' : Keyring K)
      → add_key kid key kr ≡ ok kr'
      → HasActive kr
      → HasActive kr'
  unfolding active_key_of add_key
  add-HasActive kid none kr kr' e h = cc
  add-HasActive kid (some key) kr kr' e h =
      ground (arith, lookup-insert kid kr.active_kid key kr.keys)

  activate-HasActive :
      (kid : String) (kr kr' : Keyring K) → activate_key kid kr ≡ ok kr' → HasActive kr'
  unfolding active_key_of activate_key
  activate-HasActive kid kr kr' h = ground arith

  remove-HasActive :
      (kid : String) (kr kr' : Keyring K)
      → remove_key kid kr ≡ ok kr'
      → HasActive kr
      → HasActive kr'
  unfolding active_key_of remove_key
  remove-HasActive kid kr kr' h a = ground (arith, lookup-delete kid kr.active_kid kr.keys)

  Reachable-HasActive : {kr : Keyring K} → Reachable kr → HasActive kr
  Reachable-HasActive (made kid key e) = new-HasActive kid key _ e
  Reachable-HasActive (stepped r (added kid key e)) =
      add-HasActive kid key _ _ e (Reachable-HasActive r)
  Reachable-HasActive (stepped r (activated kid e)) = activate-HasActive kid _ _ e
  Reachable-HasActive (stepped r (removed kid e)) =
      remove-HasActive kid _ _ e (Reachable-HasActive r)

  -- However a keyring was rotated, it has a key to sign with.
  pub Reachable-signs : {kr : Keyring K} → Reachable kr → (k : K) × (active_key_of kr ≡ some k)
  Reachable-signs r = some_of_is_some _ (Reachable-HasActive r)

  -- Rotations that add other keys, activate keys and remove other keys.
  pub data Spares (j : String) : Keyring K → Keyring K → Type ℓ where
    unchanged : {kr : Keyring K} → Spares j kr kr
    adding :
        {kr kr' kr'' : Keyring K}
        → Spares j kr kr'
        → (kid : String) (key : Option K) → (kid == j) ≡ false
        → add_key kid key kr' ≡ ok kr''
        → Spares j kr kr''
    activating :
        {kr kr' kr'' : Keyring K}
        → Spares j kr kr'
        → (kid : String) → activate_key kid kr' ≡ ok kr''
        → Spares j kr kr''
    removing :
        {kr kr' kr'' : Keyring K}
        → Spares j kr kr'
        → (kid : String) → (kid == j) ≡ false
        → remove_key kid kr' ≡ ok kr''
        → Spares j kr kr''

  pub spared-lookup :
      (j : String) {kr kr' : Keyring K} → Spares j kr kr' → lookup j kr'.keys ≡ lookup j kr.keys
  unfolding add_key activate_key remove_key
  spared-lookup j unchanged = refl
  spared-lookup j (adding {kr} {kr'} s kid none n e) = cc
  spared-lookup j (adding {kr} {kr'} s kid (some key) n e) =
      ground (arith, lookup-insert kid j key kr'.keys, spared-lookup j s)
  spared-lookup j (activating {kr} {kr'} s kid e) = ground (arith, spared-lookup j s)
  spared-lookup j (removing {kr} {kr'} s kid n e) =
      ground (arith, lookup-delete kid j kr'.keys, spared-lookup j s)
