-- ===== src/Exchange/Keyring.antt =====
-- The signing keyring, pkg/exchange/keyring.go, over any type of keys.
pub mod Laws
pub mod Published
use project_starfly_fabrics.Prelude.{
  String, ◌==◌, Bool, true, false, Option, none, some, List, [], ◌∷◌, is_empty, is_some,
  if◌then◌else◌, Result, ok, err, bind,
}
use project_starfly_fabrics.Dict.{Dict, lookup, insert, delete}

pub record Keyring {ℓ} (K : Type ℓ) : Type ℓ where
  pub active_kid : String
  pub keys : Dict K

pub data KeyringError : Type 0 where
  no_kid key_not_found active_key import_failed no_public_key not_added : KeyringError

module _ {ℓ} {K : Type ℓ} where
  unfoldable pub new_keyring : Option String → K → Result KeyringError (Keyring K)
  new_keyring none key = err no_kid
  new_keyring (some kid) key =
      if is_empty kid then err no_kid else ok (record { active_kid = kid; keys = (kid, key) ∷ [] })

  unfoldable pub active_key_of : Keyring K → Option K
  active_key_of kr = lookup kr.active_kid kr.keys

  -- The key as the JOSE library imported it, where it could; its labels are left out.
  unfoldable pub add_key : String → Option K → Keyring K → Result KeyringError (Keyring K)
  add_key kid none kr = err import_failed
  add_key kid (some key) kr = ok (record kr { keys = insert kid key kr.keys })

  unfoldable pub activate_key : String → Keyring K → Result KeyringError (Keyring K)
  activate_key kid kr =
      if is_some (lookup kid kr.keys)
      then ok (record kr { active_kid = kid })
      else err key_not_found

  unfoldable pub remove_key : String → Keyring K → Result KeyringError (Keyring K)
  remove_key kid kr =
      if kid == kr.active_kid then err active_key else ok (record kr { keys = delete kid kr.keys })

-- Public keys and the sets of them, as the JOSE library makes them.
pub record KeySets {ℓ} (K P S : Type ℓ) : Type ℓ where
  pub public_key : K → Option P
  pub new_set : S
  pub add_to_set : P → S → Option S

module _ {ℓ} {K P S : Type ℓ} (jwk : KeySets K P S) where
  abbrev pub or_not_added : Option S → Result KeyringError S
  or_not_added none = err not_added
  or_not_added (some set) = ok set

  abbrev pub add_public : Option P → S → Result KeyringError S
  add_public none set = err no_public_key
  add_public (some public) set = or_not_added (jwk.add_to_set public set)

  -- The loop over the keys, in the order of the map here and in any order in Go.
  unfoldable pub add_public_keys : Dict K → S → Result KeyringError S
  add_public_keys [] set = ok set
  add_public_keys (entry ∷ keys) set =
      bind (add_public (jwk.public_key entry.1) set) (add_public_keys keys)

  unfoldable pub public_key_set : Keyring K → Result KeyringError S
  unfolding add_public_keys
  public_key_set kr = add_public_keys kr.keys jwk.new_set
