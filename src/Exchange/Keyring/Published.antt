-- ===== src/Exchange/Keyring/Published.antt =====
-- The key set that is served at the JWKS endpoint.
use project_starfly_fabrics.Prelude.{
  String, ◌==◌, ◌≡◌, refl, sym, ◌∙◌, subst, Option, none, some, [], ◌∷◌, inl, inr, Bool-cases, ok,
  bind-elim, if◌then◌else◌,
}
use project_starfly_fabrics.Dict.{Dict, lookup}
use project_starfly_fabrics.Exchange.Keyring.{
  Keyring, KeySets, or_not_added, add_public, add_public_keys, public_key_set,
}
use project_starfly_fabrics.Exchange.Keyring.Laws.{Spares, spared-lookup}

module _ {ℓ} {K P S : Type ℓ} (jwk : KeySets K P S) (Contains : P → S → Type ℓ)
    (adds : (p : P) (set set' : S) → jwk.add_to_set p set ≡ some set' → Contains p set')
    (keeps : (p q : P) (set set' : S)
      → jwk.add_to_set p set ≡ some set'
      → Contains q set
      → Contains q set') where
  or_not_added-ok : (o : Option S) (set : S) → or_not_added jwk o ≡ ok set → o ≡ some set
  or_not_added-ok none set h = cc
  or_not_added-ok (some set') set h = cc

  add_public-ok :
      (o : Option P) (set set' : S)
      → add_public jwk o set ≡ ok set'
      → (p : P) × (o ≡ some p) × (jwk.add_to_set p set ≡ some set')
  add_public-ok none set set' h = cc
  add_public-ok (some p) set set' h = (p, refl, or_not_added-ok (jwk.add_to_set p set) set' h)

  kept_in_set :
      (q : P) (keys : Dict K) (set set' : S)
      → add_public_keys jwk keys set ≡ ok set'
      → Contains q set
      → Contains q set'
  unfolding add_public_keys
  kept_in_set q [] set set' h m = subst (Contains q) (cc h) m
  kept_in_set q (entry ∷ keys) set set' h m =
      bind-elim (add_public jwk (jwk.public_key entry.1) set) _ h λ set1 a rest.
        let (p, _, e) = add_public-ok (jwk.public_key entry.1) set set1 a in
        kept_in_set q keys set1 set' rest (keeps p q set set1 e m)

  held_in_set :
      (j : String) (key : K) (q : P) (keys : Dict K) (set set' : S)
      → lookup j keys ≡ some key
      → jwk.public_key key ≡ some q
      → add_public_keys jwk keys set ≡ ok set'
      → Contains q set'
  unfolding add_public_keys lookup
  held_in_set j key q [] set set' held is_public h = cc
  held_in_set j key q (entry ∷ keys) set set' held is_public h =
      bind-elim (add_public jwk (jwk.public_key entry.1) set) _ h λ set1 a rest.
        elim (Bool-cases (entry.0 == j)) [
          | inl here ↦
              let (p, public, e) = add_public-ok (jwk.public_key entry.1) set set1 a in
              let same_key : some entry.1 ≡ some key = rw (here, if◌then◌else◌) at held in
              let same : p ≡ q = cc (sym public, same_key, is_public) in
              kept_in_set q keys set1 set' rest
                (subst (λ p. Contains p set1) same (adds p set set1 e))
          | inr there ↦
              held_in_set j key q keys set1 set' (rw (there, if◌then◌else◌) at held) is_public rest
        ]

  -- A key stays published for verification through every rotation that neither removes nor replaces
  -- it, also once another key signs: its public key is in every key set that the keyring gives out
  -- afterwards, where a key set has what is added to it and keeps what it has.
  pub spared_key_published :
      (j : String) {kr kr' : Keyring K} (key : K) (q : P) (set : S)
      → lookup j kr.keys ≡ some key
      → jwk.public_key key ≡ some q
      → Spares j kr kr'
      → public_key_set jwk kr' ≡ ok set
      → Contains q set
  unfolding public_key_set
  spared_key_published j {kr} {kr'} key q set held is_public s h =
      held_in_set j key q kr'.keys jwk.new_set set (spared-lookup j s ∙ held) is_public h
