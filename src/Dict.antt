-- ===== src/Dict.antt =====
-- Go's map[string]V as an association list.
pub mod Entries
use project_starfly_fabrics.Prelude.{
  String, ◌==◌, eq_iff, ◌≡◌, refl, Bool, Option, none, some, List, [], ◌∷◌, arith, if◌then◌else◌,
}

abbrev pub Dict {ℓ} : Type ℓ → Type ℓ
Dict V = List (String × V)

module _ {ℓ} {V : Type ℓ} where
  -- `v, ok := m[k]`
  unfoldable pub lookup : String → Dict V → Option V
  lookup key [] = none
  lookup key (entry ∷ rest) = if entry.0 == key then some entry.1 else lookup key rest

  -- `delete(m, k)`
  unfoldable pub delete : String → Dict V → Dict V
  delete key [] = []
  delete key (entry ∷ entries) =
      let rest = delete key entries in if entry.0 == key then rest else entry ∷ rest

  -- `m[k] = v`, which replaces the entry where it stands.
  unfoldable pub insert : String → V → Dict V → Dict V
  insert key value [] = (key, value) ∷ []
  insert key value (entry ∷ rest) =
      if entry.0 == key then (key, value) ∷ rest else entry ∷ insert key value rest

  -- A loop over the map that deletes the entries whose value fails the test.
  unfoldable pub keep : (V → Bool) → Dict V → Dict V
  unfolding delete
  keep p [] = []
  keep p ((j, w) ∷ m) = let rest = keep p m in if p w then (j, w) ∷ rest else delete j rest

  abbrev pub keep_value : (V → Bool) → Option V → Option V
  keep_value p none = none
  keep_value p (some v) = if p v then some v else none

  pub lookup-delete :
      (k j : String) (m : Dict V) → lookup j (delete k m) ≡ (if k == j then none else lookup j m)
  unfolding lookup delete
  lookup-delete k j [] = ground arith
  lookup-delete k j ((i, w) ∷ m) =
      ground (arith, eq_iff k j, eq_iff i k, eq_iff i j, lookup-delete k j m)

  pub lookup-insert :
      (key j : String) (value : V) (d : Dict V)
      → lookup j (insert key value d) ≡ (if key == j then some value else lookup j d)
  unfolding insert lookup
  lookup-insert key j value [] = refl
  lookup-insert key j value (entry ∷ rest) =
      ground
        (arith, lookup-insert key j value rest, eq_iff entry.0 j, eq_iff entry.0 key, eq_iff key j)

  pub lookup-keep :
      (p : V → Bool) (j : String) (m : Dict V) → lookup j (keep p m) ≡ keep_value p (lookup j m)
  unfolding lookup keep
  lookup-keep p j [] = refl
  lookup-keep p j ((i, w) ∷ m) =
      ground (arith, eq_iff i j, lookup-keep p j m, lookup-delete i j (keep p m))
