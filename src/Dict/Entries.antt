-- ===== src/Dict/Entries.antt =====
-- The entries of a map: how many there are, and predicates on all of them.
use project_starfly_fabrics.Prelude.{
  ℕ, suc, String, ◌==◌, eq_iff, ◌≡◌, refl, subst, inl, inr, Bool, true, false, some, [], ◌∷◌, arith,
  All, length, is_some, Bool-cases, if◌then◌else◌,
}
use project_starfly_fabrics.Dict.{Dict, lookup, insert}

module _ {ℓ} {V : Type ℓ} where
  abbrev pub AllEntries {κ} : (String → V → Type κ) → Dict V → Type κ
  AllEntries P d = All (λ (entry : String × V). P entry.0 entry.1) d

  -- A map grows by the insertion of a new key only.
  pub length-insert :
      (key : String) (value : V) (d : Dict V)
      → length (insert key value d) ≡ (if is_some (lookup key d) then length d else suc (length d))
  unfolding insert lookup
  length-insert key value [] = refl
  length-insert key value (entry ∷ d) = elim (Bool-cases (entry.0 == key)) [
    | inl here ↦ rw here refl
    | inr there ↦ rw there (grown (is_some (lookup key d)) _ _ (length-insert key value d))
  ]
    where
      grown :
          (known : Bool) (m n : ℕ)
          → m ≡ (if known then n else suc n)
          → suc m ≡ (if known then suc n else suc (suc n))
      grown true m n h = omega (arith, h)
      grown false m n h = omega (arith, h)

  pub insert-AllEntries {κ} :
      (P : String → V → Type κ) (key : String) (value : V) (d : Dict V)
      → P key value
      → AllEntries P d
      → AllEntries P (insert key value d)
  unfolding insert
  insert-AllEntries P key value [] p h = (p, tt)
  insert-AllEntries P key value (entry ∷ d) p h = elim (Bool-cases (entry.0 == key)) [
    | inl here ↦ rw here (p, h.1)
    | inr there ↦ rw there (h.0, insert-AllEntries P key value d p h.1)
  ]

  pub lookup-AllEntries {κ} :
      (P : String → V → Type κ) (key : String) (value : V) (d : Dict V)
      → AllEntries P d
      → lookup key d ≡ some value
      → P key value
  unfolding lookup
  lookup-AllEntries P key value [] h e = cc
  lookup-AllEntries P key value (entry ∷ d) h e = elim (Bool-cases (entry.0 == key)) [
    | inl here ↦
        let found : some entry.1 ≡ some value = rw (here, if◌then◌else◌) at e in
        let same_value : entry.1 ≡ value = cc in
        subst (λ k. P k value) ((eq_iff entry.0 key).0 here) (subst (P entry.0) same_value h.0)
    | inr there ↦ lookup-AllEntries P key value d h.1 (rw (there, if◌then◌else◌) at e)
  ]
