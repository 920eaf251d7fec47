-- ===== src/Prelude/Split.antt =====
-- A text split at the first occurrence of a character: Go's strings.SplitN(s, sep, 2), and
-- strings.Index with the two slices around it.
use Prim.Native.Nat.{ℕ}
use Prim.Native.Char.{Char, code}
use Prim.Native.String.{String, ◌++◌}
use Prim.Native.String.append
use mathlib.Core.Path.{◌≡◌, refl, ap, sym}
use mathlib.Core.Logic.{inl, inr}
use mathlib.Core.Bool.{true}
use mathlib.Core.Option.{Option, none, some}
use native.Mathlib.Omega.{arith}
use text.Mathlib.TextEquality.{Char-path}
use project_starfly_fabrics.Prelude.Tests.{nat_beq, if◌then◌else◌, Bool-cases}

abbrev pub prepend : Char → Option (String × String) → Option (String × String)
prepend c none = none
prepend c (some parts) = some (String.◌∷◌ c parts.0, parts.1)

unfoldable pub split_first : Char → String → Option (String × String)
split_first sep String.[] = none
split_first sep (String.◌∷◌ c s) =
    let rest = split_first sep s in
    if nat_beq (code c) (code sep) then some ("", s) else prepend c rest

codes_agree : (c d : Char) → nat_beq (code c) (code d) ≡ true → c ≡ d
codes_agree c d h = Char-path c d (ground arith)

nat_beq_refl : (n : ℕ) → nat_beq n n ≡ true
nat_beq_refl n = ground arith

prepend-some :
    (c : Char) (o : Option (String × String)) (a b : String)
    → prepend c o ≡ some (a, b)
    → (a' : String) × (o ≡ some (a', b)) × (String.◌∷◌ c a' ≡ a)
prepend-some c none a b h = cc
prepend-some c (some (x, y)) a b h = (x, cc, cc)

some-parts :
    (x y a b : String) {o : Option (String × String)}
    → some (x, y) ≡ o
    → o ≡ some (a, b)
    → (x ≡ a) × (y ≡ b)
some-parts x y a b e h = (cc, cc)

prepend-none : (c : Char) (o : Option (String × String)) → prepend c o ≡ none → o ≡ none
prepend-none c none h = refl
prepend-none c (some parts) h = cc

-- The parts of a split text make it up again.
pub split_first-join :
    (sep : Char) (s a b : String) → split_first sep s ≡ some (a, b) → s ≡ a ++ String.◌∷◌ sep b
unfolding split_first
split_first-join sep String.[] a b h = cc
split_first-join sep (String.◌∷◌ c s) a b h = elim (Bool-cases (nat_beq (code c) (code sep))) [
  | inl here ↦ first_here c s a b here (some-parts "" s a b refl (rw (here, if◌then◌else◌) at h))
  | inr later ↦
      let (a', e, p) = prepend-some c (split_first sep s) a b (rw (later, if◌then◌else◌) at h) in
      rw (sym p, append.cons) (ap (String.◌∷◌ c) (split_first-join sep s a' b e))
]
  where
    first_here :
        (c : Char) (s a b : String)
        → nat_beq (code c) (code sep) ≡ true
        → ("" ≡ a) × (s ≡ b)
        → String.◌∷◌ c s ≡ a ++ String.◌∷◌ sep b
    first_here c s a b here found =
        rw (sym found.0, append.nil, codes_agree c sep here, found.1) refl

-- A text without the separator is the first part of what continues it with the separator.
pub split_first-append :
    (sep : Char) (a b : String)
    → split_first sep a ≡ none
    → split_first sep (a ++ String.◌∷◌ sep b) ≡ some (a, b)
unfolding split_first
split_first-append sep String.[] b h = rw (append.nil, split_first, nat_beq_refl (code sep)) refl
split_first-append sep (String.◌∷◌ c a) b h = elim (Bool-cases (nat_beq (code c) (code sep))) [
  | inl here ↦ cc (rw (here, if◌then◌else◌) at h)
  | inr later ↦
      let absent = prepend-none c (split_first sep a) (rw (later, if◌then◌else◌) at h) in
      rw (append.cons, split_first, later, split_first-append sep a b absent) refl
]
