-- ===== src/Exchange/Delegation/Laws.antt =====
-- The rules of delegation stated by membership and order, and what validate_delegation decides.
use project_starfly_fabrics.Prelude.{
  ℕ, ◌≤◌, String, ◌==◌, eq_iff, ◌≡◌, refl, sym, subst, ◌≢◌, ◌↔◌, ◌⊎◌, inl, inr, Bool, true, false,
  not, ◌&&◌, Option, none, some, List, [], ◌∷◌, arith, is_empty, is_empty_iff, is_nil, contains, In,
  contains_iff, Bool-cases, ok, bind-ok, refuse_if-ok, ap, zero, suc, refuse_if, le→leb,
  if◌then◌else◌,
}
use project_starfly_fabrics.Prelude.Int.{ℤ, pos, negsuc, is_zero}
use project_starfly_fabrics.Exchange.Delegation.Radius.{
  radius_level, narrower_or_equal, compare_levels,
}
use project_starfly_fabrics.Exchange.Delegation.{
  DelegationContext, depth_exhausted, blast_radius_exceeded, first_not_held, check_caps,
  check_radius, validate_delegation, refuse_cap,
}

-- One radius is within another: the same text, or a known level that is not broader.
pub data Within (child parent : String) : Type 0 where
  same : child ≡ parent → Within child parent
  narrower :
      (c p : ℕ)
      → radius_level child ≡ some c
      → radius_level parent ≡ some p
      → c ≤ p
      → Within child parent

compare_sound :
    (x y : Option ℕ) (b : Bool) (child parent : String)
    → radius_level child ≡ x
    → radius_level parent ≡ y
    → (b ≡ true → child ≡ parent)
    → compare_levels x y b ≡ true
    → Within child parent
compare_sound (some c) (some p) b child parent e f g h = narrower c p e f (ground arith)
compare_sound none y b child parent e f g h = same (g h)
compare_sound (some c) none b child parent e f g h = same (g h)

compare_same : (x : Option ℕ) (b : Bool) → b ≡ true → compare_levels x x b ≡ true
compare_same none b h = h
compare_same (some n) b h = ground arith

narrower_or_equal_refl : (radius : String) → narrower_or_equal radius radius ≡ true
unfolding narrower_or_equal
narrower_or_equal_refl radius =
    compare_same (radius_level radius) (radius == radius) ((eq_iff radius radius).1 refl)

narrower_of_Within :
    (child parent : String) → Within child parent → narrower_or_equal child parent ≡ true
unfolding narrower_or_equal
narrower_of_Within child parent (same e) =
    subst (λ p. narrower_or_equal child p ≡ true) e (narrower_or_equal_refl child)
narrower_of_Within child parent (narrower c p e f h) = rw (e, f, compare_levels) (le→leb c p h)

-- The test decides the order: it passes exactly for a radius within the other.
pub narrower_or_equal-Within :
    (child parent : String) → (narrower_or_equal child parent ≡ true) ↔ Within child parent
unfolding narrower_or_equal
narrower_or_equal-Within child parent = (
  compare_sound (radius_level child) (radius_level parent) (child == parent) child parent refl refl
      (eq_iff child parent).0,
  narrower_of_Within child parent,
)

-- Being within is transitive, so a chain of narrowings never widens.
pub Within-trans : {a b c : String} → Within a b → Within b c → Within a c
Within-trans {a} {b} {c} (same e) w = subst (λ x. Within x c) (sym e) w
Within-trans {a} {b} {c} (narrower i j e f h) (same g) = subst (Within a) g (narrower i j e f h)
Within-trans (narrower i j e f h) (narrower k l e' f' h') = narrower i l e f' (ground arith)

-- What the parent of a delegation permits.
pub record Permitted (dc : DelegationContext) (requested : List String) (radius : String)
    : Type 0 where
  pub deep_enough : dc.depth ≢ pos 0
  pub held : (dc.caps ≡ []) ⊎ ((c : String) → In c requested → In c dc.caps)
  pub narrow : (dc.blast_radius ≡ "") ⊎ (radius ≡ "") ⊎ Within radius dc.blast_radius

first_not_held-none :
    (held requested : List String)
    → first_not_held held requested ≡ none
    → (c : String) → In c requested
    → In c held
unfolding first_not_held
first_not_held-none held [] h c m = absurd m
first_not_held-none held (r ∷ rs) h c m = elim (Bool-cases (contains held r)) [
  | inl y ↦ elim m [
    | inl e ↦ subst (λ x. In x held) e ((contains_iff held r).0 y)
    | inr m' ↦ first_not_held-none held rs (rw (y, if◌then◌else◌) at h) c m'
  ]
  | inr n ↦ cc (rw n at h)
]

first_not_held-some :
    (held requested : List String)
    → ((c : String) → In c requested → In c held)
    → first_not_held held requested ≡ none
unfolding first_not_held
first_not_held-some held [] h = refl
first_not_held-some held (r ∷ rs) h =
    rw ((contains_iff held r).1 (h r (inl refl))) (first_not_held-some held rs (λ c m. h c (inr m)))

is_nil-eq : (xs : List String) → is_nil xs ≡ true → xs ≡ []
is_nil-eq [] h = refl
is_nil-eq (x ∷ xs) h = cc

refuse_cap-ok : (o : Option String) → refuse_cap o ≡ ok tt → o ≡ none
refuse_cap-ok none h = refl
refuse_cap-ok (some c) h = cc

check_caps_iff :
    (held requested : List String)
    → (check_caps held requested ≡ ok tt)
      ↔ ((held ≡ []) ⊎ ((c : String) → In c requested → In c held))
unfolding check_caps
check_caps_iff [] requested = (λ h. inl refl, λ h. refl)
check_caps_iff (x ∷ xs) [] = (λ h. inr (λ c m. absurd m), λ h. refl)
check_caps_iff (x ∷ xs) (r ∷ rs) = (
  λ h. inr (first_not_held-none (x ∷ xs) (r ∷ rs) (refuse_cap-ok _ h)),
  elim [ inl e ↦ cc | inr h ↦ rw (first_not_held-some (x ∷ xs) (r ∷ rs) h) refl ],
)

refused_by_three :
    (a b c : Bool)
    → (refuse_if (not a && not b && not c) blast_radius_exceeded ≡ ok tt)
      ↔ ((a ≡ true) ⊎ (b ≡ true) ⊎ (c ≡ true))
refused_by_three a b c = ground arith

map_three : {A B C A' B' C' : Type 0} → (A → A') → (B → B') → (C → C') → A ⊎ B ⊎ C → A' ⊎ B' ⊎ C'
map_three f g h (inl a) = inl (f a)
map_three f g h (inr (inl b)) = inr (inl (g b))
map_three f g h (inr (inr c)) = inr (inr (h c))

check_radius_iff :
    (parent requested : String)
    → (check_radius parent requested ≡ ok tt)
      ↔ ((parent ≡ "") ⊎ (requested ≡ "") ⊎ Within requested parent)
unfolding check_radius
check_radius_iff parent requested =
    let cases =
      refused_by_three (is_empty parent) (is_empty requested)
        (narrower_or_equal requested parent) in
    let order = narrower_or_equal-Within requested parent in
    (
      λ h. map_three (is_empty_iff parent).0 (is_empty_iff requested).0 order.0 (cases.0 h),
      λ h. cases.1 (map_three (is_empty_iff parent).1 (is_empty_iff requested).1 order.1 h),
    )

is_zero_of_ne : (z : ℤ) → z ≢ pos 0 → is_zero z ≡ false
is_zero_of_ne (pos zero) h = absurd (h refl)
is_zero_of_ne (pos (suc n)) h = refl
is_zero_of_ne (negsuc n) h = refl

-- A delegation is validated exactly when its parent permits it: it has depth left, the requested
-- capabilities are among its own unless it names none, and the requested radius is within its own
-- unless either is unset.
pub validate_delegation-Permitted :
    (dc : DelegationContext) (requested : List String) (radius : String)
    → (validate_delegation dc requested radius ≡ ok tt) ↔ Permitted dc requested radius
unfolding validate_delegation
validate_delegation-Permitted dc requested radius = (sound, complete)
  where
    sound : validate_delegation dc requested radius ≡ ok tt → Permitted dc requested radius
    sound h =
        let (_, deep, rest) = bind-ok (refuse_if (is_zero dc.depth) depth_exhausted) _ h in
        let (_, caps, narrow) = bind-ok (check_caps dc.caps requested) _ rest in
        record {
          deep_enough = λ e. cc (ap is_zero e, refuse_if-ok (is_zero dc.depth) _ deep);
          held = (check_caps_iff dc.caps requested).0 caps;
          narrow = (check_radius_iff dc.blast_radius radius).0 narrow;
        }

    complete : Permitted dc requested radius → validate_delegation dc requested radius ≡ ok tt
    complete p =
        rw (is_zero_of_ne dc.depth p.deep_enough, (check_caps_iff dc.caps requested).1 p.held)
          ((check_radius_iff dc.blast_radius radius).1 p.narrow)
