-- ===== src/Exchange/Delegation/Radius.antt =====
-- Blast radii: blastRadiusLevels, parseBlastRadiusLevel and isBlastRadiusNarrowerOrEqual of
-- pkg/exchange/delegation.go.
use Prim.Native.Char.{code}
use project_starfly_fabrics.Prelude.{
  ℕ, String, ◌==◌, Bool, Option, some, [], ◌∷◌, leb, nat_beq, if◌then◌else◌,
}
use project_starfly_fabrics.Dict.{Dict, lookup}

-- From the narrowest to the broadest.
abbrev pub blast_radius_levels : Dict ℕ
blast_radius_levels =
    ("function", 0)
    ∷ ("service", 1)
    ∷ ("namespace", 2)
    ∷ ("cluster", 3)
    ∷ ("workspace", 3)
    ∷ ("trust_domain", 4)
    ∷ ("fabric", 5)
    ∷ []

-- The part before the first colon; the whole text where there is none.
unfoldable pub before_colon : String → String
before_colon String.[] = ""
before_colon (String.◌∷◌ c s) = if nat_beq (code c) b':' then "" else String.◌∷◌ c (before_colon s)

unfoldable pub radius_level : String → Option ℕ
unfolding before_colon lookup
radius_level br = lookup (before_colon br) blast_radius_levels

-- Known levels are compared; an unknown one only equals itself.
abbrev pub compare_levels : Option ℕ → Option ℕ → Bool → Bool
compare_levels (some c) (some p) same = leb c p
compare_levels _ _ same = same

unfoldable pub narrower_or_equal : String → String → Bool
unfolding radius_level
narrower_or_equal child parent =
    compare_levels (radius_level child) (radius_level parent) (child == parent)
