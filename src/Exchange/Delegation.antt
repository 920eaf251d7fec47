-- ===== src/Exchange/Delegation.antt =====
-- Delegation chains, pkg/exchange/delegation.go.
pub mod Radius
pub mod Laws
use project_starfly_fabrics.Prelude.{
  String, ◌==◌, Bool, true, false, not, ◌&&◌, ◌||◌, Option, none, some, List, [], ◌∷◌, is_empty,
  is_nil, contains, if◌then◌else◌, Result, ok, err, refuse_if, bind,
}
use project_starfly_fabrics.Prelude.Int.{ℤ, negsuc, is_zero}
use project_starfly_fabrics.Claims.{
  Value, Values, text, nil, cons, Claims, get_text, get_array, get_number, texts_or_none,
  append_values,
}
use Radius.{narrower_or_equal}

pub data DelegationError : Type 0 where
  missing_subject depth_exhausted blast_radius_exceeded : DelegationError
  capability_not_held : String → DelegationError

-- A depth of -1 means that the actor token had no depth claim.
pub record DelegationContext : Type 0 where
  pub parent_subject : String
  pub depth : ℤ
  pub caps : List String
  pub blast_radius : String
  pub obo_chain : Values

-- A verified JWT: the registered subject, and the private claims.
pub record ActorToken : Type 0 where
  pub subject : Option String
  pub claims : Claims

abbrev or_else {ℓ} : {A : Type ℓ} → Option A → A → A
or_else none d = d
or_else (some a) d = a

context_of : String → Claims → DelegationContext
context_of sub c = record {
  parent_subject = sub;
  depth = or_else (get_number "delegation_depth" c) (negsuc 0);
  caps = texts_or_none (get_array "caps" c);
  blast_radius = or_else (get_text "blast_radius" c) "";
  obo_chain = or_else (get_array "obo" c) nil;
}

parse_subject : Option String → Claims → Result DelegationError DelegationContext
unfolding context_of
parse_subject none c = err missing_subject
parse_subject (some sub) c = if is_empty sub then err missing_subject else ok (context_of sub c)

unfoldable pub parse_delegation_context : ActorToken → Result DelegationError DelegationContext
unfolding parse_subject get_number get_array get_text
parse_delegation_context actor = parse_subject actor.subject actor.claims

-- The first requested capability that the parent does not hold.
unfoldable pub first_not_held : List String → List String → Option String
unfolding contains
first_not_held held [] = none
first_not_held held (c ∷ cs) =
    let rest = first_not_held held cs in if contains held c then rest else some c

abbrev refuse_cap : Option String → Result DelegationError (Unit {0})
refuse_cap none = ok tt
refuse_cap (some c) = err (capability_not_held c)

unfoldable pub check_caps : List String → List String → Result DelegationError (Unit {0})
check_caps held requested =
    if not (is_nil held) && not (is_nil requested)
    then refuse_cap (first_not_held held requested)
    else ok tt

unfoldable pub check_radius : String → String → Result DelegationError (Unit {0})
check_radius parent requested =
    refuse_if
      (not (is_empty parent)
        && not (is_empty requested)
        && not (narrower_or_equal requested parent))
      blast_radius_exceeded

-- The depth, the capabilities, then the blast radius.
unfoldable pub validate_delegation :
    DelegationContext → List String → String → Result DelegationError (Unit {0})
validate_delegation dc requested_caps requested_radius =
    bind (refuse_if (is_zero dc.depth) depth_exhausted) λ _.
      bind (check_caps dc.caps requested_caps) λ _. check_radius dc.blast_radius requested_radius

unfoldable pub build_obo_chain : DelegationContext → Values
build_obo_chain dc = append_values dc.obo_chain (cons (text dc.parent_subject) nil)
