-- ===== src/Toolcall/Verifier/Identity.antt =====
-- extractIdentity and extractTrustDomain of pkg/toolcall/verifier.go, over a token as the JWT
-- library shows it: the registered claims, which may be absent, and the private ones.
use Prim.Native.String.{slice, len}
use package.text.Mathlib.Text.{starts_with}
use project_starfly_fabrics.Prelude.{
  ℕ, String, Bool, false, ◌||◌, Option, none, some, List, [], ◌∷◌, is_empty, is_some, split_first,
  if◌then◌else◌,
}
use project_starfly_fabrics.Prelude.Int.{ℤ, pos}
use project_starfly_fabrics.Claims.{Claims, get_text, get_array, get_number, texts_or_none}
use project_starfly_fabrics.Exchange.Request.{ExecutionScope}
use project_starfly_fabrics.Toolcall.Types.{Protocol, Delegation, VerifiedIdentity}

pub record Token : Type 0 where
  pub subject : Option String
  pub issuer : Option String
  pub audience : Option (List String)
  pub expiration : Option ℕ
  pub claims : Claims

abbrev pub or_empty : Option String → String
or_empty none = ""
or_empty (some s) = s

abbrev pub or_zero : Option ℕ → ℕ
or_zero none = 0
or_zero (some n) = n

abbrev head_or_empty : Option (List String) → String
head_or_empty none = ""
head_or_empty (some []) = ""
head_or_empty (some (a ∷ auds)) = a

unfoldable pub first_audience : Token → String
first_audience t = head_or_empty t.audience

abbrev pub delegation_of : Option String → Option ℤ → Option Delegation
delegation_of none none = none
delegation_of (some obo) none = some (record { on_behalf_of = obo; depth = pos 0 })
delegation_of none (some d) = some (record { on_behalf_of = ""; depth = d })
delegation_of (some obo) (some d) = some (record { on_behalf_of = obo; depth = d })

unfoldable pub text_claim : String → Claims → String
unfolding get_text
text_claim k c = or_empty (get_text k c)

abbrev exec_claims : List String
exec_claims = "htm" ∷ "htu" ∷ "exec_act" ∷ "inp_hash" ∷ "out_hash" ∷ "target" ∷ "wid" ∷ "nonce" ∷ []

unfoldable pub has_any : List String → Claims → Bool
unfolding get_text
has_any [] c = false
has_any (k ∷ ks) c = is_some (get_text k c) || has_any ks c

unfoldable pub flat_scope : Claims → ExecutionScope
unfolding text_claim
flat_scope c = record {
  method = text_claim "htm" c;
  uri = text_claim "htu" c;
  exec_act = text_claim "exec_act" c;
  input_hash = text_claim "inp_hash" c;
  output_hash = text_claim "out_hash" c;
  target = text_claim "target" c;
  workflow_id = text_claim "wid" c;
  payload_hash = "";
  nonce = text_claim "nonce" c;
}

-- payload_hash is read where inp_hash is unset.
unfoldable pub legacy_hash : Claims → Option String
unfolding text_claim get_text
legacy_hash c = if is_empty (text_claim "inp_hash" c) then get_text "payload_hash" c else none

abbrev with_legacy : Option String → ExecutionScope → ExecutionScope
with_legacy none es = es
with_legacy (some ph) es = record es { input_hash = ph; payload_hash = ph }

unfoldable pub execution_of : Claims → Option ExecutionScope
unfolding has_any flat_scope legacy_hash
execution_of c =
    if has_any exec_claims c || is_some (legacy_hash c)
    then some (with_legacy (legacy_hash c) (flat_scope c))
    else none

unfoldable pub extract_identity : Token → Protocol → VerifiedIdentity
unfolding execution_of text_claim get_text get_array get_number
extract_identity t protocol = record {
  subject = or_empty t.subject;
  issuer = or_empty t.issuer;
  capabilities = texts_or_none (get_array "caps" t.claims);
  blast_radius = text_claim "blast_radius" t.claims;
  delegation = delegation_of (get_text "obo" t.claims) (get_number "delegation_depth" t.claims);
  execution = execution_of t.claims;
  protocol = protocol;
  expires_at = or_zero t.expiration;
  tool_id = "";
  resource = "";
}

-- The part before the first slash, unless it is empty.
abbrev domain_of : String → Option (String × String) → String
domain_of rest none = rest
domain_of rest (some parts) = if is_empty parts.0 then rest else parts.0

after_prefix : String → String → String
after_prefix prefix uri = slice uri (len prefix) (len uri)

unfoldable pub extract_trust_domain : String → String
unfolding after_prefix
extract_trust_domain uri =
    if starts_with uri "wimse://"
    then domain_of (after_prefix "wimse://" uri) (split_first "/" (after_prefix "wimse://" uri))
    else if starts_with uri "spiffe://"
    then domain_of (after_prefix "spiffe://" uri) (split_first "/" (after_prefix "spiffe://" uri))
    else ""
