-- ===== src/Toolcall/Verifier.antt =====
-- The verification of a tool call, pkg/toolcall/verifier.go, at one reading of the clock. The JWT
-- library, the key resolver, the revocation index, the policy engine and the hash of a body
-- (SHA-256 in base64url) are functions of the configuration; `none` is a dependency that is not set.
pub mod Identity
pub mod Checks
pub mod Laws
pub mod Phases
pub mod Authorized
pub mod Cached
mod Tests
use project_starfly_fabrics.Prelude.{
  ℕ, String, ◌==◌, Bool, true, false, not, ◌&&◌, Option, none, some, List, [], ◌∷◌, is_empty,
  if◌then◌else◌, Result, ok, err, refuse_if, bind,
}
use project_starfly_fabrics.Exchange.Engine.Types.{WorkloadIdentity, PolicyDecision}
use project_starfly_fabrics.Claims.{Claims, Values, text, array, nil, cons}
use project_starfly_fabrics.Signals.Revocation.{RevocationEntry}
use Identity.{Token, extract_identity, first_audience}
use Checks.{
  VerifyError, missing_token, invalid_token, token_revoked, tool_not_registered, protocol_denied,
  audience_mismatch, policy_failed, policy_denied, check_caps, check_radius, verify_exec_binding,
}
use project_starfly_fabrics.Toolcall.Types.{ToolCallRequest, VerifiedIdentity}
use project_starfly_fabrics.Toolcall.Registry.{ToolEntry, Registry, supports_protocol, get}

pub data PublicKey : Type 0 where
  ecdsa : String → PublicKey
  ed25519 : String → PublicKey
  rsa : String → PublicKey
  other_key : String → PublicKey

pub data SignatureAlgorithm : Type 0 where
  es256 eddsa rs256 : SignatureAlgorithm

unfoldable pub infer_alg : PublicKey → SignatureAlgorithm
infer_alg (ecdsa k) = es256
infer_alg (ed25519 k) = eddsa
infer_alg (rsa k) = rs256
infer_alg (other_key k) = rs256

pub record ToolPolicyInput : Type 0 where
  pub action : String
  pub subject : WorkloadIdentity
  pub method : String
  pub timestamp : ℕ
  pub target : String
  pub context : Claims

-- The revocation index may answer with an entry, an error, both or neither.
pub record VerifierConfig : Type 0 where
  pub resolve_key : String → String → Result String PublicKey
  pub parse_insecure : String → Result String Token
  pub parse : String → SignatureAlgorithm → PublicKey → Result String Token
  pub input_hash : String → String
  pub registry : Option Registry
  pub revocation_checker : Option (String → Option RevocationEntry × Option String)
  pub policy : Option (ToolPolicyInput → Result String PolicyDecision)
  pub dev_mode : Bool

abbrev pub or_invalid {ℓ} : {A : Type ℓ} → Result String A → Result VerifyError A
or_invalid (ok a) = ok a
or_invalid (err e) = err (invalid_token e)

abbrev pub issuer_of : Token → String
issuer_of t = Identity.or_empty t.issuer

unfoldable pub verify_signature : VerifierConfig → String → Token → Result VerifyError Token
verify_signature cfg raw insecure =
    bind (or_invalid (cfg.resolve_key (issuer_of insecure) ""))
      λ key. or_invalid (cfg.parse raw (infer_alg key) key)

-- Phase 1: the token that the rest of the pipeline reads.
unfoldable pub identify : VerifierConfig → String → Result VerifyError Token
unfolding verify_signature
identify cfg raw = bind (or_invalid (cfg.parse_insecure raw)) λ insecure.
    bind (refuse_if (is_empty (issuer_of insecure)) (invalid_token "missing issuer claim"))
      λ _. if cfg.dev_mode then ok insecure else verify_signature cfg raw insecure

unfoldable pub resource_of : ToolEntry → String
resource_of tool = if is_empty tool.resource_uri then tool.tool_id else tool.resource_uri

-- Phase 2 for a registered tool.
unfoldable pub authorize_tool :
    ToolCallRequest → VerifiedIdentity → String → ToolEntry → Result VerifyError VerifiedIdentity
unfolding resource_of supports_protocol
authorize_tool req identity aud tool =
    bind (refuse_if (not (supports_protocol tool req.protocol)) protocol_denied) λ _.
      bind (refuse_if (not (aud == resource_of tool)) audience_mismatch) λ _.
        bind (check_caps identity.capabilities tool.required_capabilities) λ _.
          bind (check_radius identity.blast_radius tool.max_blast_radius)
            λ _. ok (record identity { tool_id = req.tool_id; resource = resource_of tool })

authorize_found :
    ToolCallRequest
    → VerifiedIdentity
    → String
    → Option ToolEntry
    → Result VerifyError VerifiedIdentity
unfolding authorize_tool
authorize_found req identity aud none = err (tool_not_registered req.tool_id)
authorize_found req identity aud (some tool) = authorize_tool req identity aud tool

unfoldable pub authorize :
    Option Registry
    → ToolCallRequest
    → VerifiedIdentity
    → String
    → Result VerifyError VerifiedIdentity
unfolding authorize_found get
authorize none req identity aud = ok identity
authorize (some registry) req identity aud =
    if is_empty req.tool_id
    then ok identity
    else authorize_found req identity aud (get req.tool_id registry)

refuse_revoked : Option RevocationEntry → Result VerifyError (Unit {0})
refuse_revoked none = ok tt
refuse_revoked (some entry) = err (token_revoked entry.reason)

-- Phase 4: an error of the index is logged and passed over.
unfoldable pub check_revocation :
    Option (String → Option RevocationEntry × Option String)
    → String
    → Result VerifyError (Unit {0})
unfolding refuse_revoked
check_revocation none subject = ok tt
check_revocation (some is_revoked) subject = refuse_revoked (is_revoked subject).0

text_values : List String → Values
text_values [] = nil
text_values (s ∷ ss) = cons (text s) (text_values ss)

unfoldable pub tool_policy_input : ℕ → ToolCallRequest → VerifiedIdentity → String → ToolPolicyInput
unfolding text_values
tool_policy_input now req identity aud = record {
  action = "tool_call";
  subject = record {
    id = identity.subject;
    trust_domain = Identity.extract_trust_domain identity.subject;
  };
  method = "mcp";
  timestamp = now;
  target = req.tool_id;
  context =
      ("capabilities", array (text_values identity.capabilities))
      ∷ ("blast_radius", text identity.blast_radius)
      ∷ ("audience", text aud)
      ∷ ("issuer", text identity.issuer)
      ∷ ("resource", text identity.resource)
      ∷ ("protocol", text req.protocol)
      ∷ [];
}

policy_verdict : Result String PolicyDecision → Result VerifyError (Unit {0})
policy_verdict (ok d) = refuse_if (not d.allowed) (policy_denied d.reason)
policy_verdict (err e) = err (policy_failed e)

unfoldable pub check_policy :
    Option (ToolPolicyInput → Result String PolicyDecision)
    → ToolPolicyInput
    → Result VerifyError (Unit {0})
unfolding policy_verdict
check_policy none input = ok tt
check_policy (some evaluate) input = policy_verdict (evaluate input)

bind_found :
    VerifierConfig
    → ToolCallRequest
    → VerifiedIdentity
    → Option ToolEntry
    → Result VerifyError (Unit {0})
bind_found cfg req identity none = ok tt
bind_found cfg req identity (some tool) =
    verify_exec_binding cfg.input_hash identity.execution tool req.request_body

-- Phase 3, which the code runs last.
unfoldable pub check_execution :
    VerifierConfig
    → Option Registry
    → ToolCallRequest
    → VerifiedIdentity
    → Result VerifyError (Unit {0})
unfolding bind_found get
check_execution cfg none req identity = ok tt
check_execution cfg (some registry) req identity =
    if is_empty req.tool_id then ok tt else bind_found cfg req identity (get req.tool_id registry)

unfoldable pub verify : VerifierConfig → ℕ → ToolCallRequest → Result VerifyError VerifiedIdentity
unfolding identify authorize check_revocation check_policy check_execution
verify cfg now req = bind (refuse_if (is_empty req.token) missing_token) λ _.
    bind (identify cfg req.token) λ token.
      bind (authorize cfg.registry req (extract_identity token req.protocol) (first_audience token))
        λ identity. bind (check_revocation cfg.revocation_checker identity.subject) λ _.
          bind (check_policy cfg.policy (tool_policy_input now req identity (first_audience token)))
            λ _. bind (check_execution cfg cfg.registry req identity) λ _. ok identity
