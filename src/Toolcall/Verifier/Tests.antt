-- ===== src/Toolcall/Verifier/Tests.antt =====
-- Runs of the verifier on one tool, with a JWT library that reads every text as the same token.
use Prim.Native.String.{◌++◌}
use project_starfly_fabrics.Claims.{texts}
use project_starfly_fabrics.Toolcall.Verifier.Checks.{check_caps, check_radius, verify_exec_binding}
use project_starfly_fabrics.Toolcall.Verifier.Identity.{extract_identity, first_audience}
use project_starfly_fabrics.Prelude.{is_empty, split_first}
use project_starfly_fabrics.Toolcall.Registry.{names_protocol}
use project_starfly_fabrics.Dict.{delete}
use project_starfly_fabrics.Prelude.{
  String, ◌≡◌, refl, ◌≢◌, true, false, none, some, [], ◌∷◌, ok, err,
}
use project_starfly_fabrics.Dict.{lookup, insert}
use project_starfly_fabrics.Claims.{text, array, nil, cons, Claims}
use project_starfly_fabrics.Exchange.Request.{ExecutionScope}
use project_starfly_fabrics.Jwks.Cache.{Config, Remote, ResolveError, ResolveTimes, new_cache}
use project_starfly_fabrics.Jwks.Cache.Steps.{start}
use project_starfly_fabrics.Toolcall.Types.{ToolCallRequest, VerifiedIdentity}
use project_starfly_fabrics.Toolcall.Registry.{
  ToolEntry, Registry, new_registry, register, update, deregister, list, supports_protocol,
  tool_exists, tool_not_found, registered_entry,
}
use project_starfly_fabrics.Toolcall.Verifier.Identity.{Token, extract_trust_domain}
use project_starfly_fabrics.Toolcall.Verifier.Checks.{
  missing_token, exec_payload_mismatch, blast_radius_fits,
}
use project_starfly_fabrics.Toolcall.Verifier.{PublicKey, ed25519, VerifierConfig, verify}
use project_starfly_fabrics.Toolcall.Verifier.Authorized.{Authorized, verify-Authorized}
use project_starfly_fabrics.Toolcall.Verifier.Cached.{with_cache, cached_verify_refuses}

abbrev tool : ToolEntry
tool = record {
  tool_id = "db";
  name = "database";
  description = "";
  resource_uri = "tool://db";
  protocols = "mcp/v2" ∷ [];
  protocol_meta = [];
  required_capabilities = "read" ∷ [];
  max_blast_radius = "namespace:*";
  requires_execution = true;
  allowed_operations = "query" ∷ [];
  allowed_targets = [];
  owner_commune = "";
  server_id = "";
  registered_at = 0;
  updated_at = 0;
}

abbrev registry : Registry
registry = record { tools = ("db", registered_entry 5 tool) ∷ [] }

abbrev claims : Claims
claims =
    ("caps", array (cons (text "read") (cons (text "write") nil)))
    ∷ ("blast_radius", text "namespace:prod")
    ∷ ("exec_act", text "query")
    ∷ ("inp_hash", text "#body")
    ∷ []

abbrev token : Token
token = record {
  subject = some "wimse://corp/agent";
  issuer = some "iss";
  audience = some ("tool://db" ∷ []);
  expiration = some 100;
  claims = claims;
}

abbrev config : VerifierConfig
config = record {
  resolve_key = λ issuer kid. ok (ed25519 issuer);
  parse_insecure = λ raw. ok token;
  parse = λ raw alg key. ok token;
  input_hash = λ body. "#" ++ body;
  registry = some registry;
  revocation_checker = some (λ subject. (none, some "index unavailable"));
  policy = some (λ input. ok (record { allowed = true; reason = ""; claims = [] }));
  dev_mode = false;
}

abbrev request : ToolCallRequest
request = record {
  protocol = "mcp";
  protocol_version = "";
  tool_id = "db";
  operation = "";
  params = [];
  token = "jwt";
  caller_identity = "";
  request_body = some "body";
}

abbrev scope : ExecutionScope
scope = record {
  method = "";
  uri = "";
  exec_act = "query";
  input_hash = "#body";
  output_hash = "";
  target = "";
  workflow_id = "";
  payload_hash = "";
  nonce = "";
}

abbrev identity : VerifiedIdentity
identity = record {
  subject = "wimse://corp/agent";
  issuer = "iss";
  capabilities = "read" ∷ "write" ∷ [];
  blast_radius = "namespace:prod";
  delegation = none;
  execution = some scope;
  protocol = "mcp";
  expires_at = 100;
  tool_id = "db";
  resource = "tool://db";
}

registered : register 5 tool new_registry ≡ ok registry
unfolding register lookup insert
registered = refl

registered_twice : register 6 tool registry ≡ err tool_exists
unfolding register lookup
registered_twice = refl

deregistered : deregister "db" registry ≡ ok new_registry
unfolding deregister lookup delete
deregistered = refl

updated_unknown : update 6 tool new_registry ≡ err tool_not_found
unfolding update lookup
updated_unknown = refl

listed : list (some "http") registry ≡ []
unfolding list supports_protocol names_protocol split_first
listed = refl

accepted : verify config 10 request ≡ ok identity
unfolding verify is_empty lookup names_protocol split_first first_audience check_caps
    extract_identity texts check_radius verify_exec_binding
accepted = refl

no_token : verify config 10 (record request { token = "" }) ≡ err missing_token
unfolding verify is_empty
no_token = refl

other_body :
    verify config 10 (record request { request_body = some "other" }) ≡ err exec_payload_mismatch
unfolding verify is_empty lookup names_protocol split_first first_audience check_caps
    extract_identity texts check_radius verify_exec_binding
other_body = refl

domain : extract_trust_domain "spiffe://corp/agent" ≡ "corp"
unfolding extract_trust_domain split_first is_empty
domain = refl

other_scope : blast_radius_fits "cluster:prod" "namespace:*" ≡ false
unfolding blast_radius_fits split_first
other_scope = refl

abbrev jwks : Config
jwks = record { ttl = 300; grace = 1800; max_issuers = 500; max_keys_per_issuer = 20 }

abbrev remote : Remote PublicKey
remote = record {
  new_request = λ url. ok url;
  send = λ req. ok (record { status = 200; body = ok req });
  parse = λ body. ok (record { kid = some "k1"; raw = ok (some (ed25519 "k")) } ∷ []);
}

abbrev times : ResolveTimes
times = record { checked_at = 10; fetched_at = 10; served_at = 10 }

abbrev render : ResolveError → String
render e = "unresolved"

verify-Authorized_example : Authorized config 10 request identity
verify-Authorized_example = verify-Authorized config 10 request identity accepted

cached_verify_refuses_example :
    verify (with_cache jwks remote times render new_cache config) 10 request ≢ ok identity
cached_verify_refuses_example =
    cached_verify_refuses jwks remote times render new_cache config 10 request identity start refl
