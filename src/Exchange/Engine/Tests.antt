-- ===== src/Exchange/Engine/Tests.antt =====
-- Runs of the engine on one configuration, and the engine's theorems at them.
use Prim.Native.String.{◌++◌}
use project_starfly_fabrics.Signals.Revocation.{
  RevocationEntry, new_entry, InMemoryRevocationIndex, is_revoked, revoke, new_revocation_index,
}
use project_starfly_fabrics.Signals.Revocation.Held.{unused}
use project_starfly_fabrics.Prelude.{inl}
use project_starfly_fabrics.Exchange.Engine.Run.{chain_length}
use project_starfly_fabrics.Exchange.Engine.Mint.{token_ttl}
use project_starfly_fabrics.Exchange.Nonce.{check, cleanup_due, count_op, record_nonce, tidy}
use project_starfly_fabrics.Claims.{texts}
use project_starfly_fabrics.Exchange.Engine.Gates.{requested_caps, requested_radius}
use project_starfly_fabrics.Prelude.{is_empty}
use project_starfly_fabrics.Prelude.{
  ℕ, ◌+◌, ◌*◌, String, ◌==◌, ◌≡◌, refl, ◌≢◌, true, false, Option, none, some, [], ◌∷◌,
  is_empty-false, if◌then◌else◌, is_empty, Result, ok, err,
}
use project_starfly_fabrics.Prelude.Int.{pos}
use project_starfly_fabrics.Claims.{text, number, array, nil, cons, texts, count_values, get_text}
use project_starfly_fabrics.Dict.{lookup, insert}
use project_starfly_fabrics.Exchange.Request.{ExecutionScope, TokenExchangeRequest}
use project_starfly_fabrics.Exchange.Delegation.{
  ActorToken, DelegationContext, parse_delegation_context, validate_delegation, check_caps,
  first_not_held, check_radius,
}
use project_starfly_fabrics.Exchange.Nonce.{second, execution_scope_ttl}
use project_starfly_fabrics.Exchange.Scope.{verify_execution_scope, validate_execution_scope}
use project_starfly_fabrics.Exchange.CredType.{map_cred_type}
use project_starfly_fabrics.Exchange.Dpop.{
  validate_dpop, first_header, wrong_typ, check_embedded_key, check_proof_token,
  compute_jwk_thumbprint, Jwk, JoseLibrary, public_key,
}
use project_starfly_fabrics.Exchange.Engine.Types.{
  ◌>>=◌, ◌>>◌, pure, raise, lift, log, subject_revoked, WorkloadIdentity, PolicyDecision, Engine,
  World,
}
use project_starfly_fabrics.Exchange.Engine.Gates.{
  check_grant, credential_type, check_subject, check_revocation, ask_revocation, revocation_verdict,
  check_attestation, check_policy, policy_verdict, check_delegation, map_exec, delegation_of_actor,
  delegation_of_context, delegation_verdict, check_dpop, check_execution, use_nonce, requested_caps,
  requested_radius, Readings, grant_type_token_exchange,
}
use project_starfly_fabrics.Exchange.Engine.Mint.{Grant, build_token, token_claims}
use project_starfly_fabrics.Exchange.Engine.Mint.Parse.{
  minted, child_context, parse-minted, Hops, start, hop, Hops-bounded, dropped_caps_unrestricted,
}
use project_starfly_fabrics.Exchange.Engine.Mint.Bound.{minted-verifies, production_not_hardware}
use project_starfly_fabrics.Exchange.Engine.Run.{
  TokenExchangeResponse, exchange, admit, issue, conclude, announce, notify, response,
}
use project_starfly_fabrics.Exchange.Engine.Delivery.{deliver_secrets, deliver_from}
use project_starfly_fabrics.Exchange.Engine.Quiet.{SameOutside, count_issued}
use project_starfly_fabrics.Exchange.Engine.Indexed.{revoked_subject_refused}
use project_starfly_fabrics.Exchange.Engine.Granted.{Lawful, exchange-Lawful}
use project_starfly_fabrics.Exchange.Engine.Outcome.{refused_silent, issued_once}

abbrev agent : WorkloadIdentity
agent = record { id = "wimse://a/agent"; trust_domain = "a" }

abbrev granted : PolicyDecision
granted = record {
  allowed = true;
  reason = "";
  claims = ("caps", array (cons (text "read") nil)) ∷ ("blast_radius", text "service:db") ∷ [];
}

abbrev orchestrator_token : ActorToken
orchestrator_token = record {
  subject = some "wimse://a/orchestrator";
  claims =
      ("delegation_depth", number (pos 2))
      ∷ ("caps", array (cons (text "read") (cons (text "write") nil)))
      ∷ [];
}

abbrev knows_rogue : String → Result String (Option RevocationEntry)
knows_rogue id =
    if id == "wimse://a/rogue" then ok (some (new_entry 0 id "compromised" 0)) else ok none

abbrev jwk : Jwk
jwk = record {
  raw = ok (some public_key);
  members = some (("kty", text "OKP") ∷ ("crv", text "Ed25519") ∷ ("x", text "pub") ∷ []);
  kty = "OKP";
}

abbrev jose_library : JoseLibrary
jose_library = record {
  parse_jws =
      λ proof. ok (record { typ = some "dpop+jwt"; jwk = some jwk; alg = some "EdDSA" } ∷ []);
  parse_signed =
      λ proof alg key. ok (record { issued_at = some (1_000 * second); jwt_id = some "j1" });
  digest = λ members. "thumb";
}

-- The subject token of this configuration is the name of its workload.
abbrev engine : Engine
engine = record {
  validate_workload =
      λ token cred_type. ok (record { id = "wimse://a/" ++ token; trust_domain = "a" });
  evaluate = λ input. ok granted;
  parse_actor = λ token. ok orchestrator_token;
  jose = jose_library;
  sign = λ token. ok ("signed for " ++ token.subject);
  issuer = "starfly";
  ttl = 300 * second;
  execution_ttl = execution_scope_ttl;
  dev_mode = false;
  revocation = some knows_rogue;
  counts_revocation_errors = true;
  secret_source = none;
  encryption_keys = none;
  jwe = λ claims key. none;
  counts_secret_delivery = false;
  sync_bus = some (λ signal. err "unreachable");
  notifies = true;
}

abbrev world : World
world = record {
  nonces = record { seen = []; max_age = 60 * second; ops = 0 };
  audit = [];
  flashed = [];
  revocation_errors = 0;
  deliveries = [];
  notices = [];
}

abbrev action : ExecutionScope
action = record {
  method = "POST";
  uri = "https://tools/search";
  exec_act = "search";
  input_hash = "h1";
  output_hash = "";
  target = "tools";
  workflow_id = "";
  payload_hash = "";
  nonce = "n1";
}

abbrev request_of : String → TokenExchangeRequest
request_of subject_token = record {
  grant_type = grant_type_token_exchange;
  subject_token = subject_token;
  subject_token_type = "urn:starfly:token-type:spiffe-svid";
  audience = "tools";
  scope = "search";
  actor_token = "orchestrator";
  dpop_proof = "proof";
  attestation = none;
  execution_scope = some action;
}

abbrev readings : Readings
readings = record {
  attestation_since = 1_000 * second;
  attestation_now = 1_000 * second;
  dpop_since = 1_000 * second;
  nonce_now = 1_000 * second;
  issued_at = 1_000 * second;
}

abbrev answer : TokenExchangeResponse
answer = record {
  access_token = "signed for wimse://a/agent";
  issued_token_type = "urn:ietf:params:oauth:token-type:jwt";
  token_type = "Bearer";
  expires_in = 30;
  scope = "search";
  delegation_depth = 1;
}

answered :
    exchange engine (request_of "agent") readings world
    ≡ (ok answer, (exchange engine (request_of "agent") readings world).1)
unfolding exchange admit issue conclude ◌>>=◌ ◌>>◌ check_grant pure raise credential_type
    map_cred_type lift check_subject check_revocation ask_revocation revocation_verdict
    check_attestation check_policy policy_verdict check_delegation map_exec delegation_of_actor
    delegation_of_context delegation_verdict validate_delegation check_caps first_not_held
    check_radius check_dpop validate_dpop first_header wrong_typ check_embedded_key
    check_proof_token compute_jwk_thumbprint check_execution validate_execution_scope use_nonce
    deliver_secrets deliver_from log announce notify response parse_delegation_context
    requested_caps requested_radius texts is_empty build_token check record_nonce tidy cleanup_due
    count_op token_ttl chain_length
answered = refl

refused :
    exchange engine (request_of "rogue") readings world
    ≡ (err subject_revoked, (exchange engine (request_of "rogue") readings world).1)
unfolding exchange admit issue conclude ◌>>=◌ ◌>>◌ check_grant pure raise credential_type
    map_cred_type lift check_subject check_revocation ask_revocation revocation_verdict
    check_attestation check_policy policy_verdict check_delegation map_exec delegation_of_actor
    delegation_of_context delegation_verdict validate_delegation check_caps first_not_held
    check_radius check_dpop validate_dpop first_header wrong_typ check_embedded_key
    check_proof_token compute_jwk_thumbprint check_execution validate_execution_scope use_nonce
    deliver_secrets deliver_from log announce notify response parse_delegation_context
    requested_caps requested_radius texts is_empty build_token
refused = refl

exchange-Lawful_example :
    (g : Grant) × Lawful engine (request_of "agent") readings world g
    × (engine.sign (build_token engine (request_of "agent") g readings.issued_at)
        ≡ ok answer.access_token)
exchange-Lawful_example =
    exchange-Lawful engine (request_of "agent") readings world
      (exchange engine (request_of "agent") readings world).1 answer answered

refused_silent_example : SameOutside world (exchange engine (request_of "rogue") readings world).1
refused_silent_example =
    refused_silent engine (request_of "rogue") readings world
      (exchange engine (request_of "rogue") readings world).1 subject_revoked refused

issued_once_example :
    count_issued (exchange engine (request_of "agent") readings world).1.audit
    ≡ count_issued world.audit + 1
issued_once_example =
    issued_once engine (request_of "agent") readings world
      (exchange engine (request_of "agent") readings world).1 answer answered

abbrev orchestrator : DelegationContext
orchestrator = record {
  parent_subject = "wimse://a/orchestrator";
  depth = pos 2;
  caps = "read" ∷ "write" ∷ [];
  blast_radius = "";
  obo_chain = nil;
}

abbrev grant_of : PolicyDecision → Grant
grant_of d = record {
  workload = agent;
  decision = d;
  delegation = some orchestrator;
  thumbprint = some "thumb";
  secrets_claim = "";
}

agent_named : agent.id ≢ ""
unfolding is_empty
agent_named = is_empty-false agent.id refl

parse-minted_example :
    parse_delegation_context (minted false (request_of "agent") (grant_of granted))
    ≡ ok (child_context (grant_of granted) orchestrator)
parse-minted_example =
    parse-minted false (request_of "agent") (grant_of granted) orchestrator refl agent_named

permitted : validate_delegation orchestrator ("read" ∷ []) "service:db" ≡ ok tt
unfolding validate_delegation check_caps first_not_held check_radius is_empty
permitted = refl

one_hop : Hops orchestrator 1 (child_context (grant_of granted) orchestrator)
unfolding requested_caps requested_radius texts
one_hop =
    hop start false (request_of "agent") (grant_of granted)
      (child_context (grant_of granted) orchestrator) refl agent_named permitted
      (parse-minted false (request_of "agent") (grant_of granted) orchestrator refl agent_named)

Hops-bounded_example :
    (left : ℕ) × ((child_context (grant_of granted) orchestrator).depth ≡ pos left)
    × (left + 1 ≡ 2)
    × (count_values (child_context (grant_of granted) orchestrator).obo_chain
        ≡ count_values orchestrator.obo_chain + 1)
Hops-bounded_example = Hops-bounded one_hop 2 refl

abbrev no_caps : PolicyDecision
no_caps = record { allowed = true; reason = ""; claims = [] }

two_levels : pos 2 ≢ pos 1
two_levels h = cc

dropped_caps_unrestricted_example :
    validate_delegation (child_context (grant_of no_caps) orchestrator) ("admin" ∷ []) "" ≡ ok tt
unfolding lookup
dropped_caps_unrestricted_example =
    dropped_caps_unrestricted false (request_of "agent") (grant_of no_caps) orchestrator
      (child_context (grant_of no_caps) orchestrator) refl agent_named
      (parse-minted false (request_of "agent") (grant_of no_caps) orchestrator refl agent_named)
      refl two_levels ("admin" ∷ [])

minted-verifies_example :
    verify_execution_scope (token_claims false (request_of "agent") (grant_of granted)) action
    ≡ ok tt
minted-verifies_example = minted-verifies false (request_of "agent") (grant_of granted) action refl

production_not_hardware_example :
    get_text "assurance_level" (token_claims false (request_of "agent") (grant_of granted))
    ≢ some "hardware"
production_not_hardware_example = production_not_hardware (request_of "agent") (grant_of granted)

abbrev index : InMemoryRevocationIndex
index = record {
  entries = ("wimse://a/rogue", new_entry 10 "wimse://a/rogue" "compromised" 0) ∷ [];
}

abbrev indexed : Engine
indexed = record engine { revocation = some (λ id. ok (is_revoked 40 id index)) }

indexed_answered :
    exchange indexed (request_of "agent") readings world
    ≡ (ok answer, (exchange indexed (request_of "agent") readings world).1)
unfolding exchange admit issue conclude ◌>>=◌ ◌>>◌ check_grant pure raise credential_type
    map_cred_type lift check_subject check_revocation ask_revocation revocation_verdict
    check_attestation check_policy policy_verdict check_delegation map_exec delegation_of_actor
    delegation_of_context delegation_verdict validate_delegation check_caps first_not_held
    check_radius check_dpop validate_dpop first_header wrong_typ check_embedded_key
    check_proof_token compute_jwk_thumbprint check_execution validate_execution_scope use_nonce
    deliver_secrets deliver_from log announce notify response parse_delegation_context
    requested_caps requested_radius texts is_empty build_token check record_nonce tidy cleanup_due
    count_op token_ttl chain_length is_revoked
indexed_answered = refl

rogue_revoked : revoke 10 "wimse://a/rogue" "compromised" 0 new_revocation_index ≡ ok index
unfolding revoke is_empty insert
rogue_revoked = refl

revoked_subject_refused_example :
    (g : Grant) × (indexed.sign (build_token indexed (request_of "agent") g readings.issued_at)
      ≡ ok answer.access_token)
    × (g.workload.id ≢ "wimse://a/rogue")
revoked_subject_refused_example =
    revoked_subject_refused indexed (request_of "agent") readings world
      (exchange indexed (request_of "agent") readings world).1 answer 10 0 40 "wimse://a/rogue"
      "compromised" new_revocation_index index index rogue_revoked unused (inl refl) refl
      indexed_answered
