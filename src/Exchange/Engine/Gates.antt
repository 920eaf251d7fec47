-- ===== src/Exchange/Engine/Gates.antt =====
-- The checks that an exchange passes before a token is built, pkg/exchange/engine.go.
use project_starfly_fabrics.Signals.Revocation.{RevocationEntry}
use project_starfly_fabrics.Prelude.{
  ℕ, ◌+◌, String, ◌==◌, Bool, Option, none, some, List, [], ◌∷◌, ltb, is_empty, if◌then◌else◌,
  Result, ok, err,
}
use package.text.Mathlib.Text.{starts_with}
use Prim.Native.String.{◌++◌}
use project_starfly_fabrics.Claims.{text, Claims, get_text, get_array, texts_or_none}
use project_starfly_fabrics.Exchange.Request.{
  ExecutionScope, ServerAttestation, ServerAttestWorkload, TokenExchangeRequest,
}
use project_starfly_fabrics.Exchange.Delegation.{
  ActorToken, DelegationContext, DelegationError, parse_delegation_context, validate_delegation,
}
use project_starfly_fabrics.Exchange.Nonce.{check}
use project_starfly_fabrics.Exchange.Scope.{validate_execution_scope}
use project_starfly_fabrics.Exchange.Attestation.{AttestationError, validate_attestation}
use project_starfly_fabrics.Exchange.CredType.{map_cred_type}
use project_starfly_fabrics.Exchange.Dpop.{validate_dpop}
use project_starfly_fabrics.Exchange.Engine.Types.{
  ExchangeError, invalid_grant_type, unsupported_token, invalid_subject, subject_revoked,
  policy_failed, policy_denied, actor_token_invalid, attestation_invalid, delegation_denied,
  dpop_invalid, scope_invalid, nonce_replayed, WorkloadIdentity, PolicyDecision, because,
  error_text, no_reason, Engine, Exec, pure, raise, log, lift, lift_with, ◌>>=◌, ◌>>◌,
}
use project_starfly_fabrics.Exchange.Engine.Events.{exchange_event, denied_event}
use project_starfly_fabrics.Exchange.Engine.Policy.{attestation_assurance, policy_input}

-- The clock as the steps of one exchange read it.
pub record Readings : Type 0 where
  pub attestation_since : ℕ
  pub attestation_now : ℕ
  pub dpop_since : ℕ
  pub nonce_now : ℕ
  pub issued_at : ℕ

abbrev pub grant_type_token_exchange : String
grant_type_token_exchange = "urn:ietf:params:oauth:grant-type:token-exchange"

unfoldable pub check_grant : String → Exec (Unit {0})
check_grant grant_type =
    if grant_type == grant_type_token_exchange then pure tt else raise invalid_grant_type

abbrev pub or_unsupported : Option String → Exec String
or_unsupported none = raise unsupported_token
or_unsupported (some c) = pure c

unfoldable pub credential_type : String → Exec String
credential_type token_type = or_unsupported (map_cred_type token_type)

-- strings.Count of the prefix, which does not overlap itself.
unfoldable pub count_prefix : String → ℕ
count_prefix String.[] = 0
count_prefix (String.◌∷◌ c s) =
    let rest = count_prefix s in if starts_with (String.◌∷◌ c s) "wimse://" then rest + 1 else rest

unfoldable pub check_subject : String → Exec (Unit {0})
unfolding count_prefix
check_subject id = if ltb 1 (count_prefix id) then raise invalid_subject else pure tt

revocation_reason : String → String
revocation_reason reason =
    if is_empty reason then "subject identity revoked" else "subject identity revoked: " ++ reason

unfoldable pub count_revocation_error : Bool → Exec (Unit {0})
count_revocation_error counts w =
    (ok tt, if counts then record w { revocation_errors = w.revocation_errors + 1 } else w)

-- A failing check lets the exchange proceed, and is logged.
unfoldable pub revocation_verdict :
    Engine → String → String → Result String (Option RevocationEntry) → Exec (Unit {0})
unfolding revocation_reason count_revocation_error
revocation_verdict e id audience (err msg) = do
  log (
      exchange_event "revocation_check_failed" id audience "allowed"
        (because ("revocation check failed, failing open: " ++ msg)))
  count_revocation_error e.counts_revocation_errors
revocation_verdict e id audience (ok none) = pure tt
revocation_verdict e id audience (ok (some entry)) = do
  log (denied_event id audience (because (revocation_reason entry.reason)))
  raise subject_revoked

unfoldable pub ask_revocation :
    Engine
    → String
    → String
    → Option (String → Result String (Option RevocationEntry))
    → Exec (Unit {0})
unfolding revocation_verdict
ask_revocation e id audience none = pure tt
ask_revocation e id audience (some is_revoked) = revocation_verdict e id audience (is_revoked id)

unfoldable pub check_revocation : Engine → String → String → Exec (Unit {0})
unfolding ask_revocation
check_revocation e id audience = ask_revocation e id audience e.revocation

hash_entry : Option ServerAttestWorkload → Claims
hash_entry none = []
hash_entry (some wl) =
    if is_empty wl.binary_hash then [] else ("binary_hash", text wl.binary_hash) ∷ []

attestation_metadata : Bool → ServerAttestation → Claims
unfolding hash_entry
attestation_metadata dev_mode att =
    ("source", text att.platform.source)
    ∷ ("assurance_level", text (attestation_assurance dev_mode att))
    ∷ ("agent_version", text att.agent_version)
    ∷ hash_entry att.workload

unfoldable pub attestation_verdict :
    Engine
    → String
    → String
    → ServerAttestation
    → Result AttestationError (Unit {0})
    → Exec (Unit {0})
unfolding attestation_metadata
attestation_verdict e id audience att (err x) = do
  log (
      exchange_event "attestation_invalid" id audience "denied"
        (error_text (attestation_invalid x)))
  raise (attestation_invalid x)
attestation_verdict e id audience att (ok _) =
    log (record (exchange_event "attestation_evaluated" id audience "allowed" no_reason) {
      metadata = attestation_metadata e.dev_mode att;
    })

unfoldable pub check_attestation :
    Engine → String → String → Option ServerAttestation → Readings → Exec (Unit {0})
unfolding attestation_verdict
check_attestation e id audience none t = pure tt
check_attestation e id audience (some att) t =
    attestation_verdict e id audience att
      (validate_attestation att 0 t.attestation_since t.attestation_now)

unfoldable pub policy_verdict : String → String → Result String PolicyDecision → Exec PolicyDecision
policy_verdict id audience (err msg) = raise (policy_failed msg)
policy_verdict id audience (ok d) =
    if d.allowed
    then pure d
    else do log (denied_event id audience (because d.reason)); raise (policy_denied d.reason)

unfoldable pub check_policy :
    Engine → String → WorkloadIdentity → TokenExchangeRequest → Exec PolicyDecision
unfolding policy_verdict
check_policy e cred_type workload req =
    policy_verdict workload.id req.audience
      (e.evaluate (policy_input e.dev_mode cred_type workload req))

-- The capabilities and the radius that the policy grants are what the child asks for.
unfoldable pub requested_caps : PolicyDecision → List String
unfolding get_array
requested_caps d = texts_or_none (get_array "caps" d.claims)

abbrev text_or_empty : Option String → String
text_or_empty none = ""
text_or_empty (some s) = s

unfoldable pub requested_radius : PolicyDecision → String
unfolding get_text
requested_radius d = text_or_empty (get_text "blast_radius" d.claims)

unfoldable pub deny : {A : Type 0} → String → String → ExchangeError → Exec A
deny id audience x = do log (denied_event id audience (error_text x)); raise x

unfoldable pub delegation_verdict :
    String → String → DelegationContext → Result DelegationError (Unit {0}) → Exec DelegationContext
unfolding deny
delegation_verdict id audience dc (err x) = deny id audience (delegation_denied x)
delegation_verdict id audience dc (ok _) = pure dc

-- A token without a subject is refused with no audit event.
unfoldable pub delegation_of_context :
    String
    → String
    → PolicyDecision
    → Result DelegationError DelegationContext
    → Exec DelegationContext
unfolding delegation_verdict
delegation_of_context id audience d (err x) = raise (delegation_denied x)
delegation_of_context id audience d (ok dc) =
    delegation_verdict id audience dc
      (validate_delegation dc (requested_caps d) (requested_radius d))

unfoldable pub delegation_of_actor :
    String → String → PolicyDecision → Result String ActorToken → Exec DelegationContext
unfolding delegation_of_context deny
delegation_of_actor id audience d (err msg) = deny id audience (actor_token_invalid msg)
delegation_of_actor id audience d (ok actor) =
    delegation_of_context id audience d (parse_delegation_context actor)

unfoldable pub map_exec : {A B : Type 0} → (A → B) → Exec A → Exec B
map_exec f m = m >>= λ a. pure (f a)

unfoldable pub check_delegation :
    Engine → String → String → PolicyDecision → String → Exec (Option DelegationContext)
unfolding delegation_of_actor map_exec
check_delegation e id audience d actor_token =
    if is_empty actor_token
    then pure none
    else map_exec some (delegation_of_actor id audience d (e.parse_actor actor_token))

unfoldable pub check_dpop : Engine → String → Readings → Exec (Option String)
unfolding map_exec
check_dpop e proof t =
    if is_empty proof
    then pure none
    else map_exec some (lift dpop_invalid (validate_dpop e.jose proof t.dpop_since))

unfoldable pub use_nonce : ℕ → String → Exec (Unit {0})
use_nonce now nonce w =
    let (r, nonces) = check now nonce w.nonces in
    (lift_with nonce_replayed r, record w { nonces = nonces })

unfoldable pub check_execution : Option ExecutionScope → Readings → Exec (Unit {0})
unfolding use_nonce
check_execution none t = pure tt
check_execution (some scope) t = do
  lift scope_invalid (validate_execution_scope scope)
  use_nonce t.nonce_now scope.nonce
