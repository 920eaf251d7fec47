-- ===== src/Exchange/Engine/Run.antt =====
-- Exchange itself: the checks, the token, and what is told of it, pkg/exchange/engine.go.
use project_starfly_fabrics.Prelude.{
  ℕ, ◌+◌, ◌/◌, String, Bool, Option, none, some, [], ◌∷◌, if◌then◌else◌, Result, ok, err,
}
use project_starfly_fabrics.Claims.{count_values}
use project_starfly_fabrics.Exchange.Request.{TokenExchangeRequest}
use project_starfly_fabrics.Exchange.Nonce.{second}
use project_starfly_fabrics.Exchange.CredType.{subject_token_type_jwt}
use project_starfly_fabrics.Exchange.Delegation.{DelegationContext}
use project_starfly_fabrics.Exchange.Engine.Types.{
  Engine, Exec, WorkloadIdentity, Signal, because, no_reason, signing_failed, workload_validation,
  pure, log, lift, ◌>>=◌, ◌>>◌,
}
use project_starfly_fabrics.Exchange.Engine.Events.{allowed_event, sync_event}
use project_starfly_fabrics.Exchange.Engine.Gates.{
  Readings, check_grant, credential_type, check_subject, check_revocation, check_attestation,
  check_policy, check_delegation, check_dpop, check_execution,
}
use project_starfly_fabrics.Exchange.Engine.Delivery.{deliver_secrets}
use project_starfly_fabrics.Exchange.Engine.Mint.{Grant, build_token, token_ttl}

pub record TokenExchangeResponse : Type 0 where
  pub access_token : String
  pub issued_token_type : String
  pub token_type : String
  pub expires_in : ℕ
  pub scope : String
  pub delegation_depth : ℕ

unfoldable pub chain_length : Option DelegationContext → ℕ
unfolding count_values
chain_length none = 0
chain_length (some dc) = count_values dc.obo_chain + 1

-- The identity and the policy decide, in this order.
unfoldable pub admit : Engine → TokenExchangeRequest → Readings → Exec Grant
admit e req t = do
  check_grant req.grant_type
  cred_type ← credential_type req.subject_token_type
  workload ← lift workload_validation (e.validate_workload req.subject_token cred_type)
  check_subject workload.id
  check_revocation e workload.id req.audience
  check_attestation e workload.id req.audience req.attestation t
  decision ← check_policy e cred_type workload req
  delegation ← check_delegation e workload.id req.audience decision req.actor_token
  thumbprint ← check_dpop e req.dpop_proof t
  check_execution req.execution_scope t
  secrets_claim ← deliver_secrets e workload.id decision
  pure (record {
    workload = workload;
    decision = decision;
    delegation = delegation;
    thumbprint = thumbprint;
    secrets_claim = secrets_claim;
  })

unfoldable pub identity_signal : WorkloadIdentity → String → Signal
identity_signal workload audience = record {
  kind = "identity_event";
  payload =
      ("workload_id", workload.id)
      ∷ ("audience", audience)
      ∷ ("trust_domain", workload.trust_domain)
      ∷ [];
}

unfoldable pub flash :
    Signal → (Signal → Result String (Unit {0})) → Exec (Result String (Unit {0}))
flash sig bus w = (ok (bus sig), record w { flashed = sig ∷ w.flashed })

unfoldable pub log_flash : WorkloadIdentity → String → Result String (Unit {0}) → Exec (Unit {0})
log_flash workload audience (err msg) =
    log (sync_event "signal_flash_failed" workload.id audience (because msg))
log_flash workload audience (ok _) =
    log (sync_event "signal_flashed" workload.id audience no_reason)

-- A failing bus does not fail the exchange.
unfoldable pub announce :
    WorkloadIdentity → String → Option (Signal → Result String (Unit {0})) → Exec (Unit {0})
unfolding identity_signal flash log_flash
announce workload audience none = pure tt
announce workload audience (some bus) = do
  sent ← flash (identity_signal workload audience) bus
  log_flash workload audience sent

unfoldable pub notify : Bool → WorkloadIdentity → String → Exec (Unit {0})
notify wanted workload audience w = (
  ok tt,
  if wanted
      then record w {
        notices = record { subject = workload.id; target = audience; result = "ok" } ∷ w.notices;
      }
      else w,
)

unfoldable pub response : Engine → TokenExchangeRequest → Grant → String → TokenExchangeResponse
response e req g signed = record {
  access_token = signed;
  issued_token_type = subject_token_type_jwt;
  token_type = "Bearer";
  expires_in = token_ttl e req / second;
  scope = req.scope;
  delegation_depth = chain_length g.delegation;
}

-- What is told of a signed token, and the answer.
unfoldable pub conclude :
    Engine → TokenExchangeRequest → Grant → String → Exec TokenExchangeResponse
unfolding announce notify response
conclude e req g signed = do
  log (allowed_event g.workload.id req.audience g.secrets_claim)
  announce g.workload req.audience e.sync_bus
  notify e.notifies g.workload req.audience
  pure (response e req g signed)

-- The token is signed first: an error there leaves no trace.
unfoldable pub issue : Engine → TokenExchangeRequest → Readings → Grant → Exec TokenExchangeResponse
issue e req t g = do
  signed ← lift signing_failed (e.sign (build_token e req g t.issued_at))
  conclude e req g signed

unfoldable pub exchange : Engine → TokenExchangeRequest → Readings → Exec TokenExchangeResponse
exchange e req t = do g ← admit e req t; issue e req t g
