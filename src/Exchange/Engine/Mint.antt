-- ===== src/Exchange/Engine/Mint.antt =====
-- Building the WIMSE token, pkg/exchange/engine.go. Setting a private claim of a JWT does not fail.
pub mod Lookup
pub mod Parse
pub mod Bound
use project_starfly_fabrics.Prelude.{
  ℕ, ◌+◌, String, Bool, true, false, Option, none, some, List, [], ◌∷◌, is_empty, is_some,
  if◌then◌else◌,
}
use project_starfly_fabrics.Prelude.Int.{ℤ, pos, negsuc, sub_one, is_negative}
use project_starfly_fabrics.Dict.{Dict, lookup, insert}
use project_starfly_fabrics.Claims.{Value, Fields, text, number, array, object, end, field, Claims}
use project_starfly_fabrics.Exchange.Request.{
  ExecutionScope, ServerAttestation, ServerAttestWorkload, TokenExchangeRequest,
}
use project_starfly_fabrics.Exchange.Delegation.{DelegationContext, build_obo_chain}
use project_starfly_fabrics.Exchange.Scope.{wanted_hash}
use project_starfly_fabrics.Exchange.Engine.Types.{
  Engine, WorkloadIdentity, PolicyDecision, WimseToken,
}
use project_starfly_fabrics.Exchange.Engine.Policy.{attestation_assurance, set_text, is_end}

-- What the checks of an exchange leave for the token.
pub record Grant : Type 0 where
  pub workload : WorkloadIdentity
  pub decision : PolicyDecision
  pub delegation : Option DelegationContext
  pub thumbprint : Option String
  pub secrets_claim : String

-- `if v, ok := from[k]; ok { token.Set(k, v) }`
pub copy_value : String → Option Value → Claims → Claims
copy_value k none c = c
copy_value k (some v) c = insert k v c

unfoldable pub copy_claim : String → Claims → Claims → Claims
unfolding copy_value
copy_claim k from c = copy_value k (lookup k from) c

-- `if v != "" { token.Set(k, v) }`
unfoldable pub set_claim : String → String → Claims → Claims
set_claim k v c = if is_empty v then c else insert k (text v) c

-- A depth of -1 is unrestricted, and stays so.
unfoldable pub child_depth : ℤ → ℤ
child_depth depth = if is_negative depth then negsuc 0 else sub_one depth

pub set_depth : ℤ → Claims → Claims
set_depth depth c = if is_negative depth then c else insert "delegation_depth" (number depth) c

unfoldable pub set_delegation : Option DelegationContext → Claims → Claims → Claims
unfolding set_depth
set_delegation none granted c = copy_claim "delegation_depth" granted c
set_delegation (some dc) granted c =
    insert "obo" (array (build_obo_chain dc)) (set_depth (child_depth dc.depth) c)

pub set_confirmation : Option String → Claims → Claims
set_confirmation none c = c
set_confirmation (some jkt) c = insert "cnf" (object (field "jkt" (text jkt) end)) c

pub minted_workload : Option ServerAttestWorkload → Fields
minted_workload none = end
minted_workload (some wl) =
    let fs = set_text "binary_hash" wl.binary_hash (set_text "namespace" wl.namespace end) in
    if is_end fs then end else field "workload" (object fs) end

pub set_attestation : Bool → Option ServerAttestation → Claims → Claims
unfolding minted_workload
set_attestation dev_mode none c = c
set_attestation dev_mode (some att) c =
    insert "attestation"
      (object (
        field "platform"
          (object (
            field "source" (text att.platform.source)
              (field "cred_type" (text att.platform.cred_type) end)))
          (field "agent_version" (text att.agent_version) (minted_workload att.workload))))
      (insert "assurance_level" (text (attestation_assurance dev_mode att)) c)

unfoldable pub set_execution : Option ExecutionScope → Claims → Claims
set_execution none c = c
set_execution (some scope) c = insert "nonce" (text scope.nonce) (
    set_claim "wid" scope.workflow_id (
      set_claim "target" scope.target (
        set_claim "exec_act" scope.exec_act (
          set_claim "inp_hash" (wanted_hash scope)
            (insert "htu" (text scope.uri) (insert "htm" (text scope.method) c))))))

-- The trust domain, and what the policy grants.
pub policy_claims : Grant → Claims
policy_claims g =
    copy_claim "blast_radius" g.decision.claims
      (copy_claim "caps" g.decision.claims (("td", text g.workload.trust_domain) ∷ []))

unfoldable pub token_claims : Bool → TokenExchangeRequest → Grant → Claims
unfolding policy_claims set_confirmation set_attestation
token_claims dev_mode req g = set_claim "secrets" g.secrets_claim (
    set_execution req.execution_scope (
      set_attestation dev_mode req.attestation (
        set_confirmation g.thumbprint
          (set_delegation g.delegation g.decision.claims (policy_claims g)))))

-- An execution-scoped token is short-lived.
unfoldable pub token_ttl : Engine → TokenExchangeRequest → ℕ
token_ttl e req = if is_some req.execution_scope then e.execution_ttl else e.ttl

unfoldable pub build_token : Engine → TokenExchangeRequest → Grant → ℕ → WimseToken
build_token e req g now = record {
  subject = g.workload.id;
  issuer = e.issuer;
  audience = req.audience;
  issued_at = now;
  expiration = now + token_ttl e req;
  claims = token_claims e.dev_mode req g;
}
