-- ===== src/Toolcall/Verifier/Authorized.antt =====
-- What the acceptance of a tool call establishes.
use project_starfly_fabrics.Prelude.{
  ℕ, String, ◌≡◌, subst, ◌≢◌, true, Option, none, some, is_empty, Result, ok, refuse_if, bind-elim,
}
use project_starfly_fabrics.Exchange.Engine.Types.{PolicyDecision}
use project_starfly_fabrics.Signals.Revocation.{RevocationEntry}
use project_starfly_fabrics.Toolcall.Types.{ToolCallRequest, VerifiedIdentity}
use project_starfly_fabrics.Toolcall.Registry.{ToolEntry, Registry, get}
use project_starfly_fabrics.Toolcall.Verifier.Identity.{Token, extract_identity, first_audience}
use project_starfly_fabrics.Toolcall.Verifier.Laws.{Bound}
use project_starfly_fabrics.Toolcall.Verifier.Phases.{
  Presented, Constrained, identify-Presented, authorize-ConstrainedBy, check_revocation-none,
  check_policy-allowed, check_execution-Bound,
}
use project_starfly_fabrics.Toolcall.Verifier.{
  ToolPolicyInput, VerifierConfig, identify, authorize, check_revocation, tool_policy_input,
  check_policy, check_execution, verify,
}

-- What a registered tool demands of the identity.
pub record Admitted (cfg : VerifierConfig) (req : ToolCallRequest) (token : Token)
    (identity : VerifiedIdentity) (tool : ToolEntry) : Type 0 where
  pub constrained : Constrained req (first_audience token) identity tool
  pub bound : Bound cfg.input_hash tool req.request_body identity.execution

pub record Authorized (cfg : VerifierConfig) (now : ℕ) (req : ToolCallRequest)
    (identity : VerifiedIdentity) : Type 0 where
  pub token : Token
  pub presented : Presented cfg req.token token
  pub extracted : identity ≡ record (extract_identity token req.protocol) {
    tool_id = identity.tool_id;
    resource = identity.resource;
  }
  pub admitted :
      (registry : Registry)
      → cfg.registry ≡ some registry
      → req.tool_id ≢ ""
      → (tool : ToolEntry) × (get req.tool_id registry ≡ some tool)
        × Admitted cfg req token identity tool
  pub unrevoked :
      (is_revoked : String → Option RevocationEntry × Option String)
      → cfg.revocation_checker ≡ some is_revoked
      → (is_revoked identity.subject).0 ≡ none
  pub permitted :
      (evaluate : ToolPolicyInput → Result String PolicyDecision)
      → cfg.policy ≡ some evaluate
      → (d : PolicyDecision) × (evaluate (tool_policy_input now req identity (first_audience token))
          ≡ ok d)
        × (d.allowed ≡ true)

-- A tool call is accepted only under a token that names its issuer and, outside development mode,
-- is verified under that issuer's key. A registered tool accepts the protocol of the call, is the
-- token's audience, and gets every capability that it requires, a blast radius within its own
-- unless either is unset, and the execution binding that it demands. The subject is not reported
-- as revoked, and the policy allows the call.
pub verify-Authorized :
    (cfg : VerifierConfig) (now : ℕ) (req : ToolCallRequest) (identity : VerifiedIdentity)
    → verify cfg now req ≡ ok identity
    → Authorized cfg now req identity
unfolding verify
verify-Authorized cfg now req identity h =
    bind-elim (refuse_if (is_empty req.token) _) _ h λ _ _ rest.
      bind-elim (identify cfg req.token) _ rest λ token identified rest.
        bind-elim
          (authorize cfg.registry req (extract_identity token req.protocol) (first_audience token))
          _ rest
          λ found authorized rest.
            bind-elim (check_revocation cfg.revocation_checker found.subject) _ rest
              λ _ unrevoked rest.
                bind-elim
                  (check_policy cfg.policy (tool_policy_input now req found (first_audience token)))
                  _ rest
                  λ _ permitted rest.
                    bind-elim (check_execution cfg cfg.registry req found) _ rest
                      λ _ bound returned.
                        let same : found ≡ identity = cc in
                        let (constrained, filled) =
                          authorize-ConstrainedBy cfg.registry req _ found _ authorized in
                        subst (Authorized cfg now req) same (record {
                          token = token;
                          presented = identify-Presented cfg req.token token identified;
                          extracted = filled;
                          admitted = λ r e n.
                              let (tool, known, c) = constrained r e n in
                              (
                                tool,
                                known,
                                record {
                                  constrained = c;
                                  bound =
                                      check_execution-Bound cfg req found r tool
                                        (subst (λ g. check_execution cfg g req found ≡ ok tt) e
                                          bound)
                                        n known;
                                },
                              );
                          unrevoked = check_revocation-none _ _ unrevoked;
                          permitted = check_policy-allowed _ _ permitted;
                        })
