-- ===== src/Toolcall/Verifier/Phases.antt =====
-- What the phases of the pipeline establish where they pass.
use project_starfly_fabrics.Prelude.{
  String, ◌==◌, eq_iff, ◌≡◌, refl, subst, ◌≢◌, ◌⊎◌, inl, inr, Bool, true, false, not, Option, none,
  some, In, is_empty, is_empty_iff, is_empty-false, ne-is_empty, Bool-cases, if◌then◌else◌, Result,
  ok, err, refuse_if, bind-elim, refuse_if-ok,
}
use project_starfly_fabrics.Exchange.Engine.Types.{PolicyDecision}
use project_starfly_fabrics.Signals.Revocation.{RevocationEntry}
use project_starfly_fabrics.Toolcall.Types.{ToolCallRequest, VerifiedIdentity}
use project_starfly_fabrics.Toolcall.Registry.{ToolEntry, Registry, supports_protocol, get}
use project_starfly_fabrics.Toolcall.Verifier.Identity.{Token}
use project_starfly_fabrics.Toolcall.Verifier.Checks.{check_caps, check_radius}
use project_starfly_fabrics.Toolcall.Verifier.Laws.{
  Accepts, Fits, Bound, check_caps-ok, check_radius-ok, supports_protocol-Accepts,
  verify_exec_binding-Bound,
}
use project_starfly_fabrics.Toolcall.Verifier.{
  PublicKey, infer_alg, ToolPolicyInput, VerifierConfig, or_invalid, issuer_of, verify_signature,
  identify, resource_of, authorize_tool, authorize_found, authorize, refuse_revoked,
  check_revocation, policy_verdict, check_policy, bind_found, check_execution,
}

-- The token was decoded, names its issuer, and outside development mode was verified under the key
-- that the resolver gives for that issuer.
pub data Presented (cfg : VerifierConfig) (raw : String) (token : Token) : Type 0 where
  decoded :
      cfg.dev_mode ≡ true
      → cfg.parse_insecure raw ≡ ok token
      → issuer_of token ≢ ""
      → Presented cfg raw token
  verified :
      (insecure : Token) (key : PublicKey)
      → cfg.dev_mode ≡ false
      → cfg.parse_insecure raw ≡ ok insecure
      → issuer_of insecure ≢ ""
      → cfg.resolve_key (issuer_of insecure) "" ≡ ok key
      → cfg.parse raw (infer_alg key) key ≡ ok token
      → Presented cfg raw token

-- The constraints of a tool but for its execution binding.
pub record Constrained (req : ToolCallRequest) (aud : String) (identity : VerifiedIdentity)
    (tool : ToolEntry) : Type 0 where
  pub accepts : Accepts tool req.protocol
  pub audience : aud ≡ resource_of tool
  pub capable : (c : String) → In c tool.required_capabilities → In c identity.capabilities
  pub contained :
      (tool.max_blast_radius ≡ "")
      ⊎ (identity.blast_radius ≡ "")
      ⊎ Fits identity.blast_radius tool.max_blast_radius

or_invalid-ok : {A : Type 0} (r : Result String A) (a : A) → or_invalid r ≡ ok a → r ≡ ok a
or_invalid-ok (ok x) a h = cc
or_invalid-ok (err e) a h = cc

pub identify-Presented :
    (cfg : VerifierConfig) (raw : String) (token : Token)
    → identify cfg raw ≡ ok token
    → Presented cfg raw token
unfolding identify verify_signature
identify-Presented cfg raw token h =
    bind-elim (or_invalid (cfg.parse_insecure raw)) _ h λ insecure p rest.
      bind-elim (refuse_if (is_empty (issuer_of insecure)) _) _ rest λ _ named rest.
        let issuer_set = is_empty-false (issuer_of insecure) (refuse_if-ok _ _ named) in
        elim (Bool-cases cfg.dev_mode) [
          | inl dev ↦
              let same : insecure ≡ token = cc (rw (dev, if◌then◌else◌) at rest) in
              subst (Presented cfg raw) same (decoded dev (or_invalid-ok _ _ p) issuer_set)
          | inr production ↦
              bind-elim (or_invalid (cfg.resolve_key (issuer_of insecure) "")) _
                (rw (production, if◌then◌else◌) at rest)
                λ key resolved parsed.
                  verified insecure key production (or_invalid-ok _ _ p) issuer_set
                    (or_invalid-ok _ _ resolved) (or_invalid-ok _ _ parsed)
        ]

unnegated : (b : Bool) → not b ≡ false → b ≡ true
unnegated true h = refl
unnegated false h = cc

abbrev pub Filled : VerifiedIdentity → VerifiedIdentity → Type 0
Filled identity base =
    identity ≡ record base { tool_id = identity.tool_id; resource = identity.resource }

authorize_tool-Constrained :
    (req : ToolCallRequest) (base identity : VerifiedIdentity) (aud : String) (tool : ToolEntry)
    → authorize_tool req base aud tool ≡ ok identity
    → Constrained req aud identity tool × Filled identity base
unfolding authorize_tool
authorize_tool-Constrained req base identity aud tool h =
    bind-elim (refuse_if (not (supports_protocol tool req.protocol)) _) _ h λ _ supported rest.
      bind-elim (refuse_if (not (aud == resource_of tool)) _) _ rest λ _ audience rest.
        bind-elim (check_caps base.capabilities tool.required_capabilities) _ rest λ _ caps rest.
          bind-elim (check_radius base.blast_radius tool.max_blast_radius) _ rest λ _ radius filled.
            let same : record base { tool_id = req.tool_id; resource = resource_of tool }
                ≡ identity =
              cc in
            subst (λ v. Constrained req aud v tool × Filled v base) same
              (
                record {
                  accepts =
                      supports_protocol-Accepts tool req.protocol
                        (unnegated _ (refuse_if-ok _ _ supported));
                  audience = (eq_iff aud _).0 (unnegated _ (refuse_if-ok _ _ audience));
                  capable = check_caps-ok _ _ caps;
                  contained = check_radius-ok _ _ radius;
                },
                refl,
              )

same-Filled : (base identity : VerifiedIdentity) → base ≡ identity → Filled identity base
same-Filled base identity e = subst (λ v. Filled v base) e refl

abbrev pub ConstrainedBy : Option Registry → ToolCallRequest → String → VerifiedIdentity → Type 0
ConstrainedBy registry req aud identity =
    (r : Registry)
    → registry ≡ some r
    → req.tool_id ≢ ""
    → (tool : ToolEntry) × (get req.tool_id r ≡ some tool) × Constrained req aud identity tool

found-Constrained :
    (req : ToolCallRequest) (base identity : VerifiedIdentity) (aud : String)
    (found : Option ToolEntry)
    → authorize_found req base aud found ≡ ok identity
    → ((tool : ToolEntry) × (found ≡ some tool) × Constrained req aud identity tool)
      × Filled identity base
unfolding authorize_found
found-Constrained req base identity aud none h = cc
found-Constrained req base identity aud (some tool) h =
    let (constrained, filled) = authorize_tool-Constrained req base identity aud tool h in
    ((tool, refl, constrained), filled)

pub authorize-ConstrainedBy :
    (registry : Option Registry) (req : ToolCallRequest) (base identity : VerifiedIdentity)
    (aud : String)
    → authorize registry req base aud ≡ ok identity
    → ConstrainedBy registry req aud identity × Filled identity base
unfolding authorize
authorize-ConstrainedBy none req base identity aud h = (λ r e. cc, same-Filled base identity cc)
authorize-ConstrainedBy (some r) req base identity aud h =
    elim (Bool-cases (is_empty req.tool_id)) [
      | inl unnamed ↦ (
        λ r' e n. absurd (n ((is_empty_iff req.tool_id).0 unnamed)),
        same-Filled base identity (cc (rw (unnamed, if◌then◌else◌) at h)),
      )
      | inr named ↦
          let (constrained, filled) =
            found-Constrained req base identity aud (get req.tool_id r)
              (rw (named, if◌then◌else◌) at h) in
          (
            λ r' e n.
                let same : r ≡ r' = cc in
                subst
                  (λ (v : Registry).
                    (tool : ToolEntry) × (get req.tool_id v ≡ some tool)
                    × Constrained req aud identity tool)
                  same constrained,
            filled,
          )
    ]

refuse_revoked-none : (entry : Option RevocationEntry) → refuse_revoked entry ≡ ok tt → entry ≡ none
unfolding refuse_revoked
refuse_revoked-none none h = refl
refuse_revoked-none (some entry) h = cc

pub check_revocation-none :
    (checker : Option (String → Option RevocationEntry × Option String)) (subject : String)
    → check_revocation checker subject ≡ ok tt
    → (is_revoked : String → Option RevocationEntry × Option String) → checker ≡ some is_revoked
    → (is_revoked subject).0 ≡ none
unfolding check_revocation
check_revocation-none none subject h f e = cc
check_revocation-none (some g) subject h f e =
    let same : g ≡ f = cc in
    subst (λ (v : String → Option RevocationEntry × Option String). (v subject).0 ≡ none) same
      (refuse_revoked-none _ h)

policy_verdict-allowed :
    (r : Result String PolicyDecision)
    → policy_verdict r ≡ ok tt
    → (d : PolicyDecision) × (r ≡ ok d) × (d.allowed ≡ true)
unfolding policy_verdict
policy_verdict-allowed (ok d) h = (d, refl, unnegated _ (refuse_if-ok _ _ h))
policy_verdict-allowed (err e) h = cc

pub check_policy-allowed :
    (policy : Option (ToolPolicyInput → Result String PolicyDecision)) (input : ToolPolicyInput)
    → check_policy policy input ≡ ok tt
    → (evaluate : ToolPolicyInput → Result String PolicyDecision) → policy ≡ some evaluate
    → (d : PolicyDecision) × (evaluate input ≡ ok d) × (d.allowed ≡ true)
unfolding check_policy
check_policy-allowed none input h f e = cc
check_policy-allowed (some g) input h f e =
    let same : g ≡ f = cc in
    subst
      (λ (v : ToolPolicyInput → Result String PolicyDecision).
        (d : PolicyDecision) × (v input ≡ ok d) × (d.allowed ≡ true))
      same (policy_verdict-allowed _ h)

pub check_execution-Bound :
    (cfg : VerifierConfig) (req : ToolCallRequest) (identity : VerifiedIdentity) (r : Registry)
    (tool : ToolEntry)
    → check_execution cfg (some r) req identity ≡ ok tt
    → req.tool_id ≢ ""
    → get req.tool_id r ≡ some tool
    → Bound cfg.input_hash tool req.request_body identity.execution
unfolding check_execution bind_found
check_execution-Bound cfg req identity r tool h n e =
    verify_exec_binding-Bound cfg.input_hash identity.execution tool req.request_body
      (rw (ne-is_empty req.tool_id n, if◌then◌else◌, e, bind_found) at h)
