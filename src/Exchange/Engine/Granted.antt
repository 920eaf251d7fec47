-- ===== src/Exchange/Engine/Granted.antt =====
-- What a successful exchange has established: all the checks together.
use project_starfly_fabrics.Signals.Revocation.{RevocationEntry}
use project_starfly_fabrics.Prelude.{
  ◌≤◌, String, ◌≡◌, ◌≢◌, true, Option, some, arith, Result, ok, ap, sym, subst, ◌∙◌,
}
use project_starfly_fabrics.Exchange.Request.{
  ExecutionScope, ServerAttestation, TokenExchangeRequest,
}
use project_starfly_fabrics.Exchange.Delegation.{DelegationContext}
use project_starfly_fabrics.Exchange.Nonce.{NonceTracker, check}
use project_starfly_fabrics.Exchange.Scope.{validate_execution_scope}
use project_starfly_fabrics.Exchange.Attestation.{validate_attestation}
use project_starfly_fabrics.Exchange.CredType.{map_cred_type}
use project_starfly_fabrics.Exchange.Dpop.{validate_dpop}
use project_starfly_fabrics.Exchange.Engine.Types.{
  Engine, World, workload_validation, signing_failed, >>=-ok, >>=-elim, pure, log, lift, ◌>>◌,
}
use project_starfly_fabrics.Exchange.Engine.Policy.{policy_input}
use project_starfly_fabrics.Exchange.Engine.Gates.{
  Readings, grant_type_token_exchange, check_grant, credential_type, count_prefix, check_subject,
  check_revocation, check_attestation, check_policy, check_delegation, check_dpop, check_execution,
}
use project_starfly_fabrics.Exchange.Engine.Passed.{
  check_grant-ok, credential_type-ok, lift-ok, check_subject-ok, check_revocation-ok,
  check_attestation-ok, check_policy-ok, check_dpop-ok,
}
use project_starfly_fabrics.Exchange.Engine.Delivery.{deliver_secrets}
use project_starfly_fabrics.Exchange.Engine.Delivery.Sealed.{Sealed, deliver_secrets-Sealed}
use project_starfly_fabrics.Exchange.Engine.Mint.{Grant, build_token}
use project_starfly_fabrics.Exchange.Engine.Run.{
  conclude, TokenExchangeResponse, admit, issue, exchange,
}
use project_starfly_fabrics.Exchange.Engine.Delegated.{
  Delegated, check_delegation-ok, check_execution-ok,
}

-- Everything that an admitted request has been through.
pub record Lawful (e : Engine) (req : TokenExchangeRequest) (t : Readings) (w : World) (g : Grant)
    : Type 0 where
  pub grant : req.grant_type ≡ grant_type_token_exchange
  pub cred_type : String
  pub mapped : map_cred_type req.subject_token_type ≡ some cred_type
  pub validated : e.validate_workload req.subject_token cred_type ≡ ok g.workload
  pub well_formed : count_prefix g.workload.id ≤ 1
  pub unrevoked :
      (f : String → Result String (Option RevocationEntry)) (r : RevocationEntry)
      → e.revocation ≡ some f
      → f g.workload.id ≢ ok (some r)
  pub attested :
      (a : ServerAttestation)
      → req.attestation ≡ some a
      → validate_attestation a 0 t.attestation_since t.attestation_now ≡ ok tt
  pub decided : e.evaluate (policy_input e.dev_mode cred_type g.workload req) ≡ ok g.decision
  pub allowed : g.decision.allowed ≡ true
  pub delegated :
      req.actor_token ≢ ""
      → (dc : DelegationContext) × Delegated e g.decision req.actor_token dc
        × (g.delegation ≡ some dc)
  pub proven :
      req.dpop_proof ≢ ""
      → (jkt : String) × (validate_dpop e.jose req.dpop_proof t.dpop_since ≡ ok jkt)
        × (g.thumbprint ≡ some jkt)
  pub scoped :
      (s : ExecutionScope)
      → req.execution_scope ≡ some s
      → (validate_execution_scope s ≡ ok tt) × ((check t.nonce_now s.nonce w.nonces).0 ≡ ok tt)
  pub sealed : g.secrets_claim ≢ "" → Sealed e g.workload.id g.decision g.secrets_claim

abbrev nonces_of : World → NonceTracker
nonces_of w = w.nonces

pure-ok : {A : Type 0} (a b : A) (w w' : World) → pure a w ≡ (ok b, w') → a ≡ b
unfolding pure
pure-ok a b w w' h = cc

admit-Lawful :
    (e : Engine) (req : TokenExchangeRequest) (t : Readings) (w w' : World) (g : Grant)
    → admit e req t w ≡ (ok g, w')
    → Lawful e req t w g
unfolding admit ◌>>◌ pure
admit-Lawful e req t w w' g h = >>=-elim (check_grant req.grant_type) _ w h λ u w1 m1 h1.
    >>=-elim (credential_type req.subject_token_type) _ w1 h1 λ cred w2 m2 h2.
      >>=-elim (lift workload_validation (e.validate_workload req.subject_token cred)) _ w2 h2
        λ wl w3 m3 h3. >>=-elim (check_subject wl.id) _ w3 h3 λ u w4 m4 h4.
          >>=-elim (check_revocation e wl.id req.audience) _ w4 h4 λ u w5 m5 h5.
            >>=-elim (check_attestation e wl.id req.audience req.attestation t) _ w5 h5
              λ u w6 m6 h6. >>=-elim (check_policy e cred wl req) _ w6 h6 λ d w7 m7 h7.
                >>=-elim (check_delegation e wl.id req.audience d req.actor_token) _ w7 h7
                  λ dc w8 m8 h8. >>=-elim (check_dpop e req.dpop_proof t) _ w8 h8 λ jkt w9 m9 h9.
                    >>=-elim (check_execution req.execution_scope t) _ w9 h9 λ u w10 m10 h10.
                      >>=-elim (deliver_secrets e wl.id d) _ w10 h10 λ sc w11 m11 h11.
                        let (granted, k1) = check_grant-ok w w1 req.grant_type m1 in
                        let (mapped, k2) =
                          credential_type-ok w1 w2 req.subject_token_type cred m2 in
                        let (validated, k3) = lift-ok w2 w3 workload_validation _ wl m3 in
                        let (well_formed, k4) = check_subject-ok w3 w4 wl.id m4 in
                        let (unrevoked, k5) = check_revocation-ok w4 w5 e wl.id req.audience m5 in
                        let (attested, k6) =
                          check_attestation-ok w5 w6 e wl.id req.audience req.attestation t m6 in
                        let (decided, allowed, k7) = check_policy-ok w6 w7 e cred wl req d m7 in
                        let (delegated, k8) =
                          check_delegation-ok w7 w8 e wl.id req.audience d req.actor_token dc m8 in
                        let (proven, k9) = check_dpop-ok w8 w9 e req.dpop_proof t jkt m9 in
                        let same : w9.nonces ≡ w.nonces =
                          k9
                          ∙ (k8
                              ∙ (ap nonces_of k7
                                  ∙ (k6 ∙ (k5 ∙ ap nonces_of (k4 ∙ (k3 ∙ (k2 ∙ k1))))))) in
                        subst (Lawful e req t w) (pure-ok _ g w11 w' h11) (record {
                          grant = granted;
                          cred_type = cred;
                          mapped = mapped;
                          validated = validated;
                          well_formed = well_formed;
                          unrevoked = unrevoked;
                          attested = attested;
                          decided = decided;
                          allowed = allowed;
                          delegated = delegated;
                          proven = proven;
                          scoped = λ s q.
                              let (valid, fresh) =
                                check_execution-ok w9 w10 s t
                                  (subst (λ o. check_execution o t w9 ≡ (ok tt, w10)) q m10) in
                              (
                                valid,
                                subst (λ n. (check t.nonce_now s.nonce n).0 ≡ ok tt) same fresh,
                              );
                          sealed = λ set. deliver_secrets-Sealed e wl.id d sc w10 w11 set m11;
                        })

conclude-ok :
    (e : Engine) (req : TokenExchangeRequest) (g : Grant) (signed : String) (w w' : World)
    (resp : TokenExchangeResponse)
    → conclude e req g signed w ≡ (ok resp, w')
    → resp.access_token ≡ signed
unfolding conclude ◌>>◌ log pure
conclude-ok e req g signed w w' resp h = ground arith

issue-ok :
    (e : Engine) (req : TokenExchangeRequest) (t : Readings) (g : Grant) (w w' : World)
    (resp : TokenExchangeResponse)
    → issue e req t g w ≡ (ok resp, w')
    → e.sign (build_token e req g t.issued_at) ≡ ok resp.access_token
unfolding issue
issue-ok e req t g w w' resp h =
    let (signed, w1, l, k) =
      >>=-ok (lift signing_failed (e.sign (build_token e req g t.issued_at))) _ w h in
    (lift-ok w w1 signing_failed _ signed l).0
    ∙ ap ok (sym (conclude-ok e req g signed w1 w' resp k))

-- An exchange that succeeds was for a request whose grant and token type are known, and whose
-- workload was validated, well formed, not reported as revoked and allowed by the policy. Where the
-- request has them, its attestation is fresh, its delegation is one that its parent permits, its
-- proof of possession is valid, and its execution scope is complete with a nonce that was new;
-- secrets, where it gets any, are sealed for its workload. The answer holds the signature of the
-- token that is built from what these established.
pub exchange-Lawful :
    (e : Engine) (req : TokenExchangeRequest) (t : Readings) (w w' : World)
    (resp : TokenExchangeResponse)
    → exchange e req t w ≡ (ok resp, w')
    → (g : Grant) × Lawful e req t w g
      × (e.sign (build_token e req g t.issued_at) ≡ ok resp.access_token)
unfolding exchange
exchange-Lawful e req t w w' resp h =
    let (g, w1, m, k) = >>=-ok (admit e req t) _ w h in
    (g, admit-Lawful e req t w w1 g m, issue-ok e req t g w1 w' resp k)
