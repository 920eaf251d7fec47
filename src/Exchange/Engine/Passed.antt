-- ===== src/Exchange/Engine/Passed.antt =====
-- What each check of an exchange has established when it lets the exchange go on, and that it
-- leaves the nonces alone.
use project_starfly_fabrics.Signals.Revocation.{RevocationEntry}
use project_starfly_fabrics.Prelude.{
  ℕ, ◌≤◌, String, eq_iff, ◌≡◌, refl, ◌≢◌, inl, inr, true, Option, none, some, arith, is_empty,
  is_empty_iff, Bool-cases, some-injective, Result, ok, err, subst,
}
use project_starfly_fabrics.Exchange.Request.{ServerAttestation, TokenExchangeRequest}
use project_starfly_fabrics.Exchange.Nonce.{check}
use project_starfly_fabrics.Exchange.Attestation.{AttestationError, validate_attestation}
use project_starfly_fabrics.Exchange.CredType.{map_cred_type}
use project_starfly_fabrics.Exchange.Dpop.{validate_dpop}
use project_starfly_fabrics.Exchange.Engine.Types.{
  ExchangeError, WorkloadIdentity, PolicyDecision, Engine, World, Exec, dpop_invalid, >>=-ok, pure,
  raise, log, lift, ◌>>◌,
}
use project_starfly_fabrics.Exchange.Engine.Policy.{policy_input}
use project_starfly_fabrics.Exchange.Engine.Gates.{
  Readings, revocation_verdict, ask_revocation, attestation_verdict, policy_verdict, map_exec,
  use_nonce, grant_type_token_exchange, check_grant, credential_type, count_prefix, check_subject,
  check_revocation, check_attestation, check_policy, check_dpop,
}

module _ (w w' : World) where
  pub check_grant-ok :
      (grant : String)
      → check_grant grant w ≡ (ok tt, w')
      → (grant ≡ grant_type_token_exchange) × (w' ≡ w)
  unfolding check_grant pure raise
  check_grant-ok grant h = ground (arith, eq_iff grant grant_type_token_exchange)

  pub credential_type-ok :
      (token_type c : String)
      → credential_type token_type w ≡ (ok c, w')
      → (map_cred_type token_type ≡ some c) × (w' ≡ w)
  unfolding credential_type pure raise
  credential_type-ok token_type c h = ground arith

  pub lift-ok :
      {E A : Type 0} (f : E → ExchangeError) (r : Result E A) (a : A)
      → lift f r w ≡ (ok a, w')
      → (r ≡ ok a) × (w' ≡ w)
  unfolding lift
  lift-ok f (ok x) a h = (cc, cc)
  lift-ok f (err x) a h = cc

  pub check_subject-ok :
      (id : String) → check_subject id w ≡ (ok tt, w') → (count_prefix id ≤ 1) × (w' ≡ w)
  unfolding check_subject pure raise
  check_subject-ok id h = ground arith

  revocation_verdict-ok :
      (e : Engine) (id audience : String) (r : Result String (Option RevocationEntry))
      → revocation_verdict e id audience r w ≡ (ok tt, w')
      → ((x : RevocationEntry) → r ≢ ok (some x)) × (w'.nonces ≡ w.nonces)
  unfolding revocation_verdict pure raise log ◌>>◌
  revocation_verdict-ok e id audience (err msg) h = (λ x q. cc, ground arith)
  revocation_verdict-ok e id audience (ok none) h = (λ x q. cc, ground arith)
  revocation_verdict-ok e id audience (ok (some x)) h = cc

  ask_revocation-ok :
      (e : Engine) (id audience : String)
      (o : Option (String → Result String (Option RevocationEntry)))
      → ask_revocation e id audience o w ≡ (ok tt, w')
      → ((f : String → Result String (Option RevocationEntry)) (r : RevocationEntry)
          → o ≡ some f
          → f id ≢ ok (some r))
        × (w'.nonces ≡ w.nonces)
  unfolding ask_revocation pure
  ask_revocation-ok e id audience none h = (λ f r q. cc, cc)
  ask_revocation-ok e id audience (some g) h =
      let (fine, kept) = revocation_verdict-ok e id audience (g id) h in
      (λ f r q. subst (λ k. k id ≢ ok (some r)) (some-injective q) (fine r), kept)

  attestation_verdict-ok :
      (e : Engine) (id audience : String) (a : ServerAttestation)
      (r : Result AttestationError (Unit {0}))
      → attestation_verdict e id audience a r w ≡ (ok tt, w')
      → (r ≡ ok tt) × (w'.nonces ≡ w.nonces)
  unfolding attestation_verdict raise log ◌>>◌
  attestation_verdict-ok e id audience a (ok x) h = (refl, ground arith)
  attestation_verdict-ok e id audience a (err x) h = cc

  policy_verdict-ok :
      (id audience : String) (r : Result String PolicyDecision) (d : PolicyDecision)
      → policy_verdict id audience r w ≡ (ok d, w')
      → (r ≡ ok d) × (d.allowed ≡ true) × (w' ≡ w)
  unfolding policy_verdict pure raise log ◌>>◌
  policy_verdict-ok id audience (ok x) d h = ground arith
  policy_verdict-ok id audience (err msg) d h = cc

  pub check_revocation-ok :
      (e : Engine) (id audience : String)
      → check_revocation e id audience w ≡ (ok tt, w')
      → ((f : String → Result String (Option RevocationEntry)) (r : RevocationEntry)
          → e.revocation ≡ some f
          → f id ≢ ok (some r))
        × (w'.nonces ≡ w.nonces)
  unfolding check_revocation
  check_revocation-ok e id audience h = ask_revocation-ok e id audience e.revocation h

  pub check_attestation-ok :
      (e : Engine) (id audience : String) (att : Option ServerAttestation) (t : Readings)
      → check_attestation e id audience att t w ≡ (ok tt, w')
      → ((a : ServerAttestation)
          → att ≡ some a
          → validate_attestation a 0 t.attestation_since t.attestation_now ≡ ok tt)
        × (w'.nonces ≡ w.nonces)
  unfolding check_attestation pure
  check_attestation-ok e id audience none t h = (λ a q. cc, cc)
  check_attestation-ok e id audience (some a) t h =
      let (fine, kept) = attestation_verdict-ok e id audience a _ h in
      (
        λ b q.
            subst (λ k. validate_attestation k 0 t.attestation_since t.attestation_now ≡ ok tt)
              (some-injective q) fine,
        kept,
      )

  pub check_policy-ok :
      (e : Engine) (cred : String) (workload : WorkloadIdentity) (req : TokenExchangeRequest)
      (d : PolicyDecision)
      → check_policy e cred workload req w ≡ (ok d, w')
      → (e.evaluate (policy_input e.dev_mode cred workload req) ≡ ok d)
        × (d.allowed ≡ true)
        × (w' ≡ w)
  unfolding check_policy
  check_policy-ok e cred workload req d h = policy_verdict-ok workload.id req.audience _ d h

  pub use_nonce-ok :
      (now : ℕ) (nonce : String)
      → use_nonce now nonce w ≡ (ok tt, w')
      → ((check now nonce w.nonces).0 ≡ ok tt) × (w'.nonces ≡ (check now nonce w.nonces).1)
  unfolding use_nonce
  use_nonce-ok now nonce h = ground arith

  pub map_exec-ok :
      {A B : Type 0} (f : A → B) (m : Exec A) (b : B)
      → map_exec f m w ≡ (ok b, w')
      → (a : A) × (m w ≡ (ok a, w')) × (b ≡ f a)
  unfolding map_exec pure
  map_exec-ok f m b h = let (a, w1, e, k) = >>=-ok m _ w h in (a, cc (e, k), cc (k))

  -- A request with a proof carries the thumbprint of a proof that is valid.
  pub check_dpop-ok :
      (e : Engine) (proof : String) (t : Readings) (o : Option String)
      → check_dpop e proof t w ≡ (ok o, w')
      → (proof ≢ ""
          → (jkt : String) × (validate_dpop e.jose proof t.dpop_since ≡ ok jkt) × (o ≡ some jkt))
        × (w'.nonces ≡ w.nonces)
  unfolding check_dpop pure
  check_dpop-ok e proof t o h = elim (Bool-cases (is_empty proof)) [
    | inl absent ↦ (λ n. absurd (n ((is_empty_iff proof).0 absent)), cc (rw absent at h))
    | inr present ↦
        let (jkt, m, eq) = map_exec-ok some (lift dpop_invalid _) o (rw present at h) in
        let (valid, kept) = lift-ok dpop_invalid _ jkt m in (λ _. (jkt, valid, eq), cc kept)
  ]
