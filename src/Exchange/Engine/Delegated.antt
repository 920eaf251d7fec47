-- ===== src/Exchange/Engine/Delegated.antt =====
-- What a passed check of the delegation and of the execution scope has established.
use project_starfly_fabrics.Prelude.{
  String, ◌≡◌, refl, ◌≢◌, inl, inr, Option, some, is_empty, is_empty_iff, Bool-cases, Result, ok,
  err, subst,
}
use project_starfly_fabrics.Exchange.Request.{ExecutionScope}
use project_starfly_fabrics.Exchange.Delegation.{
  ActorToken, DelegationContext, DelegationError, parse_delegation_context, validate_delegation,
}
use project_starfly_fabrics.Exchange.Nonce.{check}
use project_starfly_fabrics.Exchange.Scope.{validate_execution_scope}
use project_starfly_fabrics.Exchange.Engine.Types.{
  PolicyDecision, Engine, World, scope_invalid, >>=-ok, pure, raise, log, lift, ◌>>◌,
}
use project_starfly_fabrics.Exchange.Engine.Gates.{
  Readings, delegation_verdict, delegation_of_context, delegation_of_actor, deny, requested_caps,
  requested_radius, check_delegation, check_execution,
}
use project_starfly_fabrics.Exchange.Engine.Passed.{lift-ok, map_exec-ok, use_nonce-ok}

-- The parent of a delegation, as its token was verified, read and held to.
pub record Delegated (e : Engine) (d : PolicyDecision) (actor_token : String)
    (dc : DelegationContext) : Type 0 where
  pub actor : ActorToken
  pub verified : e.parse_actor actor_token ≡ ok actor
  pub parsed : parse_delegation_context actor ≡ ok dc
  pub valid : validate_delegation dc (requested_caps d) (requested_radius d) ≡ ok tt

module _ (w w' : World) where
  delegation_verdict-ok :
      (id audience : String) (dc dc' : DelegationContext) (r : Result DelegationError (Unit {0}))
      → delegation_verdict id audience dc r w ≡ (ok dc', w')
      → (r ≡ ok tt) × (dc' ≡ dc) × (w' ≡ w)
  unfolding delegation_verdict deny pure raise log ◌>>◌
  delegation_verdict-ok id audience dc dc' (ok x) h = (refl, cc, cc)
  delegation_verdict-ok id audience dc dc' (err x) h = cc

  delegation_of_context-ok :
      (id audience : String) (d : PolicyDecision) (r : Result DelegationError DelegationContext)
      (dc : DelegationContext)
      → delegation_of_context id audience d r w ≡ (ok dc, w')
      → (r ≡ ok dc)
        × (validate_delegation dc (requested_caps d) (requested_radius d) ≡ ok tt)
        × (w' ≡ w)
  unfolding delegation_of_context raise
  delegation_of_context-ok id audience d (ok x) dc h =
      let (valid, same, kept) = delegation_verdict-ok id audience x dc _ h in
      (rw same refl, rw same valid, kept)
  delegation_of_context-ok id audience d (err x) dc h = cc

  delegation_of_actor-ok :
      (e : Engine) (id audience : String) (d : PolicyDecision) (token : String)
      (r : Result String ActorToken) (dc : DelegationContext)
      → e.parse_actor token ≡ r
      → delegation_of_actor id audience d r w ≡ (ok dc, w')
      → Delegated e d token dc × (w' ≡ w)
  unfolding delegation_of_actor deny pure raise log ◌>>◌
  delegation_of_actor-ok e id audience d token (ok a) dc q h =
      let (parsed, valid, kept) = delegation_of_context-ok id audience d _ dc h in
      (record { actor = a; verified = q; parsed = parsed; valid = valid }, kept)
  delegation_of_actor-ok e id audience d token (err x) dc q h = cc

  pub check_delegation-ok :
      (e : Engine) (id audience : String) (d : PolicyDecision) (token : String)
      (o : Option DelegationContext)
      → check_delegation e id audience d token w ≡ (ok o, w')
      → (token ≢ "" → (dc : DelegationContext) × Delegated e d token dc × (o ≡ some dc))
        × (w'.nonces ≡ w.nonces)
  unfolding check_delegation pure
  check_delegation-ok e id audience d token o h = elim (Bool-cases (is_empty token)) [
    | inl absent ↦ (λ n. absurd (n ((is_empty_iff token).0 absent)), cc (rw absent at h))
    | inr present ↦
        let (dc, m, eq) =
          map_exec-ok w w' some (delegation_of_actor id audience d _) o (rw present at h) in
        let (delegated, kept) = delegation_of_actor-ok e id audience d token _ dc refl m in
        (λ _. (dc, delegated, eq), cc kept)
  ]

pub check_execution-ok :
    (w w' : World) (s : ExecutionScope) (t : Readings)
    → check_execution (some s) t w ≡ (ok tt, w')
    → (validate_execution_scope s ≡ ok tt) × ((check t.nonce_now s.nonce w.nonces).0 ≡ ok tt)
unfolding check_execution ◌>>◌
check_execution-ok w w' s t h =
    let (_, w1, l, k) = >>=-ok (lift scope_invalid (validate_execution_scope s)) _ w h in
    let (valid, kept) = lift-ok w w1 scope_invalid _ tt l in
    let (fresh, _) = use_nonce-ok w1 w' t.nonce_now s.nonce k in
    (valid, subst (λ v. (check t.nonce_now s.nonce v.nonces).0 ≡ ok tt) kept fresh)
