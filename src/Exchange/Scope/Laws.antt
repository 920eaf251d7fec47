-- ===== src/Exchange/Scope/Laws.antt =====
-- Which tokens authorise which actions.
use project_starfly_fabrics.Prelude.{
  String, ◌==◌, eq_iff, ◌≡◌, refl, ◌≢◌, ◌↔◌, ◌⊎◌, inl, inr, Option, none, some, arith, is_empty,
  is_empty-false, is_empty_iff, ap, Bool-cases, if◌then◌else◌, ok, refuse_if, bind-ok,
}
use project_starfly_fabrics.Claims.{Claims, get_text}
use project_starfly_fabrics.Exchange.Request.{ExecutionScope}
use project_starfly_fabrics.Exchange.Scope.{
  ScopeError, missing_htm, missing_htu, htm_mismatch, htu_mismatch, validate_execution_scope,
  verify_execution_scope, wanted_hash, claim_is, first_some,
}

claim_is-ok :
    (o : Option String) (want : String) (missing mismatch : ScopeError)
    → claim_is o want missing mismatch ≡ ok tt
    → o ≡ some want
claim_is-ok none want missing mismatch h = cc
claim_is-ok (some v) want missing mismatch h = elim (Bool-cases (v == want)) [
  | inl same ↦ ap some ((eq_iff v want).0 same)
  | inr other ↦ cc (rw (other, refuse_if) at h)
]

ok-claim_is :
    (o : Option String) (want : String) (missing mismatch : ScopeError)
    → o ≡ some want
    → claim_is o want missing mismatch ≡ ok tt
ok-claim_is o want missing mismatch e = rw (e, claim_is) (rw ((eq_iff want want).1 refl))

-- The token is bound to the presented action: its method, its URI, and the hash of its input
-- where one is presented.
pub record IsBound (token : Claims) (scope : ExecutionScope) : Type 0 where
  pub method : get_text "htm" token ≡ some scope.method
  pub uri : get_text "htu" token ≡ some scope.uri
  pub hash :
      (wanted_hash scope ≡ "")
      ⊎ (first_some (get_text "inp_hash" token) (get_text "payload_hash" token)
          ≡ some (wanted_hash scope))

hash_iff :
    (o : Option String) (want : String) (missing mismatch : ScopeError)
    → ((if is_empty want then ok tt else claim_is o want missing mismatch) ≡ ok tt)
      ↔ ((want ≡ "") ⊎ (o ≡ some want))
hash_iff o want missing mismatch = elim (Bool-cases (is_empty want)) [
  | inl none_wanted ↦ rw none_wanted (λ h. inl ((is_empty_iff want).0 none_wanted), λ h. refl)
  | inr wanted ↦ rw wanted (
    λ h. inr (claim_is-ok o want missing mismatch h),
    elim [
      | inl e ↦ absurd (is_empty-false want wanted e)
      | inr e ↦ ok-claim_is o want missing mismatch e
    ],
  )
]

-- A token is accepted for an action exactly when it is bound to it.
pub verify_execution_scope-IsBound :
    (token : Claims) (scope : ExecutionScope)
    → (verify_execution_scope token scope ≡ ok tt) ↔ IsBound token scope
unfolding verify_execution_scope
verify_execution_scope-IsBound token scope = (sound, complete)
  where
    sound : verify_execution_scope token scope ≡ ok tt → IsBound token scope
    sound h =
        let (_, m, rest) = bind-ok (claim_is (get_text "htm" token) scope.method _ _) _ h in
        let (_, u, hash) = bind-ok (claim_is (get_text "htu" token) scope.uri _ _) _ rest in
        record {
          method = claim_is-ok _ _ _ _ m;
          uri = claim_is-ok _ _ _ _ u;
          hash = (hash_iff _ _ _ _).0 hash;
        }

    complete : IsBound token scope → verify_execution_scope token scope ≡ ok tt
    complete b =
        rw
          (
            ok-claim_is _ _ missing_htm htm_mismatch b.method,
            ok-claim_is _ _ missing_htu htu_mismatch b.uri,
          )
          ((hash_iff _ _ _ _).1 b.hash)

-- An execution scope is accepted exactly when its method, its URI and its nonce are all set.
pub validate_execution_scope-set :
    (scope : ExecutionScope)
    → (validate_execution_scope scope ≡ ok tt)
      ↔ ((scope.method ≢ "") × (scope.uri ≢ "") × (scope.nonce ≢ ""))
unfolding validate_execution_scope
validate_execution_scope-set scope =
    ground (arith, is_empty_iff scope.method, is_empty_iff scope.uri, is_empty_iff scope.nonce)
