-- ===== src/Exchange/Engine/Mint/Bound.antt =====
-- The execution scope and the assurance level that a minted token carries.
use project_starfly_fabrics.Prelude.{
  String, eq_iff, ◌≡◌, refl, sym, subst, ap, ◌∙◌, ◌≢◌, inl, inr, Bool, false, Bool-cases, Option,
  none, some, some-injective, arith, is_empty, is_empty_iff, ok,
}
use project_starfly_fabrics.Dict.{lookup}
use project_starfly_fabrics.Claims.{text, Claims, get_text, and_then, as_text}
use project_starfly_fabrics.Exchange.Request.{
  ExecutionScope, ServerAttestation, TokenExchangeRequest, assurance_level,
}
use project_starfly_fabrics.Exchange.Scope.{wanted_hash, verify_execution_scope, first_some}
use project_starfly_fabrics.Exchange.Scope.Laws.{IsBound, verify_execution_scope-IsBound}
use project_starfly_fabrics.Exchange.Engine.Policy.{attestation_assurance}
use project_starfly_fabrics.Exchange.Engine.Mint.{
  Grant, set_claim, set_execution, set_attestation, set_confirmation, set_delegation, policy_claims,
  token_claims,
}
use project_starfly_fabrics.Exchange.Engine.Mint.Lookup.{
  insert_self, insert_other, set_claim_other, set_claim_self, copy_claim_other,
  set_delegation-Other, set_confirmation_other, set_execution-Other,
}

module _ (s : ExecutionScope) (c : Claims) where
  scope-htm : lookup "htm" (set_execution (some s) c) ≡ some (text s.method)
  unfolding set_execution
  scope-htm =
      insert_other "nonce" "htm" _ _ refl
      ∙ (set_claim_other "wid" _ "htm" _ refl
          ∙ (set_claim_other "target" _ "htm" _ refl
              ∙ (set_claim_other "exec_act" _ "htm" _ refl
                  ∙ (set_claim_other "inp_hash" _ "htm" _ refl
                      ∙ (insert_other "htu" "htm" _ _ refl ∙ insert_self "htm" _ _)))))

  scope-htu : lookup "htu" (set_execution (some s) c) ≡ some (text s.uri)
  unfolding set_execution
  scope-htu =
      insert_other "nonce" "htu" _ _ refl
      ∙ (set_claim_other "wid" _ "htu" _ refl
          ∙ (set_claim_other "target" _ "htu" _ refl
              ∙ (set_claim_other "exec_act" _ "htu" _ refl
                  ∙ (set_claim_other "inp_hash" _ "htu" _ refl ∙ insert_self "htu" _ _))))

  scope-hash :
      is_empty (wanted_hash s) ≡ false
      → lookup "inp_hash" (set_execution (some s) c) ≡ some (text (wanted_hash s))
  unfolding set_execution
  scope-hash h =
      insert_other "nonce" "inp_hash" _ _ refl
      ∙ (set_claim_other "wid" _ "inp_hash" _ refl
          ∙ (set_claim_other "target" _ "inp_hash" _ refl
              ∙ (set_claim_other "exec_act" _ "inp_hash" _ refl
                  ∙ (set_claim_self "inp_hash" (wanted_hash s) _ ∙ rw h refl))))

scoped-IsBound :
    (s : ExecutionScope) (v : String) (c : Claims)
    → IsBound (set_claim "secrets" v (set_execution (some s) c)) s
unfolding get_text
scoped-IsBound s v c = record {
  method = ap (λ o. and_then o as_text) (set_claim_other "secrets" v "htm" _ refl ∙ scope-htm s c);
  uri = ap (λ o. and_then o as_text) (set_claim_other "secrets" v "htu" _ refl ∙ scope-htu s c);
  hash =
      let token = set_claim "secrets" v (set_execution (some s) c) in
      elim (Bool-cases (is_empty (wanted_hash s))) [
        | inl unset ↦ inl ((is_empty_iff (wanted_hash s)).0 unset)
        | inr set ↦ inr (
            ap (λ o. first_some (and_then o as_text) (get_text "payload_hash" token))
              (set_claim_other "secrets" v "inp_hash" _ refl ∙ scope-hash s c set))
      ];
}

scoped_verifies :
    (o : Option ExecutionScope) (s : ExecutionScope) (v : String) (c : Claims)
    → o ≡ some s
    → verify_execution_scope (set_claim "secrets" v (set_execution o c)) s ≡ ok tt
scoped_verifies o s v c e =
    subst (λ x. verify_execution_scope (set_claim "secrets" v (set_execution x c)) s ≡ ok tt)
      (sym e) ((verify_execution_scope-IsBound _ s).1 (scoped-IsBound s v c))

-- A token minted for an execution scope is accepted for the action that the scope describes.
pub minted-verifies :
    (dev : Bool) (req : TokenExchangeRequest) (g : Grant) (s : ExecutionScope)
    → req.execution_scope ≡ some s
    → verify_execution_scope (token_claims dev req g) s ≡ ok tt
unfolding token_claims
minted-verifies dev req g s e = scoped_verifies req.execution_scope s g.secrets_claim _ e

soft : (att : ServerAttestation) → attestation_assurance false att ≢ "hardware"
unfolding attestation_assurance
soft att = ground (arith, eq_iff (assurance_level att) "hardware", eq_iff "software" "hardware")

assurance_claim :
    (o : Option ServerAttestation) (g : Grant) (c : Claims)
    → lookup "assurance_level" c ≡ none
    → get_text "assurance_level" (set_attestation false o c) ≢ some "hardware"
unfolding set_attestation get_text
assurance_claim none g c h e = cc (rw (h, and_then) at e)
assurance_claim (some att) g c h e =
    let read =
      insert_other "attestation" "assurance_level" _ _ refl
      ∙ insert_self "assurance_level" (text (attestation_assurance false att)) c in
    soft att (some-injective (sym (ap (λ v. and_then v as_text) read) ∙ e))

no_assurance :
    (g : Grant)
    → lookup "assurance_level" (
        set_confirmation g.thumbprint
          (set_delegation g.delegation g.decision.claims (policy_claims g)))
      ≡ none
unfolding policy_claims lookup
no_assurance g =
    set_confirmation_other "assurance_level" g.thumbprint _ refl
    ∙ (set_delegation-Other "assurance_level" g.delegation _ _ (refl, (refl, tt))
        ∙ (copy_claim_other "blast_radius" "assurance_level" _ _ refl
            ∙ copy_claim_other "caps" "assurance_level" _ _ refl))

-- Outside development mode no token claims hardware assurance, whatever the attestation header
-- and the policy say.
pub production_not_hardware :
    (req : TokenExchangeRequest) (g : Grant)
    → get_text "assurance_level" (token_claims false req g) ≢ some "hardware"
unfolding token_claims get_text
production_not_hardware req g e = assurance_claim req.attestation g _ (no_assurance g) (
    ap (λ o. and_then o as_text)
      (sym (
        set_claim_other "secrets" g.secrets_claim "assurance_level" _ refl
        ∙ set_execution-Other "assurance_level" req.execution_scope _
            (refl, (refl, (refl, (refl, (refl, (refl, (refl, tt)))))))))
    ∙ e)
