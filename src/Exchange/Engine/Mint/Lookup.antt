-- ===== src/Exchange/Engine/Mint/Lookup.antt =====
-- What a claim of a minted token reads, one lemma for each step that sets claims.
use project_starfly_fabrics.Prelude.{
  String, ◌==◌, ◌≡◌, refl, Bool, false, ◌∙◌, Option, none, some, List, [], ◌∷◌, All, arith,
  is_empty, if◌then◌else◌, eq_refl,
}
use project_starfly_fabrics.Prelude.Int.{ℤ, is_negative}
use project_starfly_fabrics.Dict.{lookup, insert, lookup-insert}
use project_starfly_fabrics.Claims.{Value, text, number, Claims}
use project_starfly_fabrics.Exchange.Request.{
  ExecutionScope, ServerAttestation, TokenExchangeRequest,
}
use project_starfly_fabrics.Exchange.Delegation.{DelegationContext}
use project_starfly_fabrics.Exchange.Engine.Mint.{
  Grant, copy_value, copy_claim, set_claim, child_depth, set_depth, set_delegation,
  set_confirmation, set_attestation, set_execution, policy_claims, token_claims,
}

-- None of the keys is the one that is read.
abbrev pub Other : String → List String → Type 0
Other j = All λ k. (k == j) ≡ false

pub insert_other :
    (k j : String) (v : Value) (c : Claims)
    → (k == j) ≡ false
    → lookup j (insert k v c) ≡ lookup j c
insert_other k j v c h = rw (lookup-insert k j v c, h)

pub insert_self : (k : String) (v : Value) (c : Claims) → lookup k (insert k v c) ≡ some v
insert_self k v c = rw (lookup-insert k k v c, eq_refl k) refl

pub set_claim_other :
    (k v j : String) (c : Claims) → (k == j) ≡ false → lookup j (set_claim k v c) ≡ lookup j c
unfolding set_claim
set_claim_other k v j c h = ground (arith, insert_other k j (text v) c)

pub set_claim_self :
    (k v : String) (c : Claims)
    → lookup k (set_claim k v c) ≡ (if is_empty v then lookup k c else some (text v))
unfolding set_claim
set_claim_self k v c = ground (arith, insert_self k (text v) c)

pub copy_claim_other :
    (k j : String) (from c : Claims)
    → (k == j) ≡ false
    → lookup j (copy_claim k from c) ≡ lookup j c
unfolding copy_claim
copy_claim_other k j from c h = go (lookup k from)
  where
    go : (o : Option Value) → lookup j (copy_value k o c) ≡ lookup j c
    go none = refl
    go (some v) = insert_other k j v c h

pub copy_claim_self :
    (k : String) (from c : Claims)
    → lookup k c ≡ none
    → lookup k (copy_claim k from c) ≡ lookup k from
unfolding copy_claim
copy_claim_self k from c h = go (lookup k from)
  where
    go : (o : Option Value) → lookup k (copy_value k o c) ≡ o
    go none = h
    go (some v) = insert_self k v c

module _ (j : String) where
  pub set_execution-Other :
      (s : Option ExecutionScope) (c : Claims)
      → Other j ("nonce" ∷ "wid" ∷ "target" ∷ "exec_act" ∷ "inp_hash" ∷ "htu" ∷ "htm" ∷ [])
      → lookup j (set_execution s c) ≡ lookup j c
  unfolding set_execution
  set_execution-Other none c h = refl
  set_execution-Other (some s) c (n, (w, (t, (a, (i, (u, (m, _))))))) =
      insert_other "nonce" j _ _ n
      ∙ (set_claim_other "wid" _ j _ w
          ∙ (set_claim_other "target" _ j _ t
              ∙ (set_claim_other "exec_act" _ j _ a
                  ∙ (set_claim_other "inp_hash" _ j _ i
                      ∙ (insert_other "htu" j _ _ u ∙ insert_other "htm" j _ _ m)))))

  pub set_attestation-Other :
      (dev : Bool) (a : Option ServerAttestation) (c : Claims)
      → Other j ("attestation" ∷ "assurance_level" ∷ [])
      → lookup j (set_attestation dev a c) ≡ lookup j c
  unfolding set_attestation
  set_attestation-Other dev none c h = refl
  set_attestation-Other dev (some a) c (x, (y, _)) =
      insert_other "attestation" j _ _ x ∙ insert_other "assurance_level" j _ _ y

  pub set_confirmation_other :
      (o : Option String) (c : Claims)
      → ("cnf" == j) ≡ false
      → lookup j (set_confirmation o c) ≡ lookup j c
  unfolding set_confirmation
  set_confirmation_other none c h = refl
  set_confirmation_other (some jkt) c h = insert_other "cnf" j _ _ h

  set_depth_other :
      (z : ℤ) (c : Claims)
      → ("delegation_depth" == j) ≡ false
      → lookup j (set_depth z c) ≡ lookup j c
  unfolding set_depth
  set_depth_other z c h = ground (arith, insert_other "delegation_depth" j (number z) c)

  pub set_delegation-Other :
      (d : Option DelegationContext) (from c : Claims)
      → Other j ("obo" ∷ "delegation_depth" ∷ [])
      → lookup j (set_delegation d from c) ≡ lookup j c
  unfolding set_delegation
  set_delegation-Other none from c (x, (y, _)) = copy_claim_other "delegation_depth" j from c y
  set_delegation-Other (some dc) from c (x, (y, _)) =
      insert_other "obo" j _ _ x ∙ set_depth_other (child_depth dc.depth) c y

  -- The claims of the delegation and of the policy are not touched afterwards.
  pub token_claims_early :
      (dev : Bool) (req : TokenExchangeRequest) (g : Grant)
      → ("secrets" == j) ≡ false
      → Other j ("nonce" ∷ "wid" ∷ "target" ∷ "exec_act" ∷ "inp_hash" ∷ "htu" ∷ "htm" ∷ [])
      → Other j ("attestation" ∷ "assurance_level" ∷ [])
      → ("cnf" == j) ≡ false
      → lookup j (token_claims dev req g)
        ≡ lookup j (set_delegation g.delegation g.decision.claims (policy_claims g))
  unfolding token_claims
  token_claims_early dev req g s e a c =
      set_claim_other "secrets" _ j _ s
      ∙ (set_execution-Other req.execution_scope _ e
          ∙ (set_attestation-Other dev req.attestation _ a
              ∙ set_confirmation_other g.thumbprint _ c))

-- The child's depth, where the parent's is limited.
pub set_depth_self :
    (z : ℤ) (c : Claims)
    → lookup "delegation_depth" c ≡ none
    → lookup "delegation_depth" (set_depth z c) ≡ (if is_negative z then none else some (number z))
unfolding set_depth
set_depth_self z c h = ground (arith, insert_self "delegation_depth" (number z) c)

pub policy_depth : (g : Grant) → lookup "delegation_depth" (policy_claims g) ≡ none
unfolding policy_claims lookup
policy_depth g =
    copy_claim_other "blast_radius" "delegation_depth" _ _ refl
    ∙ copy_claim_other "caps" "delegation_depth" _ _ refl

pub token_claims-caps :
    (dev : Bool) (req : TokenExchangeRequest) (g : Grant)
    → lookup "caps" (token_claims dev req g) ≡ lookup "caps" g.decision.claims
unfolding policy_claims lookup
token_claims-caps dev req g =
    token_claims_early "caps" dev req g refl
      (refl, (refl, (refl, (refl, (refl, (refl, (refl, tt))))))) (refl, (refl, tt)) refl
    ∙ (set_delegation-Other "caps" g.delegation _ _ (refl, (refl, tt))
        ∙ (copy_claim_other "blast_radius" "caps" _ _ refl ∙ copy_claim_self "caps" _ _ refl))
