-- ===== src/Exchange/Engine/Mint/Parse.antt =====
-- A minted delegated token read back as an actor token, and chains of delegations.
use project_starfly_fabrics.Prelude.{
  ℕ, zero, suc, ◌+◌, String, ◌≡◌, refl, sym, subst, ap, ◌∙◌, ◌≢◌, Bool, inl, inr, none, some, List,
  [], arith, if◌then◌else◌, ne-is_empty, ok,
}
use project_starfly_fabrics.Prelude.Int.{ℤ, pos, negsuc, is_negative}
use project_starfly_fabrics.Dict.{lookup}
use project_starfly_fabrics.Claims.{Values, nil, cons, number, array, append_values, count_values}
use project_starfly_fabrics.Exchange.Request.{TokenExchangeRequest}
use project_starfly_fabrics.Exchange.Delegation.{
  ActorToken, DelegationContext, parse_delegation_context, validate_delegation, build_obo_chain,
}
use project_starfly_fabrics.Exchange.Delegation.Laws.{validate_delegation-Permitted}
use project_starfly_fabrics.Exchange.Engine.Gates.{requested_caps, requested_radius}
use project_starfly_fabrics.Exchange.Engine.Mint.{
  Grant, child_depth, set_delegation, policy_claims, token_claims,
}
use project_starfly_fabrics.Exchange.Engine.Mint.Lookup.{
  insert_self, insert_other, copy_claim_other, copy_claim_self, set_delegation-Other,
  set_depth_self, policy_depth, token_claims-caps, token_claims_early,
}

module _ (dev : Bool) (req : TokenExchangeRequest) (g : Grant) where
  token_claims-radius :
      lookup "blast_radius" (token_claims dev req g) ≡ lookup "blast_radius" g.decision.claims
  unfolding policy_claims lookup
  token_claims-radius =
      token_claims_early "blast_radius" dev req g refl
        (refl, (refl, (refl, (refl, (refl, (refl, (refl, tt))))))) (refl, (refl, tt)) refl
      ∙ (set_delegation-Other "blast_radius" g.delegation _ _ (refl, (refl, tt))
          ∙ copy_claim_self "blast_radius" _ _ (copy_claim_other "caps" "blast_radius" _ _ refl))

  module _ (dc : DelegationContext) (delegated : g.delegation ≡ some dc) where
    token_claims-obo : lookup "obo" (token_claims dev req g) ≡ some (array (build_obo_chain dc))
    unfolding set_delegation
    token_claims-obo =
        token_claims_early "obo" dev req g refl
          (refl, (refl, (refl, (refl, (refl, (refl, (refl, tt))))))) (refl, (refl, tt)) refl
        ∙ subst
            (λ o.
              lookup "obo" (set_delegation o g.decision.claims (policy_claims g))
              ≡ some (array (build_obo_chain dc)))
            (sym delegated) (insert_self "obo" _ _)

    token_claims-depth : lookup "delegation_depth" (token_claims dev req g) ≡ (
        if is_negative (child_depth dc.depth) then none else some (number (child_depth dc.depth)))
    unfolding set_delegation
    token_claims-depth =
        token_claims_early "delegation_depth" dev req g refl
          (refl, (refl, (refl, (refl, (refl, (refl, (refl, tt))))))) (refl, (refl, tt)) refl
        ∙ subst
            (λ o.
              lookup "delegation_depth" (set_delegation o g.decision.claims (policy_claims g)) ≡ (
                if is_negative (child_depth dc.depth)
                then none
                else some (number (child_depth dc.depth))))
            (sym delegated)
            (insert_other "obo" "delegation_depth" _ _ refl
              ∙ set_depth_self (child_depth dc.depth) (policy_claims g) (policy_depth g))

-- The actor token that a minted token is, once the library has verified it.
abbrev pub minted : Bool → TokenExchangeRequest → Grant → ActorToken
minted dev req g = record { subject = some g.workload.id; claims = token_claims dev req g }

abbrev pub child_context : Grant → DelegationContext → DelegationContext
child_context g dc = record {
  parent_subject = g.workload.id;
  depth = child_depth dc.depth;
  caps = requested_caps g.decision;
  blast_radius = requested_radius g.decision;
  obo_chain = build_obo_chain dc;
}

-- Reading back a token minted under a delegation gives its subject as the next parent, one level
-- less of depth unless it is unlimited, exactly the capabilities and the radius that the policy
-- granted, and the chain extended by the parent.
pub parse-minted :
    (dev : Bool) (req : TokenExchangeRequest) (g : Grant) (dc : DelegationContext)
    → g.delegation ≡ some dc
    → g.workload.id ≢ ""
    → parse_delegation_context (minted dev req g) ≡ ok (child_context g dc)
unfolding parse_delegation_context requested_caps requested_radius child_depth
parse-minted dev req g dc d named =
    rw
      (
        ne-is_empty g.workload.id named,
        token_claims-depth dev req g dc d,
        token_claims-obo dev req g dc d,
        token_claims-caps dev req g,
        token_claims-radius dev req g,
      )
      (ground arith)

-- A chain of delegations: each step mints a token for a child that its parent's rules permit, and
-- reads it back.
pub data Hops (root : DelegationContext) : ℕ → DelegationContext → Type 0 where
  start : Hops root 0 root
  hop :
      {k : ℕ} {d : DelegationContext}
      → Hops root k d
      → (dev : Bool) (req : TokenExchangeRequest) (g : Grant) (child : DelegationContext)
      → g.delegation ≡ some d
      → g.workload.id ≢ ""
      → validate_delegation d (requested_caps g.decision) (requested_radius g.decision) ≡ ok tt
      → parse_delegation_context (minted dev req g) ≡ ok child
      → Hops root (suc k) child

-- What a child's context is made of.
child-eq :
    (dev : Bool) (req : TokenExchangeRequest) (g : Grant) (d child : DelegationContext)
    → g.delegation ≡ some d
    → g.workload.id ≢ ""
    → parse_delegation_context (minted dev req g) ≡ ok child
    → child ≡ child_context g d
child-eq dev req g d child e named p = cc (p, parse-minted dev req g d e named)

hop_depth :
    (z : ℤ) (m : ℕ) → z ≢ pos 0 → z ≡ pos m → (m' : ℕ) × (child_depth z ≡ pos m') × (m ≡ suc m')
unfolding child_depth
hop_depth z zero h e = absurd (h e)
hop_depth z (suc m) h e = (m, rw e, refl)

count-append :
    (vs ws : Values) → count_values (append_values vs ws) ≡ count_values vs + count_values ws
unfolding count_values append_values
count-append nil ws = omega arith
count-append (cons v vs) ws = omega (arith, count-append vs ws)

count-build :
    (d : DelegationContext) → count_values (build_obo_chain d) ≡ count_values d.obo_chain + 1
unfolding build_obo_chain count_values
count-build d = count-append d.obo_chain _

-- After k delegations from a parent of depth n the depth that is left is n - k, so no chain is
-- longer than n, and the on-behalf-of chain has grown by one entry for each.
pub Hops-bounded :
    {root d : DelegationContext} {k : ℕ}
    → Hops root k d
    → (n : ℕ) → root.depth ≡ pos n
    → (left : ℕ) × (d.depth ≡ pos left)
      × (left + k ≡ n)
      × (count_values d.obo_chain ≡ count_values root.obo_chain + k)
Hops-bounded start n e = (n, e, omega arith, omega arith)
Hops-bounded (hop {k} {d} hops dev req g child delegated named valid parsed) n e =
    let (left, depth, total, grown) = Hops-bounded hops n e in
    let permitted = (validate_delegation-Permitted d _ _).0 valid in
    let (left', depth', step) = hop_depth d.depth left permitted.deep_enough depth in
    let same = child-eq dev req g d child delegated named parsed in
    (
      left',
      rw same depth',
      omega (arith, total, step),
      rw same (omega (arith, count-build d, grown)),
    )

last_level : (z : ℤ) → child_depth z ≡ pos 0 → z ≡ pos 1
unfolding child_depth
last_level (pos zero) h = cc
last_level (pos (suc zero)) h = refl
last_level (pos (suc (suc n))) h = ground arith
last_level (negsuc n) h = cc

no_caps_requested :
    (g : Grant) → lookup "caps" g.decision.claims ≡ none → requested_caps g.decision ≡ []
unfolding requested_caps
no_caps_requested g h = rw h

-- A child whose grant has no caps claim is held to no capabilities: its own children may be
-- granted any, also those that its parent does not have.
pub dropped_caps_unrestricted :
    (dev : Bool) (req : TokenExchangeRequest) (g : Grant) (d child : DelegationContext)
    → g.delegation ≡ some d
    → g.workload.id ≢ ""
    → parse_delegation_context (minted dev req g) ≡ ok child
    → lookup "caps" g.decision.claims ≡ none
    → d.depth ≢ pos 1
    → (caps : List String) → validate_delegation child caps "" ≡ ok tt
dropped_caps_unrestricted dev req g d child e named p no_caps deep caps =
    let same = child-eq dev req g d child e named p in
    (validate_delegation-Permitted child caps "").1 (record {
      deep_enough =
          λ z. deep (last_level d.depth (sym (ap (λ (c : DelegationContext). c.depth) same) ∙ z));
      held = inl (ap (λ (c : DelegationContext). c.caps) same ∙ no_caps_requested g no_caps);
      narrow = inr (inl refl);
    })
