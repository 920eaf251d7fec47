-- ===== src/Exchange/Engine/Indexed.antt =====
-- The engine with the revocation index of pkg/signals/revocation.go as its checker.
use project_starfly_fabrics.Prelude.{
  ℕ, String, ◌≡◌, ◌≢◌, sym, ap, ◌∙◌, inl, inr, none, some, Option-cases, ok,
}
use project_starfly_fabrics.Exchange.Request.{TokenExchangeRequest}
use project_starfly_fabrics.Exchange.Engine.Types.{Engine, World}
use project_starfly_fabrics.Exchange.Engine.Gates.{Readings}
use project_starfly_fabrics.Exchange.Engine.Mint.{Grant, build_token}
use project_starfly_fabrics.Exchange.Engine.Run.{TokenExchangeResponse, exchange}
use project_starfly_fabrics.Exchange.Engine.Granted.{exchange-Lawful}
use project_starfly_fabrics.Signals.Revocation.{InMemoryRevocationIndex, revoke, is_revoked}
use project_starfly_fabrics.Signals.Revocation.Held.{
  Used, InForce, AnySnapshot, revoked_until_expiry,
}

-- With the index as its checker, an engine issues tokens only to subjects that the index does not
-- hold as revoked at that time.
issued_unrevoked :
    (e : Engine) (req : TokenExchangeRequest) (t : Readings) (w w' : World)
    (resp : TokenExchangeResponse) (now : ℕ) (idx : InMemoryRevocationIndex)
    → e.revocation ≡ some (λ id. ok (is_revoked now id idx))
    → exchange e req t w ≡ (ok resp, w')
    → (g : Grant) × (e.sign (build_token e req g t.issued_at) ≡ ok resp.access_token)
      × (is_revoked now g.workload.id idx ≡ none)
issued_unrevoked e req t w w' resp now idx checker h =
    let (g, lawful, signed) = exchange-Lawful e req t w w' resp h in
    let answer : is_revoked now g.workload.id idx ≡ none =
      elim (Option-cases (is_revoked now g.workload.id idx)) [
        | inl none_held ↦ none_held
        | inr (entry, held) ↦ absurd (lawful.unrevoked _ entry checker (ap ok held))
      ] in
    (g, signed, answer)

-- An engine with the revocation index as its checker issues no token to a subject that was revoked,
-- up to the expiry of the revocation and for ever where it has none, whatever the index went
-- through in between: revocations of other subjects, imports and cleanups.
pub revoked_subject_refused :
    (e : Engine) (req : TokenExchangeRequest) (t : Readings) (w w' : World)
    (resp : TokenExchangeResponse) (revoked_at expires_at now : ℕ) (subject reason : String)
    (idx idx' idx'' : InMemoryRevocationIndex)
    → revoke revoked_at subject reason expires_at idx ≡ ok idx'
    → Used subject now AnySnapshot idx' idx''
    → InForce now expires_at
    → e.revocation ≡ some (λ id. ok (is_revoked now id idx''))
    → exchange e req t w ≡ (ok resp, w')
    → (g : Grant) × (e.sign (build_token e req g t.issued_at) ≡ ok resp.access_token)
      × (g.workload.id ≢ subject)
revoked_subject_refused e req t w w' resp revoked_at expires_at now subject reason idx idx' idx'' r
      u force checker h =
    let (g, signed, answer) = issued_unrevoked e req t w w' resp now idx'' checker h in
    let held =
      revoked_until_expiry revoked_at now expires_at subject reason idx idx' idx'' r u force in
    (g, signed, λ same. cc (sym answer ∙ ap (λ id. is_revoked now id idx'') same ∙ held))
