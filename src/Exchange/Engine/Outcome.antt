-- ===== src/Exchange/Engine/Outcome.antt =====
-- What a refused exchange and a successful one leave behind.
use project_starfly_fabrics.Prelude.{
  ◌+◌, String, ◌≡◌, refl, subst, ap, ◌∙◌, ◌≢◌, ◌⊎◌, inl, inr, arith, Result, ok, err,
}
use project_starfly_fabrics.Exchange.Request.{TokenExchangeRequest}
use project_starfly_fabrics.Exchange.Engine.Types.{
  ExchangeError, Engine, World, Exec, continue, >>=-elim, signing_failed, pure, log, lift, ◌>>=◌,
  ◌>>◌,
}
use project_starfly_fabrics.Exchange.Engine.Gates.{Readings}
use project_starfly_fabrics.Exchange.Engine.Mint.{Grant, build_token}
use project_starfly_fabrics.Exchange.Engine.Run.{
  TokenExchangeResponse, conclude, admit, issue, exchange,
}
use project_starfly_fabrics.Exchange.Engine.Events.{allowed_event}
use project_starfly_fabrics.Exchange.Engine.Passed.{lift-ok}
use project_starfly_fabrics.Exchange.Engine.Quiet.{SameOutside, count_issued}
use project_starfly_fabrics.Exchange.Engine.Silence.{Quiet-admit}

-- A failing block fails in its first part, or in the rest after it.
continue-err :
    {A B : Type 0} (f : A → Exec B) (r : Result ExchangeError A × World) {x : ExchangeError}
    {w' : World}
    → continue f r ≡ (err x, w')
    → (r.1 ≡ w') ⊎ ((a : A) × (w1 : World) × (r ≡ (ok a, w1)) × (f a w1 ≡ (err x, w')))
continue-err f (ok a, w1) h = inr (a, w1, refl, h)
continue-err f (err e, w1) h = inl (cc h)

conclude-succeeds :
    (e : Engine) (req : TokenExchangeRequest) (g : Grant) (signed : String) (w w' : World)
    (x : ExchangeError)
    → conclude e req g signed w ≢ (err x, w')
unfolding conclude ◌>>◌ log pure
conclude-succeeds e req g signed w w' x h = ground arith

issue-silent :
    (e : Engine) (req : TokenExchangeRequest) (t : Readings) (g : Grant) (w w' : World)
    (x : ExchangeError)
    → issue e req t g w ≡ (err x, w')
    → w ≡ w'
unfolding issue ◌>>=◌ lift
issue-silent e req t g w w' x h = elim (continue-err (conclude e req g) _ h) [
  | inl same ↦ same
  | inr (signed, w1, l, k) ↦ absurd (conclude-succeeds e req g signed w1 w' x k)
]

-- A refused exchange flashes no signal, notifies no observer, and leaves no audit event of an
-- issued token.
pub refused_silent :
    (e : Engine) (req : TokenExchangeRequest) (t : Readings) (w w' : World) (x : ExchangeError)
    → exchange e req t w ≡ (err x, w')
    → SameOutside w w'
unfolding exchange ◌>>=◌
refused_silent e req t w w' x h = elim (continue-err (issue e req t) (admit e req t w) h) [
  | inl same ↦ subst (SameOutside w) same ((Quiet-admit e req t).at w)
  | inr (g, w1, m, k) ↦
      subst (SameOutside w)
        (ap (λ (r : Result ExchangeError Grant × World). r.1) m ∙ issue-silent e req t g w1 w' x k)
        ((Quiet-admit e req t).at w)
]

conclude-issued :
    (e : Engine) (req : TokenExchangeRequest) (g : Grant) (signed : String) (w w' : World)
    (resp : TokenExchangeResponse)
    → conclude e req g signed w ≡ (ok resp, w')
    → count_issued w'.audit ≡ count_issued w.audit + 1
unfolding conclude ◌>>◌ log pure count_issued allowed_event
conclude-issued e req g signed w w' resp h = ground arith

-- A successful exchange leaves exactly one audit event of an issued token.
pub issued_once :
    (e : Engine) (req : TokenExchangeRequest) (t : Readings) (w w' : World)
    (resp : TokenExchangeResponse)
    → exchange e req t w ≡ (ok resp, w')
    → count_issued w'.audit ≡ count_issued w.audit + 1
unfolding exchange issue
issued_once e req t w w' resp h = >>=-elim (admit e req t) _ w h λ g w1 m k.
    >>=-elim (lift signing_failed (e.sign (build_token e req g t.issued_at))) _ w1 k
      λ signed w2 l c.
        let quiet : SameOutside w w1 =
          subst (SameOutside w) (ap (λ (r : Result ExchangeError Grant × World). r.1) m)
            ((Quiet-admit e req t).at w) in
        let (_, same) = lift-ok w1 w2 signing_failed _ signed l in
        conclude-issued e req g signed w2 w' resp c
        ∙ ap (λ n. n + 1) (ap (λ (v : World). count_issued v.audit) same ∙ quiet.issued)
