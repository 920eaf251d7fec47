-- ===== src/Exchange/Engine/Quiet.antt =====
-- Actions of the exchange that announce nothing and issue nothing, and how they compose.
use project_starfly_fabrics.Prelude.{
  ℕ, ◌+◌, ◌==◌, ◌≡◌, refl, ◌∙◌, Bool, true, false, ◌&&◌, List, [], ◌∷◌, if◌then◌else◌, Result, ok,
  err,
}
use project_starfly_fabrics.Exchange.Engine.Types.{
  ExchangeError, AuditEvent, World, Exec, continue, pure, raise, log, lift, ◌>>=◌, ◌>>◌,
}

-- An issued token is audited as an allowed token exchange.
abbrev pub is_issued : AuditEvent → Bool
is_issued ev = (ev.action == "token_exchange") && (ev.decision == "allowed")

unfoldable pub count_issued : List AuditEvent → ℕ
count_issued [] = 0
count_issued (ev ∷ evs) = if is_issued ev then count_issued evs + 1 else count_issued evs

-- Nothing was announced to the fabric or to the observers, and no token was issued.
pub record SameOutside (v w : World) : Type 0 where
  pub flashed : w.flashed ≡ v.flashed
  pub notices : w.notices ≡ v.notices
  pub issued : count_issued w.audit ≡ count_issued v.audit

pub record Quiet {A : Type 0} (m : Exec A) : Type 0 where
  pub at : (w : World) → SameOutside w (m w).1

pub SameOutside-refl : (w : World) → SameOutside w w
SameOutside-refl w = record { flashed = refl; notices = refl; issued = refl }

pub SameOutside-trans : {u v w : World} → SameOutside u v → SameOutside v w → SameOutside u w
SameOutside-trans p q = record {
  flashed = q.flashed ∙ p.flashed;
  notices = q.notices ∙ p.notices;
  issued = q.issued ∙ p.issued;
}

module _ {A : Type 0} where
  pub Quiet-pure : (a : A) → Quiet (pure a)
  unfolding pure
  Quiet-pure a = record { at = λ w. SameOutside-refl w }

  pub Quiet-raise : (e : ExchangeError) → Quiet (raise {A = A} e)
  unfolding raise
  Quiet-raise e = record { at = λ w. SameOutside-refl w }

  pub Quiet-lift : {E : Type 0} (f : E → ExchangeError) (r : Result E A) → Quiet (lift f r)
  unfolding lift
  Quiet-lift f r = record { at = λ w. SameOutside-refl w }

pub Quiet-log : (ev : AuditEvent) → is_issued ev ≡ false → Quiet (log ev)
unfolding log count_issued
Quiet-log ev h = record { at = λ w. record { flashed = refl; notices = refl; issued = rw h } }

continue-SameOutside :
    {A B : Type 0} (f : A → Exec B) (r : Result ExchangeError A × World)
    → ((a : A) → Quiet (f a))
    → SameOutside r.1 (continue f r).1
continue-SameOutside f (ok a, w) q = (q a).at w
continue-SameOutside f (err e, w) q = SameOutside-refl w

pub Quiet-bind :
    {A B : Type 0} (m : Exec A) (f : A → Exec B)
    → Quiet m
    → ((a : A) → Quiet (f a))
    → Quiet (m >>= f)
unfolding ◌>>=◌
Quiet-bind m f q k = record {
  at = λ w. SameOutside-trans (q.at w) (continue-SameOutside f (m w) k);
}

pub Quiet-then :
    {B : Type 0} (m : Exec (Unit {0})) (k : Exec B) → Quiet m → Quiet k → Quiet (m >> k)
unfolding ◌>>◌
Quiet-then m k q r = Quiet-bind m (λ _. k) q (λ _. r)

pub Quiet-if :
    {A : Type 0} (b : Bool) (m n : Exec A) → Quiet m → Quiet n → Quiet (if b then m else n)
Quiet-if true m n q r = q
Quiet-if false m n q r = r
