-- ===== src/Exchange/Engine/Types.antt =====
-- The engine's configuration and effects, pkg/exchange/engine.go. What the engine calls through an
-- interface is a function of the configuration; `none` is a dependency that is not set. An action
-- reads and changes the world and returns a value or an error.
use project_starfly_fabrics.Signals.Revocation.{RevocationEntry}
use project_starfly_fabrics.Prelude.{ℕ, String, ◌≡◌, refl, Bool, Option, List, ◌∷◌, Result, ok, err}
use project_starfly_fabrics.Dict.{Dict}
use project_starfly_fabrics.Claims.{Claims}
use project_starfly_fabrics.Secrets.{SecretSource}
use project_starfly_fabrics.Exchange.Delegation.{ActorToken, DelegationError}
use project_starfly_fabrics.Exchange.Nonce.{NonceTracker, NonceError}
use project_starfly_fabrics.Exchange.Scope.{ScopeError}
use project_starfly_fabrics.Exchange.Attestation.{AttestationError}
use project_starfly_fabrics.Exchange.Dpop.{JoseLibrary, DpopError}

pub data ExchangeError : Type 0 where
  invalid_grant_type unsupported_token invalid_subject subject_revoked : ExchangeError
  workload_validation policy_failed policy_denied actor_token_invalid signing_failed :
      String → ExchangeError
  attestation_invalid : AttestationError → ExchangeError
  delegation_denied : DelegationError → ExchangeError
  dpop_invalid : DpopError → ExchangeError
  scope_invalid : ScopeError → ExchangeError
  nonce_replayed : NonceError → ExchangeError

pub record WorkloadIdentity : Type 0 where
  pub id : String
  pub trust_domain : String

pub record PolicyInput : Type 0 where
  pub action : String
  pub subject : WorkloadIdentity
  pub target : String
  pub context : Claims

pub record PolicyDecision : Type 0 where
  pub allowed : Bool
  pub reason : String
  pub claims : Claims

-- The text of an error stands as the error itself.
pub data Reason : Type 0 where
  no_reason : Reason
  because : String → Reason
  error_text : ExchangeError → Reason

pub record AuditEvent : Type 0 where
  pub kind : String
  pub action : String
  pub subject : String
  pub target : String
  pub decision : String
  pub reason : Reason
  pub metadata : Claims

pub record Signal : Type 0 where
  pub kind : String
  pub payload : Dict String

pub record ExchangeNotice : Type 0 where
  pub subject : String
  pub target : String
  pub result : String

-- A token before it is signed: the registered claims and the private ones.
pub record WimseToken : Type 0 where
  pub subject : String
  pub issuer : String
  pub audience : String
  pub issued_at : ℕ
  pub expiration : ℕ
  pub claims : Claims

-- The key store's keys are texts here: the engine only hands them to the JWE library.
pub record Engine : Type 0 where
  pub validate_workload : String → String → Result String WorkloadIdentity
  pub evaluate : PolicyInput → Result String PolicyDecision
  pub parse_actor : String → Result String ActorToken
  pub jose : JoseLibrary
  pub sign : WimseToken → Result String String
  pub issuer : String
  pub ttl : ℕ
  pub execution_ttl : ℕ
  pub dev_mode : Bool
  pub revocation : Option (String → Result String (Option RevocationEntry))
  pub counts_revocation_errors : Bool
  pub secret_source : Option (Dict SecretSource)
  pub encryption_keys : Option (String → Result String String)
  pub jwe : Dict String → String → Option String
  pub counts_secret_delivery : Bool
  pub sync_bus : Option (Signal → Result String (Unit {0}))
  pub notifies : Bool

-- The lists hold the newest event first. An audit event is recorded as it is logged; the engine
-- drops the errors of its auditor.
pub record World : Type 0 where
  pub nonces : NonceTracker
  pub audit : List AuditEvent
  pub flashed : List Signal
  pub revocation_errors : ℕ
  pub deliveries : List String
  pub notices : List ExchangeNotice

abbrev pub Exec : Type 0 → Type 0
Exec A = World → Result ExchangeError A × World

abbrev pub continue :
    {A B : Type 0} → (A → Exec B) → Result ExchangeError A × World → Result ExchangeError B × World
continue f (ok a, w) = f a w
continue f (err e, w) = (err e, w)

infixl 5 ◌>>=◌ ◌>>◌
unfoldable pub ◌>>=◌ : {A B : Type 0} → Exec A → (A → Exec B) → Exec B
◌>>=◌ m f w = continue f (m w)

unfoldable pub ◌>>◌ : {B : Type 0} → Exec (Unit {0}) → Exec B → Exec B
unfolding ◌>>=◌
m >> k = m >>= λ _. k

unfoldable pub pure : {A : Type 0} → A → Exec A
pure a w = (ok a, w)

unfoldable pub raise : {A : Type 0} → ExchangeError → Exec A
raise e w = (err e, w)

-- `_ = e.auditor.Log(ctx, ev)`
unfoldable pub log : AuditEvent → Exec (Unit {0})
log ev w = (ok tt, record w { audit = ev ∷ w.audit })

abbrev pub lift_with : {E A : Type 0} → (E → ExchangeError) → Result E A → Result ExchangeError A
lift_with f (ok a) = ok a
lift_with f (err e) = err (f e)

-- A computation that changes nothing.
unfoldable pub lift : {E A : Type 0} → (E → ExchangeError) → Result E A → Exec A
lift f r w = (lift_with f r, w)

continue-ok :
    {A B : Type 0} (f : A → Exec B) (r : Result ExchangeError A × World) {b : B} {w' : World}
    → continue f r ≡ (ok b, w')
    → (a : A) × (w1 : World) × (r ≡ (ok a, w1)) × (f a w1 ≡ (ok b, w'))
continue-ok f (ok a, w1) h = (a, w1, refl, h)
continue-ok f (err e, w1) h = cc

-- Inversion of a successful block.
pub >>=-ok :
    {A B : Type 0} (m : Exec A) (f : A → Exec B) (w : World) {b : B} {w' : World}
    → (m >>= f) w ≡ (ok b, w')
    → (a : A) × (w1 : World) × (m w ≡ (ok a, w1)) × (f a w1 ≡ (ok b, w'))
unfolding ◌>>=◌
>>=-ok m f w h = continue-ok f (m w) h

-- The same with the parts named by a continuation, which keeps the terms of a long block small.
pub >>=-elim :
    {A B P : Type 0} (m : Exec A) (f : A → Exec B) (w : World) {b : B} {w' : World}
    → (m >>= f) w ≡ (ok b, w')
    → ((a : A) (w1 : World) → m w ≡ (ok a, w1) → f a w1 ≡ (ok b, w') → P)
    → P
>>=-elim m f w h use_parts = let (a, w1, e, k) = >>=-ok m f w h in use_parts a w1 e k
