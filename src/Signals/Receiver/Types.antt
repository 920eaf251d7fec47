-- ===== src/Signals/Receiver/Types.antt =====
-- The configuration and the state of the receiver of pkg/signals/receiver.go.
use project_starfly_fabrics.Prelude.{ℕ, String, Bool, Option, List, Result}
use project_starfly_fabrics.Dict.{Dict}
use project_starfly_fabrics.Claims.{Claims}
use project_starfly_fabrics.Exchange.Engine.Types.{PolicyDecision}
use project_starfly_fabrics.Signals.Revocation.{InMemoryRevocationIndex}

-- The input of the signal policy; `attested_at` is set where the event names its subject.
pub record SignalPolicyInput : Type 0 where
  pub action : String
  pub subject : String
  pub attested_at : Option ℕ
  pub target : String
  pub context : Claims

pub record ReceiverConfig : Type 0 where
  pub policy : Option (SignalPolicyInput → Result String PolicyDecision)
  pub flashes : Bool
  pub audits : Bool
  pub notifies : Bool
  pub unit_id : String
  pub dev_mode : Bool
  pub revocation_grace : ℕ
  pub jti_ttl : ℕ

pub record ReceiverEvent : Type 0 where
  pub action : String
  pub subject : String
  pub target : String
  pub decision : String
  pub reason : String
  pub unit_id : String

pub record CaepSignal : Type 0 where
  pub source : String
  pub jti : String
  pub issuer : String
  pub event_types : List String

pub record SignalNotice : Type 0 where
  pub event_type : String
  pub subject : String

pub record Receiver : Type 0 where
  pub jti_seen : Dict ℕ
  pub jti_write_count : ℕ
  pub revocation : Option InMemoryRevocationIndex
  pub audit_log : List ReceiverEvent
  pub flashed : List CaepSignal
  pub notices : List SignalNotice

-- The readings of the clock: of the duplicate test, of the policy input, of the expiry of a
-- revocation, and of the revocation itself.
pub record ReceiveTimes : Type 0 where
  pub checked_at : ℕ
  pub evaluated_at : ℕ
  pub granted_at : ℕ
  pub revoked_at : ℕ
