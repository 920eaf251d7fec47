-- ===== src/Signals/Receiver.antt =====
-- The receiver of security events, pkg/signals/receiver.go. Each reading of the clock is an
-- argument; the policy engine and the sync bus are functions of the configuration, where `none` is
-- one that is not set. What the receiver logs, hands to the bus and reports is kept with the newest first.
pub mod Types
pub mod Policy
pub mod Seen
pub mod Duplicates
pub mod Revokes
mod Tests
use project_starfly_fabrics.Prelude.{
  ℕ, ◌+◌, String, ◌==◌, Bool, true, false, not, ◌&&◌, ◌||◌, Option, none, some, List, [], ◌∷◌,
  is_empty, is_nil, leb, ltb, nat_beq, if◌then◌else◌, Result, ok, err,
}
use project_starfly_fabrics.Dict.{Dict, lookup, insert, keep}
use project_starfly_fabrics.Claims.{Value, boolean, text, array, nil, cons, Values, Claims}
use project_starfly_fabrics.Exchange.Engine.Types.{PolicyDecision}
use project_starfly_fabrics.Signals.Revocation.{InMemoryRevocationIndex, RevocationError, revoke}
use Types.{
  SignalPolicyInput, ReceiverConfig, ReceiverEvent, CaepSignal, SignalNotice, Receiver,
  ReceiveTimes,
}
use Policy.{named_subject, signal_policy_input}
use project_starfly_fabrics.Signals.Event.{
  SubjectIdentifier, SecurityEvent, ReceiveError, invalid_set, duplicate_jti, evaluating_policy,
  signal_denied, SetLibrary, parse_set,
}

abbrev pub jti_cleanup_interval : ℕ
jti_cleanup_interval = 256

abbrev pub not_before : ℕ → Option ℕ → Bool
not_before now none = false
not_before now (some exp) = ltb now exp

-- Records the JTI, and prunes at every 256th insertion.
unfoldable pub mark_jti : ℕ → ℕ → String → Receiver → Receiver
mark_jti ttl now jti rx =
    let seen = insert jti (now + ttl) rx.jti_seen in
    if leb jti_cleanup_interval (rx.jti_write_count + 1)
    then record rx { jti_seen = keep (λ exp. not (ltb exp now)) seen; jti_write_count = 0 }
    else record rx { jti_seen = seen; jti_write_count = rx.jti_write_count + 1 }

unfoldable pub check_and_mark_jti :
    ℕ → ℕ → String → Receiver → Result ReceiveError (Unit {0}) × Receiver
unfolding mark_jti
check_and_mark_jti ttl now jti rx =
    if nat_beq ttl 0 || is_empty jti
    then (ok tt, rx)
    else if not_before now (lookup jti rx.jti_seen)
    then (err duplicate_jti, rx)
    else (ok tt, mark_jti ttl now jti rx)

unfoldable pub audit : ReceiverConfig → ReceiverEvent → Receiver → Receiver
audit cfg event rx = if cfg.audits then record rx { audit_log = event ∷ rx.audit_log } else rx

abbrev pub event_types : Dict Claims → List String
event_types [] = []
event_types ((event_type, claims) ∷ events) = event_type ∷ event_types events

abbrev pub first_type : String → Dict Claims → String
first_type default [] = default
first_type default ((event_type, claims) ∷ events) = event_type

abbrev pub revoked_event : ReceiverConfig → SecurityEvent → String → String → ReceiverEvent
revoked_event cfg event subject reason = record {
  action = "token_revoked";
  subject = subject;
  target = event.issuer;
  decision = "allowed";
  reason = reason;
  unit_id = cfg.unit_id;
}

abbrev pub store_revocation :
    ReceiverConfig
    → SecurityEvent
    → String
    → String
    → Receiver
    → Result RevocationError InMemoryRevocationIndex
    → Receiver
store_revocation cfg event subject reason rx (err e) = rx
store_revocation cfg event subject reason rx (ok idx) =
    audit cfg (revoked_event cfg event subject reason) (record rx { revocation = some idx })

-- The reason is the first event type of the list; Go takes any key of the map.
abbrev pub revoke_subject :
    ReceiverConfig
    → ReceiveTimes
    → SecurityEvent
    → String
    → Receiver
    → Option InMemoryRevocationIndex
    → Receiver
revoke_subject cfg t event subject rx none = rx
revoke_subject cfg t event subject rx (some idx) =
    if is_empty subject
    then rx
    else store_revocation cfg event subject (first_type "caep-event" event.events) rx (
        revoke t.revoked_at subject (first_type "caep-event" event.events)
          (t.granted_at + cfg.revocation_grace) idx)

unfoldable pub handle_revocation :
    ReceiverConfig → ReceiveTimes → SecurityEvent → Receiver → Receiver
unfolding audit
handle_revocation cfg t event rx =
    revoke_subject cfg t event (named_subject "" event.subject_id) rx rx.revocation

-- `v, ok := claims["revoke_tokens"]; v.(bool) && v`
abbrev pub is_true : Option Value → Bool
is_true (some (boolean b)) = b
is_true _ = false

abbrev pub denied_event : ReceiverConfig → SecurityEvent → String → ReceiverEvent
denied_event cfg event reason = record {
  action = "event_denied";
  subject = event.jti;
  target = event.issuer;
  decision = "denied";
  reason = reason;
  unit_id = cfg.unit_id;
}

abbrev pub received_event : ReceiverConfig → SecurityEvent → ReceiverEvent
received_event cfg event = record {
  action = "event_received";
  subject = event.jti;
  target = event.issuer;
  decision = "allowed";
  reason = "";
  unit_id = cfg.unit_id;
}

unfoldable pub obey :
    ReceiverConfig
    → ReceiveTimes
    → SecurityEvent
    → PolicyDecision
    → Receiver
    → Result ReceiveError (Unit {0}) × Receiver
unfolding audit handle_revocation lookup
obey cfg t event d rx =
    if not d.allowed
    then (err (signal_denied d.reason), audit cfg (denied_event cfg event d.reason) rx)
    else if is_true (lookup "revoke_tokens" d.claims)
    then (ok tt, handle_revocation cfg t event rx)
    else (ok tt, rx)

abbrev pub decide :
    ReceiverConfig
    → ReceiveTimes
    → SecurityEvent
    → Receiver
    → Result String PolicyDecision
    → Result ReceiveError (Unit {0}) × Receiver
decide cfg t event rx (err e) = (err (evaluating_policy e), rx)
decide cfg t event rx (ok d) = obey cfg t event d rx

unfoldable pub apply_policy :
    ReceiverConfig
    → ReceiveTimes
    → SecurityEvent
    → Option (SignalPolicyInput → Result String PolicyDecision)
    → Receiver
    → Result ReceiveError (Unit {0}) × Receiver
unfolding obey signal_policy_input
apply_policy cfg t event none rx = (ok tt, rx)
apply_policy cfg t event (some evaluate) rx =
    decide cfg t event rx (evaluate (signal_policy_input t.evaluated_at event))

-- An error of the bus is logged and passed over.
unfoldable pub propagate : ReceiverConfig → SecurityEvent → Receiver → Receiver
propagate cfg event rx =
    if cfg.flashes
    then record rx {
      flashed =
          record {
            source = cfg.unit_id;
            jti = event.jti;
            issuer = event.issuer;
            event_types = event_types event.events;
          }
          ∷ rx.flashed;
    }
    else rx

-- The callback's subject: the URI, then the SPIFFE ID, then the issuer.
abbrev pub noticed_subject : String → Option SubjectIdentifier → String
noticed_subject default none = default
noticed_subject default (some s) =
    if is_empty s.uri then if is_empty s.spiffe_id then default else s.spiffe_id else s.uri

unfoldable pub notify : ReceiverConfig → SecurityEvent → Receiver → Receiver
notify cfg event rx =
    if cfg.notifies
    then record rx {
      notices =
          record {
            event_type = first_type "" event.events;
            subject = noticed_subject event.issuer event.subject_id;
          }
          ∷ rx.notices;
    }
    else rx

unfoldable pub announce : ReceiverConfig → SecurityEvent → Receiver → Receiver
unfolding propagate audit notify
announce cfg event rx =
    notify cfg event (audit cfg (received_event cfg event) (propagate cfg event rx))

-- Continues where there was no error.
abbrev pub if_ok :
    (Receiver → Result ReceiveError (Unit {0}) × Receiver)
    → Result ReceiveError (Unit {0}) × Receiver
    → Result ReceiveError (Unit {0}) × Receiver
if_ok go_on (ok x, rx) = go_on rx
if_ok go_on (err e, rx) = (err e, rx)

unfoldable pub process :
    ReceiverConfig
    → ReceiveTimes
    → SecurityEvent
    → Receiver
    → Result ReceiveError (Unit {0}) × Receiver
unfolding apply_policy announce
process cfg t event rx =
    if_ok (λ rx'. (ok tt, announce cfg event rx')) (apply_policy cfg t event cfg.policy rx)

unfoldable pub receive_event :
    ReceiverConfig
    → ReceiveTimes
    → Option SecurityEvent
    → Receiver
    → Result ReceiveError (Unit {0}) × Receiver
unfolding check_and_mark_jti process
receive_event cfg t none rx = (err invalid_set, rx)
receive_event cfg t (some event) rx =
    if is_nil event.events
    then (err invalid_set, rx)
    else if_ok (process cfg t event) (check_and_mark_jti cfg.jti_ttl t.checked_at event.jti rx)

abbrev receive_parsed :
    ReceiverConfig
    → ReceiveTimes
    → Receiver
    → Result ReceiveError SecurityEvent
    → Result ReceiveError (Unit {0}) × Receiver
receive_parsed cfg t rx (err e) = (err e, rx)
receive_parsed cfg t rx (ok event) = receive_event cfg t (some event) rx

unfoldable pub receive_set {ℓ} :
    {K : Type ℓ}
    → SetLibrary K
    → ReceiverConfig
    → ReceiveTimes
    → String
    → Receiver
    → Result ReceiveError (Unit {0}) × Receiver
unfolding parse_set receive_event
receive_set lib cfg t raw rx = receive_parsed cfg t rx (parse_set lib cfg.dev_mode raw)
