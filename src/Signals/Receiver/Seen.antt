-- ===== src/Signals/Receiver/Seen.antt =====
-- What keeps the JTIs that the receiver has seen.
use project_starfly_fabrics.Prelude.{
  String, ◌≡◌, refl, ◌∙◌, inl, inr, Option, none, some, arith, is_empty, Bool-cases, Result, ok,
  err,
}
use project_starfly_fabrics.Dict.{lookup}
use project_starfly_fabrics.Exchange.Engine.Types.{PolicyDecision}
use project_starfly_fabrics.Signals.Revocation.{InMemoryRevocationIndex, RevocationError}
use project_starfly_fabrics.Signals.Event.{SecurityEvent, ReceiveError}
use project_starfly_fabrics.Signals.Receiver.Types.{
  SignalPolicyInput, ReceiverConfig, ReceiverEvent, Receiver, ReceiveTimes,
}
use project_starfly_fabrics.Signals.Receiver.Policy.{signal_policy_input}
use project_starfly_fabrics.Signals.Receiver.{
  audit, store_revocation, revoke_subject, handle_revocation, is_true, obey, decide, apply_policy,
  propagate, notify, announce, if_ok, process,
}

-- The same JTIs.
abbrev pub SameSeen : Receiver → Receiver → Type 0
SameSeen rx rx' = rx'.jti_seen ≡ rx.jti_seen

audit-SameSeen :
    (cfg : ReceiverConfig) (event : ReceiverEvent) (rx : Receiver)
    → SameSeen rx (audit cfg event rx)
unfolding audit
audit-SameSeen cfg event rx = ground arith

propagate-SameSeen :
    (cfg : ReceiverConfig) (event : SecurityEvent) (rx : Receiver)
    → SameSeen rx (propagate cfg event rx)
unfolding propagate
propagate-SameSeen cfg event rx = ground arith

notify-SameSeen :
    (cfg : ReceiverConfig) (event : SecurityEvent) (rx : Receiver)
    → SameSeen rx (notify cfg event rx)
unfolding notify
notify-SameSeen cfg event rx = ground arith

announce-SameSeen :
    (cfg : ReceiverConfig) (event : SecurityEvent) (rx : Receiver)
    → SameSeen rx (announce cfg event rx)
unfolding announce
announce-SameSeen cfg event rx =
    notify-SameSeen cfg event _ ∙ audit-SameSeen cfg _ _ ∙ propagate-SameSeen cfg event rx

store_revocation-SameSeen :
    (cfg : ReceiverConfig) (event : SecurityEvent) (subject reason : String) (rx : Receiver)
    (r : Result RevocationError InMemoryRevocationIndex)
    → SameSeen rx (store_revocation cfg event subject reason rx r)
store_revocation-SameSeen cfg event subject reason rx (err e) = refl
store_revocation-SameSeen cfg event subject reason rx (ok idx) = audit-SameSeen cfg _ _

revoke_subject-SameSeen :
    (cfg : ReceiverConfig) (t : ReceiveTimes) (event : SecurityEvent) (subject : String)
    (rx : Receiver) (o : Option InMemoryRevocationIndex)
    → SameSeen rx (revoke_subject cfg t event subject rx o)
revoke_subject-SameSeen cfg t event subject rx none = refl
revoke_subject-SameSeen cfg t event subject rx (some idx) = elim (Bool-cases (is_empty subject)) [
  | inl unnamed ↦ rw unnamed refl
  | inr named ↦ rw named (store_revocation-SameSeen cfg event subject _ rx _)
]

obey-SameSeen :
    (cfg : ReceiverConfig) (t : ReceiveTimes) (event : SecurityEvent) (d : PolicyDecision)
    (rx : Receiver)
    → SameSeen rx (obey cfg t event d rx).1
unfolding obey handle_revocation
obey-SameSeen cfg t event d rx = elim (Bool-cases d.allowed) [
  | inr denied ↦ rw denied (audit-SameSeen cfg _ rx)
  | inl allowed ↦ elim (Bool-cases (is_true (lookup "revoke_tokens" d.claims))) [
    | inl revokes ↦ rw (allowed, revokes) (revoke_subject-SameSeen cfg t event _ rx rx.revocation)
    | inr keeps ↦ rw (allowed, keeps) refl
  ]
]

decide-SameSeen :
    (cfg : ReceiverConfig) (t : ReceiveTimes) (event : SecurityEvent) (rx : Receiver)
    (r : Result String PolicyDecision)
    → SameSeen rx (decide cfg t event rx r).1
decide-SameSeen cfg t event rx (err e) = refl
decide-SameSeen cfg t event rx (ok d) = obey-SameSeen cfg t event d rx

apply_policy-SameSeen :
    (cfg : ReceiverConfig) (t : ReceiveTimes) (event : SecurityEvent)
    (policy : Option (SignalPolicyInput → Result String PolicyDecision)) (rx : Receiver)
    → SameSeen rx (apply_policy cfg t event policy rx).1
unfolding apply_policy
apply_policy-SameSeen cfg t event none rx = refl
apply_policy-SameSeen cfg t event (some evaluate) rx =
    decide-SameSeen cfg t event rx (evaluate (signal_policy_input t.evaluated_at event))

if_ok-SameSeen :
    (go_on : Receiver → Result ReceiveError (Unit {0}) × Receiver) (rx : Receiver)
    (r : Result ReceiveError (Unit {0}) × Receiver)
    → SameSeen rx r.1
    → ((rx' : Receiver) → SameSeen rx' (go_on rx').1)
    → SameSeen rx (if_ok go_on r).1
if_ok-SameSeen go_on rx (ok x, rx') k h = h rx' ∙ k
if_ok-SameSeen go_on rx (err e, rx') k h = k

-- After the duplicate test nothing touches the JTIs.
pub process-SameSeen :
    (cfg : ReceiverConfig) (t : ReceiveTimes) (event : SecurityEvent) (rx : Receiver)
    → SameSeen rx (process cfg t event rx).1
unfolding process
process-SameSeen cfg t event rx =
    if_ok-SameSeen (λ rx'. (ok tt, announce cfg event rx')) rx
      (apply_policy cfg t event cfg.policy rx) (apply_policy-SameSeen cfg t event cfg.policy rx)
      (announce-SameSeen cfg event)
