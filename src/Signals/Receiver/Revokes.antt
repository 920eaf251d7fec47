-- ===== src/Signals/Receiver/Revokes.antt =====
-- Events that revoke their subject.
use project_starfly_fabrics.Prelude.{ℕ, ◌+◌, ◌≤◌, String, ◌≡◌, ◌≢◌, true, some, Result, ok}
use project_starfly_fabrics.Dict.{lookup}
use project_starfly_fabrics.Exchange.Engine.Types.{PolicyDecision}
use project_starfly_fabrics.Signals.Revocation.{
  RevocationEntry, InMemoryRevocationIndex, new_entry, is_revoked,
}
use project_starfly_fabrics.Signals.Event.{SecurityEvent}
use project_starfly_fabrics.Signals.Receiver.Types.{
  SignalPolicyInput, ReceiverConfig, Receiver, ReceiveTimes,
}
use project_starfly_fabrics.Signals.Receiver.Policy.{named_subject, signal_policy_input}
use project_starfly_fabrics.Signals.Receiver.{first_type, is_true}

-- The same revocation index.
abbrev SameIndex : Receiver → Receiver → Type 0
SameIndex rx rx' = rx'.revocation ≡ rx.revocation

-- The event revokes its subject, by the policy's decision.
pub record Revoking (cfg : ReceiverConfig) (t : ReceiveTimes) (event : SecurityEvent)
    (subject : String) : Type 0 where
  pub evaluate : SignalPolicyInput → Result String PolicyDecision
  pub decision : PolicyDecision
  pub configured : cfg.policy ≡ some evaluate
  pub decided : evaluate (signal_policy_input t.evaluated_at event) ≡ ok decision
  pub demanded : is_true (lookup "revoke_tokens" decision.claims) ≡ true
  pub named : named_subject "" event.subject_id ≡ subject
  pub set : subject ≢ ""

-- The entry that the event leaves for its subject.
abbrev pub entry_of : ReceiverConfig → ReceiveTimes → SecurityEvent → String → RevocationEntry
entry_of cfg t event subject =
    new_entry t.revoked_at subject (first_type "caep-event" event.events)
      (t.granted_at + cfg.revocation_grace)

abbrev RevokedUntil : ReceiverConfig → ReceiveTimes → SecurityEvent → String → Receiver → Type 0
RevokedUntil cfg t event subject rx =
    (idx : InMemoryRevocationIndex) × (rx.revocation ≡ some idx)
    × ((later : ℕ)
        → later ≤ t.granted_at + cfg.revocation_grace
        → is_revoked later subject idx ≡ some (entry_of cfg t event subject))
