-- ===== src/Signals/Receiver/Tests.antt =====
-- Runs of the receiver with a policy that asks for revocation.
use project_starfly_fabrics.Prelude.{is_empty}
use project_starfly_fabrics.Prelude.{
  ℕ, ◌≡◌, refl, ◌≢◌, true, false, none, some, [], ◌∷◌, arith, ok, err,
}
use project_starfly_fabrics.Prelude.Int.{pos}
use project_starfly_fabrics.Dict.{lookup, insert}
use project_starfly_fabrics.Claims.{text, boolean}
use project_starfly_fabrics.Exchange.Engine.Types.{PolicyDecision}
use project_starfly_fabrics.Signals.Revocation.{new_revocation_index}
use project_starfly_fabrics.Signals.Event.{
  SecurityEvent, SubjectIdentifier, duplicate_jti, evaluating_policy,
}
use project_starfly_fabrics.Signals.Receiver.Types.{ReceiverConfig, Receiver, ReceiveTimes}
use project_starfly_fabrics.Signals.Receiver.Policy.{signal_policy_input}
use project_starfly_fabrics.Signals.Receiver.{receive_event}
use project_starfly_fabrics.Signals.Receiver.Duplicates.{
  Deduplicated, deliver_all, duplicate_refused,
}

abbrev revoking : PolicyDecision
revoking = record { allowed = true; reason = ""; claims = ("revoke_tokens", boolean true) ∷ [] }

abbrev config : ReceiverConfig
config = record {
  policy = some (λ input. ok revoking);
  flashes = true;
  audits = true;
  notifies = false;
  unit_id = "unit";
  dev_mode = false;
  revocation_grace = 50;
  jti_ttl = 100;
}

abbrev failing : ReceiverConfig
failing = record config { policy = some (λ input. err "opa") }

abbrev agent : SubjectIdentifier
agent = record { format = "uri"; spiffe_id = ""; email = ""; uri = "wimse://corp/agent" }

abbrev event : SecurityEvent
event = record {
  issuer = "peer";
  jti = "j1";
  issued_at = pos 10;
  audience = "unit";
  subject_id = some agent;
  events = ("session-revoked", ("jti", text "forged") ∷ []) ∷ [];
  transaction_id = "";
}

abbrev receiver : Receiver
receiver = record {
  jti_seen = [];
  jti_write_count = 0;
  revocation = some new_revocation_index;
  audit_log = [];
  flashed = [];
  notices = [];
}

abbrev at : ℕ → ReceiveTimes
at now = record { checked_at = now; evaluated_at = now; granted_at = now; revoked_at = now }

abbrev accepted : Receiver
accepted = (receive_event config (at 20) (some event) receiver).1

accepted_first : (receive_event config (at 20) (some event) receiver).0 ≡ ok tt
unfolding receive_event is_empty
accepted_first = refl

failed_first :
    (receive_event failing (at 20) (some event) receiver).0 ≡ err (evaluating_policy "opa")
unfolding receive_event is_empty
failed_first = refl

-- After the failure of the policy engine the sender's retry counts as a duplicate.
retry_refused :
    (receive_event config
      (at 30)
      (some event)
      (receive_event failing (at 20) (some event) receiver).1).0
    ≡ err duplicate_jti
unfolding receive_event is_empty insert
retry_refused = refl

-- The claims of the event replace the receiver's own entries in the context of the policy.
context_forged : lookup "jti" (signal_policy_input 20 event).context ≡ some (text "forged")
unfolding signal_policy_input lookup insert
context_forged = refl

event-Deduplicated : Deduplicated config event
unfolding is_empty
event-Deduplicated = record { enabled = refl; named = refl; filled = refl }

not_duplicate : (receive_event config (at 20) (some event) receiver).0 ≢ err duplicate_jti
not_duplicate e = cc (accepted_first, e)

duplicate_refused_example :
    (receive_event config
      (at 119)
      (some event)
      (deliver_all config ((at 40, none) ∷ []) accepted)).0
    ≡ err duplicate_jti
duplicate_refused_example =
    duplicate_refused config (at 20) (at 119) event event ((at 40, none) ∷ []) receiver
      event-Deduplicated event-Deduplicated refl not_duplicate (omega arith, tt) (omega arith)
