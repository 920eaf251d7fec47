-- ===== src/Exchange/Engine/Events.antt =====
-- The audit events of an exchange, pkg/exchange/engine.go.
use project_starfly_fabrics.Prelude.{String, [], ◌∷◌, is_empty, if◌then◌else◌}
use project_starfly_fabrics.Claims.{text}
use project_starfly_fabrics.Exchange.Engine.Types.{AuditEvent, Reason, no_reason}

abbrev pub exchange_event : String → String → String → String → Reason → AuditEvent
exchange_event action subject target decision reason = record {
  kind = "exchange";
  action = action;
  subject = subject;
  target = target;
  decision = decision;
  reason = reason;
  metadata = [];
}

abbrev pub denied_event : String → String → Reason → AuditEvent
denied_event subject target reason = exchange_event "token_exchange" subject target "denied" reason

-- The event of an issued token says whether secrets went with it.
unfoldable pub allowed_event : String → String → String → AuditEvent
allowed_event subject target secrets_claim =
    record (exchange_event "token_exchange" subject target "allowed" no_reason) {
      metadata = if is_empty secrets_claim then [] else ("secret_delivery", text "ok") ∷ [];
    }

abbrev pub sync_event : String → String → String → Reason → AuditEvent
sync_event action subject target reason = record {
  kind = "sync";
  action = action;
  subject = subject;
  target = target;
  decision = "";
  reason = reason;
  metadata = [];
}
