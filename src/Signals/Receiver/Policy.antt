-- ===== src/Signals/Receiver/Policy.antt =====
-- What the policy is asked about a security event, evaluatePolicy of pkg/signals/receiver.go.
use project_starfly_fabrics.Prelude.{
  ℕ, String, Option, none, some, [], ◌∷◌, is_empty, if◌then◌else◌,
}
use project_starfly_fabrics.Dict.{Dict, insert}
use project_starfly_fabrics.Claims.{text, array, nil, cons, Values, Claims}
use project_starfly_fabrics.Signals.Event.{SubjectIdentifier, SecurityEvent}
use project_starfly_fabrics.Signals.Receiver.Types.{SignalPolicyInput}

-- The SPIFFE ID, then the URI; the given text where neither is set.
abbrev pub named_subject : String → Option SubjectIdentifier → String
named_subject default none = default
named_subject default (some s) =
    if is_empty s.spiffe_id then if is_empty s.uri then default else s.uri else s.spiffe_id

type_values : Dict Claims → Values
type_values [] = nil
type_values ((event_type, claims) ∷ events) = cons (text event_type) (type_values events)

-- `for k, v := range eventData { policyCtx[k] = v }`
unfoldable pub copy_all : Claims → Claims → Claims
copy_all [] ctx = ctx
copy_all ((k, v) ∷ claims) ctx = copy_all claims (insert k v ctx)

abbrev first_data : Dict Claims → Claims
first_data [] = []
first_data ((event_type, claims) ∷ events) = claims

abbrev attested : ℕ → Option SubjectIdentifier → Option ℕ
attested now none = none
attested now (some s) = some now

unfoldable pub signal_policy_input : ℕ → SecurityEvent → SignalPolicyInput
unfolding type_values copy_all
signal_policy_input now event = record {
  action = "signal";
  subject = named_subject event.issuer event.subject_id;
  attested_at = attested now event.subject_id;
  target = event.audience;
  context =
      copy_all (first_data event.events)
        (("event_types", array (type_values event.events)) ∷ ("jti", text event.jti) ∷ []);
}
