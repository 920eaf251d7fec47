-- ===== src/Signals/Event.antt =====
-- Security events, pkg/core/interfaces.go, and how pkg/signals/receiver.go reads them from a
-- verified SET. The JOSE libraries and the key resolver are functions of a record. Go walks a map in
-- no fixed order: the order of a list of events stands for the order of the walk.
use project_starfly_fabrics.Prelude.{
  ℕ, ◌/◌, String, Bool, Option, none, some, List, [], ◌∷◌, is_empty, if◌then◌else◌, Result, ok, err,
  bind, refuse_if,
}
use project_starfly_fabrics.Prelude.Int.{ℤ, pos, negsuc}
use project_starfly_fabrics.Dict.{Dict, lookup}
use project_starfly_fabrics.Claims.{
  Fields, end, field, Claims, as_text, as_object, and_then, get_text, get_field,
}
use project_starfly_fabrics.Exchange.Nonce.{second}
use project_starfly_fabrics.Exchange.Dpop.{or_error}

pub record SubjectIdentifier : Type 0 where
  pub format : String
  pub spiffe_id : String
  pub email : String
  pub uri : String

pub record SecurityEvent : Type 0 where
  pub issuer : String
  pub jti : String
  pub issued_at : ℤ
  pub audience : String
  pub subject_id : Option SubjectIdentifier
  pub events : Dict Claims
  pub transaction_id : String

pub data ReceiveError : Type 0 where
  invalid_set unknown_issuer duplicate_jti : ReceiveError
  evaluating_policy signal_denied : String → ReceiveError

-- A SET as the JWT library shows it, with its times in nanoseconds.
pub record SetToken : Type 0 where
  pub issuer : Option String
  pub jwt_id : Option String
  pub issued_at : Option ℕ
  pub audience : List String
  pub claims : Claims

pub record SetHeader : Type 0 where
  pub key_id : Option String
  pub algorithm : Option String

-- jwt.ParseInsecure, the protected headers of jws.Parse, the resolver (`none` where it is not set),
-- jwk.Import, and jwt.Parse under an algorithm and a key.
pub record SetLibrary {ℓ} (K : Type ℓ) : Type ℓ where
  pub parse_insecure : String → Result String SetToken
  pub parse_headers : String → Result String (List SetHeader)
  pub resolve_key : Option (String → String → Result String K)
  pub import_key : K → Result String K
  pub parse_signed : String → Option String → K → Result String SetToken

abbrev pub text_or_empty : Option String → String
text_or_empty none = ""
text_or_empty (some s) = s

-- `t.Unix()`, also of the zero time.
abbrev pub unix : Option ℕ → ℤ
unix none = negsuc 62135596799
unix (some t) = pos (t / second)

abbrev pub first_of : List String → String
first_of [] = ""
first_of (a ∷ auds) = a

-- `m[k].(string)`, or the empty text.
unfoldable pub text_field : String → Fields → String
unfolding get_field as_text
text_field k fs = text_or_empty (and_then (get_field k fs) as_text)

abbrev pub subject_of : Option Fields → Option SubjectIdentifier
subject_of none = none
subject_of (some fs) = some (record {
  format = text_field "format" fs;
  spiffe_id = text_field "spiffe_id" fs;
  email = text_field "email" fs;
  uri = text_field "uri" fs;
})

unfoldable pub claims_of : Fields → Claims
claims_of end = []
claims_of (field k v fs) = (k, v) ∷ claims_of fs

abbrev pub event_data : Option Fields → Claims
event_data none = []
event_data (some fs) = claims_of fs

unfoldable pub events_of : Fields → Dict Claims
unfolding claims_of as_object
events_of end = []
events_of (field k v fs) = (k, event_data (as_object v)) ∷ events_of fs

abbrev pub events_or_none : Option Fields → Dict Claims
events_or_none none = []
events_or_none (some fs) = events_of fs

unfoldable pub get_object : String → Claims → Option Fields
unfolding lookup as_object
get_object k c = and_then (lookup k c) as_object

unfoldable pub event_of : SetToken → SecurityEvent
unfolding text_field events_of get_object get_text
event_of token = record {
  issuer = text_or_empty token.issuer;
  jti = text_or_empty token.jwt_id;
  issued_at = unix token.issued_at;
  audience = first_of token.audience;
  subject_id = subject_of (get_object "sub_id" token.claims);
  events = events_or_none (get_object "events" token.claims);
  transaction_id = text_or_empty (get_text "txn" token.claims);
}

abbrev pub first_header : List SetHeader → Result ReceiveError SetHeader
first_header [] = err invalid_set
first_header (h ∷ hs) = ok h

abbrev pub resolver_or_error {κ} : {A : Type κ} → Option A → Result ReceiveError A
resolver_or_error none = err invalid_set
resolver_or_error (some a) = ok a

module _ {ℓ} {K : Type ℓ} where
  unfoldable pub verify_set : SetLibrary K → String → Result ReceiveError SetToken
  verify_set lib raw = bind (resolver_or_error lib.resolve_key) λ resolve.
      bind (or_error (lib.parse_insecure raw) invalid_set) λ insecure.
        bind (refuse_if (is_empty (text_or_empty insecure.issuer)) invalid_set) λ _.
          bind (or_error (lib.parse_headers raw) invalid_set) λ headers.
            bind (first_header headers) λ header.
              bind
                (or_error (resolve (text_or_empty insecure.issuer) (text_or_empty header.key_id))
                  unknown_issuer)
                λ key.
                  bind (or_error (lib.import_key key) invalid_set) λ imported.
                    or_error (lib.parse_signed raw header.algorithm imported) invalid_set

  unfoldable pub parse_set : SetLibrary K → Bool → String → Result ReceiveError SecurityEvent
  unfolding verify_set event_of
  parse_set lib dev_mode raw =
      bind (if dev_mode then or_error (lib.parse_insecure raw) invalid_set else verify_set lib raw)
        λ token. ok (event_of token)
