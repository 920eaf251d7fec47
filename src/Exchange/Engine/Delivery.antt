-- ===== src/Exchange/Engine/Delivery.antt =====
-- deliverSecrets of pkg/exchange/engine.go: the empty text stands for no delivery.
pub mod Sealed
mod Tests
use project_starfly_fabrics.Prelude.{
  String, Bool, ◌||◌, Option, none, some, List, [], ◌∷◌, is_empty, is_nil, if◌then◌else◌, Result,
  ok, err,
}
use project_starfly_fabrics.Dict.{Dict}
use project_starfly_fabrics.Claims.{
  Values, Fields, nil, cons, as_text, as_object, get_array, get_field, and_then,
}
use project_starfly_fabrics.Secrets.{
  SecretRef, SecretBundle, SecretSource, FetchError, fetch, encrypt_secret_bundle,
}
use project_starfly_fabrics.Exchange.Engine.Types.{Engine, PolicyDecision, Exec, pure}

unfoldable pub text_field : String → Fields → String
unfolding as_text get_field
text_field k fs = elim (and_then (get_field k fs) as_text) [ none ↦ "" | some s ↦ s ]

unfoldable pub ref_of : Fields → SecretRef
unfolding text_field
ref_of fs = record {
  source = text_field "source" fs;
  path = text_field "path" fs;
  key = text_field "key" fs;
  alias = text_field "alias" fs;
}

unfoldable pub is_incomplete : SecretRef → Bool
is_incomplete r = is_empty r.source || is_empty r.path || is_empty r.key

unfoldable pub add_complete : Option Fields → List SecretRef → List SecretRef
unfolding ref_of is_incomplete
add_complete none rest = rest
add_complete (some fs) rest = if is_incomplete (ref_of fs) then rest else ref_of fs ∷ rest

-- Entries that are no objects, or that lack a source, a path or a key, are passed over.
unfoldable pub parse_refs : Values → List SecretRef
unfolding add_complete as_object
parse_refs nil = []
parse_refs (cons v vs) = add_complete (as_object v) (parse_refs vs)

unfoldable pub secret_refs : PolicyDecision → List SecretRef
unfolding parse_refs get_array
secret_refs d = elim (get_array "secret_refs" d.claims) [ none ↦ [] | some vs ↦ parse_refs vs ]

-- The callback is told of the result, and a failed delivery is no error.
unfoldable pub settle : Bool → String → String → Exec String
settle counts result claim w =
    (ok claim, if counts then record w { deliveries = result ∷ w.deliveries } else w)

unfoldable pub encrypted : Engine → Option String → Exec String
unfolding settle
encrypted e none = settle e.counts_secret_delivery "encrypt_error" ""
encrypted e (some c) = settle e.counts_secret_delivery "ok" c

unfoldable pub encrypt : Engine → SecretBundle → String → Exec String
unfolding encrypted
encrypt e bundle key = encrypted e (encrypt_secret_bundle e.jwe bundle key)

unfoldable pub encrypt_fetched : Engine → String → Result FetchError SecretBundle → Exec String
unfolding encrypt settle
encrypt_fetched e key (err x) = settle e.counts_secret_delivery "source_unavailable" ""
encrypt_fetched e key (ok bundle) = encrypt e bundle key

unfoldable pub fetch_for_key :
    Engine → Dict SecretSource → List SecretRef → Result String String → Exec String
unfolding encrypt_fetched settle
fetch_for_key e sources refs (err msg) = settle e.counts_secret_delivery "no_key" ""
fetch_for_key e sources refs (ok key) = encrypt_fetched e key (fetch sources refs)

unfoldable pub look_up_key :
    Engine
    → Dict SecretSource
    → List SecretRef
    → String
    → Option (String → Result String String)
    → Exec String
unfolding fetch_for_key settle
look_up_key e sources refs id none = settle e.counts_secret_delivery "no_key" ""
look_up_key e sources refs id (some get) = fetch_for_key e sources refs (get id)

unfoldable pub deliver_from :
    Engine → String → PolicyDecision → Option (Dict SecretSource) → Exec String
unfolding look_up_key secret_refs
deliver_from e id d none = pure ""
deliver_from e id d (some sources) =
    if is_nil (secret_refs d)
    then pure ""
    else look_up_key e sources (secret_refs d) id e.encryption_keys

unfoldable pub deliver_secrets : Engine → String → PolicyDecision → Exec String
unfolding deliver_from
deliver_secrets e id d = deliver_from e id d e.secret_source
