-- ===== src/Jwks/Cache/Tests.antt =====
-- Runs of the cache over texts as keys: an issuer that serves one key, and then none.
use project_starfly_fabrics.Prelude.{is_empty}
use project_starfly_fabrics.Prelude.{
  ℕ, ◌≤◌, ◌*◌, String, ◌≡◌, refl, ◌≢◌, none, some, List, [], ◌∷◌, arith, subst, ok-injective, ok,
  err,
}
use project_starfly_fabrics.Dict.{Dict, lookup, insert}
use project_starfly_fabrics.Jwks.Cache.{
  Config, ResolveTimes, Remote, SetKey, Cache, new_cache, resolve_key, stats, fetch_keys,
  fetch_and_cache, kid_not_found, jwks_url_for_issuer, collect_keys, refresh_expired,
}
use project_starfly_fabrics.Jwks.Cache.Steps.{Reached, start, next, resolved, prefetched}
use project_starfly_fabrics.Jwks.Cache.Bounds.{stats-bounded}
use project_starfly_fabrics.Jwks.Cache.Unanswered.{Unserved}
use project_starfly_fabrics.Jwks.Cache.Withdrawn.{FetchedBy, withdrawn_key_refused}

abbrev config : Config
config = record { ttl = 5; grace = 30; max_issuers = 2; max_keys_per_issuer = 2 }

abbrev set_key : String → SetKey String
set_key kid = record { kid = some kid; raw = ok (some "public key") }

abbrev serving : List (SetKey String) → Remote String
serving set = record {
  new_request = λ url. ok url;
  send = λ request. ok (record { status = 200; body = ok request });
  parse = λ body. ok set;
}

abbrev full : Remote String
full = serving (set_key "" ∷ set_key "k1" ∷ set_key "k2" ∷ [])

abbrev empty : Remote String
empty = serving []

abbrev at : ℕ → ResolveTimes
at now = record { checked_at = now; fetched_at = now; served_at = now }

abbrev cached : Cache String
cached = record {
  issuers =
      (
        "iss",
        record {
          keys = ("k1", "public key") ∷ [];
          fetched_at = 10;
          jwks_url = "iss/.well-known/jwks.json";
        },
      )
      ∷ [];
  hits = 1;
  misses = 1;
  fetches = 1;
  errors = 0;
}

fetched_run : resolve_key config full (at 10) "iss" "k1" new_cache ≡ (ok "public key", cached)
unfolding resolve_key lookup fetch_and_cache fetch_keys is_empty insert
fetched_run = refl

beyond_limit : (resolve_key config full (at 11) "iss" "k2" cached).0 ≡ err kid_not_found
unfolding resolve_key lookup fetch_and_cache fetch_keys is_empty insert
beyond_limit = refl

fresh_hit : (resolve_key config empty (at 15) "iss" "k1" cached).0 ≡ ok "public key"
unfolding resolve_key lookup
fresh_hit = refl

stale_hit :
    (resolve_key config (record empty { send = λ request. err "down" }) (at 40) "iss" "k1" cached).0
    ≡ ok "public key"
unfolding resolve_key lookup fetch_and_cache fetch_keys
stale_hit = refl

refreshed_keys : (stats (refresh_expired config empty 16 (λ issuer. 17) cached)).cached_keys ≡ 0
unfolding stats refresh_expired fetch_keys insert
refreshed_keys = refl

cached-Reached : Reached config cached
unfolding resolve_key lookup fetch_and_cache fetch_keys is_empty insert
cached-Reached = next start (resolved full (at 10) "iss" "k1" tt)

empty-Unserved : Unserved config "iss" "k1" empty
unfolding fetch_keys collect_keys lookup
empty-Unserved keys h =
    subst (λ (k : Dict String). lookup "k1" k ≡ none) (ok-injective {a = []} h) refl

cached-FetchedBy : FetchedBy 10 cached
cached-FetchedBy = (omega arith, tt)

stats-bounded_example : ((stats cached).issuers ≤ 2) × ((stats cached).cached_keys ≤ 2 * 2)
stats-bounded_example = stats-bounded config cached cached-Reached

withdrawn_key_refused_example :
    (resolve_key config empty
      (at 41)
      "iss"
      "k1"
      (fetch_and_cache config empty 20 "iss" (jwks_url_for_issuer "iss") cached).1).0
    ≢ ok "public key"
withdrawn_key_refused_example =
    withdrawn_key_refused config "iss" "k1" 10 cached _ empty (at 41) "public key" cached-Reached
      cached-FetchedBy (next start (prefetched empty 20 "iss" empty-Unserved)) empty-Unserved
      (omega arith) (omega arith)
