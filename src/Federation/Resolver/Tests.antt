-- ===== src/Federation/Resolver/Tests.antt =====
-- Runs of the resolver over texts as keys.
use project_starfly_fabrics.Prelude.{is_empty}
use project_starfly_fabrics.Dict.{insert}
use project_starfly_fabrics.Prelude.{String, ◌≡◌, refl, ◌⊎◌, some, [], ◌∷◌, ok, err}
use project_starfly_fabrics.Dict.{Dict}
use project_starfly_fabrics.Federation.Types.{
  PeerConfig, healthy_count, stale_count, unreachable_count, peer_count,
}
use project_starfly_fabrics.Federation.Resolver.{
  PeerRemote, Peer, LocalResolver, FetchTimes, add_peers, resolve_key, prefetch_peers, state,
}
use project_starfly_fabrics.Federation.Resolver.Served.{GivenLocally, HeldBy, resolve_key-HeldBy}

abbrev config : PeerConfig
config = record {
  fabric_id = "east";
  jwks_endpoint = "https://east/jwks";
  mtls_secret = "";
  refresh_interval = 0;
  staleness_threshold = 100;
}

abbrev remote : PeerRemote String
remote = record {
  new_request = λ url. ok url;
  send = λ request. ok (record { status = 200; body = ok request });
  parse = λ body. ok (record { kid = some "k1"; exported = ok "public key" } ∷ []);
  show = λ n. "status";
}

abbrev down : PeerRemote String
down = record remote { send = λ request. err "refused" }

abbrev local : LocalResolver String
local = some (λ issuer kid. err "unknown issuer")

abbrev times : FetchTimes
times = record { attempt_at = λ id. 10; seen_at = λ id. 11 }

abbrev peers : Dict (Peer String)
peers = add_peers (config ∷ []) []

abbrev fetched : Dict (Peer String)
fetched = prefetch_peers remote times peers

abbrev after_failure : Dict (Peer String)
after_failure = prefetch_peers down times fetched

on_demand_run : (resolve_key local remote times "https://east/jwks" "k1" peers).0 ≡ ok "public key"
unfolding resolve_key add_peers insert is_empty
on_demand_run = refl

-- The keys of a peer that has long been unreachable are still given out.
unreachable_served :
    (resolve_key local down times "https://east/jwks" "k1" after_failure).0 ≡ ok "public key"
unfolding resolve_key prefetch_peers add_peers insert is_empty
unreachable_served = refl

unreachable_state : unreachable_count (state 1000 after_failure) ≡ 1
unfolding state unreachable_count prefetch_peers add_peers insert is_empty
unreachable_state = refl

healthy_state : healthy_count (state 100 fetched) ≡ 1
unfolding state healthy_count prefetch_peers add_peers insert
healthy_state = refl

stale_state : stale_count (state 100 peers) ≡ 1
unfolding state stale_count add_peers insert is_empty
stale_state = refl

one_peer : peer_count (state 100 peers) ≡ 1
unfolding state peer_count add_peers insert
one_peer = refl

resolve_key-HeldBy_example :
    GivenLocally local "https://east/jwks" "k1" "public key"
    ⊎ HeldBy "https://east/jwks" "k1" "public key"
        (resolve_key local remote times "https://east/jwks" "k1" peers).1
unfolding resolve_key add_peers insert is_empty
resolve_key-HeldBy_example =
    resolve_key-HeldBy local remote times "https://east/jwks" "k1" "public key" peers _ refl
