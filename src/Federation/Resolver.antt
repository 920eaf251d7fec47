-- ===== src/Federation/Resolver.antt =====
-- The federated key resolver, pkg/federation/resolver.go and jwks.go, over any type of public keys.
-- The local resolver, the HTTP client and the JWK library are parameters, and so are the readings of
-- the clock. A walk over the peers goes in the order of the list.
pub mod Served
mod Tests
use Prim.Native.String.{slice, ◌++◌}
use project_starfly_fabrics.Prelude.{
  ℕ, zero, suc, ◌+◌, ◌-◌, ◌*◌, String, ◌==◌, Bool, true, false, not, ◌||◌, Option, none, some, List,
  [], ◌∷◌, is_empty, length, ltb, nat_beq, if◌then◌else◌, Result, ok, err, bind, refuse_if,
}
use project_starfly_fabrics.Dict.{Dict, lookup, insert}
use project_starfly_fabrics.Jwks.Cache.{Response, add_one}
use project_starfly_fabrics.Federation.Types.{
  PeerConfig, PeerStatus, healthy, stale, unreachable, PeerState, FederationState, apply_defaults,
}

abbrev pub max_jwks_response_size : ℕ
max_jwks_response_size = 1048576

abbrev pub max_keys_per_peer : ℕ
max_keys_per_peer = 50

-- A key of a peer's set and its export.
pub record PeerKey {ℓ} (K : Type ℓ) : Type ℓ where
  pub kid : Option String
  pub exported : Result String K

-- http.NewRequest, the client's Do, jwk.ParseString, and a status as a text.
pub record PeerRemote {ℓ} (K : Type ℓ) : Type ℓ where
  pub new_request : String → Result String String
  pub send : String → Result String Response
  pub parse : String → Result String (List (PeerKey K))
  pub show : ℕ → String

pub record Peer {ℓ} (K : Type ℓ) : Type ℓ where
  pub config : PeerConfig
  pub keys : Dict K
  pub last_seen : ℕ
  pub last_attempt : ℕ
  pub last_error : String
  pub fetch_count : ℕ
  pub error_count : ℕ

abbrev pub LocalResolver {ℓ} : Type ℓ → Type ℓ
LocalResolver K = Option (String → String → Result String K)

abbrev pub or_rest {ℓ} : {K : Type ℓ} → Option K → Option K → Option K
or_rest none rest = rest
or_rest (some key) rest = some key

abbrev pub answer_of_local {ℓ} : {K : Type ℓ} → Result String K → Option K
answer_of_local (ok key) = some key
answer_of_local (err e) = none

-- When the attempts on the peers begin, and when their keys arrive, by fabric.
pub record FetchTimes : Type 0 where
  pub attempt_at : String → ℕ
  pub seen_at : String → ℕ

module _ {ℓ} {K : Type ℓ} where
  abbrev pub new_peer : PeerConfig → Peer K
  new_peer config = record {
    config = config;
    keys = [];
    last_seen = 0;
    last_attempt = 0;
    last_error = "";
    fetch_count = 0;
    error_count = 0;
  }

  -- `r.peers[pc.FabricID] = p` for every configuration, with its defaults.
  unfoldable pub add_peers : List PeerConfig → Dict (Peer K) → Dict (Peer K)
  unfolding apply_defaults
  add_peers [] peers = peers
  add_peers (pc ∷ configs) peers =
      add_peers configs (insert pc.fabric_id (new_peer (apply_defaults pc)) peers)

  add_peer_key : Option String → Result String K → Dict K → Dict K
  add_peer_key none exported keys = keys
  add_peer_key (some kid) (err e) keys = keys
  add_peer_key (some kid) (ok key) keys = if is_empty kid then keys else insert kid key keys

  unfoldable pub collect_peer_keys : ℕ → List (PeerKey K) → Dict K → Dict K
  unfolding add_peer_key
  collect_peer_keys zero set keys = keys
  collect_peer_keys (suc n) [] keys = keys
  collect_peer_keys (suc n) (k ∷ set) keys =
      collect_peer_keys n set (add_peer_key k.kid k.exported keys)

  unfoldable pub parse_jwks_response : PeerRemote K → Result String String → Result String (Dict K)
  unfolding collect_peer_keys
  parse_jwks_response remote body = bind body λ text.
      bind (remote.parse (slice text 0 max_jwks_response_size))
        λ set. ok (collect_peer_keys max_keys_per_peer set [])

  unfoldable pub fetch_set : PeerRemote K → String → Result String (Dict K)
  unfolding parse_jwks_response
  fetch_set remote endpoint = bind (remote.new_request endpoint) λ request.
      bind (remote.send request) λ response.
        bind
          (refuse_if (not (nat_beq response.status 200)) ("HTTP " ++ remote.show response.status))
          λ _. parse_jwks_response remote response.body

  abbrev pub settle_peer : ℕ → Peer K → Result String (Dict K) → Result String (Unit {0}) × Peer K
  settle_peer seen_at p (err e) =
      (err e, record p { error_count = add_one p.error_count; last_error = e })
  settle_peer seen_at p (ok keys) = (
    ok tt,
    record p {
      keys = keys;
      last_seen = seen_at;
      last_error = "";
      fetch_count = add_one p.fetch_count;
    },
  )

  unfoldable pub fetch_peer_keys : PeerRemote K → ℕ → ℕ → Peer K → Result String (Unit {0}) × Peer K
  unfolding fetch_set
  fetch_peer_keys remote attempt_at seen_at p =
      settle_peer seen_at (record p { last_attempt = attempt_at })
        (fetch_set remote p.config.jwks_endpoint)

  -- The first matching peer that has the key cached.
  unfoldable pub cached_key : String → String → Dict (Peer K) → Option K
  unfolding lookup
  cached_key issuer kid [] = none
  cached_key issuer kid ((id, p) ∷ peers) =
      let rest = cached_key issuer kid peers in
      if p.config.jwks_endpoint == issuer then or_rest (lookup kid p.keys) rest else rest

  abbrev pub found_or :
      String
      → Peer K
      → Dict (Peer K)
      → Option K × Dict (Peer K)
      → Option K
      → Option K × Dict (Peer K)
  found_or id p peers rest none = (rest.0, (id, p) ∷ rest.1)
  found_or id p peers rest (some key) = (some key, (id, p) ∷ peers)

  abbrev pub after_peer :
      String
      → String
      → Dict (Peer K)
      → Option K × Dict (Peer K)
      → Result String (Unit {0}) × Peer K
      → Option K × Dict (Peer K)
  after_peer kid id peers rest (err e, p) = (rest.0, (id, p) ∷ rest.1)
  after_peer kid id peers rest (ok x, p) = found_or id p peers rest (lookup kid p.keys)

  -- Fetches from the matching peers until one has the key.
  unfoldable pub on_demand :
      PeerRemote K → FetchTimes → String → String → Dict (Peer K) → Option K × Dict (Peer K)
  unfolding fetch_peer_keys lookup
  on_demand remote t issuer kid [] = (none, [])
  on_demand remote t issuer kid ((id, p) ∷ peers) =
      let rest = on_demand remote t issuer kid peers in
      if p.config.jwks_endpoint == issuer
      then after_peer kid id peers rest (fetch_peer_keys remote (t.attempt_at id) (t.seen_at id) p)
      else (rest.0, (id, p) ∷ rest.1)

  abbrev pub found_or_error : Option K × Dict (Peer K) → Result (Unit {0}) K × Dict (Peer K)
  found_or_error (none, peers) = (err tt, peers)
  found_or_error (some key, peers) = (ok key, peers)

  abbrev pub resolve_peer :
      PeerRemote K
      → FetchTimes
      → String
      → String
      → Dict (Peer K)
      → Option K
      → Result (Unit {0}) K × Dict (Peer K)
  resolve_peer remote t issuer kid peers (some key) = (ok key, peers)
  resolve_peer remote t issuer kid peers none = found_or_error (on_demand remote t issuer kid peers)

  abbrev pub ask_local : LocalResolver K → String → String → Option K
  ask_local none issuer kid = none
  ask_local (some resolve) issuer kid = answer_of_local (resolve issuer kid)

  abbrev pub resolve_federated :
      PeerRemote K
      → FetchTimes
      → String
      → String
      → Dict (Peer K)
      → Option K
      → Result (Unit {0}) K × Dict (Peer K)
  resolve_federated remote t issuer kid peers (some key) = (ok key, peers)
  resolve_federated remote t issuer kid peers none =
      resolve_peer remote t issuer kid peers (cached_key issuer kid peers)

  -- The local resolver, the peers' cached keys, then their endpoints.
  unfoldable pub resolve_key :
      LocalResolver K
      → PeerRemote K
      → FetchTimes
      → String
      → String
      → Dict (Peer K)
      → Result (Unit {0}) K × Dict (Peer K)
  unfolding cached_key on_demand
  resolve_key local remote t issuer kid peers =
      resolve_federated remote t issuer kid peers (ask_local local issuer kid)

  -- One round of fetches from every peer, each of them on its own.
  unfoldable pub prefetch_peers : PeerRemote K → FetchTimes → Dict (Peer K) → Dict (Peer K)
  unfolding fetch_peer_keys
  prefetch_peers remote t [] = []
  prefetch_peers remote t ((id, p) ∷ peers) =
      (id, (fetch_peer_keys remote (t.attempt_at id) (t.seen_at id) p).1)
      ∷ prefetch_peers remote t peers

  unfoldable pub compute_peer_status : ℕ → Peer K → PeerStatus
  compute_peer_status now p =
      if nat_beq p.last_seen 0 || ltb p.config.staleness_threshold (now - p.last_seen)
      then if is_empty p.last_error then stale else unreachable
      else healthy

  unfoldable pub peer_states : ℕ → Dict (Peer K) → Dict PeerState
  unfolding compute_peer_status
  peer_states now [] = []
  peer_states now ((id, p) ∷ peers) =
      (
        id,
        record {
          config = p.config;
          status = compute_peer_status now p;
          last_seen = p.last_seen;
          last_attempt = p.last_attempt;
          last_error = p.last_error;
          key_count = length p.keys;
          fetch_count = p.fetch_count;
          error_count = p.error_count;
        },
      )
      ∷ peer_states now peers

  unfoldable pub state : ℕ → Dict (Peer K) → FederationState
  unfolding peer_states
  state now peers = record { peers = peer_states now peers; updated_at = now }
