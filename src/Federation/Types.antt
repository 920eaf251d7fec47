-- ===== src/Federation/Types.antt =====
-- Peers and their states, pkg/federation/types.go. Intervals are natural numbers, of which 0 is unset.
use project_starfly_fabrics.Prelude.{
  ℕ, ◌-◌, ◌*◌, ◌+◌, String, Bool, true, false, [], ◌∷◌, length, nat_beq, if◌then◌else◌,
}
use project_starfly_fabrics.Dict.{Dict}
use project_starfly_fabrics.Exchange.Nonce.{second}

pub record PeerConfig : Type 0 where
  pub fabric_id : String
  pub jwks_endpoint : String
  pub mtls_secret : String
  pub refresh_interval : ℕ
  pub staleness_threshold : ℕ

-- Intervals are naturals, so the test for `<= 0` is one for 0.
unfoldable pub apply_defaults : PeerConfig → PeerConfig
apply_defaults pc = record pc {
  refresh_interval = if nat_beq pc.refresh_interval 0 then 60 * second else pc.refresh_interval;
  staleness_threshold =
      if nat_beq pc.staleness_threshold 0 then 300 * second else pc.staleness_threshold;
}

pub data PeerStatus : Type 0 where
  healthy stale unreachable : PeerStatus

pub record PeerState : Type 0 where
  pub config : PeerConfig
  pub status : PeerStatus
  pub last_seen : ℕ
  pub last_attempt : ℕ
  pub last_error : String
  pub key_count : ℕ
  pub fetch_count : ℕ
  pub error_count : ℕ

abbrev pub is_healthy : PeerStatus → Bool
is_healthy healthy = true
is_healthy stale = false
is_healthy unreachable = false

abbrev pub is_stale : PeerStatus → Bool
is_stale healthy = false
is_stale stale = true
is_stale unreachable = false

abbrev pub is_unreachable : PeerStatus → Bool
is_unreachable healthy = false
is_unreachable stale = false
is_unreachable unreachable = true

unfoldable pub age : ℕ → PeerState → ℕ
age now ps = if nat_beq ps.last_seen 0 then 0 else now - ps.last_seen

pub record FederationState : Type 0 where
  pub peers : Dict PeerState
  pub updated_at : ℕ

-- `for _, ps := range peers { if test(ps.Status) { n++ } }`
unfoldable pub count_status : (PeerStatus → Bool) → Dict PeerState → ℕ
count_status test [] = 0
count_status test ((id, ps) ∷ peers) =
    let rest = count_status test peers in if test ps.status then rest + 1 else rest

unfoldable pub peer_count : FederationState → ℕ
peer_count fs = length fs.peers

unfoldable pub healthy_count : FederationState → ℕ
unfolding count_status
healthy_count fs = count_status is_healthy fs.peers

unfoldable pub stale_count : FederationState → ℕ
unfolding count_status
stale_count fs = count_status is_stale fs.peers

unfoldable pub unreachable_count : FederationState → ℕ
unfolding count_status
unreachable_count fs = count_status is_unreachable fs.peers
