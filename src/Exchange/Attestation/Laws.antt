-- ===== src/Exchange/Attestation/Laws.antt =====
-- Which attestations the server accepts.
use project_starfly_fabrics.Prelude.{ℕ, ◌+◌, ◌≤◌, ◌≡◌, ◌≢◌, ◌↔◌, arith, ok, is_empty_iff}
use project_starfly_fabrics.Exchange.Request.{ServerAttestation}
use project_starfly_fabrics.Exchange.Attestation.{
  validate_attestation, window_or_default, clock_skew,
}

-- Every field is there, and the time stamp is neither older than the window nor ahead of the
-- clock by more than the tolerance.
pub record IsFresh (att : ServerAttestation) (window since_at now : ℕ) : Type 0 where
  pub source : att.platform.source ≢ ""
  pub cred_type : att.platform.cred_type ≢ ""
  pub agent_version : att.agent_version ≢ ""
  pub stamped : att.timestamp ≢ 0
  pub recent : since_at ≤ att.timestamp + window_or_default window
  pub not_ahead : att.timestamp ≤ now + clock_skew

-- An attestation is accepted exactly when it is complete and fresh.
pub validate_attestation-IsFresh :
    (att : ServerAttestation) (window since_at now : ℕ)
    → (validate_attestation att window since_at now ≡ ok tt) ↔ IsFresh att window since_at now
unfolding validate_attestation
validate_attestation-IsFresh att window since_at now = ground (
  arith,
  is_empty_iff att.platform.source,
  is_empty_iff att.platform.cred_type,
  is_empty_iff att.agent_version,
)
