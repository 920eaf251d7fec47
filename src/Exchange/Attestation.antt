-- ===== src/Exchange/Attestation.antt =====
-- ValidateAttestation of pkg/exchange/attestation.go, at the two readings of the clock that it makes.
pub mod Laws
use project_starfly_fabrics.Prelude.{
  ℕ, ◌+◌, ◌-◌, ◌*◌, String, Bool, is_empty, if◌then◌else◌, ltb, nat_beq, Result, ok, err,
}
use project_starfly_fabrics.Exchange.Nonce.{second}
use project_starfly_fabrics.Exchange.Request.{ServerAttestation}

pub data AttestationError : Type 0 where
  missing_source missing_cred_type missing_agent_version missing_timestamp : AttestationError
  stale_attestation timestamp_in_future : AttestationError

abbrev pub default_attestation_freshness_window : ℕ
default_attestation_freshness_window = 300 * second

abbrev pub clock_skew : ℕ
clock_skew = 30 * second

abbrev pub window_or_default : ℕ → ℕ
window_or_default w = if nat_beq w 0 then default_attestation_freshness_window else w

-- The age of a timestamp ahead of the clock is negative, and never exceeds the window.
unfoldable pub validate_attestation :
    ServerAttestation → ℕ → ℕ → ℕ → Result AttestationError (Unit {0})
validate_attestation att freshness_window since_at now =
    if is_empty att.platform.source
    then err missing_source
    else if is_empty att.platform.cred_type
    then err missing_cred_type
    else if is_empty att.agent_version
    then err missing_agent_version
    else if nat_beq att.timestamp 0
    then err missing_timestamp
    else if ltb (window_or_default freshness_window) (since_at - att.timestamp)
    then err stale_attestation
    else if ltb (now + clock_skew) att.timestamp
    then err timestamp_in_future
    else ok tt
