-- ===== src/Exchange/Request.antt =====
-- The token exchange types of pkg/core/interfaces.go. Times and durations are numbers of
-- nanoseconds; the time 0 is Go's zero time.
use project_starfly_fabrics.Prelude.{ℕ, String, Option, List, is_nil, if◌then◌else◌}
use project_starfly_fabrics.Dict.{Dict}

pub record ExecutionScope : Type 0 where
  pub method : String
  pub uri : String
  pub exec_act : String
  pub input_hash : String
  pub output_hash : String
  pub target : String
  pub workflow_id : String
  pub payload_hash : String
  pub nonce : String

pub record ServerAttestPlatform : Type 0 where
  pub source : String
  pub cred_type : String
  pub metadata : Option (Dict String)

-- A hardware proof; only its type is read by the exchange.
pub record ServerAttestHardware : Type 0 where
  pub kind : String

pub record ServerAttestWorkload : Type 0 where
  pub binary_hash : String
  pub image_digest : String
  pub namespace : String
  pub pod_name : String
  pub node_name : String

pub record ServerAttestation : Type 0 where
  pub platform : ServerAttestPlatform
  pub hardware : List ServerAttestHardware
  pub workload : Option ServerAttestWorkload
  pub agent_version : String
  pub timestamp : ℕ

pub record TokenExchangeRequest : Type 0 where
  pub grant_type : String
  pub subject_token : String
  pub subject_token_type : String
  pub audience : String
  pub scope : String
  pub actor_token : String
  pub dpop_proof : String
  pub attestation : Option ServerAttestation
  pub execution_scope : Option ExecutionScope

-- AssuranceLevel of an attestation that is present.
unfoldable pub assurance_level : ServerAttestation → String
assurance_level a = if is_nil a.hardware then "software" else "hardware"
