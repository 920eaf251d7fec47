-- ===== src/Exchange/Engine/Policy.antt =====
-- The policy input of an exchange, pkg/exchange/engine.go.
use package.text.Mathlib.Text.{starts_with}
use project_starfly_fabrics.Prelude.{
  String, ◌==◌, Bool, true, false, ◌&&◌, not, Option, none, some, List, [], ◌∷◌, ◌++◌, is_empty,
  is_nil, if◌then◌else◌,
}
use project_starfly_fabrics.Dict.{Dict}
use project_starfly_fabrics.Claims.{
  Values, Fields, text, boolean, object, array, nil, cons, end, field, Claims,
}
use project_starfly_fabrics.Exchange.Request.{
  ServerAttestation, ServerAttestHardware, ServerAttestWorkload, TokenExchangeRequest,
  assurance_level,
}
use project_starfly_fabrics.Exchange.Engine.Types.{WorkloadIdentity, PolicyInput}

-- Hardware assurance counts in development mode only.
unfoldable pub attestation_assurance : Bool → ServerAttestation → String
unfolding assurance_level
attestation_assurance dev_mode att =
    if not dev_mode && (assurance_level att == "hardware") then "software" else assurance_level att

-- `if v != "" { m[k] = v }`
unfoldable pub set_text : String → String → Fields → Fields
set_text k v rest = if is_empty v then rest else field k (text v) rest

metadata_fields : Dict String → Fields
metadata_fields [] = end
metadata_fields ((k, v) ∷ m) = field k (text v) (metadata_fields m)

metadata_field : Option (Dict String) → Fields
unfolding metadata_fields
metadata_field none = end
metadata_field (some m) = field "metadata" (object (metadata_fields m)) end

unfoldable pub is_end : Fields → Bool
is_end end = true
is_end (field k v fs) = false

workload_fields : ServerAttestWorkload → Fields
unfolding set_text
workload_fields wl = set_text "binary_hash" wl.binary_hash (
    set_text "namespace" wl.namespace (
      set_text "pod_name" wl.pod_name
        (set_text "image_digest" wl.image_digest (set_text "node_name" wl.node_name end))))

workload_field : Option ServerAttestWorkload → Fields → Fields
unfolding workload_fields is_end
workload_field none rest = rest
workload_field (some wl) rest =
    if is_end (workload_fields wl)
    then rest
    else field "workload" (object (workload_fields wl)) rest

hardware_values : List ServerAttestHardware → Values
hardware_values [] = nil
hardware_values (h ∷ hs) = cons (object (field "type" (text h.kind) end)) (hardware_values hs)

hardware_field : List ServerAttestHardware → Fields
unfolding hardware_values
hardware_field hs = if is_nil hs then end else field "hardware" (array (hardware_values hs)) end

attestation_map : Bool → ServerAttestation → Fields
unfolding attestation_assurance metadata_field workload_field hardware_field
attestation_map dev_mode att =
    field "platform"
      (object (
        field "source" (text att.platform.source)
          (field "cred_type" (text att.platform.cred_type) (metadata_field att.platform.metadata))))
      (field "agent_version" (text att.agent_version) (
        field "assurance_level" (text (attestation_assurance dev_mode att))
          (workload_field att.workload (hardware_field att.hardware))))

agent_context : String → Claims
agent_context cred_type =
    if starts_with cred_type "agent-"
    then ("agent_platform", text cred_type) ∷ ("is_agent", boolean true) ∷ []
    else []

attestation_context : Bool → Option ServerAttestation → Claims
unfolding attestation_map
attestation_context dev_mode none = []
attestation_context dev_mode (some att) =
    ("attestation", object (attestation_map dev_mode att)) ∷ []

unfoldable pub policy_input : Bool → String → WorkloadIdentity → TokenExchangeRequest → PolicyInput
unfolding agent_context attestation_context
policy_input dev_mode cred_type workload req = record {
  action = "exchange";
  subject = workload;
  target = req.audience;
  context =
      ("scope", text req.scope)
      ∷ (agent_context cred_type ++ attestation_context dev_mode req.attestation);
}
