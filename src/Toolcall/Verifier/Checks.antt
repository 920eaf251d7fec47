-- ===== src/Toolcall/Verifier/Checks.antt =====
-- checkCaps, blastRadiusFits and verifyExecBinding of pkg/toolcall/verifier.go.
use project_starfly_fabrics.Prelude.{
  String, ◌==◌, Bool, true, false, not, ◌&&◌, Option, none, some, List, [], ◌∷◌, is_empty, is_nil,
  contains, split_first, if◌then◌else◌, Result, ok, err, refuse_if, bind,
}
use project_starfly_fabrics.Exchange.Request.{ExecutionScope}
use project_starfly_fabrics.Toolcall.Registry.{ToolEntry}

pub data VerifyError : Type 0 where
  missing_token protocol_denied audience_mismatch radius_exceeded : VerifyError
  exec_op_mismatch exec_payload_mismatch exec_payload_missing : VerifyError
  exec_target_mismatch exec_binding_required : VerifyError
  invalid_token token_revoked tool_not_registered policy_failed policy_denied : String → VerifyError
  capability_denied : List String → VerifyError

unfoldable pub missing_caps : List String → List String → List String
unfolding contains
missing_caps have [] = []
missing_caps have (c ∷ required) =
    let rest = missing_caps have required in if contains have c then rest else c ∷ rest

abbrev pub refuse_missing : List String → Result VerifyError (Unit {0})
refuse_missing [] = ok tt
refuse_missing (c ∷ cs) = err (capability_denied (c ∷ cs))

unfoldable pub check_caps : List String → List String → Result VerifyError (Unit {0})
unfolding missing_caps
check_caps token_caps required =
    if is_nil required then ok tt else refuse_missing (missing_caps token_caps required)

-- The two radii split at their first colon; without a colon in both they are compared whole.
abbrev pub parts_fit : Bool → Option (String × String) → Option (String × String) → Bool
parts_fit same (some t) (some m) =
    if t.0 == m.0 then if m.1 == "*" then true else t.1 == m.1 else false
parts_fit same _ _ = same

unfoldable pub blast_radius_fits : String → String → Bool
blast_radius_fits token_radius max_radius =
    if max_radius == "*"
    then true
    else parts_fit (token_radius == max_radius) (split_first ":" token_radius)
        (split_first ":" max_radius)

unfoldable pub check_radius : String → String → Result VerifyError (Unit {0})
unfolding blast_radius_fits
check_radius token_radius max_radius =
    refuse_if
      (not (is_empty max_radius)
        && not (is_empty token_radius)
        && not (blast_radius_fits token_radius max_radius))
      radius_exceeded

-- `len(list) > 0 && s != "" && !strIn(s, list)`
unfoldable pub outside : String → List String → Bool
unfolding contains
outside s allowed = not (is_nil allowed) && not (is_empty s) && not (contains allowed s)

abbrev pub hash_differs : (String → String) → String → Option String → Bool
hash_differs input_hash want none = false
hash_differs input_hash want (some body) = not (is_empty want) && not (input_hash body == want)

unfoldable pub verify_scope :
    (String → String) → ExecutionScope → ToolEntry → Option String → Result VerifyError (Unit {0})
unfolding outside
verify_scope input_hash ex tool body =
    bind (refuse_if (outside ex.exec_act tool.allowed_operations) exec_op_mismatch) λ _.
      bind (refuse_if (hash_differs input_hash ex.input_hash body) exec_payload_mismatch) λ _.
        bind (refuse_if (tool.requires_execution && is_empty ex.input_hash) exec_payload_missing)
          λ _. refuse_if (outside ex.target tool.allowed_targets) exec_target_mismatch

unfoldable pub verify_exec_binding :
    (String → String)
    → Option ExecutionScope
    → ToolEntry
    → Option String
    → Result VerifyError (Unit {0})
unfolding verify_scope
verify_exec_binding input_hash none tool body =
    refuse_if tool.requires_execution exec_binding_required
verify_exec_binding input_hash (some ex) tool body = verify_scope input_hash ex tool body
