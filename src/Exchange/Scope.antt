-- ===== src/Exchange/Scope.antt =====
-- validateExecutionScope and VerifyExecutionScope of pkg/exchange/execution.go.
pub mod Laws
use project_starfly_fabrics.Prelude.{
  String, ◌==◌, Bool, true, false, not, Option, none, some, is_empty, if◌then◌else◌, Result, ok,
  err, refuse_if, bind,
}
use project_starfly_fabrics.Claims.{Claims, get_text}
use project_starfly_fabrics.Exchange.Request.{ExecutionScope}

pub data ScopeError : Type 0 where
  method_required uri_required nonce_required : ScopeError
  missing_htm missing_htu missing_inp_hash : ScopeError
  htm_mismatch htu_mismatch inp_hash_mismatch : ScopeError

unfoldable pub validate_execution_scope : ExecutionScope → Result ScopeError (Unit {0})
validate_execution_scope scope =
    if is_empty scope.method
    then err method_required
    else if is_empty scope.uri
    then err uri_required
    else if is_empty scope.nonce
    then err nonce_required
    else ok tt

-- InputHash, or the deprecated PayloadHash where it is unset.
unfoldable pub wanted_hash : ExecutionScope → String
wanted_hash scope = if is_empty scope.input_hash then scope.payload_hash else scope.input_hash

abbrev pub claim_is :
    Option String → String → ScopeError → ScopeError → Result ScopeError (Unit {0})
claim_is none want missing mismatch = err missing
claim_is (some v) want missing mismatch = refuse_if (not (v == want)) mismatch

abbrev pub first_some {ℓ} : {A : Type ℓ} → Option A → Option A → Option A
first_some (some a) o = some a
first_some none o = o

unfoldable pub verify_execution_scope : Claims → ExecutionScope → Result ScopeError (Unit {0})
unfolding wanted_hash
verify_execution_scope token scope =
    bind (claim_is (get_text "htm" token) scope.method missing_htm htm_mismatch) λ _.
      bind (claim_is (get_text "htu" token) scope.uri missing_htu htu_mismatch) λ _.
        let want = wanted_hash scope in
        if is_empty want
        then ok tt
        else claim_is (first_some (get_text "inp_hash" token) (get_text "payload_hash" token)) want
            missing_inp_hash inp_hash_mismatch
