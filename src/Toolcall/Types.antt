-- ===== src/Toolcall/Types.antt =====
-- Tool call requests, protocols and verified identities, pkg/toolcall/types.go. A request's
-- transport metadata is left out, since nothing here reads it; bodies are texts.
use Prim.Native.String.{◌++◌}
use project_starfly_fabrics.Prelude.{
  ℕ, String, Option, none, some, List, is_empty, split_first, if◌then◌else◌,
}
use project_starfly_fabrics.Prelude.Int.{ℤ}
use project_starfly_fabrics.Claims.{Claims}
use project_starfly_fabrics.Exchange.Request.{ExecutionScope}

abbrev pub Protocol : Type 0
Protocol = String

abbrev pub protocol_mcp : Protocol
protocol_mcp = "mcp"

abbrev pub protocol_http : Protocol
protocol_http = "http"

abbrev pub protocol_a2a : Protocol
protocol_a2a = "a2a"

abbrev pub name_and_version : String → Option (String × String) → String × String
name_and_version s none = (s, "")
name_and_version s (some parts) = parts

unfoldable pub parse_protocol : Protocol → String × String
parse_protocol p = name_and_version p (split_first "/" p)

unfoldable pub format_protocol : String → String → Protocol
format_protocol name version = if is_empty version then name else name ++ String.◌∷◌ "/" version

pub record ToolCallRequest : Type 0 where
  pub protocol : Protocol
  pub protocol_version : String
  pub tool_id : String
  pub operation : String
  pub params : Claims
  pub token : String
  pub caller_identity : String
  pub request_body : Option String

pub record Delegation : Type 0 where
  pub on_behalf_of : String
  pub depth : ℤ

pub record VerifiedIdentity : Type 0 where
  pub subject : String
  pub issuer : String
  pub capabilities : List String
  pub blast_radius : String
  pub delegation : Option Delegation
  pub execution : Option ExecutionScope
  pub protocol : Protocol
  pub expires_at : ℕ
  pub tool_id : String
  pub resource : String
