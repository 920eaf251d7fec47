-- ===== src/Toolcall/Registry.antt =====
-- The registry of tools, pkg/toolcall/registry.go. The clock is an argument. An entry that a caller
-- passes is written to and stored as a copy; the written entry is the stored one.
use project_starfly_fabrics.Prelude.{
  ℕ, String, ◌==◌, Bool, true, false, ◌||◌, Option, none, some, List, [], ◌∷◌, is_nil, is_some,
  length, if◌then◌else◌, Result, ok, err,
}
use project_starfly_fabrics.Dict.{Dict, lookup, insert, delete}
use project_starfly_fabrics.Toolcall.Types.{Protocol, protocol_mcp, parse_protocol}

pub record ToolEntry : Type 0 where
  pub tool_id : String
  pub name : String
  pub description : String
  pub resource_uri : String
  pub protocols : List Protocol
  pub protocol_meta : Dict (Dict String)
  pub required_capabilities : List String
  pub max_blast_radius : String
  pub requires_execution : Bool
  pub allowed_operations : List String
  pub allowed_targets : List String
  pub owner_commune : String
  pub server_id : String
  pub registered_at : ℕ
  pub updated_at : ℕ

pub record Registry : Type 0 where
  pub tools : Dict ToolEntry

pub data RegistryError : Type 0 where
  tool_exists tool_not_found : RegistryError

abbrev pub new_registry : Registry
new_registry = record { tools = [] }

unfoldable pub names_protocol : String → List Protocol → Bool
unfolding parse_protocol
names_protocol want [] = false
names_protocol want (p ∷ ps) = ((parse_protocol p).0 == want) || names_protocol want ps

unfoldable pub supports_protocol : ToolEntry → Protocol → Bool
supports_protocol e p =
    if is_nil e.protocols then true else names_protocol (parse_protocol p).0 e.protocols

abbrev pub registered_entry : ℕ → ToolEntry → ToolEntry
registered_entry now entry = record entry {
  protocols = if is_nil entry.protocols then protocol_mcp ∷ [] else entry.protocols;
  registered_at = now;
  updated_at = now;
}

unfoldable pub register : ℕ → ToolEntry → Registry → Result RegistryError Registry
register now entry r =
    if is_some (lookup entry.tool_id r.tools)
    then err tool_exists
    else ok (record { tools = insert entry.tool_id (registered_entry now entry) r.tools })

abbrev pub updated_entry : ℕ → ToolEntry → ToolEntry → ToolEntry
updated_entry now existing entry = record entry {
  registered_at = existing.registered_at;
  updated_at = now;
}

abbrev pub update_known :
    ℕ → ToolEntry → Registry → Option ToolEntry → Result RegistryError Registry
update_known now entry r none = err tool_not_found
update_known now entry r (some existing) =
    ok (record { tools = insert entry.tool_id (updated_entry now existing entry) r.tools })

unfoldable pub update : ℕ → ToolEntry → Registry → Result RegistryError Registry
update now entry r = update_known now entry r (lookup entry.tool_id r.tools)

unfoldable pub deregister : String → Registry → Result RegistryError Registry
deregister tool_id r =
    if is_some (lookup tool_id r.tools)
    then ok (record { tools = delete tool_id r.tools })
    else err tool_not_found

unfoldable pub get : String → Registry → Option ToolEntry
get tool_id r = lookup tool_id r.tools

abbrev passes_filter : Option Protocol → ToolEntry → Bool
passes_filter none e = true
passes_filter (some p) e = supports_protocol e p

unfoldable pub list_entries : Option Protocol → Dict ToolEntry → List ToolEntry
list_entries protocol [] = []
list_entries protocol ((id, e) ∷ entries) =
    let rest = list_entries protocol entries in if passes_filter protocol e then e ∷ rest else rest

unfoldable pub list : Option Protocol → Registry → List ToolEntry
unfolding list_entries
list protocol r = list_entries protocol r.tools

unfoldable pub count : Registry → ℕ
count r = length r.tools
