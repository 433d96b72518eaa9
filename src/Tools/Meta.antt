-- ===== src/Tools/Meta.antt =====
-- src/tools/meta/meta_tools.cpp: the handlers of tool_catalog and manage_tool_groups. `tolower` is
-- that of the "C" locale.
pub mod Groups
pub mod Filters
use gear_mcp_server.Base.{
  ℕ, ◌+◌, Bool, true, false, not, Option, none, some, List, [], ◌∷◌, ◌++◌, ◌&&◌, ◌||◌, leb, map,
  if◌then◌else◌, Bytes, codes, str_eq, is_empty, is_some, find, length,
}
use gear_mcp_server.Exec.{Result, ok, threw, Exec, lift, ◌>>=◌, ◌>>◌}
use gear_mcp_server.Json.{JsonLib, ℤ, pos}
use gear_mcp_server.Methods.{ToolHandler}
use gear_mcp_server.Methods.Rpc.{value}
use gear_mcp_server.Builtin.{int_of_size}
use gear_mcp_server.OrdMap.{OrdMap, insert}
use gear_mcp_server.Tools.{Values, value_of, Answer, refuse, reply, with_params}
use gear_mcp_server.Tools.Intent.Record.{invalid_params_text}
use gear_mcp_server.Tools.Meta.Groups.{DomainInfo, domain_catalog}

unfoldable pub find_domain : Bytes → List DomainInfo → Option DomainInfo
find_domain p_name [] = none
find_domain p_name (d ∷ ds) =
    let rest = find_domain p_name ds in if str_eq d.name p_name then some d else rest

unfoldable pub insert_names : List Bytes → OrdMap (Unit {0}) → OrdMap (Unit {0})
insert_names [] names = names
insert_names (t ∷ ts) names = insert_names ts (insert t tt names)

-- A set of names is a map to the unit type.
unfoldable pub names_of : List DomainInfo → OrdMap (Unit {0}) → OrdMap (Unit {0})
names_of [] names = names
names_of (d ∷ ds) names = names_of ds (insert_names d.tools names)

unfoldable pub all_tool_names : OrdMap (Unit {0})
all_tool_names = names_of domain_catalog []

-- std::tolower
abbrev pub to_lower : ℕ → ℕ
to_lower c = if leb b'A' c && leb c b'Z' then c + 32 else c

-- The test that keeps a tool: an empty query keeps all.
unfoldable pub is_asked : Bytes → Bytes → Bool
is_asked query t = is_empty query || is_some (find (map to_lower t) (map to_lower query))

-- The loop over the tools of a domain, with the two counters.
unfoldable pub asked_tools : Bytes → List Bytes → ℕ → ℕ → List Bytes × (ℕ × ℕ)
asked_tools query [] total_tools total_matched = ([], (total_tools, total_matched))
asked_tools query (t ∷ ts) total_tools total_matched =
    let kept = is_asked query t in
    let rest =
      asked_tools query ts (total_tools + 1) (if kept then total_matched + 1 else total_matched) in
    (if kept then t ∷ rest.0 else rest.0, rest.1)

module _ (lib : JsonLib) (values : Values lib) where
  open lib use {Json, string, number, boolean, object, array, dump}

  abbrev pub tool_texts : List Bytes → Json
  tool_texts ts = array (map string ts)

  unfoldable pub domain_json : DomainInfo → List Bytes → Json
  domain_json d ts = object (
      (codes "name", string d.name)
      ∷ (codes "description", string d.description)
      ∷ (codes "tools", tool_texts ts)
      ∷ (codes "count", number (int_of_size (length ts)))
      ∷ [])

  -- The loop over the domains.
  unfoldable pub asked_domains : Bytes → Bytes → List DomainInfo → ℕ → ℕ → List Json × (ℕ × ℕ)
  asked_domains domain query [] total_tools total_matched = ([], (total_tools, total_matched))
  asked_domains domain query (d ∷ ds) total_tools total_matched =
      let (ts, n) = asked_tools query d.tools total_tools total_matched in
      let rest = asked_domains domain query ds n.0 n.1 in
      let skipped = asked_domains domain query ds total_tools total_matched in
      if not (is_empty domain) && not (str_eq domain d.name)
      then skipped
      else (domain_json d ts ∷ rest.0, rest.1)

  unfoldable pub filter_json : Bytes → Bytes → Bool → Json
  filter_json domain query registered_only = object (
      (codes "domain", string domain)
      ∷ (codes "query", string query)
      ∷ (codes "registered_only", boolean registered_only)
      ∷ [])

  -- The answer of tool_catalog.
  abbrev pub catalog_answer : List Json → ℕ → ℕ → Json → Json
  catalog_answer domains total_tools total_matched filter = object (
      (codes "domains", array domains)
      ∷ (codes "domain_count", number (int_of_size (length domains)))
      ∷ (codes "total_tools", number (pos total_tools))
      ∷ (codes "matched_tools", number (pos total_matched))
      ∷ (codes "filter", filter)
      ∷ [])

  unfoldable pub catalog_json : Bytes → Bytes → Bool → Json
  catalog_json domain query registered_only =
      let (domains, n) = asked_domains domain query domain_catalog 0 0 in
      catalog_answer domains n.0 n.1 (filter_json domain query registered_only)

  unfoldable pub group_json : DomainInfo → Json
  group_json d = object (
      (codes "name", string d.name)
      ∷ (codes "description", string d.description)
      ∷ (codes "tool_count", number (int_of_size (length d.tools)))
      ∷ [])

  unfoldable pub groups_json : Json
  groups_json = object (
      (codes "groups", array (map group_json domain_catalog))
      ∷ (codes "count", number (int_of_size (length domain_catalog)))
      ∷ (codes "total_tools", number (int_of_size (length all_tool_names)))
      ∷ [])

  module _ {W : Type 0} where
    unfoldable pub handle_tool_catalog : ToolHandler W
    handle_tool_catalog = with_params lib invalid_params_text (λ params. do
      domain ← lift (value lib params (codes "domain") [])
      query ← lift (value lib params (codes "query") [])
      registered_only ← lift (value_of lib values.as_boolean params (codes "registered_only") false)
      reply (dump (catalog_json domain query registered_only)))

    abbrev pub describe : Bytes → Option DomainInfo → Exec W Answer
    describe group none = refuse (codes "Unknown group: " ++ group)
    describe group (some d) = reply (dump (domain_json d d.tools))

    unfoldable pub manage_groups : Bytes → Bytes → Exec W Answer
    manage_groups action group =
        if str_eq action (codes "describe")
        then if is_empty group
          then refuse (codes "action='describe' requires 'group' parameter")
          else describe group (find_domain group domain_catalog)
        else reply (dump groups_json)

    unfoldable pub handle_manage_tool_groups : ToolHandler W
    handle_manage_tool_groups = with_params lib invalid_params_text (λ params. do
      action ← lift (value lib params (codes "action") (codes "list"))
      group ← lift (value lib params (codes "group") [])
      manage_groups action group)
