-- ===== src/Tests/RegistryTests.antt =====
-- src/server/tool_registry.cpp, and the log and the catalogue of src/server/mcp_methods.cpp.
use Prim.Native.Nat.{min}
use gear_mcp_server.Base.{
  ℕ, ◌^◌, ◌<◌, ◌≤◌, ◌≡◌, refl, arith, true, false, none, some, List, [], last_items, ◌∷◌, codes,
  length,
}
use gear_mcp_server.OrdMap.{lookup, insert, has_key, before}
use gear_mcp_server.Registry.{ToolRegistry, new_registry, register_tool, set_tool_enabled}
use gear_mcp_server.Registry.Invariant.{register, toggle, Reach, initial, next, Reach-IsValid}
use gear_mcp_server.Registry.Refines.{
  Op, disable_all, increment, view, run_ops, promises, view-run_ops,
}
use gear_mcp_server.Logs.{LogEntry, max_log_entries, get_recent_logs}
use gear_mcp_server.Logs.History.{push_all, get_recent_logs-push_all}
use gear_mcp_server.Catalog.{ResourceInfo, PromptInfo, find_resource}
use gear_mcp_server.Catalog.Resolves.{Resolution, find_resource-Resolution}

-- Two tools, one of them disabled, and a registration under a null name.
abbrev built : ToolRegistry ℕ
built =
    (set_tool_enabled (codes "b") false (
      register_tool (some (codes "b")) none none (some 1) true
        (register_tool none none none none false (new_registry ℕ)))).1

built-Reach : Reach built
built-Reach =
    next
      (next (next (initial refl) (register none none none none false))
        (register (some (codes "b")) none none (some 1) true))
      (toggle (codes "b") false)

built_size : length built.tools < 2 ^ 64
unfolding register_tool set_tool_enabled insert before has_key lookup
built_size = omega arith

abbrev entry : ℕ → LogEntry
entry t = record {
  timestamp_ms = t;
  level = codes "info";
  method = codes "ping";
  tool = [];
  status = codes "ok";
  duration_ms = 0;
  message = [];
}

get_recent_logs-push_all_example :
    (length (push_all [] (entry 1 ∷ entry 2 ∷ [])) ≤ max_log_entries)
    × (get_recent_logs 1 (push_all [] (entry 1 ∷ entry 2 ∷ []))
        ≡ last_items (min 1 max_log_entries) (entry 1 ∷ entry 2 ∷ []))
get_recent_logs-push_all_example = get_recent_logs-push_all 1 (entry 1 ∷ entry 2 ∷ [])

abbrev resource : ResourceInfo ℕ
resource = record {
  uri = codes "godot://scene/{path}";
  name = codes "Scene File";
  description = [];
  mime_type = codes "application/json";
  read_handler = some 1;
}

find_resource-Resolution_example :
    Resolution
      (codes "godot://scene/a.tscn")
      (resource ∷ [])
      (find_resource (codes "godot://scene/a.tscn") (resource ∷ []))
find_resource-Resolution_example =
    find_resource-Resolution (codes "godot://scene/a.tscn") (resource ∷ [])

abbrev prompt : PromptInfo
prompt = record { name = codes "p"; description = []; arguments = [] }

-- Every tool is disabled, one is enabled again, and it is called twice.
abbrev panel_ops : List (Op ℕ)
panel_ops =
    disable_all ∷ Op.toggle (codes "b") true ∷ increment (codes "b") ∷ increment (codes "b") ∷ []

view-run_ops_example : view (run_ops panel_ops built) ≡ promises panel_ops (view built)
view-run_ops_example = view-run_ops panel_ops built (Reach-IsValid built-Reach)
