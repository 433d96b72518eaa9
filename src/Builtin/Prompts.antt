-- ===== src/Builtin/Prompts.antt =====
-- src/server/phase4_resources.cpp: the two prompts. A dash outside ASCII has three bytes.
use gear_mcp_server.Base.{List, [], ◌∷◌, ◌++◌, if◌then◌else◌, Bytes, codes, str_eq}
use gear_mcp_server.Catalog.{PromptMessage}

-- The variables of `prompt_scene_bootstrap`.
pub record Bootstrap : Type 0 where
  pub name : Bytes
  pub root_node : Bytes
  pub children_spec : Bytes

abbrev pub bootstrap_default : Bootstrap
bootstrap_default = record {
  name = codes "MyScene";
  root_node = codes "Node2D";
  children_spec = codes "(none specified)";
}

-- The loop over the arguments.
unfoldable pub bootstrap_arguments : List (Bytes × Bytes) → Bootstrap → Bootstrap
bootstrap_arguments [] c = c
bootstrap_arguments ((k, v) ∷ kvs) c = bootstrap_arguments kvs (
    if str_eq k (codes "name")
    then record c { name = v }
    else if str_eq k (codes "root_node")
    then record c { root_node = v }
    else if str_eq k (codes "children")
    then record c { children_spec = v }
    else c)

unfoldable pub bootstrap_text : Bootstrap → Bytes
bootstrap_text c =
    codes "You are helping a developer set up a new Godot scene using the Gear MCP Server.\n"
    ++ codes "\n"
    ++ codes "## Goal\n"
    ++ codes "Create a Godot scene named `res://scenes/"
    ++ c.name
    ++ codes ".tscn` with the following structure:\n"
    ++ codes "- Root node: "
    ++ c.root_node
    ++ codes " (name: "
    ++ c.name
    ++ codes ")\n"
    ++ codes "- Children: "
    ++ c.children_spec
    ++ codes "\n"
    ++ codes "\n"
    ++ codes "## Available MCP tools\n"
    ++ codes "- `create_scene` "
    ++ (0xe2 ∷ 0x80 ∷ 0x94 ∷ [])
    ++ codes " create an empty scene file\n"
    ++ codes "- `save_scene` "
    ++ (0xe2 ∷ 0x80 ∷ 0x94 ∷ [])
    ++ codes " persist the scene\n"
    ++ codes "- `add_node` "
    ++ (0xe2 ∷ 0x80 ∷ 0x94 ∷ [])
    ++ codes " add child nodes with optional properties and scripts\n"
    ++ codes "- `set_node_properties` "
    ++ (0xe2 ∷ 0x80 ∷ 0x94 ∷ [])
    ++ codes " modify node properties (position, scale, color, etc.)\n"
    ++ codes "- `create_script` "
    ++ (0xe2 ∷ 0x80 ∷ 0x94 ∷ [])
    ++ codes " attach a GDScript to a node\n"
    ++ codes "- `connect_signal` "
    ++ (0xe2 ∷ 0x80 ∷ 0x94 ∷ [])
    ++ codes " wire up node signals\n"
    ++ codes "- `list_scene_nodes` "
    ++ (0xe2 ∷ 0x80 ∷ 0x94 ∷ [])
    ++ codes " verify the resulting tree\n"
    ++ codes "\n"
    ++ codes "## Recommended workflow\n"
    ++ codes "1. Call `create_scene` with `resource_path=\"res://scenes/"
    ++ c.name
    ++ codes ".tscn\"` and "
    ++ codes "`root_node_type=\""
    ++ c.root_node
    ++ codes "\"`, `root_node_name=\""
    ++ c.name
    ++ codes "\"`.\n"
    ++ codes "2. For each child, call `add_node` with the correct `parent_path`.\n"
    ++ codes "3. Adjust any properties via `set_node_properties`.\n"
    ++ codes "4. Attach scripts via `create_script` and reconnect to add_node if needed.\n"
    ++ codes "5. Call `save_scene` to persist.\n"
    ++ codes "6. Call `list_scene_nodes` to verify the tree.\n"
    ++ codes "\n"
    ++ codes "## Guidelines\n"
    ++ codes "- Always pass `res://` prefixed paths.\n"
    ++ codes "- Use `main_scene: true` only on the entry-point scene.\n"
    ++ codes "- Prefer ColorRect/Sprite2D/Button from the scene tree for UI prototypes.\n"
    ++ codes "- After each step, check the response's `success` field before continuing.\n"

unfoldable pub prompt_scene_bootstrap : List (Bytes × Bytes) → List PromptMessage
prompt_scene_bootstrap p_args =
    (record {
      role = codes "user";
      content = bootstrap_text (bootstrap_arguments p_args bootstrap_default);
    })
    ∷ []

-- The variables of `prompt_debug_triage`.
pub record Triage : Type 0 where
  pub symptom : Bytes
  pub context : Bytes

abbrev pub triage_default : Triage
triage_default = record { symptom = codes "(unspecified)"; context = codes "(no context)" }

-- The loop over the arguments.
unfoldable pub triage_arguments : List (Bytes × Bytes) → Triage → Triage
triage_arguments [] c = c
triage_arguments ((k, v) ∷ kvs) c = triage_arguments kvs (
    if str_eq k (codes "symptom")
    then record c { symptom = v }
    else if str_eq k (codes "context")
    then record c { context = v }
    else c)

unfoldable pub triage_text : Triage → Bytes
triage_text c =
    codes
      "You are helping a developer debug an issue in their Godot project via the Gear MCP Server.\n"
    ++ codes "\n"
    ++ codes "## Symptom\n"
    ++ c.symptom
    ++ codes "\n"
    ++ codes "\n"
    ++ codes "## Context\n"
    ++ c.context
    ++ codes "\n"
    ++ codes "\n"
    ++ codes "## Triage loop\n"
    ++ codes "1. **Capture state** "
    ++ (0xe2 ∷ 0x80 ∷ 0x94 ∷ [])
    ++ codes " call `capture_intent_snapshot` with a `label` like \"debug:<symptom-short>\" "
    ++ codes "and `intent` describing the suspected cause. This lets you come back later.\n"
    ++ codes "2. **Inspect project** "
    ++ (0xe2 ∷ 0x80 ∷ 0x94 ∷ [])
    ++ codes " call:\n"
    ++ codes "   - `get_project_info` for project metadata\n"
    ++ codes "   - `validate_project` for missing files / broken references\n"
    ++ codes "   - `get_editor_status` to see what is currently open and selected\n"
    ++ codes "3. **Inspect code** "
    ++ (0xe2 ∷ 0x80 ∷ 0x94 ∷ [])
    ++ codes " call `lsp_get_diagnostics` (if available) on the suspect script path to "
    ++ codes "retrieve compile errors and warnings. The path must be `res://`-prefixed.\n"
    ++ codes "4. **Read the file** "
    ++ (0xe2 ∷ 0x80 ∷ 0x94 ∷ [])
    ++ codes " use `read_file` on the suspect .gd/.cs/.tscn to see the actual code.\n"
    ++ codes "5. **Test runtime** "
    ++ (0xe2 ∷ 0x80 ∷ 0x94 ∷ [])
    ++ codes " call `run_project` then poll `get_runtime_metrics` to see FPS / "
    ++ codes "node counts. Use `inspect_runtime_tree` to confirm scene composition.\n"
    ++ codes "6. **Log every step** "
    ++ (0xe2 ∷ 0x80 ∷ 0x94 ∷ [])
    ++ codes " call `record_work_step` with `action`, `tool`, `args`, and `outcome` "
    ++ codes "after each significant call. Use `record_decision_log` when you form a hypothesis.\n"
    ++ codes "7. **Propose a fix** "
    ++ (0xe2 ∷ 0x80 ∷ 0x94 ∷ [])
    ++ codes " make a minimal code change, call `modify_script` to apply it, "
    ++ codes "then re-run the project and re-check diagnostics.\n"
    ++ codes "8. **Handoff** "
    ++ (0xe2 ∷ 0x80 ∷ 0x94 ∷ [])
    ++ codes " call `generate_handoff_brief` (or `export_handoff_pack`) to capture the "
    ++ codes "session for the user.\n"
    ++ codes "\n"
    ++ codes "## Available tools (high level)\n"
    ++ codes "- `capture_intent_snapshot`, `record_decision_log`, `record_work_step` "
    ++ (0xe2 ∷ 0x80 ∷ 0x94 ∷ [])
    ++ codes " logging\n"
    ++ codes "- `get_project_info`, `validate_project`, `get_editor_status` "
    ++ (0xe2 ∷ 0x80 ∷ 0x94 ∷ [])
    ++ codes " introspection\n"
    ++ codes "- `lsp_get_diagnostics`, `read_file` "
    ++ (0xe2 ∷ 0x80 ∷ 0x94 ∷ [])
    ++ codes " code inspection\n"
    ++ codes "- `run_project`, `inspect_runtime_tree`, `get_runtime_metrics` "
    ++ (0xe2 ∷ 0x80 ∷ 0x94 ∷ [])
    ++ codes " runtime\n"
    ++ codes "- `modify_script`, `create_script` "
    ++ (0xe2 ∷ 0x80 ∷ 0x94 ∷ [])
    ++ codes " code edits\n"
    ++ codes "- `generate_handoff_brief`, `export_handoff_pack` "
    ++ (0xe2 ∷ 0x80 ∷ 0x94 ∷ [])
    ++ codes " handoff\n"
    ++ codes "\n"
    ++ codes "## Guidelines\n"
    ++ codes "- Work in small, verifiable steps.\n"
    ++ codes "- Always check `success` and `error` fields in responses.\n"
    ++ codes "- Prefer `read_file` over `lsp_get_diagnostics` for raw text inspection.\n"

unfoldable pub prompt_debug_triage : List (Bytes × Bytes) → List PromptMessage
prompt_debug_triage p_args =
    (record { role = codes "user"; content = triage_text (triage_arguments p_args triage_default) })
    ∷ []
