-- ===== src/Tools/Dx/Scaffold.antt =====
-- src/tools/dx/dx_tools.cpp: scaffold_gameplay_prototype. The calls of the editor are parameters:
-- the project that is open, GodotAPI::res_to_absolute and GodotAPI::refresh_filesystem.
use gear_mcp_server.Base.{
  Bool, true, false, ◌||◌, [], ◌∷◌, ◌++◌, if◌then◌else◌, Bytes, codes, str_eq, is_empty, take,
}
use gear_mcp_server.Exec.{Result, Exec, lift, ◌>>=◌}
use gear_mcp_server.Json.{JsonLib}
use gear_mcp_server.Methods.{ToolHandler}
use gear_mcp_server.Methods.Rpc.{value}
use gear_mcp_server.Paths.{has_traversal}
use gear_mcp_server.Tools.{Answer, refuse, reply, with_params}
use gear_mcp_server.Tools.Intent.Record.{invalid_params_text}
use gear_mcp_server.Tools.Dx.{FileSystem}

-- "res://" is put before a path that does not begin with it.
unfoldable pub res_prefixed : Bytes → Bytes
res_prefixed path = if str_eq (take 6 path) (codes "res://") then path else codes "res://" ++ path

unfoldable pub script_text : Bytes → Bytes → Bytes
script_text root_type name =
    codes "extends "
    ++ root_type
    ++ codes "\n\n## "
    ++ name
    ++ codes
        " prototype controller.\n## Add this script to the root node of a scene to get started.\n\nsignal ready_for_action\nsignal prototype_event(payload: Dictionary)\n\n@export var display_name: String = \""
    ++ name
    ++ codes
        "\"\n\nfunc _ready() -> void:\n\tprint(\"[\" + display_name + \"] ready\")\n\tready_for_action.emit()\n\nfunc do_thing(value: int = 0) -> void:\n\tprototype_event.emit({\"action\": \"do_thing\", \"value\": value})\n"

unfoldable pub scene_text : Bytes → Bytes → Bytes → Bytes
scene_text script_path root_type name =
    codes "[gd_scene load_steps=2 format=3]\n\n[ext_resource type=\"Script\" path=\""
    ++ script_path
    ++ codes "\" id=\"1_script\"]\n\n[node name=\""
    ++ name
    ++ codes "\" type=\""
    ++ root_type
    ++ codes "\"]\nscript = ExtResource(\"1_script\")\n"

module _ (lib : JsonLib) {W : Type 0} (file_system : FileSystem W) (get_project_path : W → Bytes)
    (res_to_absolute : Bytes → W → Bytes) (refresh : W → W) where
  open lib use {Json, string, boolean, object, array, dump}

  unfoldable pub created_json : Bytes → Bytes → Bytes → Bytes → Json
  created_json scene_path script_path root_type name = object (
      (codes "success", boolean true)
      ∷ (codes "created", array (string scene_path ∷ string script_path ∷ []))
      ∷ (codes "scene_path", string scene_path)
      ∷ (codes "script_path", string script_path)
      ∷ (codes "root_node_type", string root_type)
      ∷ (codes "name", string name)
      ∷ (
        codes "signals",
        array (string (codes "ready_for_action") ∷ string (codes "prototype_event") ∷ []),
      )
      ∷ [])

  -- A file is written whole, or the call refuses.
  abbrev pub after_write : Bool × W → Bytes → Exec W Answer → Result Answer × W
  after_write (false, w) refusal next = refuse refusal w
  after_write (true, w) refusal next = next w

  unfoldable pub write_scene : Bytes → Bytes → Bytes → Bytes → Bytes → Exec W Answer
  write_scene scene_abs scene_path script_path root_type name w =
      after_write (file_system.write scene_abs (scene_text script_path root_type name) w)
        (codes "Cannot write scene: " ++ scene_abs)
        (λ v. reply (dump (created_json scene_path script_path root_type name)) (refresh v))

  unfoldable pub write_both : Bytes → Bytes → Bytes → Bytes → Bytes → Bytes → Exec W Answer
  write_both scene_abs script_abs scene_path script_path root_type name w =
      after_write (file_system.write script_abs (script_text root_type name) w)
        (codes "Cannot write script: " ++ script_abs)
        (write_scene scene_abs scene_path script_path root_type name)

  abbrev pub parents_of : Bytes → Bytes → W → W
  parents_of scene_abs script_abs w =
      file_system.create_directories (file_system.parent_path script_abs)
        (file_system.create_directories (file_system.parent_path scene_abs) w)

  unfoldable pub scaffold_at : Bytes → Bytes → Bytes → Bytes → Exec W Answer
  scaffold_at scene_path script_path root_type name w =
      let scene_abs = res_to_absolute scene_path w in
      let script_abs = res_to_absolute script_path w in
      if is_empty (get_project_path w)
      then refuse (codes "No active project detected") w
      else if has_traversal scene_path || has_traversal script_path
      then refuse (codes "Path traversal detected") w
      else write_both scene_abs script_abs scene_path script_path root_type name
          (parents_of scene_abs script_abs w)

  unfoldable pub scaffold : Bytes → Bytes → Bytes → Bytes → Exec W Answer
  scaffold scene_path script_path root_type name =
      if is_empty scene_path || is_empty script_path
      then refuse (codes "Missing required parameters: scene_path, script_path")
      else scaffold_at (res_prefixed scene_path) (res_prefixed script_path) root_type name

  unfoldable pub handle_scaffold_gameplay_prototype : ToolHandler W
  handle_scaffold_gameplay_prototype = with_params lib invalid_params_text (λ params. do
    scene_path ← lift (value lib params (codes "scene_path") [])
    script_path ← lift (value lib params (codes "script_path") [])
    root_type ← lift (value lib params (codes "root_node_type") (codes "Node2D"))
    name ← lift (value lib params (codes "name") (codes "Prototype"))
    scaffold scene_path script_path root_type name)
