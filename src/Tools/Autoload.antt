-- ===== src/Tools/Autoload.antt =====
-- src/tools/autoload/autoload_tools.cpp: the handlers for the autoloads and the main scene.
-- `get_project_path` is GodotAPI::get_project_path.
use gear_mcp_server.Base.{Bool, true, false, [], List, ◌∷◌, if◌then◌else◌, Bytes, codes, is_empty}
use gear_mcp_server.Exec.{ok, Exec, lift, ◌>>=◌}
use gear_mcp_server.Json.{JsonLib}
use gear_mcp_server.Methods.{ToolHandler}
use gear_mcp_server.Methods.Rpc.{value}
use gear_mcp_server.Config.{Disk}
use gear_mcp_server.Config.Value.{Numbers}
use gear_mcp_server.Config.Ini.{get_autoloads}
use gear_mcp_server.Config.Project.{add_autoload, remove_autoload, set_main_scene}
use gear_mcp_server.Tools.{Answer, refuse, reply, with_params}
use gear_mcp_server.Tools.Intent.Record.{invalid_params_text}

abbrev pub no_project : Bytes
no_project = codes "No project path provided and no active Godot project detected."

module _ (lib : JsonLib) {W : Type 0} (disk : Disk W) (get_project_path : W → Bytes) where
  open lib use {Json, string, boolean, object, dump}

  abbrev pub resolve_project_path : Bytes → W → Bytes
  resolve_project_path p_path w = if is_empty p_path then get_project_path w else p_path

  -- The beginning of each handler.
  unfoldable pub in_project : Json → (Bytes → Exec W Answer) → Exec W Answer
  in_project params body = do
    given ← lift (value lib params (codes "project_path") [])
    project_path ← (λ w. (ok (resolve_project_path given w), w))
    if is_empty project_path then refuse no_project else body project_path

  -- The answer of a handler that changes the file.
  abbrev pub changed : Bytes → List (Bytes × Json) → Bool → Exec W Answer
  changed failed fields true = reply (dump (object ((codes "success", boolean true) ∷ fields)))
  changed failed fields false =
      reply (dump (object ((codes "success", boolean false) ∷ (codes "error", string failed) ∷ [])))

  unfoldable pub add_named : Bytes → Bytes → Bytes → Exec W Answer
  add_named project_path name path =
      if is_empty name
      then refuse (codes "Parameter 'name' is required.")
      else if is_empty path
      then refuse (codes "Parameter 'path' is required.")
      else do
        success ← (λ w. let (b, w') = add_autoload disk project_path name path w in (ok b, w'))
        changed
            (codes
              "Failed to add autoload. Check that the project.godot file is writable and the name is valid.")
            ((codes "name", string name) ∷ (codes "path", string path) ∷ []) success

  unfoldable pub handle_add_autoload : ToolHandler W
  handle_add_autoload = with_params lib invalid_params_text (λ params.
      in_project params (λ project_path. do
        name ← lift (value lib params (codes "name") [])
        path ← lift (value lib params (codes "path") [])
        add_named project_path name path))

  unfoldable pub remove_named : Bytes → Bytes → Exec W Answer
  remove_named project_path name =
      if is_empty name then refuse (codes "Parameter 'name' is required.") else do
        success ← (λ w. let (b, w') = remove_autoload disk project_path name w in (ok b, w'))
        changed
            (codes
              "Failed to remove autoload. The autoload entry may not exist or the project.godot file is not writable.")
            ((codes "name", string name) ∷ []) success

  unfoldable pub handle_remove_autoload : ToolHandler W
  handle_remove_autoload = with_params lib invalid_params_text (λ params.
      in_project params (λ project_path. do
        name ← lift (value lib params (codes "name") [])
        remove_named project_path name))

  module _ (numbers : Numbers lib.Json) (ini_error : Bytes → W → Bool) where
    unfoldable pub list_in : Bytes → Exec W Answer
    list_in project_path = do
      autoloads ← (λ w. (get_autoloads lib numbers disk ini_error project_path w, w))
      reply (dump (object ((codes "success", boolean true) ∷ (codes "autoloads", autoloads) ∷ [])))

    unfoldable pub handle_list_autoloads : ToolHandler W
    handle_list_autoloads =
        with_params lib invalid_params_text (λ params. in_project params list_in)

  unfoldable pub set_scene : Bytes → Bytes → Exec W Answer
  set_scene project_path scene_path =
      if is_empty scene_path then refuse (codes "Parameter 'scene_path' is required.") else do
        success ← (λ w. let (b, w') = set_main_scene disk project_path scene_path w in (ok b, w'))
        changed
            (codes
              "Failed to set main scene. Check that the project.godot file is writable and the scene path is valid.")
            ((codes "scene_path", string scene_path) ∷ []) success

  unfoldable pub handle_set_main_scene : ToolHandler W
  handle_set_main_scene = with_params lib invalid_params_text (λ params.
      in_project params (λ project_path. do
        scene_path ← lift (value lib params (codes "scene_path") [])
        set_scene project_path scene_path))
