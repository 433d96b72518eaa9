-- ===== src/Config/Project.antt =====
-- src/shared/config_parser.cpp: the operations that rewrite project.godot.
use gear_mcp_server.Base.{
  Bool, false, Option, none, some, ◌++◌, if◌then◌else◌, Bytes, codes, is_empty,
}
use gear_mcp_server.Paths.{normalize}
use gear_mcp_server.Config.{Disk, read_file, write_file}
use gear_mcp_server.Config.Edit.{set_content, remove_content}

abbrev pub project_file : Bytes → Bytes
project_file p_project_path = normalize p_project_path ++ codes "/project.godot"

module _ {W : Type 0} (disk : Disk W) where
  unfoldable pub set_project_setting : Bytes → Bytes → Bytes → Bytes → W → Bool × W
  set_project_setting p_project_path p_section p_key p_value w =
      let path = project_file p_project_path in
      let content = read_file disk path w in
      if is_empty content
      then (false, w)
      else write_file disk path (set_content p_section p_key p_value content) w

  unfoldable pub add_autoload : Bytes → Bytes → Bytes → W → Bool × W
  add_autoload p_project_path p_name p_path =
      set_project_setting p_project_path (codes "autoload") p_name
        (codes "\"" ++ p_path ++ codes "\"")

  unfoldable pub set_main_scene : Bytes → Bytes → W → Bool × W
  set_main_scene p_project_path p_scene_path =
      set_project_setting p_project_path (codes "application") (codes "run/main_scene")
        (codes "\"" ++ p_scene_path ++ codes "\"")

  abbrev pub write_found : Bytes → Option Bytes → W → Bool × W
  write_found path none w = (false, w)
  write_found path (some content) w = write_file disk path content w

  unfoldable pub remove_autoload : Bytes → Bytes → W → Bool × W
  remove_autoload p_project_path p_name w =
      let path = project_file p_project_path in
      let content = read_file disk path w in
      if is_empty content then (false, w) else write_found path (remove_content p_name content) w
