-- ===== src/Builtin/Project.antt =====
-- src/server/phase4_resources.cpp: `resource_project_info`.
use gear_mcp_server.Base.{
  ℕ, Bool, false, not, Option, none, some, List, [], ◌∷◌, ◌++◌, ◌&&◌, ◌||◌, ◌==◌, if◌then◌else◌,
  Bytes, codes, str_eq, split_at, lines, is_empty, drop_end, front_is, back_is, is_quoted, unquote,
}
use gear_mcp_server.Exec.{Result}
use gear_mcp_server.OrdMap.{OrdMap, insert}
use gear_mcp_server.Json.{JsonLib}
use gear_mcp_server.Builtin.{Engine}

abbrev is_blank : ℕ → Bool
is_blank c = c == b' ' || c == b'\t'

abbrev pub drop_blanks : Bytes → Bytes
drop_blanks [] = []
drop_blanks (c ∷ cs) = if is_blank c then drop_blanks cs else c ∷ cs

-- A value without the blanks around it; a value of blanks only stays as it is.
unfoldable pub strip_value : Bytes → Bytes
strip_value val =
    let t = drop_end is_blank (drop_blanks val) in
    let v = if is_empty t then val else t in if is_quoted v then unquote v else v

-- line.pop_back() where the line ends with a carriage return
unfoldable pub drop_return : Bytes → Bytes
drop_return [] = []
drop_return (c ∷ cs) = if c == b'\r' && is_empty cs then [] else c ∷ drop_return cs

-- One round of the loop over the lines: whether it is in [application], and what it has found.
unfoldable pub config_line : Bytes → Bool × OrdMap Bytes → Bool × OrdMap Bytes
config_line l (in_application, app_section) =
    let line = drop_return l in
    if is_empty line || front_is b';' line
    then (in_application, app_section)
    else if front_is b'[' line && back_is b']' line
    then (str_eq line (codes "[application]"), app_section)
    else if not in_application
    then (in_application, app_section)
    else elim (split_at b'=' line) [
      | none ↦ (in_application, app_section)
      | some (key, val) ↦ (in_application, insert key (strip_value val) app_section)
    ]

unfoldable pub config_lines : List Bytes → Bool × OrdMap Bytes → OrdMap Bytes
config_lines [] (in_application, app_section) = app_section
config_lines (l ∷ ls) s = config_lines ls (config_line l s)

unfoldable pub application_config : Option Bytes → OrdMap Bytes
application_config none = []
application_config (some content) = config_lines (lines content) (false, [])

module _ (lib : JsonLib) {W : Type 0} (engine : Engine lib.Json W) where
  open lib use {Json, string, boolean, object}

  -- info[key] = value
  abbrev pub put : Bytes → Json → OrdMap Json → OrdMap Json
  put key v info = insert key v info

  abbrev pub strings : OrdMap Bytes → List (Bytes × Json)
  strings [] = []
  strings ((k, v) ∷ m) = (k, string v) ∷ strings m

  abbrev put_version : Option Bytes → OrdMap Json → OrdMap Json
  put_version none info = info
  put_version (some v) info = put (codes "engine_version") (string v) info

  -- With an active project.
  unfoldable pub active_info : Bytes → OrdMap Json → W → OrdMap Json
  active_info project_path start w =
      let pg_path = project_path ++ codes "/project.godot" in
      let info =
        put_version (engine.engine_version w)
          (put (codes "project_godot_exists") (boolean (engine.exists pg_path w)) start) in
      if not (engine.exists pg_path w)
      then put (codes "error") (string (codes "project.godot not found at " ++ pg_path)) info
      else put (codes "application_config")
          (object (strings (application_config (engine.read pg_path w)))) info

  unfoldable pub project_info : W → OrdMap Json
  project_info w =
      let project_path = engine.get_project_path w in
      let info =
        put (codes "project_godot_exists") (boolean false)
          (put (codes "project_path") (string project_path) []) in
      if is_empty project_path
      then put (codes "error") (string (codes "No active project detected")) info
      else active_info project_path info w

  unfoldable pub resource_project_info : Bytes → W → Result Bytes × W
  resource_project_info p_uri w = (engine.dump_indented (object (project_info w)), w)
