-- ===== src/Config/Ini.antt =====
-- src/shared/config_parser.cpp: reading a configuration file, and what is asked of it.
use gear_mcp_server.Base.{
  ℕ, Bool, Option, none, some, List, [], ◌∷◌, ◌++◌, ◌||◌, ◌==◌, if◌then◌else◌, Bytes, codes,
  split_at, lines, drop, is_empty, drop_end, front_is,
}
use gear_mcp_server.Exec.{Result, ok, threw}
use gear_mcp_server.OrdMap.{OrdMap, lookup, insert, has_key}
use gear_mcp_server.Json.{JsonLib}
use gear_mcp_server.Paths.{normalize}
use gear_mcp_server.Config.{Disk, read_file}
use gear_mcp_server.Config.Value.{Numbers, trim, parse_godot_value}

-- What a name at the top of the file stands for: a value, or a section.
pub data Node (Json : Type 0) : Type 0 where
  leaf : Json → Node Json
  section : OrdMap Json → Node Json

-- The loop of the reader: the section that it is in, and the object that it has filled.
abbrev pub Ini : Type 0 → Type 0
Ini Json = OrdMap (Node Json)

abbrev pub is_blank : ℕ → Bool
is_blank c = c == b' ' || c == b'\t'

module _ (lib : JsonLib) (numbers : Numbers lib.Json) where
  open lib use {Json, string, boolean, object, array, dump, as_string, items, type_error}

  -- result[current_section][key] = v: the first operator[] makes an object, and the second
  -- throws on any other value.
  abbrev pub set_in : Bytes → Json → Option (Node Json) → Result (Node Json)
  set_in key v none = ok (section (insert key v []))
  set_in key v (some (leaf j)) = threw (type_error j)
  set_in key v (some (section m)) = ok (section (insert key v m))

  abbrev put_node : Bytes → Ini Json → Result (Node Json) → Result (Bytes × Ini Json)
  put_node current_section result (threw e) = threw e
  put_node current_section result (ok n) = ok (current_section, insert current_section n result)

  unfoldable pub set_value : Bytes → Json → Bytes × Ini Json → Result (Bytes × Ini Json)
  set_value key v (current_section, result) =
      if is_empty current_section
      then ok (current_section, insert key (leaf v) result)
      else put_node current_section result (set_in key v (lookup current_section result))

  unfoldable pub header_line : Bytes → Bytes × Ini Json → Bytes × Ini Json
  header_line line (current_section, result) = elim (split_at b']' line) [
    | none ↦ (current_section, result)
    | some (a, _) ↦
        let name = drop 1 a in
        (name, if has_key name result then result else insert name (section []) result)
  ]

  -- A line that is not empty after trimming.
  unfoldable pub trimmed_line : Bytes → Bytes × Ini Json → Result (Bytes × Ini Json)
  trimmed_line line s =
      if front_is b';' line || front_is b'#' line
      then ok s
      else if front_is b'[' line
      then ok (header_line line s)
      else elim (split_at b'=' line) [
        | none ↦ ok s
        | some (key, value) ↦
            set_value (drop_end is_blank key) (parse_godot_value lib numbers value) s
      ]

  unfoldable pub ini_line : Bytes → Bytes × Ini Json → Result (Bytes × Ini Json)
  ini_line line s = if is_empty (trim line) then ok s else trimmed_line (trim line) s

  unfoldable pub ini_lines : List Bytes → Bytes × Ini Json → Result (Ini Json)
  ini_lines [] (current_section, result) = ok result
  ini_lines (l ∷ ls) s = elim (ini_line l s) [ threw e ↦ threw e | ok t ↦ ini_lines ls t ]

  -- `ini_error` is INIReader's ParseError() != 0 on the file of that name.
  module _ {W : Type 0} (disk : Disk W) (ini_error : Bytes → W → Bool) where
    unfoldable pub parse_ini_file : Bytes → W → Result (Ini Json)
    parse_ini_file p_path w =
        if ini_error p_path w then ok [] else ini_lines (lines (read_file disk p_path w)) ([], [])

    unfoldable pub parse_project_godot : Bytes → W → Result (Ini Json)
    parse_project_godot p_project_path =
        parse_ini_file (normalize p_project_path ++ codes "/project.godot")

    abbrev pub node_json : Node Json → Json
    node_json (leaf j) = j
    node_json (section m) = object m

    -- proj[p_section][p_key], where the section is an object and has the key
    abbrev pub in_section : Bytes → Option (Node Json) → Option Json
    in_section p_key none = none
    in_section p_key (some (leaf j)) = none
    in_section p_key (some (section m)) = lookup p_key m

    abbrev pub at_top : Option (Node Json) → Option Json
    at_top none = none
    at_top (some n) = some (node_json n)

    unfoldable pub setting : Bytes → Bytes → Ini Json → Option Json
    setting p_section p_key proj =
        if is_empty p_section
        then at_top (lookup p_key proj)
        else in_section p_key (lookup p_section proj)

    abbrev pub dump_found : Option Json → Result Bytes
    dump_found none = ok []
    dump_found (some j) = dump j

    unfoldable pub get_project_setting : Bytes → Bytes → Bytes → W → Result Bytes
    get_project_setting p_project_path p_section p_key w =
        elim (parse_project_godot p_project_path w) [
          | threw e ↦ threw e
          | ok proj ↦ dump_found (setting p_section p_key proj)
        ]

    -- A string as it is, any other value as JSON text.
    unfoldable pub value_text : Json → Result Bytes
    value_text j = elim (as_string j) [ some s ↦ ok s | none ↦ dump j ]

    unfoldable pub autoload_entry : Bytes → Bytes → Json
    autoload_entry name path_str =
        let is_singleton = front_is b'*' path_str in
        object (
          (codes "name", string name)
          ∷ (codes "path", string (if is_singleton then drop 1 path_str else path_str))
          ∷ (codes "singleton", boolean is_singleton)
          ∷ [])

    unfoldable pub autoload_entries : List (Bytes × Json) → Result (List Json)
    autoload_entries [] = ok []
    autoload_entries ((name, path) ∷ ms) =
        let rest = autoload_entries ms in
        elim (value_text path) [
          | threw e ↦ threw e
          | ok t ↦ elim rest [ threw e ↦ threw e | ok es ↦ ok (autoload_entry name t ∷ es) ]
        ]

    abbrev pub members : Option (Node Json) → List (Bytes × Json)
    members none = []
    members (some (leaf j)) = items j
    members (some (section m)) = m

    unfoldable pub get_autoloads : Bytes → W → Result Json
    get_autoloads p_project_path w = elim (parse_project_godot p_project_path w) [
      | threw e ↦ threw e
      | ok proj ↦ elim (autoload_entries (members (lookup (codes "autoload") proj))) [
        | threw e ↦ threw e
        | ok es ↦ ok (array es)
      ]
    ]

    abbrev pub text_found : Option Json → Result Bytes
    text_found none = ok []
    text_found (some j) = value_text j

    unfoldable pub get_main_scene : Bytes → W → Result Bytes
    get_main_scene p_project_path w = elim (parse_project_godot p_project_path w) [
      | threw e ↦ threw e
      | ok proj ↦
          text_found (in_section (codes "run/main_scene") (lookup (codes "application") proj))
    ]
