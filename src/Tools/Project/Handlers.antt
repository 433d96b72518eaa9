-- ===== src/Tools/Project/Handlers.antt =====
-- src/tools/project/project_tools.cpp: the handlers.
use gear_mcp_server.Base.{
  ℕ, zero, suc, Bool, true, false, Option, none, some, List, [], ◌∷◌, map, ltb, ◌==◌, if◌then◌else◌,
  Bytes, codes, length, is_empty,
}
use gear_mcp_server.Exec.{Result, ok, threw, Exec, lift, ◌>>=◌}
use gear_mcp_server.OrdMap.{lookup}
use gear_mcp_server.Json.{JsonLib, ℤ, pos, negsuc}
use gear_mcp_server.Methods.{ToolHandler}
use gear_mcp_server.Methods.Rpc.{value, or_else}
use gear_mcp_server.Paths.{has_traversal}
use gear_mcp_server.Folders.{Folders}
use gear_mcp_server.Builtin.{int_of_size}
use gear_mcp_server.Config.{Disk}
use gear_mcp_server.Config.Value.{Numbers}
use gear_mcp_server.Config.Ini.{
  Ini, Node, node_json, parse_project_godot, get_project_setting, get_autoloads,
}
use gear_mcp_server.Config.Project.{set_project_setting}
use gear_mcp_server.Config.Scan.{scan_projects}
use gear_mcp_server.Tools.{Values, value_of, Answer, refuse, refuse_now, reply, with_params}
use gear_mcp_server.Tools.Intent.Record.{invalid_params_text}
use gear_mcp_server.Tools.Autoload.{resolve_project_path, in_project, no_project, changed}
use gear_mcp_server.Tools.Project.{SearchMatch, search_directory}

abbrev pub default_results : ℕ
default_results = 50

-- Not positive: 50; above 500: 500.
abbrev pub clamp_results : ℤ → ℕ
clamp_results (pos zero) = default_results
clamp_results (pos (suc n)) = if ltb 500 (suc n) then 500 else suc n
clamp_results (negsuc n) = default_results

-- An answer of a call that may run out of fuel: `none` is fuel that ran out.
abbrev pub in_fuel : Option (Result Bytes) → Result (Option Answer)
in_fuel none = ok none
in_fuel (some (ok t)) = ok (some (t, []))
in_fuel (some (threw e)) = threw e

module _ (lib : JsonLib) (values : Values lib) {W : Type 0} (disk : Disk W) (folders : Folders W)
    (get_project_path : W → Bytes) where
  open lib use {Json, string, number, boolean, object, array, dump}

  unfoldable pub match_json : SearchMatch → Json
  match_json m = object (
      (codes "file", string m.file)
      ∷ (codes "line", number (int_of_size m.line))
      ∷ (codes "content", string m.content)
      ∷ [])

  unfoldable pub search_json : Bytes → Bytes → Bytes → List SearchMatch → Json
  search_json project_path query file_pattern matches = object (
      (codes "success", boolean true)
      ∷ (codes "project_path", string project_path)
      ∷ (codes "query", string query)
      ∷ (codes "file_pattern", string file_pattern)
      ∷ (codes "total_matches", number (int_of_size (length matches)))
      ∷ (codes "matches", array (map match_json matches))
      ∷ [])

  abbrev pub search_answer :
      Bytes → Bytes → Bytes → Option (List SearchMatch) → Result (Option Answer)
  search_answer project_path query file_pattern none = ok none
  search_answer project_path query file_pattern (some ms) =
      in_fuel (some (dump (search_json project_path query file_pattern ms)))

  unfoldable pub search_query : ℕ → Json → Bytes → Bytes → Exec W (Option Answer)
  search_query fuel params project_path query =
      if is_empty query
      then refuse_now (codes "Parameter 'query' is required and must not be empty.")
      else do
        file_pattern ← lift (value lib params (codes "file_pattern") (codes "*"))
        max_results ←
            lift (value_of lib values.as_int params (codes "max_results") (pos default_results))
        λ w. (
          search_answer project_path query file_pattern (
              search_directory folders query file_pattern (clamp_results max_results) w fuel
                project_path []),
          w,
        )

  unfoldable pub search_parsed : ℕ → Json → Exec W (Option Answer)
  search_parsed fuel params = do
    given ← lift (value lib params (codes "project_path") [])
    project_path ← (λ w. (ok (resolve_project_path lib disk get_project_path given w), w))
    if is_empty project_path then refuse_now no_project else do
      query ← lift (value lib params (codes "query") [])
      search_query fuel params project_path query

  abbrev pub search_call : ℕ → Result Json → Exec W (Option Answer)
  search_call fuel (threw e) = refuse_now invalid_params_text
  search_call fuel (ok params) = search_parsed fuel params

  unfoldable pub handle_search_project : ℕ → Bytes → Exec W (Option Answer)
  handle_search_project fuel p_params_json = search_call fuel (lib.parse p_params_json)

module _ (lib : JsonLib) (values : Values lib) {W : Type 0} (disk : Disk W)
    (get_project_path : W → Bytes) (numbers : Numbers lib.Json) (ini_error : Bytes → W → Bool) where
  open lib use {Json, string, boolean, object, array, dump, find, as_string, type_error}

  unfoldable pub get_keyed : Bytes → Bytes → Bytes → Exec W Answer
  get_keyed project_path p_section key =
      if is_empty key then refuse (codes "Parameter 'key' is required.") else do
        found ←
            (λ w. (get_project_setting lib numbers disk ini_error project_path p_section key w, w))
        reply (
            dump (
              object (
                (codes "success", boolean true)
                ∷ (codes "section", string p_section)
                ∷ (codes "key", string key)
                ∷ (codes "value", string found)
                ∷ [])))

  unfoldable pub handle_get_project_setting : ToolHandler W
  handle_get_project_setting = with_params lib invalid_params_text (λ params.
      in_project lib disk get_project_path params (λ project_path. do
        p_section ← lift (value lib params (codes "section") [])
        key ← lift (value lib params (codes "key") [])
        get_keyed project_path p_section key))

  unfoldable pub set_keyed : Bytes → Bytes → Bytes → Bytes → Exec W Answer
  set_keyed project_path p_section key new_value =
      if is_empty key then refuse (codes "Parameter 'key' is required.") else do
        success ← (λ w.
            let (b, w') = set_project_setting disk project_path p_section key new_value w in
            (ok b, w'))
        changed lib disk get_project_path
            (codes "Failed to set project setting. Check that the project.godot file is writable.")
            ((codes "section", string p_section)
              ∷ (codes "key", string key)
              ∷ (codes "value", string new_value)
              ∷ [])
            success

  unfoldable pub handle_set_project_setting : ToolHandler W
  handle_set_project_setting = with_params lib invalid_params_text (λ params.
      in_project lib disk get_project_path params (λ project_path. do
        p_section ← lift (value lib params (codes "section") [])
        key ← lift (value lib params (codes "key") [])
        new_value ← lift (value lib params (codes "value") [])
        set_keyed project_path p_section key new_value))

  -- get<std::string>() of a member, where there is one.
  abbrev pub text_member : Option Json → Result Bytes
  text_member none = ok []
  text_member (some j) = elim (as_string j) [ none ↦ threw (type_error j) | some t ↦ ok t ]

  -- The members that are read from the section `application`; without a section, `none`.
  abbrev pub app_member : Bytes → Option (Node Json) → Option Json
  app_member key none = none
  app_member key (some n) = find key (node_json lib numbers disk ini_error n)

  -- The autoloads are a member where there are any.
  abbrev pub autoloads_member : Json → List (Bytes × Json)
  autoloads_member autoloads =
      if values.size autoloads == 0 then [] else (codes "autoloads", autoloads) ∷ []

  unfoldable pub info_of : Bytes → Option (Node Json) → Exec W Answer
  info_of project_path app = do
    project_name ← lift (text_member (app_member (codes "config/name") app))
    godot_version ← lift (text_member (app_member (codes "config/version") app))
    main_scene ← lift (text_member (app_member (codes "run/main_scene") app))
    autoloads ← (λ w. (get_autoloads lib numbers disk ini_error project_path w, w))
    reply (
        dump (
          object (
            (codes "success", boolean true)
            ∷ (codes "project_path", string project_path)
            ∷ (codes "project_name", string project_name)
            ∷ (codes "godot_version", string godot_version)
            ∷ (codes "main_scene", string main_scene)
            ∷ (codes "features", or_else (app_member (codes "config/features") app) (array []))
            ∷ autoloads_member autoloads)))

  -- The parsed file may have a name `error` at its top.
  abbrev pub with_config : Bytes → Ini Json → Option (Node Json) → Exec W Answer
  with_config project_path config none = info_of project_path (lookup (codes "application") config)
  with_config project_path config (some n) = do
    r_error ← lift (text_member (some (node_json lib numbers disk ini_error n)))
    refuse r_error

  unfoldable pub handle_get_project_info : ToolHandler W
  handle_get_project_info = with_params lib invalid_params_text (λ params.
      in_project lib disk get_project_path params (λ project_path. do
        config ← (λ w. (parse_project_godot lib numbers disk ini_error project_path w, w))
        with_config project_path config (lookup (codes "error") config)))

  module _ (folders : Folders W) where
    unfoldable pub projects_json : List Json → Json
    projects_json projects =
        object ((codes "success", boolean true) ∷ (codes "projects", array projects) ∷ [])

    abbrev pub projects_answer : Option (Result (List Json)) → Result (Option Answer)
    projects_answer none = ok none
    projects_answer (some (threw e)) = threw e
    projects_answer (some (ok projects)) = in_fuel (some (dump (projects_json projects)))

    unfoldable pub list_projects_at : ℕ → Json → Bytes → Exec W (Option Answer)
    list_projects_at fuel params p_directory =
        if is_empty p_directory
        then refuse_now (codes "Parameter 'directory' is required.")
        else if has_traversal p_directory
        then refuse_now (codes "Invalid directory path: path traversal detected.")
        else do
          recursive ← lift (value_of lib values.as_boolean params (codes "recursive") false)
          λ w. (
            projects_answer
                (scan_projects lib numbers disk ini_error folders w fuel p_directory recursive),
            w,
          )

    abbrev pub list_projects_call : ℕ → Result Json → Exec W (Option Answer)
    list_projects_call fuel (threw e) = refuse_now invalid_params_text
    list_projects_call fuel (ok params) = do
      p_directory ← lift (value lib params (codes "directory") [])
      list_projects_at fuel params p_directory

    unfoldable pub handle_list_projects : ℕ → Bytes → Exec W (Option Answer)
    handle_list_projects fuel p_params_json = list_projects_call fuel (lib.parse p_params_json)
