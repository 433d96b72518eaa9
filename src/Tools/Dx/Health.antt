-- ===== src/Tools/Dx/Health.antt =====
-- src/tools/dx/dx_tools.cpp: get_project_health. The calls of the editor are parameters: the
-- project that is open, GodotAPI::res_to_absolute, and the text that the engine gives for its
-- version. The set of the existing files is left out: nothing reads it. Five times the number of
-- the issues is below 2 ^ 31.
pub mod Counts
pub mod Answers
use gear_mcp_server.Base.{
  ℕ, zero, suc, ◌+◌, ◌-◌, ◌*◌, Bool, true, false, not, Option, none, some, List, [], ◌∷◌, ◌++◌, map,
  ◌||◌, ◌&&◌, ltb, leb, if◌then◌else◌, Bytes, codes, str_eq, back_is, length, is_empty,
}
use gear_mcp_server.Exec.{Exception, Result, ok, threw, Exec, pure, lift, ◌>>=◌, ◌>>◌}
use gear_mcp_server.Json.{JsonLib}
use gear_mcp_server.Methods.{ToolHandler}
use gear_mcp_server.Methods.Rpc.{value}
use gear_mcp_server.Builtin.{int_of_size}
use gear_mcp_server.Tools.{Values, value_of, Answer, refuse, reply, with_params}
use gear_mcp_server.Tools.Intent.Record.{invalid_params_text}
use gear_mcp_server.Tools.Dx.{FileSystem, Regexes, unless}

-- The regular files below the project, by their extensions.
pub record Sources : Type 0 where
  pub scenes : List Bytes
  pub scripts : List Bytes
  pub resources : List Bytes

-- A path in front of the list for its extension.
abbrev pub sorted_in : Bytes → Bytes → Sources → Sources
sorted_in path ext s =
    if str_eq ext (codes ".tscn") || str_eq ext (codes ".scn")
    then record s { scenes = path ∷ s.scenes }
    else if str_eq ext (codes ".gd") || str_eq ext (codes ".cs")
    then record s { scripts = path ∷ s.scripts }
    else if str_eq ext (codes ".tres") || str_eq ext (codes ".res")
    then record s { resources = path ∷ s.resources }
    else s

-- What the checks have found: the issues, and the two counters of the checks.
pub record Findings : Type 0 where
  pub issues : List Bytes
  pub empty_scripts : ℕ
  pub broken_refs : ℕ

abbrev pub max_issues : ℕ
max_issues = 50

abbrev pub max_refs : ℕ
max_refs = 50

-- The text between R"( and the next )".
abbrev pub ref_pattern : Bytes
ref_pattern = codes "res://[A-Za-z0-9_./\\-]+\\.[A-Za-z0-9]+"

abbrev pub score_of : ℕ → ℕ
score_of issue_count = 100 - issue_count * 5

abbrev pub status_of : ℕ → Bytes
status_of health_score =
    if leb 80 health_score
    then codes "good"
    else if leb 50 health_score
    then codes "fair"
    else codes "poor"

module _ (regexes : Regexes) {W : Type 0} (file_system : FileSystem W)
    (res_to_absolute : Bytes → W → Bytes) (w : W) where
  open regexes use {Regex, compile, search_next}

  unfoldable pub sources_of : List (Bytes × Bool) → Sources
  sources_of [] = record { scenes = []; scripts = []; resources = [] }
  sources_of ((path, is_file) ∷ es) =
      let rest = sources_of es in
      if is_file then sorted_in path (file_system.extension path) rest else rest

  -- A script, and whether it is empty.
  abbrev pub script_checked : Bytes → Bool → Findings → Findings
  script_checked path false f = f
  script_checked path true f = record f {
    issues = f.issues ++ (codes "Empty script: " ++ path) ∷ [];
    empty_scripts = f.empty_scripts + 1;
  }

  unfoldable pub check_scripts : List Bytes → Findings → Findings
  check_scripts [] f = f
  check_scripts (path ∷ ps) f =
      check_scripts ps (script_checked path (file_system.is_zero_size path w) f)

  -- The reference does not end with a slash, and its file does not exist.
  abbrev pub is_broken : Bytes → Bool
  is_broken ref =
      not (file_system.exists (res_to_absolute ref w) w)
      && not (is_empty ref)
      && not (back_is b'/' ref)

  -- A reference, and whether it is broken: it is counted, and it is an issue while there are fewer
  -- than 50.
  abbrev pub ref_checked : Bytes → Bytes → Bytes → Bool → Findings → Findings
  ref_checked p_kind path ref false f = f
  ref_checked p_kind path ref true f = record f {
    issues =
        if ltb (length f.issues) max_issues
        then f.issues
          ++ (codes "Broken reference in "
              ++ p_kind
              ++ codes " "
              ++ file_system.filename path
              ++ codes ": "
              ++ ref)
            ∷ []
        else f.issues;
    broken_refs = f.broken_refs + 1;
  }

  -- The loop over the references in a text, at most so many.
  unfoldable pub check_refs : Regex → Bytes → Bytes → ℕ → Bytes → Findings → Findings
  check_refs re p_kind path zero s f = f
  check_refs re p_kind path (suc n) s f = elim (search_next re s) [
    | none ↦ f
    | some (ref, suffix) ↦
        check_refs re p_kind path n suffix (ref_checked p_kind path ref (is_broken ref) f)
  ]

  abbrev pub check_text : Bytes → Bytes → Option Bytes → Findings → Result Findings
  check_text p_kind path none f = ok f
  check_text p_kind path (some content) f = elim (compile ref_pattern) [
    | threw e ↦ threw e
    | ok re ↦ ok (check_refs re p_kind path max_refs content f)
  ]

  unfoldable pub check_files : Bytes → List Bytes → Findings → Result Findings
  check_files p_kind [] f = ok f
  check_files p_kind (path ∷ ps) f = elim (check_text p_kind path (file_system.text path w) f) [
    | threw e ↦ threw e
    | ok g ↦ check_files p_kind ps g
  ]

  unfoldable pub check_sources : Bool → Sources → Findings → Result Findings
  check_sources scan_scripts s f =
      let g = if scan_scripts then check_scripts s.scripts f else f in
      elim (check_files (codes "scene") s.scenes g) [
        | threw e ↦ threw e
        | ok h ↦ check_files (codes "resource") s.resources h
      ]

  abbrev pub no_sources : Sources
  no_sources = record { scenes = []; scripts = []; resources = [] }

  -- Without a directory for the project nothing is collected.
  abbrev pub project_sources : Bytes → Sources
  project_sources project_path =
      if file_system.exists project_path w && file_system.is_dir project_path w
      then sources_of (file_system.entries project_path w)
      else no_sources

  -- The exception of the walk through the directory.
  abbrev pub walk_end : Bytes → Option Exception
  walk_end project_path =
      if file_system.exists project_path w && file_system.is_dir project_path w
      then file_system.entries_end project_path w
      else none

  -- Before the checks: the file of the project is there, or it is the first issue.
  abbrev pub first_findings : Bytes → Findings
  first_findings project_path =
      let pg = project_path ++ codes "/project.godot" in
      record {
        issues =
            if file_system.exists pg w then [] else (codes "project.godot missing at " ++ pg) ∷ [];
        empty_scripts = 0;
        broken_refs = 0;
      }

  unfoldable pub check_project : Bytes → Bool → Result Findings
  check_project project_path scan_scripts =
      check_sources scan_scripts (project_sources project_path) (first_findings project_path)

module _ (lib : JsonLib) (values : Values lib) (regexes : Regexes) {W : Type 0}
    (file_system : FileSystem W) (res_to_absolute : Bytes → W → Bytes)
    (get_project_path : W → Bytes) (engine_version : W → Bytes) where
  open lib use {Json, string, number, boolean, object, array, dump}

  unfoldable pub stats_json : Sources → Findings → Json
  stats_json s f = object (
      (codes "scene_count", number (int_of_size (length s.scenes)))
      ∷ (codes "script_count", number (int_of_size (length s.scripts)))
      ∷ (codes "resource_count", number (int_of_size (length s.resources)))
      ∷ (codes "empty_script_count", number (int_of_size f.empty_scripts))
      ∷ (codes "broken_ref_count", number (int_of_size f.broken_refs))
      ∷ [])

  unfoldable pub health_json : Bytes → Bool → Bytes → Sources → Findings → Json
  health_json project_path has_pg version s f =
      let health_score = score_of (length f.issues) in
      object (
        (codes "success", boolean true)
        ∷ (codes "project_path", string project_path)
        ∷ (codes "has_project_godot", boolean has_pg)
        ∷ (codes "engine_version", string version)
        ∷ (codes "stats", stats_json s f)
        ∷ (codes "health_score", number (int_of_size health_score))
        ∷ (codes "status", string (status_of health_score))
        ∷ (codes "issue_count", number (int_of_size (length f.issues)))
        ∷ (codes "issues", array (map string f.issues))
        ∷ [])

  unfoldable pub health_at : Bool → Bytes → Exec W Answer
  health_at scan_scripts project_path w =
      if is_empty project_path
      then refuse (codes "No project_path provided and no active project detected") w
      else (do
        lift (unless (walk_end regexes file_system res_to_absolute w project_path) (ok tt))
        f ← lift (check_project regexes file_system res_to_absolute w project_path scan_scripts)
        reply (
            dump (
              health_json project_path
                (file_system.exists (project_path ++ codes "/project.godot") w) (engine_version w)
                (project_sources regexes file_system res_to_absolute w project_path) f)))
          w

  unfoldable pub handle_get_project_health : ToolHandler W
  handle_get_project_health = with_params lib invalid_params_text (λ params. do
    given ← lift (value lib params (codes "project_path") [])
    scan_scripts ← lift (value_of lib values.as_boolean params (codes "include_script_scan") true)
    λ w. health_at scan_scripts (if is_empty given then get_project_path w else given) w)
