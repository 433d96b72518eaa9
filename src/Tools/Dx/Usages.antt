-- ===== src/Tools/Dx/Usages.antt =====
-- src/tools/dx/dx_tools.cpp: find_resource_usages. The first loop for the line number is left
-- out: the number that it counts is set again behind it.
pub mod Shown
pub mod Limit
pub mod Listed
pub mod Answers
use gear_mcp_server.Base.{
  ℕ, zero, suc, ◌+◌, ◌-◌, Bool, true, false, Option, none, some, List, [], ◌∷◌, ◌++◌, map, ◌||◌,
  ◌&&◌, ltb, leb, not, ◌==◌, if◌then◌else◌, Bytes, codes, str_eq, find, length, is_empty, take,
  drop, substr,
}
use gear_mcp_server.Exec.{Exception, Result, ok, threw, Exec, pure, lift, ◌>>=◌, ◌>>◌}
use gear_mcp_server.Json.{JsonLib, ℤ, pos, negsuc}
use gear_mcp_server.Methods.{ToolHandler}
use gear_mcp_server.Methods.Rpc.{value}
use gear_mcp_server.Builtin.{int_of_size}
use gear_mcp_server.Tools.{Values, value_of, Answer, refuse, reply, with_params}
use gear_mcp_server.Tools.Intent.Record.{invalid_params_text}
use gear_mcp_server.Tools.Dx.{FileSystem, unless}

-- Below 1: 1; above 1000: 1000.
abbrev pub clamp_usages : ℤ → ℕ
clamp_usages (pos zero) = 1
clamp_usages (pos (suc n)) = if ltb 1000 (suc n) then 1000 else suc n
clamp_usages (negsuc n) = 1

-- The path without "res://".
abbrev pub stem_of : Bytes → Bytes
stem_of resource_path =
    if str_eq (take 6 resource_path) (codes "res://") then drop 6 resource_path else resource_path

abbrev pub is_source : Bytes → Bool
is_source ext =
    ((((str_eq ext (codes ".tscn") || str_eq ext (codes ".scn")) || str_eq ext (codes ".tres"))
        || str_eq ext (codes ".res"))
      || str_eq ext (codes ".gd"))
    || str_eq ext (codes ".cs")

-- The line breaks before a position, added to a number.
abbrev pub count_breaks : ℕ → ℕ → Bytes → ℕ
count_breaks lineno zero s = lineno
count_breaks lineno (suc i) [] = lineno
count_breaks lineno (suc i) (c ∷ s) = count_breaks (if c == b'\n' then lineno + 1 else lineno) i s

abbrev pub to_space : ℕ → ℕ
to_space c = if c == b'\n' then b' ' else if c == b'\r' then b' ' else c

abbrev pub min_of : ℕ → ℕ → ℕ
min_of a b = if ltb b a then b else a

abbrev pub shorten : Bytes → Bytes
shorten ctx = if ltb 160 (length ctx) then take 160 ctx ++ codes "..." else ctx

-- What stands around a position.
unfoldable pub surroundings : Bytes → Bytes → ℕ → Bytes
surroundings content stem position =
    let s = if leb 80 position then position - 80 else 0 in
    let epos = min_of (length content) (position + length stem + 80) in substr content s (epos - s)

unfoldable pub usage_context : Bytes → Bytes → ℕ → Bytes
usage_context content stem position = shorten (map to_space (surroundings content stem position))

pub record Usage : Type 0 where
  pub file : Bytes
  pub line : ℕ
  pub around : Bytes

-- What a file that opens adds: nothing, or one usage.
abbrev pub usage_at : Bytes → Bytes → Bytes → Option ℕ → List Usage
usage_at path content stem none = []
usage_at path content stem (some position) =
    record {
      file = path;
      line = count_breaks 1 position content;
      around = usage_context content stem position;
    }
    ∷ []

unfoldable pub usage_in : Bytes → Bytes → Option Bytes → List Usage
usage_in path stem none = []
usage_in path stem (some content) = usage_at path content stem (find content stem)

module _ {W : Type 0} (file_system : FileSystem W) (stem : Bytes) (max_results : ℕ) (w : W) where
  abbrev pub is_scanned : Bytes × Bool → Bool
  is_scanned (path, is_file) = is_file && is_source (file_system.extension path)

  -- The loop over the entries, with the number of files scanned and the matches.
  unfoldable pub usage_loop : List (Bytes × Bool) → ℕ → List Usage → ℕ × List Usage
  usage_loop [] scanned matches = (scanned, matches)
  usage_loop (entry ∷ es) scanned matches =
      let added = usage_in entry.0 stem (file_system.text entry.0 w) in
      let passed = usage_loop es scanned matches in
      let next = usage_loop es (scanned + 1) (matches ++ added) in
      if is_scanned entry
      then (if not (is_empty added) && leb max_results (length (matches ++ added))
          then (scanned + 1, matches ++ added)
          else next)
      else passed

module _ (lib : JsonLib) (values : Values lib) {W : Type 0} (file_system : FileSystem W)
    (get_project_path : W → Bytes) where
  open lib use {Json, string, number, boolean, object, array, dump}

  unfoldable pub usage_json : Usage → Json
  usage_json u = object (
      (codes "file", string u.file)
      ∷ (codes "line", number (int_of_size u.line))
      ∷ (codes "context", string u.around)
      ∷ [])

  unfoldable pub usages_json : Bytes → Bytes → ℕ × List Usage → Json
  usages_json resource_path project_path (scanned, matches) = object (
      (codes "success", boolean true)
      ∷ (codes "resource_path", string resource_path)
      ∷ (codes "project_path", string project_path)
      ∷ (codes "scanned_files", number (int_of_size scanned))
      ∷ (codes "match_count", number (int_of_size (length matches)))
      ∷ (codes "matches", array (map usage_json matches))
      ∷ [])

  -- The loop was left at the limit exactly if there are as many matches; else the walk came to its
  -- end, which may be an exception.
  abbrev pub unstopped_end : ℕ → Bytes → W → List Usage → Option Exception
  unstopped_end max_results project_path w matches =
      if leb max_results (length matches) then none else file_system.entries_end project_path w

  unfoldable pub usages_at : Bytes → ℕ → Bytes → Exec W Answer
  usages_at resource_path max_results project_path w =
      if is_empty project_path
      then refuse (codes "No project_path provided and no active project detected") w
      else if not (file_system.exists project_path w) || not (file_system.is_dir project_path w)
      then refuse (codes "Project path does not exist or is not a directory: " ++ project_path) w
      else (let found =
            usage_loop file_system (stem_of resource_path) max_results w
              (file_system.entries project_path w) 0 [] in
          (do
            lift (unless (unstopped_end max_results project_path w found.1) (ok tt))
            reply (dump (usages_json resource_path project_path found)))
            w)

  unfoldable pub usages_of : Json → Bytes → Exec W Answer
  usages_of params resource_path =
      if is_empty resource_path
      then refuse (codes "Missing required parameter: resource_path")
      else do
        given ← lift (value lib params (codes "project_path") [])
        max_results ← lift (value_of lib values.as_int params (codes "max_results") (pos 50))
        λ w.
            usages_at resource_path (clamp_usages max_results)
              (if is_empty given then get_project_path w else given) w

  unfoldable pub handle_find_resource_usages : ToolHandler W
  handle_find_resource_usages = with_params lib invalid_params_text (λ params. do
    resource_path ← lift (value lib params (codes "resource_path") [])
    usages_of params resource_path)
