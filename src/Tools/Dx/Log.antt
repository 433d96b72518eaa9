-- ===== src/Tools/Dx/Log.antt =====
-- src/tools/dx/dx_tools.cpp: parse_error_log. A number of lines is below 2 ^ 31.
use gear_mcp_server.Base.{
  ℕ, suc, ◌+◌, Bool, true, Option, none, some, List, [], ◌∷◌, ◌++◌, map, ◌||◌, ltb, ◌==◌,
  if◌then◌else◌, Bytes, codes, str_eq, is_some, find, lines, length, is_empty, last_items,
}
use gear_mcp_server.Exec.{Result, ok, threw, Exec, lift, ◌>>=◌}
use gear_mcp_server.Json.{JsonLib, ℤ, pos, negsuc}
use gear_mcp_server.Methods.{ToolHandler}
use gear_mcp_server.Methods.Rpc.{value}
use gear_mcp_server.Builtin.{int_of_size}
use gear_mcp_server.Tools.{Values, value_of, Answer, refuse, reply, with_params}
use gear_mcp_server.Tools.Intent.Record.{invalid_params_text}
use gear_mcp_server.Tools.Meta.{to_lower}
use gear_mcp_server.Tools.Dx.{FileSystem, Regexes}

pub record ParsedLogEntry : Type 0 where
  pub level : Bytes
  pub message : Bytes
  pub line_no : ℕ

-- The text between R"( and the next )".
abbrev pub log_pattern : Bytes
log_pattern =
    codes "\\b(ERROR|WARNING|SCRIPT\\s+ERROR|USER\\s+ERROR|USER\\s+WARNING))\\b\\s*:?\\s*(.*"

abbrev pub level_of : Bytes → Bytes
level_of normalized =
    if (is_some (find normalized (codes "script error"))
        || is_some (find normalized (codes "user error")))
      || str_eq normalized (codes "error")
    then codes "ERROR"
    else codes "WARNING"

-- A '\r' at the end is removed.
abbrev pub without_return : Bytes → Bytes
without_return [] = []
without_return (c ∷ []) = if c == b'\r' then [] else c ∷ []
without_return (c ∷ d ∷ s) = c ∷ without_return (d ∷ s)

-- The last of so many, where there are more.
abbrev pub trim_entries : ℤ → List ParsedLogEntry → Option (List ParsedLogEntry)
trim_entries (pos n) es = some (if ltb n (length es) then last_items n es else es)
trim_entries (negsuc n) es = none

module _ (regexes : Regexes) where
  open regexes use {Regex, compile, search}

  -- What a line adds, where the regex is found in it.
  abbrev pub log_entry_of : ℕ → Option (Bytes × Bytes) → List ParsedLogEntry
  log_entry_of n none = []
  log_entry_of n (some (raw, message)) =
      record { level = level_of (map to_lower raw); message = message; line_no = n } ∷ []

  -- The loop over the lines, of which `n` were read before.
  unfoldable pub log_lines : Regex → ℕ → List Bytes → List ParsedLogEntry
  log_lines re n [] = []
  log_lines re n (l ∷ ls) =
      log_entry_of (suc n) (search re (without_return l)) ++ log_lines re (suc n) ls

  unfoldable pub parse_log_lines : Bytes → Result (List ParsedLogEntry)
  parse_log_lines p_content = elim (compile log_pattern) [
    | threw e ↦ threw e
    | ok re ↦ ok (log_lines re 0 (lines p_content))
  ]

abbrev pub is_error : ParsedLogEntry → Bool
is_error e = str_eq e.level (codes "ERROR")

abbrev pub only_errors : List ParsedLogEntry → List ParsedLogEntry
only_errors [] = []
only_errors (e ∷ es) = let rest = only_errors es in if is_error e then e ∷ rest else rest

-- The two counters.
abbrev pub count_levels : List ParsedLogEntry → ℕ × ℕ
count_levels [] = (0, 0)
count_levels (e ∷ es) =
    let (err_count, warn_count) = count_levels es in
    if is_error e
    then (err_count + 1, warn_count)
    else if str_eq e.level (codes "WARNING")
    then (err_count, warn_count + 1)
    else (err_count, warn_count)

-- `undefined` is what happens where `end() - max_lines` lies behind the end.
module _ (lib : JsonLib) (values : Values lib) (regexes : Regexes) {W : Type 0}
    (file_system : FileSystem W) (get_project_path : W → Bytes) (undefined : Exec W Answer) where
  open lib use {Json, string, number, boolean, object, array, dump}

  unfoldable pub log_entry_json : ParsedLogEntry → Json
  log_entry_json e = object (
      (codes "level", string e.level)
      ∷ (codes "message", string e.message)
      ∷ (codes "line_no", number (int_of_size e.line_no))
      ∷ [])

  abbrev pub log_answer : Bytes → Option (List ParsedLogEntry) → Exec W Answer
  log_answer log_path none = undefined
  log_answer log_path (some entries) =
      let (err_count, warn_count) = count_levels entries in
      reply (
        dump (
          object (
            (codes "success", boolean true)
            ∷ (codes "log_path", string log_path)
            ∷ (codes "error_count", number (int_of_size err_count))
            ∷ (codes "warning_count", number (int_of_size warn_count))
            ∷ (codes "entries", array (map log_entry_json entries))
            ∷ [])))

  abbrev pub log_opened : ℤ → Bytes → Bytes → Option Bytes → Exec W Answer
  log_opened max_lines min_level log_path none = refuse (codes "Cannot open log file: " ++ log_path)
  log_opened max_lines min_level log_path (some t) = do
    all ← lift (parse_log_lines regexes t)
    log_answer log_path
        (trim_entries max_lines (if str_eq min_level (codes "error") then only_errors all else all))

  abbrev pub default_log : Bytes → Bytes
  default_log proj = if is_empty proj then [] else proj ++ codes "/.godot/editor/editor.log"

  unfoldable pub log_at : ℤ → Bytes → Bytes → Exec W Answer
  log_at max_lines min_level log_path =
      if is_empty log_path
      then refuse (codes "No log_path provided and no project detected")
      else (λ w.
          if file_system.exists log_path w
          then log_opened max_lines min_level log_path (file_system.text log_path w) w
          else refuse (codes "Log file not found: " ++ log_path) w)

  unfoldable pub handle_parse_error_log : ToolHandler W
  handle_parse_error_log = with_params lib invalid_params_text (λ params. do
    max_lines ← lift (value_of lib values.as_int params (codes "max_lines") (pos 100))
    min_level ← lift (value lib params (codes "min_level") (codes "warning"))
    given ← lift (value lib params (codes "log_path") [])
    log_path ← (λ w. (ok (if is_empty given then default_log (get_project_path w) else given), w))
    log_at max_lines min_level log_path)
