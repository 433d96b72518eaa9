-- ===== src/Tools/Project.antt =====
-- src/tools/project/project_tools.cpp: the search through the files of a project. A
-- number of lines or of matches is below 2 ^ 31.

pub mod Found
pub mod Lines
pub mod Search
pub mod Overrun
pub mod Handlers
pub mod Answers
pub mod Settings
use gear_mcp_server.Base.{
  ℕ, zero, suc, ◌+◌, ◌*◌, Bool, true, false, Option, none, some, List, [], ◌∷◌, ◌++◌, map, leb,
  ◌||◌, ltb, if◌then◌else◌, Bytes, codes, str_eq, front_is, is_some, find, lines, length, is_empty,
}
use gear_mcp_server.Exec.{Result, ok, threw, Exec, lift, ◌>>=◌}
use gear_mcp_server.Json.{JsonLib, ℤ, pos, negsuc}
use gear_mcp_server.Methods.{ToolHandler}
use gear_mcp_server.Methods.Rpc.{value}
use gear_mcp_server.Builtin.{int_of_size}
use gear_mcp_server.Config.{Disk}
use gear_mcp_server.Config.Value.{Numbers}
use gear_mcp_server.Config.Ini.{get_project_setting}
use gear_mcp_server.Config.Project.{set_project_setting}
use gear_mcp_server.Tools.{Values, value_of, Answer, refuse, reply, with_params}
use gear_mcp_server.Folders.{FileKind, directory, regular, special, Folders}
use gear_mcp_server.Tools.Glob.{match_from}
use gear_mcp_server.Tools.Intent.Record.{invalid_params_text}
use gear_mcp_server.Tools.Autoload.{resolve_project_path, in_project, no_project, changed}

pub record SearchMatch : Type 0 where
  pub file : Bytes
  pub line : ℕ
  pub content : Bytes

-- The same loop as the one of `pattern_match`; an empty pattern is no exception here.
unfoldable pub glob_match : Bytes → Bytes → Option Bool
glob_match p_pattern p_str =
    match_from (suc ((length p_str + 1) * (length p_pattern + 1) + length p_pattern)) p_pattern
      p_str none

-- The loop over the lines of a file, of which `n` were read before.
unfoldable pub match_lines :
    Bytes → Bytes → ℕ → ℕ → List Bytes → List SearchMatch → List SearchMatch
match_lines full query limit n [] r_matches = r_matches
match_lines full query limit n (l ∷ ls) r_matches =
    let more = r_matches ++ record { file = full; line = suc n; content = l } ∷ [] in
    let next = match_lines full query limit (suc n) ls more in
    let rest = match_lines full query limit (suc n) ls r_matches in
    if is_some (find l query) then (if leb limit (length more) then more else next) else rest

-- "." and "..", and the hidden names
abbrev pub is_skipped : Bytes → Bool
is_skipped name = (str_eq name (codes ".") || str_eq name (codes "..")) || front_is b'.' name

abbrev pub match_opened : Bytes → Bytes → ℕ → Option Bytes → List SearchMatch → List SearchMatch
match_opened full query limit none ms = ms
match_opened full query limit (some t) ms = match_lines full query limit 0 (lines t) ms

-- What the pattern says of the name; `none` is the loop without an end.
abbrev pub match_file :
    Option Bool → Bytes → Bytes → ℕ → Option Bytes → List SearchMatch → Option (List SearchMatch)
match_file none full query limit opened ms = none
match_file (some false) full query limit opened ms = some ms
match_file (some true) full query limit opened ms = some (match_opened full query limit opened ms)

module _ {W : Type 0} (folders : Folders W) (p_query p_file_pattern : Bytes) (p_max_results : ℕ)
    (w : W) where
  -- A call of the search for a directory.
  abbrev pub Below : Type 0
  Below = Bytes → List SearchMatch → Option (List SearchMatch)

  -- An entry that is not passed over, with its kind: the matches, and whether the loop ends.
  abbrev pub visit :
      Below → Bytes → Bytes → Option FileKind → List SearchMatch → Option (List SearchMatch × Bool)
  visit below full name none ms = some (ms, false)
  visit below full name (some directory) ms = elim (below full ms) [
    | none ↦ none
    | some ms' ↦ some (ms', leb p_max_results (length ms'))
  ]
  visit below full name (some regular) ms =
      elim (match_file (glob_match p_file_pattern name) full p_query p_max_results
        (folders.text full w) ms) [ none ↦ none | some ms' ↦ some (ms', false) ]
  visit below full name (some special) ms = some (ms, false)

  abbrev pub proceed :
      Option (List SearchMatch × Bool)
      → (List SearchMatch → Option (List SearchMatch))
      → Option (List SearchMatch)
  proceed none next = none
  proceed (some (ms, true)) next = some ms
  proceed (some (ms, false)) next = next ms

  -- The loop over the entries of a directory, with the call for a directory in it.
  unfoldable pub search_entries :
      Below → Bytes → List Bytes → List SearchMatch → Option (List SearchMatch)
  search_entries below p_dir [] ms = some ms
  search_entries below p_dir (name ∷ names) ms =
      let full = p_dir ++ codes "/" ++ name in
      let onward = search_entries below p_dir names ms in
      let visited =
        proceed (visit below full name (folders.stat full w) ms)
          (search_entries below p_dir names) in
      if is_skipped name then onward else visited

  abbrev pub search_opened :
      Below → Bytes → Option (List Bytes) → List SearchMatch → Option (List SearchMatch)
  search_opened below p_dir none ms = some ms
  search_opened below p_dir (some names) ms = search_entries below p_dir names ms

  -- The fuel bounds the depth of the directories; `none` is fuel that ran out.
  unfoldable pub search_directory : ℕ → Bytes → List SearchMatch → Option (List SearchMatch)
  search_directory zero p_dir r_matches = none
  search_directory (suc f) p_dir r_matches =
      let searched = search_opened (search_directory f) p_dir (folders.names p_dir w) r_matches in
      if leb p_max_results (length r_matches) then some r_matches else searched
