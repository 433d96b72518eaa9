-- ===== src/Tests/ProjectTests.antt =====
-- The search of a small project: a directory with two files.
use gear_mcp_server.Base.{
  ℕ, ◌≡◌, refl, ◌≤◌, false, none, some, List, [], ◌∷◌, inr, if◌then◌else◌, Bytes, codes, str_eq,
  length, find, lines,
}
use gear_mcp_server.Exec.{Result, ok}
use gear_mcp_server.Json.{JsonLib, pos, member}
use gear_mcp_server.Methods.Rpc.{value}
use gear_mcp_server.Folders.{regular, Folders}
use gear_mcp_server.Config.{Disk}
use gear_mcp_server.Tools.{Values, value_of}
use gear_mcp_server.Tools.Glob.Spec.{matches}
use gear_mcp_server.Tools.Project.{SearchMatch, search_directory}
use gear_mcp_server.Tools.Project.Found.{found_below, Sub}
use gear_mcp_server.Tools.Project.Overrun.{HasMatch, search_directory-overrun}
use gear_mcp_server.Tools.Project.Handlers.{
  clamp_results, in_fuel, search_json, handle_search_project,
}
use gear_mcp_server.Tools.Project.Answers.{handle_search_project-found}
use gear_mcp_server.Tests.Sample.{Value, text, record_of, fields_of, parsing, values_of}

abbrev search_params : Value
search_params = record_of (
    fields_of ((codes "project_path", text (codes "/p")) ∷ (codes "query", text (codes "hp")) ∷ []))

abbrev read_params : Bytes → Result Value
read_params t = ok search_params

abbrev search_lib : JsonLib
search_lib = parsing read_params

abbrev search_values : Values search_lib
search_values = values_of read_params

abbrev two_files : Folders ℕ
two_files = record {
  names =
      λ dir w. if str_eq dir (codes "/p") then some (codes "a.gd" ∷ codes "b.gd" ∷ []) else none;
  stat = λ f w. some regular;
  text = λ f w. some (codes "x\nhp\n");
}

abbrev no_disk : Disk ℕ
no_disk = record { read = λ f w. none; write = λ f x w. (false, w) }

abbrev here : List SearchMatch
here = found_below two_files (codes "hp") (codes "*") 0 1 (codes "/p")

handle_search_project-found_example :
    (result : List SearchMatch) × (handle_search_project search_lib search_values no_disk two_files
        (λ w. [])
        1
        (codes "{}")
        0
      ≡ (
        in_fuel (
            some (
              search_lib.dump (
                search_json search_lib search_values no_disk two_files
                  (λ w. [])
                  (codes "/p")
                  (codes "hp")
                  (codes "*")
                  result))),
        0,
      ))
    × (1 ≤ clamp_results (pos 50))
    × (clamp_results (pos 50) ≤ 500)
    × Sub result here
    × (length here ≤ clamp_results (pos 50) → result ≡ here)
    × (clamp_results (pos 50) ≤ length here → clamp_results (pos 50) ≤ length result)
unfolding value value_of member
handle_search_project-found_example =
    handle_search_project-found search_lib search_values no_disk two_files (λ w. []) 1 (codes "{}")
      search_params (codes "/p") (codes "hp") (codes "*") (pos 50) 0 refl refl refl refl refl refl
      refl (inr (refl, (refl, (refl, (refl, tt)))), (inr (refl, (refl, (refl, (refl, tt)))), tt))

a-HasMatch : HasMatch two_files (codes "hp") (codes "*") 0 (codes "/p") (codes "a.gd")
unfolding matches find lines
a-HasMatch = record {
  visible = refl;
  is_file = refl;
  clean = (refl, (refl, (refl, (refl, tt))));
  in_pattern = refl;
  content = codes "x\nhp\n";
  opens = refl;
  holds = refl;
}

b-HasMatch : HasMatch two_files (codes "hp") (codes "*") 0 (codes "/p") (codes "b.gd")
unfolding matches find lines
b-HasMatch = record {
  visible = refl;
  is_file = refl;
  clean = (refl, (refl, (refl, (refl, tt))));
  in_pattern = refl;
  content = codes "x\nhp\n";
  opens = refl;
  holds = refl;
}

search_directory-overrun_example :
    (result : List SearchMatch) × (search_directory two_files
        (codes "hp")
        (codes "*")
        1
        0
        1
        (codes "/p")
        []
      ≡ some result)
    × (length result ≡ 2)
search_directory-overrun_example =
    search_directory-overrun two_files (codes "hp") (codes "*") 0 0 (codes "/p")
      (codes "a.gd" ∷ codes "b.gd" ∷ []) refl (a-HasMatch, (b-HasMatch, tt))
