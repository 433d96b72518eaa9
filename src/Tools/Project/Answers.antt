-- ===== src/Tools/Project/Answers.antt =====
-- search_project: the answer, against what there is to be found in the project.
use gear_mcp_server.Base.{
  ℕ, zero, suc, ◌≤◌, ◌≡◌, refl, arith, false, some, List, [], Bytes, codes, is_empty, length, ltb,
  Bool-cases, inl, inr,
}
use gear_mcp_server.Exec.{ok}
use gear_mcp_server.Json.{JsonLib, ℤ, pos, negsuc}
use gear_mcp_server.Methods.Rpc.{value}
use gear_mcp_server.Folders.{Folders}
use gear_mcp_server.Config.{Disk}
use gear_mcp_server.Tools.{Values, value_of}
use gear_mcp_server.Tools.Autoload.{resolve_project_path}
use gear_mcp_server.Tools.Project.{SearchMatch}
use gear_mcp_server.Tools.Project.Found.{found_below, Sub}
use gear_mcp_server.Tools.Project.Search.{Walkable, search_directory-found}
use gear_mcp_server.Tools.Project.Handlers.{
  default_results, clamp_results, in_fuel, search_json, search_query, search_parsed,
  handle_search_project,
}

pub clamp_results-range : (z : ℤ) → (1 ≤ clamp_results z) × (clamp_results z ≤ 500)
clamp_results-range (pos zero) = (omega arith, omega arith)
clamp_results-range (negsuc n) = (omega arith, omega arith)
clamp_results-range (pos (suc n)) = elim (Bool-cases (ltb 500 (suc n))) [
  | inl e ↦ rw e (omega arith, omega arith)
  | inr e ↦ rw e (omega arith, ground (arith, e))
]

module _ (lib : JsonLib) (values : Values lib) {W : Type 0} (disk : Disk W) (folders : Folders W)
    (get_project_path : W → Bytes) where
  open lib use {Json, parse, dump}

  -- A search for a text in a project whose directories are nested less deep than the fuel, and
  -- where no file that the search comes to has a star in its name. The answer has the JSON text of
  -- results that are there to be found, in the order in which the directories list them: all of
  -- them, if they are no more than the limit, and otherwise no fewer than the limit. The limit is
  -- between 1 and 500, whatever the parameter is. Nothing is changed.
  pub handle_search_project-found :
      (fuel : ℕ) (t : Bytes) (params : Json) (given query pattern : Bytes) (max_results : ℤ) (w : W)
      → parse t ≡ ok params
      → value lib params (codes "project_path") [] ≡ ok given
      → is_empty (resolve_project_path lib disk get_project_path given w) ≡ false
      → value lib params (codes "query") [] ≡ ok query
      → is_empty query ≡ false
      → value lib params (codes "file_pattern") (codes "*") ≡ ok pattern
      → value_of lib values.as_int params (codes "max_results") (pos default_results)
        ≡ ok max_results
      → Walkable folders w fuel (resolve_project_path lib disk get_project_path given w)
      → let project = resolve_project_path lib disk get_project_path given w in
        let there = found_below folders query pattern w fuel project in
        let limit = clamp_results max_results in
        (result : List SearchMatch) × (handle_search_project lib values disk folders
            get_project_path fuel t w
          ≡ (
            in_fuel (
                some (
                  dump (
                    search_json lib values disk folders get_project_path project query pattern
                      result))),
            w,
          ))
        × (1 ≤ limit)
        × (limit ≤ 500)
        × Sub result there
        × (length there ≤ limit → result ≡ there)
        × (limit ≤ length there → limit ≤ length result)
  unfolding handle_search_project search_parsed search_query
  handle_search_project-found fuel t params given query pattern max_results w hp hg np hq nq hf hm
        walk =
      let (result, e, s, few, many) =
        search_directory-found folders w query pattern (clamp_results max_results) fuel
          (resolve_project_path lib disk get_project_path given w) walk in
      let (low, high) = clamp_results-range max_results in
      (
        result,
        rw (hp, hg) (rw np (rw hq (rw nq (rw (hf, hm) (rw e refl))))),
        low,
        high,
        s,
        few,
        many,
      )
