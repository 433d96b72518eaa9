-- ===== src/Tools/Dx/Usages/Answers.antt =====
-- find_resource_usages: the answer, against all usages in the project.
use gear_mcp_server.Base.{
  ℕ, zero, suc, ◌≤◌, ◌≡◌, ap, ◌∙◌, arith, true, false, List, [], inl, inr, Bool-cases, ltb,
  if◌then◌else◌, Bytes, codes, is_empty, take,
}
use gear_mcp_server.Exec.{ok}
use gear_mcp_server.Json.{JsonLib, ℤ, pos, negsuc}
use gear_mcp_server.Methods.Rpc.{value}
use gear_mcp_server.Tools.{Values, value_of, answered}
use gear_mcp_server.Tools.Dx.{FileSystem, unless, unless_first}
use gear_mcp_server.Tools.Dx.Usages.{
  unstopped_end, Usage, clamp_usages, stem_of, usage_loop, usages_json, usages_at, usages_of,
  handle_find_resource_usages,
}
use gear_mcp_server.Tools.Dx.Usages.Limit.{usages, usage_loop-take}
use gear_mcp_server.Tools.Dx.Usages.Listed.{Listed, usages-Listed}

pub clamp_usages-range : (z : ℤ) → (1 ≤ clamp_usages z) × (clamp_usages z ≤ 1000)
clamp_usages-range (pos zero) = (omega arith, omega arith)
clamp_usages-range (negsuc n) = (omega arith, omega arith)
clamp_usages-range (pos (suc n)) = elim (Bool-cases (ltb 1000 (suc n))) [
  | inl e ↦ rw e (omega arith, omega arith)
  | inr e ↦ rw e (omega arith, ground (arith, e))
]

module _ (lib : JsonLib) (values : Values lib) {W : Type 0} (file_system : FileSystem W)
    (get_project_path : W → Bytes) where
  open lib use {Json, parse, dump}

  -- A call for the usages of a path that is not empty in a project that is a directory. The entries
  -- below the directory have these usages, in their order: one for each regular file that is a
  -- scene, a resource or a script by its extension, opens, and has the path in its text; it shows
  -- the path in that file. The answer has the JSON text of the first of them, as many as the limit
  -- admits, which is between 1 and 1000 whatever the parameter is; if there are fewer, and the walk
  -- through the directory ends with an exception, the call throws that. Nothing is changed.
  -- The parameters parse and are of the types that are read.
  pub handle_find_resource_usages-usages :
      (t : Bytes) (params : Json) (resource_path given project : Bytes) (max_results : ℤ) (w : W)
      → parse t ≡ ok params
      → value lib params (codes "resource_path") [] ≡ ok resource_path
      → is_empty resource_path ≡ false
      → value lib params (codes "project_path") [] ≡ ok given
      → value_of lib values.as_int params (codes "max_results") (pos 50) ≡ ok max_results
      → (if is_empty given then get_project_path w else given) ≡ project
      → is_empty project ≡ false
      → file_system.exists project w ≡ true
      → file_system.is_dir project w ≡ true
      → let limit = clamp_usages max_results in
        let stem = stem_of resource_path in
        (1 ≤ limit)
        × (limit ≤ 1000)
        × ((all : List Usage) × Listed file_system stem limit w (file_system.entries project w) all
            × (scanned : ℕ) × (handle_find_resource_usages lib values file_system get_project_path t
                  w
                ≡ (
                  unless
                      (unstopped_end lib values file_system get_project_path limit project w
                        (take limit all))
                      (answered (
                        dump (
                          usages_json lib values file_system get_project_path resource_path project
                            (scanned, take limit all)))),
                  w,
                )))
  unfolding handle_find_resource_usages usages_of usages_at
  handle_find_resource_usages-usages t params resource_path given project max_results w hp hr nr hg
        hm chosen np there dir =
      let limit = clamp_usages max_results in
      let stem = stem_of resource_path in
      let es = file_system.entries project w in
      let (low, high) = clamp_usages-range max_results in
      let looped = usage_loop-take file_system stem limit w es 0 [] (omega (arith, low)) in
      let scanned = (usage_loop file_system stem limit w es 0 []).0 in
      let same : usage_loop file_system stem limit w es 0 []
          ≡ (scanned, take limit (usages file_system stem limit w es)) =
        ap (λ ms. (scanned, ms))
          (looped ∙ ap (λ k. take k (usages file_system stem limit w es)) (omega arith)) in
      (
        low,
        high,
        (
          usages file_system stem limit w es,
          usages-Listed file_system stem limit w es,
          scanned,
          rw (hp, hr)
              (rw nr (
                rw (hg, hm)
                  (rw chosen (
                    rw np (
                      rw (there, dir)
                        (rw same (
                          unless_first
                            (unstopped_end lib values file_system get_project_path limit project w
                              (take limit (usages file_system stem limit w es)))
                            _ w))))))),
        ),
      )
