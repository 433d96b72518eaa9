-- ===== src/Tests/DxTests.antt =====
-- The tools for developers on a small project.
use gear_mcp_server.Base.{
  ℕ, List, ◌+◌, ◌≡◌, refl, ◌≤◌, true, false, none, some, [], ◌∷◌, if◌then◌else◌, Bytes, codes, take,
  find,
}
use gear_mcp_server.Exec.{Result, ok, threw, unknown, Exception}
use gear_mcp_server.Json.{JsonLib, pos, member}
use gear_mcp_server.Methods.Rpc.{value}
use gear_mcp_server.Paths.{has_traversal}
use gear_mcp_server.Tools.{Values, value_of, answered}
use gear_mcp_server.Tools.Dx.{unless, FileSystem, Regexes}
use gear_mcp_server.Tools.Dx.Log.{handle_parse_error_log}
use gear_mcp_server.Tools.Dx.Throws.{is_paired, handle_parse_error_log-throws}
use gear_mcp_server.Tools.Dx.Usages.{unstopped_end, Usage, usages_json, handle_find_resource_usages}
use gear_mcp_server.Tools.Dx.Usages.Listed.{Listed}
use gear_mcp_server.Tools.Dx.Usages.Answers.{handle_find_resource_usages-usages}
use gear_mcp_server.Tools.Dx.Health.{Sources, project_sources}
use gear_mcp_server.Tools.Dx.Health.Counts.{broken_among, empty_among}
use gear_mcp_server.Tools.Dx.Scaffold.{handle_scaffold_gameplay_prototype}
use gear_mcp_server.Tools.Dx.Traversal.{handle_scaffold-traversal}
use gear_mcp_server.Tests.Sample.{Value, text, record_of, fields_of, parsing, values_of}

abbrev dx_params : Value
dx_params = record_of (
    fields_of (
      (codes "resource_path", text (codes "res://a.gd"))
      ∷ (codes "scene_path", text (codes "../a.tscn"))
      ∷ (codes "script_path", text (codes "a.gd"))
      ∷ []))

abbrev dx_read : Bytes → Result Value
dx_read t = ok dx_params

abbrev dx_lib : JsonLib
dx_lib = parsing dx_read

abbrev dx_values : Values dx_lib
dx_values = values_of dx_read

-- The constructor refuses exactly the patterns whose parentheses are not in pairs; nothing is
-- ever found.
abbrev strict : Regexes
strict = record {
  Regex = Unit;
  compile = λ p. if is_paired p then ok tt else threw unknown;
  search = λ re t. none;
  search_next = λ re t. none;
}

abbrev one_scene : FileSystem ℕ
one_scene = record {
  exists = λ f w. true;
  is_dir = λ f w. true;
  entries = λ f w. (codes "/p/m.tscn", true) ∷ [];
  entries_end = λ f w. none;
  text = λ f w. some (codes "x\na.gd\n");
  write = λ f t w. (true, w + 1);
  create_directories = λ f w. w + 1;
  extension = λ f. codes ".tscn";
  parent_path = λ f. codes "/p";
  filename = λ f. codes "m.tscn";
  is_zero_size = λ f w. false;
}

refuses : (p : Bytes) → is_paired p ≡ false → (e : Exception) × (strict.compile p ≡ threw e)
refuses p h = (unknown, rw h refl)

handle_parse_error_log-throws_example :
    (e : Exception) × (handle_parse_error_log dx_lib dx_values strict one_scene
        (λ w. codes "/p")
        (λ w. (ok ([], []), w))
        (codes "{}")
        0
      ≡ (threw e, 0))
unfolding value value_of member
handle_parse_error_log-throws_example =
    handle_parse_error_log-throws dx_lib dx_values strict one_scene (λ w. codes "/p")
      (λ w. (ok ([], []), w)) (codes "{}") dx_params (pos 100) (codes "warning") []
      (codes "/p/.godot/editor/editor.log") (codes "x\na.gd\n") 0 refuses refl refl refl refl refl
      refl refl refl

handle_find_resource_usages-usages_example :
    (1 ≤ 50)
    × (50 ≤ 1000)
    × ((all : List Usage) × Listed one_scene
          (codes "a.gd")
          50
          0
          ((codes "/p/m.tscn", true) ∷ [])
          all
        × (scanned : ℕ) × (handle_find_resource_usages dx_lib dx_values one_scene
              (λ w. codes "/p")
              (codes "{}")
              0
            ≡ (
              unless
                  (unstopped_end dx_lib dx_values one_scene
                    (λ w. codes "/p")
                    50
                    (codes "/p")
                    0
                    (take 50 all))
                  (answered (
                    dx_lib.dump (
                      usages_json dx_lib dx_values one_scene
                        (λ w. codes "/p")
                        (codes "res://a.gd")
                        (codes "/p")
                        (scanned, take 50 all)))),
              0,
            )))
unfolding value value_of member
handle_find_resource_usages-usages_example =
    handle_find_resource_usages-usages dx_lib dx_values one_scene (λ w. codes "/p") (codes "{}")
      dx_params (codes "res://a.gd") [] (codes "/p") (pos 50) 0 refl refl refl refl refl refl refl
      refl refl

handle_scaffold-traversal_example :
    handle_scaffold_gameplay_prototype dx_lib one_scene
      (λ w. codes "/p")
      (λ p w. p)
      (λ w. w)
      (codes "{}")
      0
    ≡ (ok ([], codes "Path traversal detected"), 0)
unfolding value member has_traversal find
handle_scaffold-traversal_example =
    handle_scaffold-traversal dx_lib one_scene (λ w. codes "/p") (λ p w. p) (λ w. w) (codes "{}")
      dx_params (codes "../a.tscn") (codes "a.gd") (codes "Node2D") (codes "Prototype") 0 refl refl
      refl refl refl refl refl refl refl

abbrev found_sources : Sources
found_sources = project_sources strict one_scene (λ p w. p) 0 (codes "/p")

abbrev no_script : ℕ
no_script = empty_among strict one_scene (λ p w. p) 0 true found_sources.scripts

abbrev bad_refs : ℕ
bad_refs =
    broken_among strict one_scene (λ p w. p) 0 tt found_sources.scenes
    + broken_among strict one_scene (λ p w. p) 0 tt found_sources.resources
