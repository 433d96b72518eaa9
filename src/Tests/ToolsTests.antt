-- ===== src/Tests/ToolsTests.antt =====
-- The file tools at concrete inputs. One value has the parameters of all the calls.
use gear_mcp_server.Base.{
  Bool-cases, str_eq_iff, is_some, inl, inr, ◌+◌, ◌≡◌, refl, sym, ap, arith, true, false, ◌||◌,
  none, some, List, [], ◌∷◌, length, ltb, take, drop, if◌then◌else◌, Bytes, codes, str_eq, is_empty,
  find,
}
use gear_mcp_server.Exec.{Result, ok, threw, parse_error}
use gear_mcp_server.Json.{JsonLib, pos}
use gear_mcp_server.Methods.Rpc.{value}
use gear_mcp_server.Paths.{has_traversal}
use gear_mcp_server.Tests.Sample.{Value, text, num, record_of, fields_of, parsing, values_of}
use gear_mcp_server.Tools.{Values, value_of, answered}
use gear_mcp_server.Tools.Glob.{pattern_match}
use gear_mcp_server.Tools.Glob.Spec.{matches}
use gear_mcp_server.Tools.Glob.Loop.{pattern_match-eq-matches}
use gear_mcp_server.Tools.Files.{list_recursive, Files, read_file_handler, write_file_handler}
use gear_mcp_server.Tools.Files.Slices.{read_answer, read_file_handler_lem}
use gear_mcp_server.Tools.Files.Listing.{list_recursive-Nested}
use gear_mcp_server.Tools.Files.Traversal.{IsClean, AgreesOnClean, handlers-IsClean}
use gear_mcp_server.Tools.Files.Writes.{read_file-write_file}

pattern_match-eq-matches_example :
    pattern_match (codes "a.gd") (codes "*.g?")
    ≡ some (is_empty (codes "*.g?") || matches (codes "*.g?") (codes "a.gd"))
pattern_match-eq-matches_example =
    pattern_match-eq-matches (codes "a.gd") (codes "*.g?") (refl, (refl, (refl, (refl, tt))))

-- The parameters that the texts of the calls stand for.
abbrev params_of : Bytes → List (Bytes × Value) → Value
params_of path more = record_of (fields_of ((codes "path", text path) ∷ more))

abbrev tools_params : Value
tools_params =
    record_of (
      fields_of ((codes "domain", text (codes "file")) ∷ (codes "query", text (codes "READ")) ∷ []))

abbrev parse_call : Bytes → Result Value
parse_call t =
    if str_eq t (codes "up")
    then ok (params_of (codes "../a") ((codes "content", text (codes "x")) ∷ []))
    else if str_eq t (codes "part")
    then ok (
        params_of (codes "a")
          ((codes "max_bytes", num (pos 2)) ∷ (codes "offset", num (pos 1)) ∷ []))
    else if str_eq t (codes "huge")
    then ok (
        params_of (codes "a")
          ((codes "max_bytes", num (pos 2147483647)) ∷ (codes "offset", num (pos 1)) ∷ []))
    else if str_eq t (codes "put")
    then ok (params_of (codes "a") ((codes "content", text (codes "hello")) ∷ []))
    else if str_eq t (codes "tools")
    then ok tools_params
    else if str_eq t (codes "get")
    then ok (params_of (codes "a") [])
    else threw (parse_error (codes "bad"))

abbrev call_lib : JsonLib
call_lib = parsing parse_call

abbrev call_values : Values call_lib
call_values = values_of parse_call

-- One file, whatever its name; its text is the state.
abbrev one_file : Files Bytes
one_file = record {
  read = λ f w. some w;
  write = λ f c w. (true, c);
  append = λ f c w. (true, w);
  make_dir = λ d w. w;
  list = λ d w. none;
}

-- It does as the other on every path but `a..`, where it opens nothing.
abbrev closed_up : Files Bytes
closed_up = record {
  read = λ f w. if str_eq f (codes "a..") then none else some w;
  write = λ f c w. if str_eq f (codes "a..") then (false, w) else (true, c);
  append = λ f c w. (true, w);
  make_dir = λ d w. w;
  list = λ d w. none;
}

not_a_up : (p : Bytes) → IsClean p → str_eq p (codes "a..") ≡ false
not_a_up p clean = elim (Bool-cases (str_eq p (codes "a.."))) [
  | inr e ↦ e
  | inl e ↦ absurd (clean (codes "a", [], (str_eq_iff p (codes "a..")).0 e))
]

one_file-AgreesOnClean : AgreesOnClean one_file closed_up
one_file-AgreesOnClean = record {
  reads = λ p w clean. rw (not_a_up p clean) refl;
  writes = λ p c w clean. rw (not_a_up p clean) refl;
  appends = λ p c w clean. refl;
  makes = λ p w clean. refl;
}

handlers-IsClean_example :
    (read_file_handler call_lib call_values one_file (codes "put") (codes "w")
      ≡ read_file_handler call_lib call_values closed_up (codes "put") (codes "w"))
    × (write_file_handler call_lib call_values one_file (codes "put") (codes "w")
        ≡ write_file_handler call_lib call_values closed_up (codes "put") (codes "w"))
handlers-IsClean_example =
    handlers-IsClean call_lib call_values one_file closed_up one_file-AgreesOnClean (codes "put")
      (codes "w")

read_file_handler_lem_example :
    read_file_handler call_lib call_values one_file (codes "part") (codes "hello") ≡ (
      answered (
          call_lib.dump (
            read_answer call_lib call_values one_file
              (codes "a")
              (take 2 (drop 1 (codes "hello")))
              (ltb (1 + 2) (length (codes "hello")))
              (codes "hello"))),
      codes "hello",
    )
unfolding value value_of has_traversal find
read_file_handler_lem_example =
    read_file_handler_lem call_lib call_values one_file (codes "part") (codes "a") (codes "hello")
      (params_of (codes "a")
        ((codes "max_bytes", num (pos 2)) ∷ (codes "offset", num (pos 1)) ∷ []))
      1 1 (codes "hello") refl refl refl refl refl refl refl (omega arith) (omega arith)

read_file-write_file_example :
    read_file_handler call_lib call_values one_file
      (codes "get")
      (write_file_handler call_lib call_values one_file (codes "put") (codes "old")).1
    ≡ (
      answered (
          call_lib.dump (
            read_answer call_lib call_values one_file
              (codes "a")
              (codes "hello")
              false
              (codes "hello"))),
      codes "hello",
    )
unfolding value value_of has_traversal find
read_file-write_file_example =
    read_file-write_file call_lib call_values one_file (codes "put") (codes "get") (codes "a")
      (codes "hello") (params_of (codes "a") ((codes "content", text (codes "hello")) ∷ []))
      (params_of (codes "a") []) (codes "old") (codes "hello") refl refl refl refl refl refl refl
      refl refl refl refl (omega arith) (λ f c v v' e. ap (λ p. some p.1) (sym e))

-- A directory with a directory and a file in it.
abbrev small_tree : Files Bytes
small_tree = record {
  read = λ f w. some w;
  write = λ f c w. (true, c);
  append = λ f c w. (true, w);
  make_dir = λ d w. w;
  list = λ d w.
      if str_eq d (codes "a")
      then some ((codes ".", true) ∷ (codes "b", true) ∷ (codes "c.gd", false) ∷ [])
      else none;
}

list_recursive-Nested_example :
    is_some (list_recursive call_lib call_values small_tree 2 (codes "a") true (codes "*.gd") [])
    ≡ true
list_recursive-Nested_example =
    list_recursive-Nested call_lib call_values small_tree 2 (codes "a") true (codes "*.gd") [] (
      ((refl, tt), inl refl),
      (((refl, tt), inr tt), (((refl, (refl, (refl, (refl, tt)))), inl refl), tt)),
    )
