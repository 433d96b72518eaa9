-- ===== src/Tools/Files.antt =====
-- src/tools/file/file_tools.cpp: the handlers of read_file, write_file and list_directory. The
-- sum of two `int`s wraps around here, as it does on the machines in use; the language leaves it
-- open.
pub mod Slices
pub mod Traversal
pub mod Writes
pub mod Listing
use gear_mcp_server.Base.{
  ℕ, zero, suc, ◌+◌, ◌-◌, ◌^◌, Bool, true, false, Option, none, some, List, [], ◌∷◌, ◌++◌, ◌&&◌,
  ◌||◌, ltb, leb, if◌then◌else◌, Bytes, codes, str_eq, take, drop, length, is_empty,
}
use gear_mcp_server.Exec.{Result, ok, threw, Exec, pure, lift, ◌>>=◌, ◌>>◌}
use gear_mcp_server.Json.{JsonLib, ℤ, pos, negsuc}
use gear_mcp_server.Methods.{ToolHandler}
use gear_mcp_server.Methods.Rpc.{value}
use gear_mcp_server.Paths.{has_traversal, ensure_parent_dirs}
use gear_mcp_server.Builtin.{int_of_size}
use gear_mcp_server.Tools.{Values, value_of, Answer, refuse, refuse_now, reply, with_params}
use gear_mcp_server.Tools.Glob.{pattern_match}

-- The file system: a file's text, where it can be opened; writing and appending, which say
-- whether the file was opened; mkdir; and the entries of a directory with whether each is a
-- directory.
pub record Files (W : Type 0) : Type 0 where
  pub read : Bytes → W → Option Bytes
  pub write : Bytes → Bytes → W → Bool × W
  pub append : Bytes → Bytes → W → Bool × W
  pub make_dir : Bytes → W → W
  pub list : Bytes → W → Option (List (Bytes × Bool))

abbrev pub invalid_json : Bytes
invalid_json = codes "Invalid JSON in params"

abbrev pub missing_path : Bytes
missing_path = codes "Missing required parameter: 'path'"

abbrev pub traversal_refused : Bytes
traversal_refused = codes "Path traversal detected: '..' is not allowed"

-- 256 * 1024
abbrev pub default_max : ℕ
default_max = 262144

-- if (max_bytes <= 0) max_bytes = 256 * 1024
abbrev pub clamp_max : ℤ → ℕ
clamp_max (pos zero) = default_max
clamp_max (pos (suc n)) = suc n
clamp_max (negsuc n) = default_max

-- if (offset < 0) offset = 0
abbrev pub clamp_offset : ℤ → ℕ
clamp_offset (pos n) = n
clamp_offset (negsuc n) = 0

-- offset + to_read > file_size: a sum of 2 ^ 31 or more is negative
abbrev pub sum_exceeds : ℕ → ℕ → Bool
sum_exceeds sum file_size = ltb sum (2 ^ 31) && ltb file_size sum

-- offset + max_bytes < file_size
abbrev pub sum_below : ℕ → ℕ → Bool
sum_below sum file_size = leb (2 ^ 31) sum || ltb sum file_size

-- What is read from the offset on.
unfoldable pub slice : ℕ → ℕ → Bytes → Bytes
slice max_bytes offset text =
    let to_read =
      if sum_exceeds (offset + max_bytes) (length text) then length text - offset else max_bytes in
    take to_read (drop offset text)

module _ (lib : JsonLib) (values : Values lib) {W : Type 0} (files : Files W) where
  open lib use {Json, string, number, boolean, object, array, dump}

  unfoldable pub slice_json : Bytes → ℕ → ℕ → Bytes → Json
  slice_json path max_bytes offset text = object (
      (codes "path", string path)
      ∷ (codes "content", string (slice max_bytes offset text))
      ∷ (codes "truncated", boolean (sum_below (offset + max_bytes) (length text)))
      ∷ (codes "size", number (int_of_size (length text)))
      ∷ [])

  abbrev pub read_opened : Bytes → ℕ → ℕ → Option Bytes → Exec W Answer
  read_opened path max_bytes offset none = refuse (codes "Cannot open file: " ++ path)
  read_opened path max_bytes offset (some text) =
      if ltb (length text) offset
      then refuse (codes "Offset exceeds file size")
      else reply (dump (slice_json path max_bytes offset text))

  unfoldable pub read_range : Json → Bytes → Exec W Answer
  read_range params path = do
    max_bytes ← lift (value_of lib values.as_int params (codes "max_bytes") (pos default_max))
    offset ← lift (value_of lib values.as_int params (codes "offset") (pos 0))
    λ w. read_opened path (clamp_max max_bytes) (clamp_offset offset) (files.read path w) w

  unfoldable pub read_at : Json → Bytes → Exec W Answer
  read_at params path =
      if is_empty path
      then refuse missing_path
      else if has_traversal path
      then refuse traversal_refused
      else read_range params path

  unfoldable pub read_file_handler : ToolHandler W
  read_file_handler =
      with_params lib invalid_json
        (λ params. do path ← lift (value lib params (codes "path") []); read_at params path)

  -- path_utils::ensure_parent_dirs
  abbrev pub make_dirs : List Bytes → W → W
  make_dirs [] w = w
  make_dirs (d ∷ ds) w = make_dirs ds (files.make_dir d w)

  abbrev pub written : Bytes → Bytes → Bool × W → Result Answer × W
  written path content (false, w) = refuse (codes "Cannot open file for writing: " ++ path) w
  written path content (true, w) =
      reply
        (dump (
          object (
            (codes "path", string path)
            ∷ (codes "bytes_written", number (int_of_size (length content)))
            ∷ [])))
        w

  unfoldable pub write_text : Bytes → Bytes → Bytes → Exec W Answer
  write_text path content mode w =
      let w' = make_dirs (ensure_parent_dirs path) w in
      written path content (
        if str_eq mode (codes "append")
        then files.append path content w'
        else files.write path content w')

  unfoldable pub write_at : Json → Bytes → Exec W Answer
  write_at params path = if is_empty path then refuse missing_path else do
    content ← lift (value lib params (codes "content") [])
    mode ← lift (value lib params (codes "mode") (codes "write"))
    if has_traversal path then refuse traversal_refused else write_text path content mode

  unfoldable pub write_file_handler : ToolHandler W
  write_file_handler =
      with_params lib invalid_json
        (λ params. do path ← lift (value lib params (codes "path") []); write_at params path)

  unfoldable pub entry_json : Bytes → Bytes → Bool → Json
  entry_json name full is_dir = object (
      (codes "name", string name)
      ∷ (codes "path", string full)
      ∷ (codes "is_dir", boolean is_dir)
      ∷ [])

  -- Appends the entries of three parts; `none` is a part that did not end.
  abbrev pub join :
      Option Bool → Json → Option (List Json) → Option (List Json) → Option (List Json)
  join (some true) e (some xs) (some ys) = some (e ∷ (xs ++ ys))
  join (some false) e (some xs) (some ys) = some (xs ++ ys)
  join _ e _ _ = none

  -- The loop over a directory, with the call for a directory in it.
  unfoldable pub list_entries :
      (Bytes → Option (List Json)) → Bytes → Bool → Bytes → List (Bytes × Bool) → Option (List Json)
  list_entries below p_path p_recursive p_pattern [] = some []
  list_entries below p_path p_recursive p_pattern ((name, is_dir) ∷ es) =
      let rest = list_entries below p_path p_recursive p_pattern es in
      let full = p_path ++ codes "/" ++ name in
      if str_eq name (codes ".") || str_eq name (codes "..")
      then rest
      else join (pattern_match name p_pattern) (entry_json name full is_dir)
          (if is_dir && p_recursive then below full else some []) rest

  abbrev pub list_opened :
      (Bytes → Option (List Json))
      → Bytes
      → Bool
      → Bytes
      → Option (List (Bytes × Bool))
      → Option (List Json)
  list_opened below p_path p_recursive p_pattern none = some []
  list_opened below p_path p_recursive p_pattern (some es) =
      list_entries below p_path p_recursive p_pattern es

  -- The fuel bounds the depth of the directories; `none` is fuel that ran out.
  unfoldable pub list_recursive : ℕ → Bytes → Bool → Bytes → W → Option (List Json)
  list_recursive zero p_path p_recursive p_pattern w = none
  list_recursive (suc f) p_path p_recursive p_pattern w =
      list_opened (λ full. list_recursive f full true p_pattern w) p_path p_recursive p_pattern
        (files.list p_path w)

  unfoldable pub list_json : Bytes → List Json → Json
  list_json path entries = object (
      (codes "path", string path)
      ∷ (codes "entries", array entries)
      ∷ (codes "count", number (int_of_size (length entries)))
      ∷ [])

  abbrev pub list_answer : Bytes → Option (List Json) → Result (Option Answer)
  list_answer path none = ok none
  list_answer path (some entries) = elim (dump (list_json path entries)) [
    | ok t ↦ ok (some (t, []))
    | threw e ↦ threw e
  ]

  unfoldable pub list_at : ℕ → Json → Bytes → Exec W (Option Answer)
  list_at fuel params path = if is_empty path then refuse_now missing_path else do
    recursive ← lift (value_of lib values.as_boolean params (codes "recursive") false)
    pattern ← lift (value lib params (codes "pattern") [])
    if has_traversal path
        then refuse_now traversal_refused
        else (λ w. (list_answer path (list_recursive fuel path recursive pattern w), w))

  abbrev pub list_parsed : ℕ → Result Json → Exec W (Option Answer)
  list_parsed fuel (threw e) = refuse_now invalid_json
  list_parsed fuel (ok params) = do
    path ← lift (value lib params (codes "path") [])
    list_at fuel params path

  -- The answer `none` is fuel that ran out.
  unfoldable pub list_dir_handler : ℕ → Bytes → Exec W (Option Answer)
  list_dir_handler fuel p_params_json = list_parsed fuel (lib.parse p_params_json)
