-- ===== src/Paths.antt =====
-- src/shared/path_utils.h and path_utils.cpp: paths as text. What is modelled of
-- `ensure_parent_dirs` is its POSIX side: the arguments of its calls of `mkdir`, whose results it
-- ignores.
pub mod Normal
pub mod Project
pub mod Parents
use gear_mcp_server.Base.{
  ℕ, suc, ◌+◌, ◌-◌, Bool, true, false, Option, none, some, List, [], ◌∷◌, ◌++◌, ◌&&◌, ◌||◌, ◌==◌,
  ltb, map, if◌then◌else◌, Bytes, codes, str_eq, find, is_some, take, drop, length, is_empty,
  drop_end,
}

abbrev pub slash : ℕ → ℕ
slash c = if c == b'\\' then b'/' else c

-- The loop that pops a `/` from the back while more than one byte is left: the first byte
-- stays, and of the others all `/` at the end go.
unfoldable pub pop_slashes : Bytes → Bytes
pop_slashes [] = []
pop_slashes (c ∷ cs) = c ∷ drop_end (λ x. x == b'/') cs

unfoldable pub normalize : Bytes → Bytes
normalize p_path = pop_slashes (map slash p_path)

abbrev pub res_prefix : Bytes
res_prefix = codes "res://"

unfoldable pub to_absolute : Bytes → Bytes → Bytes
to_absolute p_res_path p_project_root =
    if ltb 6 (length p_res_path) && str_eq (take 6 p_res_path) res_prefix
    then normalize (p_project_root ++ codes "/" ++ drop 6 p_res_path)
    else normalize p_res_path

unfoldable pub to_res_path : Bytes → Bytes → Bytes
to_res_path p_abs_path p_project_root =
    let norm_abs = normalize p_abs_path in
    let norm_root = normalize p_project_root in
    if ltb (length norm_root) (length norm_abs)
      && str_eq (take (length norm_root) norm_abs) norm_root
    then res_prefix ++ drop (length norm_root + 1) norm_abs
    else norm_abs

unfoldable pub has_traversal : Bytes → Bool
has_traversal p_path = is_some (find p_path (codes ".."))

abbrev pub is_separator : ℕ → Bool
is_separator c = c == b'/' || c == b'\\'

-- The bytes before the last separator.
unfoldable pub before_last : Bytes → Option Bytes
before_last [] = none
before_last (c ∷ cs) = elim (before_last cs) [
  | some p ↦ some (c ∷ p)
  | none ↦ if is_separator c then some [] else none
]

-- The loop over the separators of `parent`: the prefixes up to each of them, and `parent`
-- itself. The first argument is what is behind the loop's position, the second what is ahead.
unfoldable pub segments : Bytes → Bytes → List Bytes
segments done [] = []
segments done (c ∷ cs) =
    let rest = segments (done ++ c ∷ []) cs in
    if is_separator c then done ∷ rest else if is_empty cs then (done ++ c ∷ []) ∷ rest else rest

-- The loop begins behind a leading separator.
unfoldable pub segments_of : Bytes → List Bytes
segments_of [] = []
segments_of (c ∷ cs) = if is_separator c then segments (c ∷ []) cs else segments [] (c ∷ cs)

unfoldable pub ensure_parent_dirs : Bytes → List Bytes
ensure_parent_dirs p_path = elim (before_last p_path) [ none ↦ [] | some p ↦ segments_of p ]
