-- ===== src/Tools/Files/Traversal.antt =====
-- The handlers touch no path with `..` in it.
use gear_mcp_server.Base.{
  ℕ, ◌≡◌, refl, ap, ◌∙◌, false, Option, none, some, List, [], ◌∷◌, ◌++◌, append_assoc, inl, inr,
  Bool-cases, Bytes, codes, is_empty, str_eq, All, Occurs, find-Occurs,
}
use gear_mcp_server.Exec.{Result, ok, threw, Exec, lift, ◌>>=◌}
use gear_mcp_server.Json.{JsonLib}
use gear_mcp_server.Methods.Rpc.{value}
use gear_mcp_server.Paths.{has_traversal, ensure_parent_dirs}
use gear_mcp_server.Paths.Parents.{IsParent, ensure_parent_dirs-IsParent}
use gear_mcp_server.Tools.{Values, value_of, Answer, with_parsed}
use gear_mcp_server.Tools.Files.{
  Files, clamp_max, clamp_offset, slice_json, read_opened, read_range, read_at, read_file_handler,
  make_dirs, written, write_text, write_at, write_file_handler,
}

-- The path has no `..` in it.
abbrev pub IsClean : Bytes → Type 0
IsClean p = Occurs p (codes "..") → ⊥

has_traversal-IsClean : (p : Bytes) → has_traversal p ≡ false → IsClean p
unfolding has_traversal
has_traversal-IsClean p h occurs = let found = (find-Occurs p (codes "..")).1 occurs in cc

-- What stands before a separator of a clean path is clean.
IsParent-IsClean : (p d : Bytes) → IsClean p → IsParent p d → IsClean d
IsParent-IsClean p d clean (c, (rest, (h, e))) (before, after, splits) = clean (
  before,
  after ++ c ∷ rest,
  e
      ∙ ap (λ d. d ++ c ∷ rest) splits
      ∙ append_assoc before (codes ".." ++ after) (c ∷ rest)
      ∙ ap (◌++◌ before) (append_assoc (codes "..") after (c ∷ rest)),
)

-- Two actions that do the same after every result.
bind_same :
    {S A B : Type 0} (r : Result A) (f g : A → Exec S B) (s : S)
    → ((a : A) → f a s ≡ g a s)
    → (lift r >>= f) s ≡ (lift r >>= g) s
bind_same (ok a) f g s h = h a
bind_same (threw e) f g s h = refl

with_parsed_same :
    {J W : Type 0} (invalid : Bytes) (r : Result J) (f g : J → Exec W Answer) (w : W)
    → ((j : J) → f j w ≡ g j w)
    → with_parsed invalid r f w ≡ with_parsed invalid r g w
with_parsed_same invalid (ok j) f g w h = h j
with_parsed_same invalid (threw e) f g w h = refl

module _ {W : Type 0} where
  -- Two file systems that do the same on every path without `..`.
  pub record AgreesOnClean (files files' : Files W) : Type 0 where
    pub reads : (p : Bytes) (w : W) → IsClean p → files.read p w ≡ files'.read p w
    pub writes : (p c : Bytes) (w : W) → IsClean p → files.write p c w ≡ files'.write p c w
    pub appends : (p c : Bytes) (w : W) → IsClean p → files.append p c w ≡ files'.append p c w
    pub makes : (p : Bytes) (w : W) → IsClean p → files.make_dir p w ≡ files'.make_dir p w

module _ (lib : JsonLib) (values : Values lib) {W : Type 0} (files files' : Files W)
    (same : AgreesOnClean files files') where
  open lib use {Json, parse}

  make_dirs-same :
      (ds : List Bytes) (w : W)
      → All IsClean ds
      → make_dirs lib values files ds w ≡ make_dirs lib values files' ds w
  make_dirs-same [] w h = refl
  make_dirs-same (d ∷ ds) w h =
      make_dirs-same ds (files.make_dir d w) h.1
      ∙ ap (make_dirs lib values files' ds) (same.makes d w h.0)

  parents-IsClean : (p : Bytes) (ds : List Bytes) → IsClean p → All (IsParent p) ds → All IsClean ds
  parents-IsClean p [] clean h = tt
  parents-IsClean p (d ∷ ds) clean h =
      (IsParent-IsClean p d clean h.0, parents-IsClean p ds clean h.1)

  write_text-same :
      (path content mode : Bytes) (w : W)
      → IsClean path
      → write_text lib values files path content mode w
        ≡ write_text lib values files' path content mode w
  unfolding write_text
  write_text-same path content mode w clean =
      let parents =
        parents-IsClean path (ensure_parent_dirs path) clean (ensure_parent_dirs-IsParent path) in
      let made = make_dirs-same (ensure_parent_dirs path) w parents in
      elim (Bool-cases (str_eq mode (codes "append"))) [
        | inl e ↦ rw e (
            ap (λ v. written lib values files path content (files.append path content v)) made
            ∙ ap (written lib values files path content) (same.appends path content _ clean))
        | inr e ↦ rw e (
            ap (λ v. written lib values files path content (files.write path content v)) made
            ∙ ap (written lib values files path content) (same.writes path content _ clean))
      ]

  write_at-same :
      (params : Json) (path : Bytes) (w : W)
      → write_at lib values files params path w ≡ write_at lib values files' params path w
  unfolding write_at
  write_at-same params path w = elim (Bool-cases (is_empty path)) [
    | inl e ↦ rw e refl
    | inr e ↦ rw e (
        bind_same (value lib params (codes "content") []) _ _ w (λ content.
          bind_same (value lib params (codes "mode") (codes "write")) _ _ w (λ mode.
            elim (Bool-cases (has_traversal path)) [
              | inl up ↦ rw up refl
              | inr clean ↦
                  rw clean (write_text-same path content mode w (has_traversal-IsClean path clean))
            ])))
  ]

  opened_same :
      (path : Bytes) (max_bytes offset : ℕ) (o : Option Bytes) (w : W)
      → read_opened lib values files path max_bytes offset o w
        ≡ read_opened lib values files' path max_bytes offset o w
  unfolding slice_json
  opened_same path max_bytes offset none w = refl
  opened_same path max_bytes offset (some text) w = refl

  read_range-same :
      (params : Json) (path : Bytes) (w : W)
      → IsClean path
      → read_range lib values files params path w ≡ read_range lib values files' params path w
  unfolding read_range
  read_range-same params path w clean =
      bind_same (value_of lib values.as_int params (codes "max_bytes") _) _ _ w (λ max_bytes.
        bind_same (value_of lib values.as_int params (codes "offset") _) _ _ w (λ offset.
          opened_same path (clamp_max max_bytes) (clamp_offset offset) (files.read path w) w
          ∙ ap
              (λ o.
                read_opened lib values files' path (clamp_max max_bytes) (clamp_offset offset) o w)
              (same.reads path w clean)))

  read_at-same :
      (params : Json) (path : Bytes) (w : W)
      → read_at lib values files params path w ≡ read_at lib values files' params path w
  unfolding read_at
  read_at-same params path w = elim (Bool-cases (is_empty path)) [
    | inl e ↦ rw e refl
    | inr e ↦ elim (Bool-cases (has_traversal path)) [
      | inl up ↦ rw (e, up) refl
      | inr clean ↦ rw (e, clean) (read_range-same params path w (has_traversal-IsClean path clean))
    ]
  ]

  -- Reading and writing a file touch no path with `..` in it, the directories that are made for a
  -- file that is written included: on two file systems that do the same on every path without
  -- `..`, whatever they do on the others, each call gives the same answer and leaves the same
  -- state. The parameters are any text.
  pub handlers-IsClean :
      (t : Bytes) (w : W)
      → (read_file_handler lib values files t w ≡ read_file_handler lib values files' t w)
        × (write_file_handler lib values files t w ≡ write_file_handler lib values files' t w)
  unfolding read_file_handler write_file_handler
  handlers-IsClean t w = (
    with_parsed_same _ (parse t) _ _ w (λ params.
        bind_same (value lib params (codes "path") []) _ _ w (λ path. read_at-same params path w)),
    with_parsed_same _ (parse t) _ _ w (λ params.
        bind_same (value lib params (codes "path") []) _ _ w (λ path. write_at-same params path w)),
  )
