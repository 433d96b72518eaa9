-- ===== src/Tools/Dx/Usages/Listed.antt =====
-- find_resource_usages: all the usages of a project, in terms of its files.
use gear_mcp_server.Base.{
  ℕ, ◌≡◌, refl, arith, Bool, true, false, Option, none, some, List, [], ◌∷◌, ◌++◌, ◌↔◌, ◌⊎◌, inl,
  inr, Bool-cases, Bytes, codes, str_eq_iff, find, Occurs, find-Occurs,
}
use gear_mcp_server.Tools.Dx.{FileSystem}
use gear_mcp_server.Tools.Dx.Usages.{Usage, is_source, usage_at, usage_in, is_scanned}
use gear_mcp_server.Tools.Dx.Usages.Limit.{usages}
use gear_mcp_server.Tools.Dx.Usages.Shown.{Shows, found-Shows}

-- The extensions of the scenes, the resources and the scripts.
abbrev pub source_extensions : List Bytes
source_extensions =
    codes ".tscn" ∷ codes ".scn" ∷ codes ".tres" ∷ codes ".res" ∷ codes ".gd" ∷ codes ".cs" ∷ []

abbrev pub Among : Bytes → List Bytes → Type 0
Among x [] = ⊥
Among x (y ∷ ys) = (x ≡ y) ⊎ Among x ys

is_source-Among : (ext : Bytes) → (is_source ext ≡ true) ↔ Among ext source_extensions
is_source-Among ext =
    let same = λ (e : Bytes). str_eq_iff ext e in
    ground (
      arith,
      same (codes ".tscn"),
      same (codes ".scn"),
      same (codes ".tres"),
      same (codes ".res"),
      same (codes ".gd"),
      same (codes ".cs"),
    )

module _ {W : Type 0} (file_system : FileSystem W) (stem : Bytes) (limit : ℕ) (w : W) where
  -- A regular file with one of these extensions.
  abbrev pub IsSource : Bytes × Bool → Type 0
  IsSource e = (e.1 ≡ true) × Among (file_system.extension e.0) source_extensions

  -- The usages of the entries, in their order: one for each scene, resource or script that opens
  -- and has the path in its text, and none for any other entry.
  pub data Listed : List (Bytes × Bool) → List Usage → Type 0 where
    no_more : Listed [] []
    passed :
        {e : Bytes × Bool} {es : List (Bytes × Bool)} {us : List Usage}
        → (IsSource e → ⊥)
        → Listed es us
        → Listed (e ∷ es) us
    unopened :
        {e : Bytes × Bool} {es : List (Bytes × Bool)} {us : List Usage}
        → file_system.text e.0 w ≡ none
        → Listed es us
        → Listed (e ∷ es) us
    unused :
        {e : Bytes × Bool} {es : List (Bytes × Bool)} {us : List Usage} {content : Bytes}
        → file_system.text e.0 w ≡ some content
        → (Occurs content stem → ⊥)
        → Listed es us
        → Listed (e ∷ es) us
    used :
        {e : Bytes × Bool} {es : List (Bytes × Bool)} {u : Usage} {us : List Usage}
        {content : Bytes}
        → IsSource e
        → file_system.text e.0 w ≡ some content
        → Shows e.0 stem content u
        → Listed es us
        → Listed (e ∷ es) (u ∷ us)

  content-Listed :
      (e : Bytes × Bool) (es : List (Bytes × Bool)) (us : List Usage) (content : Bytes)
      (o : Option ℕ)
      → IsSource e
      → file_system.text e.0 w ≡ some content
      → find content stem ≡ o
      → Listed es us
      → Listed (e ∷ es) (usage_at e.0 content stem o ++ us)
  content-Listed e es us content none s t f rest =
      unused t (λ occurs. let found = (find-Occurs content stem).1 occurs in cc) rest
  content-Listed e es us content (some p) s t f rest =
      used s t (found-Shows e.0 stem content p f) rest

  file-Listed :
      (e : Bytes × Bool) (es : List (Bytes × Bool)) (us : List Usage) (opened : Option Bytes)
      → IsSource e
      → file_system.text e.0 w ≡ opened
      → Listed es us
      → Listed (e ∷ es) (usage_in e.0 stem opened ++ us)
  unfolding usage_in
  file-Listed e es us none s t rest = unopened t rest
  file-Listed e es us (some content) s t rest =
      content-Listed e es us content (find content stem) s t refl rest

  is_scanned-IsSource :
      (e : Bytes × Bool) → (is_scanned file_system stem limit w e ≡ true) ↔ IsSource e
  is_scanned-IsSource (path, true) =
      let src = is_source-Among (file_system.extension path) in
      (λ h. (refl, src.0 h), λ s. src.1 s.1)
  is_scanned-IsSource (path, false) = (λ h. cc, λ s. s.0)

  pub usages-Listed : (es : List (Bytes × Bool)) → Listed es (usages file_system stem limit w es)
  unfolding usages
  usages-Listed [] = no_more
  usages-Listed (e ∷ es) =
      let source = is_scanned-IsSource e in
      elim (Bool-cases (is_scanned file_system stem limit w e)) [
        | inr h ↦ rw h (passed (λ s. let yes = source.1 s in cc) (usages-Listed es))
        | inl h ↦ rw h (
            file-Listed e es (usages file_system stem limit w es) (file_system.text e.0 w)
              (source.0 h) refl (usages-Listed es))
      ]
