-- ===== src/Config/Scanned.antt =====
-- The scan of a directory, and the directories below it that have a file for a project.
use gear_mcp_server.Base.{
  ℕ, zero, suc, ◌≡◌, ◌↔◌, refl, sym, ap, ◌∙◌, Bool, true, false, ◌||◌, ◌⊎◌, inl, inr, Option, none,
  some, List, [], ◌∷◌, ◌++◌, map, map-append, Bool-cases, All, Bytes, codes, str_eq,
}
use gear_mcp_server.Exec.{Result, ok}
use gear_mcp_server.OrdMap.{lookup}
use gear_mcp_server.Json.{JsonLib}
use gear_mcp_server.Folders.{Folders}
use gear_mcp_server.Config.{Disk}
use gear_mcp_server.Config.Value.{Numbers}
use gear_mcp_server.Config.Ini.{Ini, parse_project_godot}
use gear_mcp_server.Config.Scan.{
  is_directory, project_name, project_entry, project_in, gather, scan_entries, scan_opened,
  scan_projects,
}
use gear_mcp_server.Config.Below.{
  In, has_project, is_entered, Below, FewNames, Shallow, own_path, paths_among, paths_opened, paths,
  Below-paths, paths-Below,
}

module _ (lib : JsonLib) (numbers : Numbers lib.Json) {W : Type 0} (disk : Disk W)
    (ini_error : Bytes → W → Bool) (folders : Folders W) (w : W) (read : Bytes → Ini lib.Json) where
  open lib use {Json, string, object}

  -- The entry of a project, whose file is read as `read` says.
  abbrev pub entry_for : Bytes → Json
  entry_for p = object (
      (codes "path", string p)
      ∷ (
        codes "name",
        project_name lib numbers disk ini_error folders w (lookup (codes "application") (read p)),
      )
      ∷ [])

  -- The files of the projects are read without an exception.
  abbrev pub Reads : Type 0
  Reads =
      (p : Bytes)
      → has_project folders w p ≡ true
      → parse_project_godot lib numbers disk ini_error p w ≡ ok (read p)

  project_in-own_path :
      (p : Bytes)
      → Reads
      → project_in lib numbers disk ini_error folders w p
        ≡ ok (map entry_for (own_path folders w p))
  unfolding project_in
  project_in-own_path p reads = elim (Bool-cases (has_project folders w p)) [
    | inr e ↦ rw e refl
    | inl e ↦ rw e (rw (reads p e, project_entry) refl)
  ]

  -- The scan of each of these directories gives the entries of these paths.
  abbrev Gives :
      (Bytes → Type 0) → (Bytes → List Bytes) → (Bytes → Option (Result (List Json))) → Type 0
  Gives P spec below = (p : Bytes) → P p → below p ≡ some (ok (map entry_for (spec p)))

  gathered :
      (xs ys zs : List Bytes)
      → gather lib numbers disk ini_error folders w
          (ok (map entry_for xs))
          (some (ok (map entry_for ys)))
          (some (ok (map entry_for zs)))
        ≡ some (ok (map entry_for (xs ++ (ys ++ zs))))
  gathered xs ys zs =
      ap (λ l. some (ok l))
        (sym (
          map-append entry_for xs (ys ++ zs)
          ∙ ap (λ l. map entry_for xs ++ l) (map-append entry_for ys zs)))

  scan_entries-paths :
      (P : Bytes → Type 0) (spec : Bytes → List Bytes) (below : Bytes → Option (Result (List Json)))
      (dir : Bytes) (names : List Bytes)
      → Reads
      → Gives P spec below
      → All (λ name. (is_entered folders w dir name ≡ false) ⊎ P (dir ++ codes "/" ++ name)) names
      → scan_entries lib numbers disk ini_error folders w below dir true names
        ≡ some (ok (map entry_for (paths_among folders w spec dir names)))
  unfolding scan_entries paths_among
  scan_entries-paths P spec below dir [] reads gives few = refl
  scan_entries-paths P spec below dir (name ∷ names) reads gives (first, few) =
      let rest = scan_entries-paths P spec below dir names reads gives few in
      let full = dir ++ codes "/" ++ name in
      elim (Bool-cases (str_eq name (codes ".") || str_eq name (codes ".."))) [
        | inl e ↦ rw e rest
        | inr e ↦ elim (Bool-cases (is_directory (folders.stat full w))) [
          | inr d ↦ rw (e, d) rest
          | inl d ↦
              let deep : P full = elim first [
                | inl off ↦
                    let on : is_entered folders w dir name ≡ true = rw (e, d) refl in absurd (cc)
                | inr p ↦ p
              ] in
              rw (e, d)
                (rw (project_in-own_path full reads) (
                  rw (gives full deep) (
                    rw rest (
                      gathered (own_path folders w full) (spec full)
                        (paths_among folders w spec dir names)))))
        ]
      ]

  scan_opened-paths :
      (P : Bytes → Type 0) (spec : Bytes → List Bytes) (below : Bytes → Option (Result (List Json)))
      (dir : Bytes) (names : Option (List Bytes))
      → Reads
      → Gives P spec below
      → FewNames folders w P dir names
      → scan_opened lib numbers disk ini_error folders w below dir true names
        ≡ some (ok (map entry_for (paths_opened folders w spec dir names)))
  scan_opened-paths P spec below dir none reads gives few = refl
  scan_opened-paths P spec below dir (some names) reads gives few =
      scan_entries-paths P spec below dir names reads gives few

  scan_projects-paths :
      (n : ℕ) (dir : Bytes)
      → Reads
      → Shallow folders w n dir
      → scan_projects lib numbers disk ini_error folders w n dir true
        ≡ some (ok (map entry_for (paths folders w n dir)))
  unfolding scan_projects paths
  scan_projects-paths zero dir reads few = absurd few
  scan_projects-paths (suc n) dir reads few =
      scan_opened-paths (Shallow folders w n) _ _ dir (folders.names dir w) reads
        (λ p deep. scan_projects-paths n p reads deep) few

  -- The recursive scan of a directory below which directories are nested less deep than the fuel,
  -- where the files of the projects are read without an exception: it ends, with the entries of
  -- some paths, and these are exactly the directories somewhere below that have a file for a
  -- project.
  pub scan_projects-Below :
      (n : ℕ) (dir : Bytes)
      → Reads
      → Shallow folders w n dir
      → (ps : List Bytes) × (scan_projects lib numbers disk ini_error folders w n dir true
          ≡ some (ok (map entry_for ps)))
        × ((p : Bytes) → In p ps ↔ (Below folders w dir p × (has_project folders w p ≡ true)))
  scan_projects-Below n dir reads few = (
    paths folders w n dir,
    scan_projects-paths n dir reads few,
    λ p. (paths-Below folders w n dir p, λ b. Below-paths folders w n dir p few b.0 b.1),
  )
