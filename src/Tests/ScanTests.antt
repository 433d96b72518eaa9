-- ===== src/Tests/ScanTests.antt =====
-- A directory with one project in it.
use gear_mcp_server.Base.{
  ℕ, ◌≡◌, ◌↔◌, refl, true, false, none, some, List, [], ◌∷◌, inl, inr, map, if◌then◌else◌, Bytes,
  codes, str_eq,
}
use gear_mcp_server.Exec.{ok}
use gear_mcp_server.Folders.{directory, regular, Folders}
use gear_mcp_server.Config.{Disk}
use gear_mcp_server.Config.Value.{Numbers}
use gear_mcp_server.Config.Ini.{parse_project_godot, parse_ini_file}
use gear_mcp_server.Config.Scan.{scan_projects}
use gear_mcp_server.Config.Below.{In, Below, has_project}
use gear_mcp_server.Config.Scanned.{entry_for, scan_projects-Below}
use gear_mcp_server.Tests.Sample.{Value, sample}

abbrev one_project : Folders ℕ
one_project = record {
  names = λ dir w. if str_eq dir (codes "/d") then some (codes "." ∷ codes "a" ∷ []) else none;
  stat = λ f w.
      if str_eq f (codes "/d/a")
      then some directory
      else if str_eq f (codes "/d/a/project.godot")
      then some regular
      else none;
  text = λ f w. none;
}

abbrev blank_disk : Disk ℕ
blank_disk = record { read = λ f w. none; write = λ f x w. (false, w) }

abbrev few_numbers : Numbers Value
few_numbers = record { stoll = λ s. none; stod = λ s. none }

scan_projects-Below_example :
    (ps : List Bytes) × (scan_projects sample few_numbers blank_disk
        (λ f w. true)
        one_project
        0
        2
        (codes "/d")
        true
      ≡ some (
          ok (
            map
              (entry_for sample few_numbers blank_disk (λ f w. true) one_project 0 (λ p. []))
              ps)))
    × ((p : Bytes)
        → In p ps ↔ (Below one_project 0 (codes "/d") p × (has_project one_project 0 p ≡ true)))
unfolding parse_project_godot parse_ini_file
scan_projects-Below_example =
    scan_projects-Below sample few_numbers blank_disk (λ f w. true) one_project 0 (λ p. []) 2
      (codes "/d") (λ p h. refl) (inl refl, (inr tt, tt))
