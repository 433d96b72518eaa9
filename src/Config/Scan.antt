-- ===== src/Config/Scan.antt =====
-- src/shared/config_parser.cpp: the search for the projects in a directory.
use gear_mcp_server.Base.{
  ℕ, zero, suc, Bool, true, false, Option, none, some, List, [], ◌∷◌, ◌++◌, ◌||◌, if◌then◌else◌,
  Bytes, codes, str_eq, is_some,
}
use gear_mcp_server.Exec.{Result, ok, threw}
use gear_mcp_server.OrdMap.{lookup}
use gear_mcp_server.Json.{JsonLib}
use gear_mcp_server.Methods.Rpc.{or_else}
use gear_mcp_server.Folders.{FileKind, directory, Folders}
use gear_mcp_server.Config.{Disk}
use gear_mcp_server.Config.Value.{Numbers}
use gear_mcp_server.Config.Ini.{Ini, Node, parse_project_godot, node_json}

abbrev pub is_directory : Option FileKind → Bool
is_directory (some directory) = true
is_directory _ = false

module _ (lib : JsonLib) (numbers : Numbers lib.Json) {W : Type 0} (disk : Disk W)
    (ini_error : Bytes → W → Bool) (folders : Folders W) (w : W) where
  open lib use {Json, string, object, find}

  -- application[config/name], where there is such a member; otherwise the empty text
  abbrev pub project_name : Option (Node Json) → Json
  project_name none = string []
  project_name (some n) =
      or_else (find (codes "config/name") (node_json lib numbers disk ini_error n)) (string [])

  abbrev pub project_entry : Bytes → Result (Ini Json) → Result (List Json)
  project_entry full (threw e) = threw e
  project_entry full (ok proj_data) = ok (
      object (
        (codes "path", string full)
        ∷ (codes "name", project_name (lookup (codes "application") proj_data))
        ∷ [])
      ∷ [])

  -- The directory itself, where it has a file for a project.
  unfoldable pub project_in : Bytes → Result (List Json)
  project_in full =
      if is_some (folders.stat (full ++ codes "/project.godot") w)
      then project_entry full (parse_project_godot lib numbers disk ini_error full w)
      else ok []

  -- Appends what was found; `none` is a part that did not end, and an exception ends the scan.
  abbrev pub gather :
      Result (List Json)
      → Option (Result (List Json))
      → Option (Result (List Json))
      → Option (Result (List Json))
  gather (threw e) sub rest = some (threw e)
  gather (ok here) none rest = none
  gather (ok here) (some (threw e)) rest = some (threw e)
  gather (ok here) (some (ok sub)) none = none
  gather (ok here) (some (ok sub)) (some (threw e)) = some (threw e)
  gather (ok here) (some (ok sub)) (some (ok rest)) = some (ok (here ++ (sub ++ rest)))

  unfoldable pub scan_entries :
      (Bytes → Option (Result (List Json)))
      → Bytes
      → Bool
      → List Bytes
      → Option (Result (List Json))
  scan_entries below p_directory p_recursive [] = some (ok [])
  scan_entries below p_directory p_recursive (name ∷ names) =
      let rest = scan_entries below p_directory p_recursive names in
      let full = p_directory ++ codes "/" ++ name in
      if str_eq name (codes ".") || str_eq name (codes "..")
      then rest
      else if is_directory (folders.stat full w)
      then gather (project_in full) (if p_recursive then below full else some (ok [])) rest
      else rest

  abbrev pub scan_opened :
      (Bytes → Option (Result (List Json)))
      → Bytes
      → Bool
      → Option (List Bytes)
      → Option (Result (List Json))
  scan_opened below p_directory p_recursive none = some (ok [])
  scan_opened below p_directory p_recursive (some names) =
      scan_entries below p_directory p_recursive names

  -- The fuel bounds the depth of the directories; `none` is fuel that ran out.
  unfoldable pub scan_projects : ℕ → Bytes → Bool → Option (Result (List Json))
  scan_projects zero p_directory p_recursive = none
  scan_projects (suc f) p_directory p_recursive =
      scan_opened (λ full. scan_projects f full true) p_directory p_recursive
        (folders.names p_directory w)
