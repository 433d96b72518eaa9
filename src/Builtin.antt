-- ===== src/Builtin.antt =====
-- src/server/phase4_resources.cpp: the resources and prompts that are built in. `W` is the state
-- of the editor and its files, which the readers do not change.
pub mod Prompts
pub mod Project
pub mod Readers
pub mod Register
pub mod Resolve
use gear_mcp_server.Base.{
  ℕ, ◌-◌, ◌%◌, ◌^◌, Bool, Option, ◌||◌, ◌==◌, ltb, if◌then◌else◌, Bytes, codes, leb, drop, length,
  str_eq, ◌&&◌,
}
use gear_mcp_server.Exec.{Result}
use gear_mcp_server.Json.{ℤ, pos, negsuc}

-- What the readers ask of the engine and of the file system, and the indented dump(2) of JSON.
-- `engine_version` is none without the singleton "Engine".
pub record Engine (Json W : Type 0) : Type 0 where
  pub get_project_path : W → Bytes
  pub res_to_absolute : Bytes → W → Bytes
  pub engine_version : W → Option Bytes
  pub exists : Bytes → W → Bool
  pub read : Bytes → W → Option Bytes
  pub dump_indented : Json → Result Bytes

unfoldable pub ends_with : Bytes → Bytes → Bool
ends_with p_s p_suffix =
    leb (length p_suffix) (length p_s) && str_eq (drop (length p_s - length p_suffix) p_s) p_suffix

unfoldable pub detect_language : Bytes → Bytes
detect_language p_path =
    if ends_with p_path (codes ".gd")
    then codes "gdscript"
    else if ends_with p_path (codes ".cs")
    then codes "csharp"
    else if ends_with p_path (codes ".tscn") || ends_with p_path (codes ".scn")
    then codes "godot-scene"
    else if ends_with p_path (codes ".tres") || ends_with p_path (codes ".res")
    then codes "godot-resource"
    else if ends_with p_path (codes ".json")
    then codes "json"
    else if ends_with p_path (codes ".md")
    then codes "markdown"
    else codes "text"

-- (int) of a size
abbrev pub int_of_size : ℕ → ℤ
int_of_size n =
    if ltb (n % 2 ^ 32) (2 ^ 31) then pos (n % 2 ^ 32) else negsuc (2 ^ 32 - 1 - n % 2 ^ 32)
