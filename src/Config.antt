-- ===== src/Config.antt =====
-- src/shared/config_parser.cpp: Godot's configuration files. `W` is the state of the disk.
pub mod Value
pub mod Ini
pub mod Project
pub mod Edit
pub mod Presets
pub mod Strings
pub mod Splices
pub mod Removal
pub mod Lines
pub mod Appended
pub mod Added
pub mod Scan
pub mod Settings
pub mod Below
pub mod Scanned
use gear_mcp_server.Base.{Bool, Option, none, some, [], Bytes}

-- What the disk does: an input file is opened and read, or not opened; an output file is opened
-- and its text replaced, or not opened.
pub record Disk (W : Type 0) : Type 0 where
  pub read : Bytes → W → Option Bytes
  pub write : Bytes → Bytes → W → Bool × W

abbrev pub or_empty : Option Bytes → Bytes
or_empty none = []
or_empty (some t) = t

unfoldable pub read_file : {W : Type 0} → Disk W → Bytes → W → Bytes
read_file disk p_path w = or_empty (disk.read p_path w)

unfoldable pub write_file : {W : Type 0} → Disk W → Bytes → Bytes → W → Bool × W
write_file disk p_path p_content w = disk.write p_path p_content w
