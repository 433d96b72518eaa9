-- ===== src/Folders.antt =====
-- What the program reads of directories and files, as on the systems that are not Windows.
use gear_mcp_server.Base.{Option, List, Bytes}

-- S_ISDIR, S_ISREG, and any other mode
pub data FileKind : Type 0 where
  directory : FileKind
  regular : FileKind
  special : FileKind

-- The names that opendir and readdir give, stat, and a file's text where the file can be opened.
-- `W` is the state of the disk.
pub record Folders (W : Type 0) : Type 0 where
  pub names : Bytes → W → Option (List Bytes)
  pub stat : Bytes → W → Option FileKind
  pub text : Bytes → W → Option Bytes
