-- ===== src/Tools/Dx.antt =====
-- src/tools/dx/dx_tools.cpp: the four handlers.
pub mod Log
pub mod Throws
pub mod Usages
pub mod Health
pub mod Scaffold
pub mod Traversal
use gear_mcp_server.Base.{◌≡◌, refl, Bool, Option, none, some, List, Bytes}
use gear_mcp_server.Exec.{Exception, Result, ok, threw, Exec, lift, ◌>>=◌}

-- The calls of std::filesystem and of the streams: the entries of a directory and of those below
-- it, each with is_regular_file(), up to the end or to where going on or asking that throws, and
-- the exception then; the text of a file that opens; writing, which says whether the
-- file was opened; and the parts of a path. `W` is the state of the disk.
-- The other calls do not throw.
pub record FileSystem (W : Type 0) : Type 0 where
  pub exists : Bytes → W → Bool
  pub is_dir : Bytes → W → Bool
  pub entries : Bytes → W → List (Bytes × Bool)
  pub entries_end : Bytes → W → Option Exception
  pub text : Bytes → W → Option Bytes
  pub write : Bytes → Bytes → W → Bool × W
  pub create_directories : Bytes → W → W
  pub extension : Bytes → Bytes
  pub parent_path : Bytes → Bytes
  pub filename : Bytes → Bytes
  -- file_size() gives 0
  pub is_zero_size : Bytes → W → Bool

-- std::regex: the constructor, which throws on a pattern that it refuses, and regex_search, with
-- the texts of the first two groups, or with the whole match and what
-- follows it.
pub record Regexes : Type 1 where
  pub Regex : Type 0
  pub compile : Bytes → Result Regex
  pub search : Regex → Bytes → Option (Bytes × Bytes)
  pub search_next : Regex → Bytes → Option (Bytes × Bytes)

-- A result, unless an exception comes before it.
abbrev pub unless : {A : Type 0} → Option Exception → Result A → Result A
unless none r = r
unless (some e) r = threw e

pub unless_first :
    {A W : Type 0} (o : Option Exception) (r : Result A) (w : W)
    → (lift (unless o (ok tt)) >>= λ (u : Unit {0}). lift r) w ≡ (unless o r, w)
unless_first none r w = refl
unless_first (some e) r w = refl
