-- ===== src/Methods.antt =====
-- src/server/mcp_methods.cpp: the state behind the JSON-RPC methods, the log and the helpers.
-- `W` is the state of everything outside the server: the editor, the file system, the clock.
pub mod Rpc
pub mod ToolsCall
pub mod Handlers
pub mod Dispatch
pub mod Replies
pub mod Calls
pub mod Switch
pub mod BadNames
pub mod Keeps
use gear_mcp_server.Base.{
  ℕ, suc, ◌+◌, ◌-◌, ◌%◌, ◌^◌, Bool, true, false, not, Option, none, some, List, [], ◌∷◌, ◌++◌, ◌==◌,
  ltb, if◌then◌else◌, Bytes, codes, is_empty, length, take,
}
use gear_mcp_server.Exec.{Result, Exec, modify, ◌>>=◌, ◌>>◌}
use gear_mcp_server.Registry.{ToolRegistry}
use gear_mcp_server.Catalog.{ResourceInfo, PromptEntry, PromptMessage}
use gear_mcp_server.Logs.{LogEntry, push_log}

-- A handler gets its arguments, acts on the outside and may throw. A tool's handler fills
-- `result_out` and `error_out`.
abbrev pub ToolHandler : Type 0 → Type 0
ToolHandler W = Bytes → W → Result (Bytes × Bytes) × W

abbrev pub ResourceReadHandler : Type 0 → Type 0
ResourceReadHandler W = Bytes → W → Result Bytes × W

abbrev pub PromptGetHandler : Type 0 → Type 0
PromptGetHandler W = List (Bytes × Bytes) → W → Result (List PromptMessage) × W

-- What the server asks of the outside: the clock in milliseconds; whether the main thread
-- takes tasks (`s_dispatch_available`); and whether it completes a task within ten seconds.
pub record Host (W : Type 0) : Type 0 where
  pub now_ms : W → ℕ × W
  pub dispatch_available : W → Bool
  pub served_in_time : W → Bool

pub record Server (W : Type 0) : Type 0 where
  pub registry : ToolRegistry (ToolHandler W)
  pub resources : List (ResourceInfo (ResourceReadHandler W))
  pub prompts : List (PromptEntry (PromptGetHandler W))
  pub logs : List LogEntry
  pub world : W

module _ {W : Type 0} where
  -- An action on the outside.
  abbrev pub on_world : {A : Type 0} → (W → Result A × W) → Exec (Server W) A
  on_world m s = let (r, w) = m s.world in (r, record s { world = w })

-- The entry that `_log` fills in.
abbrev pub log_entry : ℕ → Bytes → Bytes → Bytes → Bytes → ℕ → Bytes → LogEntry
log_entry t p_level p_method p_tool p_status p_duration_ms p_message = record {
  timestamp_ms = t;
  level = p_level;
  method = p_method;
  tool = p_tool;
  status = p_status;
  duration_ms = p_duration_ms;
  message = p_message;
}

module _ {W : Type 0} (host : Host W) where
  -- _now_ms
  abbrev pub now : Exec (Server W) ℕ
  now s = let (t, w) = host.now_ms s.world in (Result.ok t, record s { world = w })

  -- `(int)(t1 - t0)`, as a bit pattern
  abbrev pub elapsed : ℕ → ℕ → ℕ
  elapsed t0 t1 = (t1 % 2 ^ 64 + 2 ^ 64 - t0 % 2 ^ 64) % 2 ^ 32

  -- _log
  unfoldable pub log : Bytes → Bytes → Bytes → Bytes → ℕ → Bytes → Exec (Server W) (Unit {0})
  log p_level p_method p_tool p_status p_duration_ms p_message = do
    t ← now
    modify (λ s. record s {
      logs = push_log (log_entry t p_level p_method p_tool p_status p_duration_ms p_message) s.logs;
    })

-- The preview of a text in the log: its first 200 bytes.
unfoldable pub preview : Bytes → Bytes
preview s = if ltb 200 (length s) then take 200 s ++ codes "..." else s

-- std::string(s.c_str()): the bytes before the first NUL.
unfoldable pub c_str : Bytes → Bytes
c_str [] = []
c_str (c ∷ cs) = if c == 0 then [] else c ∷ c_str cs
