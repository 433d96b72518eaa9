-- ===== src/Logs.antt =====
-- src/server/mcp_methods.h and mcp_methods.cpp: the log buffer that the editor panel reads. The
-- deque is the list of its entries, the oldest first.
pub mod History
use gear_mcp_server.Base.{
  ℕ, ◌-◌, Bool, List, [], ◌∷◌, ◌++◌, ◌||◌, ◌==◌, ltb, leb, if◌then◌else◌, Bytes, length, drop,
  is_empty,
}

pub record LogEntry : Type 0 where
  pub timestamp_ms : ℕ
  pub level : Bytes
  pub method : Bytes
  pub tool : Bytes
  pub status : Bytes
  pub duration_ms : ℕ
  pub message : Bytes

abbrev pub max_log_entries : ℕ
max_log_entries = 500

-- pop_front
abbrev pub pop_front : List LogEntry → List LogEntry
pop_front [] = []
pop_front (e ∷ es) = es

-- What `_log` does to the buffer with the entry that it has filled in.
unfoldable pub push_log : LogEntry → List LogEntry → List LogEntry
push_log e logs = (if leb max_log_entries (length logs) then pop_front logs else logs) ++ e ∷ []

unfoldable pub get_recent_logs : ℕ → List LogEntry → List LogEntry
get_recent_logs p_max_count logs =
    if p_max_count == 0 || is_empty logs
    then []
    else drop (if ltb p_max_count (length logs) then length logs - p_max_count else 0) logs

unfoldable pub log_count : List LogEntry → ℕ
log_count logs = length logs

unfoldable pub clear_logs : List LogEntry → List LogEntry
clear_logs logs = []
