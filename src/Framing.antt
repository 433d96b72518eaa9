-- ===== src/Framing.antt =====
-- src/server/tcp_server.cpp: the framing of the byte stream of a connection. The two copies of
-- `extract_next_message`, for Windows and for POSIX, are the same code.
pub mod Cut
pub mod Chunks
pub mod Grammar
pub mod Garbage
use gear_mcp_server.Base.{
  ℕ, zero, suc, ◌+◌, ◌-◌, Bool, true, false, not, ◌||◌, Option, none, some, List, [], ◌∷◌, ◌++◌,
  ◌==◌, if◌then◌else◌, Bytes, split_at, is_empty, length,
}

abbrev pub is_space : ℕ → Bool
is_space c = c == b' ' || c == b'\t' || c == b'\r' || c == b'\n'

-- The loop that moves `start` over leading whitespace; the result begins at `start`.
unfoldable pub skip_space : Bytes → Bytes
skip_space [] = []
skip_space (c ∷ cs) = if is_space c then skip_space cs else c ∷ cs

-- The variables of the scan for the balancing brace. `depth` stays at 0 or above: the scan
-- starts at a brace, and stops as soon as the depth is back at 0.
pub record Scanner : Type 0 where
  pub depth : ℕ
  pub in_string : Bool
  pub escaped : Bool

-- One round of the loop: the new variables, and whether the byte ends the message.
unfoldable pub scan_byte : Scanner → ℕ → Scanner × Bool
scan_byte s c =
    if s.escaped
    then (record s { escaped = false }, false)
    else if c == b'\\'
    then (record s { escaped = true }, false)
    else if c == b'"'
    then (record s { in_string = not s.in_string }, false)
    else if s.in_string
    then (s, false)
    else if c == b'{'
    then (record s { depth = s.depth + 1 }, false)
    else if c == b'}'
    then (record s { depth = s.depth - 1 }, s.depth - 1 == 0)
    else (s, false)

-- Prepends bytes to what a scan has read.
abbrev pub prepend : Bytes → Option (Bytes × Bytes) → Option (Bytes × Bytes)
prepend p none = none
prepend p (some (a, b)) = some (p ++ a, b)

-- The loop: the bytes up to and with the one that ends the message, and those behind it. `none`
-- is `end == npos`.
unfoldable pub scan : Scanner → Bytes → Option (Bytes × Bytes)
scan s [] = none
scan s (c ∷ cs) =
    let rest = prepend (c ∷ []) (scan (scan_byte s c).0 cs) in
    if (scan_byte s c).1 then some (c ∷ [], cs) else rest

abbrev pub outside : Scanner
outside = record { depth = 0; in_string = false; escaped = false }

-- What `extract_next_message` does from `start` on: the message, or [], and the new buffer.
unfoldable pub extract_from : Bytes → Bytes × Bytes
extract_from [] = ([], [])
extract_from (c ∷ cs) =
    if c == b'{'
    then elim (scan outside (c ∷ cs)) [ none ↦ ([], c ∷ cs) | some (m, r) ↦ (m, r) ]
    else elim (split_at b'\n' (c ∷ cs)) [ none ↦ ([], []) | some (_, r) ↦ ([], r) ]

unfoldable pub extract_next_message : Bytes → Bytes × Bytes
extract_next_message buf = extract_from (skip_space buf)

-- The inner loop of a connection: messages are taken until one is empty. The fuel bounds the
-- number of messages.
unfoldable pub drain : ℕ → Bytes → List Bytes × Bytes
drain zero buf = ([], buf)
drain (suc f) buf =
    let e = extract_next_message buf in
    let rest = drain f e.1 in if is_empty e.0 then ([], e.1) else (e.0 ∷ rest.0, rest.1)

-- Every message is cut off the buffer, so there are at most as many as the buffer has bytes.
unfoldable pub drain_all : Bytes → List Bytes × Bytes
drain_all buf = drain (suc (length buf)) buf

-- The outer loop: what each `recv` returned is appended to the buffer, which is then drained.
-- The result is the messages in the order in which the handler gets them, and the last buffer.
unfoldable pub receive : Bytes → List Bytes → List Bytes × Bytes
receive buf [] = ([], buf)
receive buf (c ∷ cs) =
    let d = drain_all (buf ++ c) in let rest = receive d.1 cs in (d.0 ++ rest.0, rest.1)
