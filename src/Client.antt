-- ===== src/Client.antt =====
-- src/shared/json_rpc_client.cpp: what `call` sends to the language server once it is connected,
-- and how it reads the response. What `recv` returns is a list of texts that are not empty; its
-- end is a `recv` that fails. `atoi` and `show`, of the standard library, are parameters.
pub mod Finds
pub mod Reads
pub mod Response
use gear_mcp_server.Base.{
  ℕ, zero, suc, ◌+◌, Option, none, some, List, [], ◌∷◌, ◌++◌, ◌||◌, ◌==◌, ltb, leb, if◌then◌else◌,
  Bytes, codes, find, take, drop, substr, length,
}
use gear_mcp_server.Exec.{Result, ok, threw}
use gear_mcp_server.Json.{JsonLib, ℤ, pos, negsuc}

-- The response, or the text of `r_error`.
pub data Reply {ℓ} (A : Type ℓ) : Type ℓ where
  answered : A → Reply A
  failed : Bytes → Reply A

-- What the loops over `recv` keep: the buffer, what is still to be received, and `safety`.
pub record Reading : Type 0 where
  pub buf : Bytes
  pub chunks : List Bytes
  pub safety : ℕ

abbrev pub header_failed : Bytes
header_failed = codes "recv() failed or timed out reading headers"

abbrev pub no_terminator : Bytes
no_terminator = codes "Malformed response: no header terminator"

-- After a `recv`: fewer than four bytes are a failure, and then the end of the headers is
-- searched.
abbrev pub header_seen : Option ℕ → Reading → Reply (ℕ × Reading) → Reply (ℕ × Reading)
header_seen none r rest = rest
header_seen (some header_end) r rest = answered (header_end, r)

-- The loop over the headers, which receives at most 50 times.
unfoldable pub read_headers : List Bytes → Bytes → ℕ → Reply (ℕ × Reading)
read_headers [] buf safety = if ltb safety 50 then failed header_failed else failed no_terminator
read_headers (c ∷ cs) buf safety =
    let rest = read_headers cs (buf ++ c) (suc safety) in
    if ltb safety 50
    then (if leb 4 (length (buf ++ c))
        then header_seen (find (buf ++ c) (codes "\r\n\r\n"))
            (record { buf = buf ++ c; chunks = cs; safety = suc safety }) rest
        else failed header_failed)
    else failed no_terminator

abbrev pub either_name : Option ℕ → Option ℕ → Option ℕ
either_name (some p) q = some p
either_name none q = q

abbrev pub skip_blanks : Bytes → Bytes
skip_blanks [] = []
skip_blanks (c ∷ cs) = if c == b' ' || c == b'\t' then skip_blanks cs else c ∷ cs

abbrev pub up_to : Option ℕ → Bytes → Bytes
up_to none t = t
up_to (some p) t = take p t

-- The text of the length; `none` where there is no such header.
unfoldable pub length_text : Bytes → Option Bytes
length_text headers =
    elim (either_name (find headers (codes "Content-Length:"))
      (find headers (codes "content-length:"))) [
        | none ↦ none
        | some cl_pos ↦
            let t = skip_blanks (drop (cl_pos + 15) headers) in
            some (up_to (find t (codes "\r\n")) t)
      ]

-- The loop over the body, which ends when the body is there or after 500 rounds of both loops.
unfoldable pub read_body : ℕ → List Bytes → Bytes → ℕ → Reply Bytes
read_body needed [] buf safety =
    if ltb (length buf) needed
    then (if ltb safety 500
        then failed (codes "recv() failed or timed out reading body")
        else answered buf)
    else answered buf
read_body needed (c ∷ cs) buf safety =
    let rest = read_body needed cs (buf ++ c) (suc safety) in
    if ltb (length buf) needed
    then (if ltb safety 500 then rest else answered buf)
    else answered buf

module _ (lib : JsonLib) (atoi : Bytes → ℤ) (show : ℕ → Bytes) where
  open lib use {Json, parse}

  -- The text that is sent.
  unfoldable pub frame : Bytes → Bytes
  frame body = codes "Content-Length: " ++ show (length body) ++ codes "\r\n\r\n" ++ body

  abbrev pub parsed : Bytes → Result Json → Reply Json
  parsed resp_body (ok j) = answered j
  parsed resp_body (threw e) =
      failed (codes "Response body is not valid JSON: " ++ take 200 resp_body)

  abbrev pub body_read : ℕ → ℕ → Reply Bytes → Reply Json
  body_read body_start n (failed e) = failed e
  body_read body_start n (answered buf) =
      parsed (substr buf body_start n) (parse (substr buf body_start n))

  abbrev pub with_length : Bytes → ℤ → ℕ → Reading → Reply Json
  with_length cl_str (negsuc n) body_start r = failed (codes "Invalid Content-Length: " ++ cl_str)
  with_length cl_str (pos zero) body_start r = failed (codes "Invalid Content-Length: " ++ cl_str)
  with_length cl_str (pos (suc n)) body_start r =
      body_read body_start (suc n) (read_body (body_start + suc n) r.chunks r.buf r.safety)

  abbrev pub with_text : Option Bytes → ℕ → Reading → Reply Json
  with_text none body_start r = failed (codes "Response missing Content-Length header")
  with_text (some cl_str) body_start r = with_length cl_str (atoi cl_str) body_start r

  abbrev pub with_headers : Reply (ℕ × Reading) → Reply Json
  with_headers (failed e) = failed e
  with_headers (answered (header_end, r)) =
      with_text (length_text (take header_end r.buf)) (header_end + 4) r

  -- From the sending on.
  unfoldable pub read_response : List Bytes → Reply Json
  read_response chunks = with_headers (read_headers chunks [] 0)
