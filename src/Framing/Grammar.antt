-- ===== src/Framing/Grammar.antt =====
-- A grammar of the texts that a connection carries, JSON objects among them: the framing cuts
-- a stream of such texts at their ends, whatever bytes their strings hold.
use gear_mcp_server.Base.{
  ℕ, suc, Bool, true, false, ◌||◌, Option, none, some, List, [], ◌∷◌, ◌++◌, ◌≡◌, refl, sym, ap, ◌∙◌,
  arith, ◌==◌, Bytes, is_empty, append-nil, append_assoc, All,
}
use gear_mcp_server.Framing.{
  skip_space, Scanner, scan_byte, prepend, scan, outside, extract_from, extract_next_message,
  drain_all, receive,
}
use gear_mcp_server.Framing.Cut.{
  IsSpaces, scan_more, scan_end, skip_space-spaces, drain_all-idle, drain_all-message,
}
use gear_mcp_server.Framing.Chunks.{IsClean, idle, more, concat, receive-concat}

abbrev pub is_special : ℕ → Bool
is_special c = c == b'\\' || c == b'"'

-- Inside a string: a byte that is neither a backslash nor a quote, or a backslash with the byte
-- that it escapes.
pub data Char : Type 0 where
  plain : (c : ℕ) → is_special c ≡ false → Char
  escape : ℕ → Char

-- Inside a message: a byte that stands for itself, a string, or a nested object.
mutual
  pub data Part : Type 0 where
    byte : (c : ℕ) → (is_special c || (c == b'{' || c == b'}')) ≡ false → Part
    text : List Char → Part
    object : Parts → Part

  pub data Parts : Type 0 where
    end : Parts
    piece : Part → Parts → Parts

print_char : Char → Bytes
print_char (plain c h) = c ∷ []
print_char (escape c) = b'\\' ∷ c ∷ []

print_chars : List Char → Bytes
print_chars [] = b'"' ∷ []
print_chars (x ∷ xs) = print_char x ++ print_chars xs

mutual
  print_part : Part → Bytes
  print_part (byte c h) = c ∷ []
  print_part (text s) = b'"' ∷ print_chars s
  print_part (object ps) = b'{' ∷ (print_parts ps ++ b'}' ∷ [])

  print_parts : Parts → Bytes
  print_parts end = []
  print_parts (piece p ps) = print_part p ++ print_parts ps

-- A message: an object at the top.
unfoldable pub print : Parts → Bytes
unfolding print_part print_parts print_chars print_char
print ps = b'{' ∷ (print_parts ps ++ b'}' ∷ [])

abbrev at_depth : ℕ → Bool → Scanner
at_depth d s = record { depth = d; in_string = s; escaped = false }

prepend-append :
    (p q : Bytes) (o : Option (Bytes × Bytes)) → prepend (p ++ q) o ≡ prepend p (prepend q o)
prepend-append p q none = refl
prepend-append p q (some (a, b)) = ap (λ t. some (t, b)) (append_assoc p q a)

-- The scan reads `p` from state `s`, comes to state `t` and has not met the end.
record Passes (s : Scanner) (p : Bytes) (t : Scanner) : Type 0 where
  run : (rest : Bytes) → scan s (p ++ rest) ≡ prepend p (scan t rest)

Passes-nil : (s : Scanner) → Passes s [] s
Passes-nil s = record { run = λ rest. prepend-nil (scan s rest) }
  where
    prepend-nil : (o : Option (Bytes × Bytes)) → o ≡ prepend [] o
    prepend-nil none = refl
    prepend-nil (some (a, b)) = refl

Passes-byte : {s t : Scanner} (c : ℕ) → scan_byte s c ≡ (t, false) → Passes s (c ∷ []) t
Passes-byte {s} c e = record { run = λ rest. rw (scan_more s c rest (ap (λ r. r.1) e), e) }

Passes-append : {s t u : Scanner} {p q : Bytes} → Passes s p t → Passes t q u → Passes s (p ++ q) u
Passes-append {u} {p} {q} h k = record {
  run = λ rest.
      rw (append_assoc p q rest, h.run (q ++ rest), k.run rest, prepend-append p q (scan u rest));
}

Passes-char : (d : ℕ) (x : Char) → Passes (at_depth d true) (print_char x) (at_depth d true)
unfolding print_char scan_byte
Passes-char d (plain c h) = Passes-byte c (ground arith)
Passes-char d (escape c) =
    Passes-append
      (Passes-byte {t = record { depth = d; in_string = true; escaped = true }} b'\\' refl)
      (Passes-byte c refl)

Passes-chars :
    (d : ℕ) (xs : List Char) → Passes (at_depth d true) (print_chars xs) (at_depth d false)
unfolding print_chars scan_byte
Passes-chars d [] = Passes-byte b'"' refl
Passes-chars d (x ∷ xs) = Passes-append (Passes-char d x) (Passes-chars d xs)

Passes-byte_part :
    (d : ℕ) (c : ℕ)
    → (is_special c || (c == b'{' || c == b'}')) ≡ false
    → Passes (at_depth d false) (c ∷ []) (at_depth d false)
unfolding scan_byte
Passes-byte_part d c h = Passes-byte c (ground arith)

Passes-quote : (d : ℕ) → Passes (at_depth d false) (b'"' ∷ []) (at_depth d true)
unfolding scan_byte
Passes-quote d = Passes-byte b'"' refl

Passes-open : (d : ℕ) → Passes (at_depth d false) (b'{' ∷ []) (at_depth (suc d) false)
unfolding scan_byte
Passes-open d = Passes-byte b'{' (ground arith)

Passes-close : (d : ℕ) → Passes (at_depth (suc (suc d)) false) (b'}' ∷ []) (at_depth (suc d) false)
unfolding scan_byte
Passes-close d = Passes-byte b'}' (ground arith)

mutual
  unfolding print_part print_parts

  Passes-piece :
      (p : Part) (d : ℕ) → Passes (at_depth (suc d) false) (print_part p) (at_depth (suc d) false)
  Passes-piece (byte c h) d = Passes-byte_part (suc d) c h
  Passes-piece (text s) d = Passes-append (Passes-quote (suc d)) (Passes-chars (suc d) s)
  Passes-piece (object ps) d =
      Passes-append (Passes-open (suc d)) (Passes-append (Passes-parts ps (suc d)) (Passes-close d))

  Passes-parts :
      (ps : Parts) (d : ℕ)
      → Passes (at_depth (suc d) false) (print_parts ps) (at_depth (suc d) false)
  Passes-parts end d = Passes-nil (at_depth (suc d) false)
  Passes-parts (piece p ps) d = Passes-append (Passes-piece p d) (Passes-parts ps d)

-- The scan ends with the closing brace of the message.
scan-print : (ps : Parts) (rest : Bytes) → scan outside (print ps ++ rest) ≡ some (print ps, rest)
unfolding print
scan-print ps rest =
    let body = Passes-append (Passes-open 0) (Passes-parts ps 0) in
    ap (scan outside) (append_assoc (b'{' ∷ print_parts ps) (b'}' ∷ []) rest)
    ∙ body.run (b'}' ∷ rest)
    ∙ rw (scan_end (at_depth 1 false) b'}' rest (unfold scan_byte in refl))

-- Behind whitespace, a message is cut off as a whole, whatever follows it.
pub extract-print :
    (space : Bytes) (ps : Parts) (rest : Bytes)
    → IsSpaces space
    → extract_next_message (space ++ (print ps ++ rest)) ≡ (print ps, rest)
unfolding extract_next_message
extract-print space ps rest h =
    rw (skip_space-spaces space (print ps ++ rest) h)
      (unfold skip_space extract_from print in rw (scan-print ps rest))

-- A stream of messages, each behind some whitespace, with whitespace at its end.
abbrev pub stream : List (Bytes × Parts) → Bytes → Bytes
stream [] last = last
stream ((space, ps) ∷ ms) last = space ++ (print ps ++ stream ms last)

abbrev pub HasSpaces : List (Bytes × Parts) → Type 0
HasSpaces = All (λ m. IsSpaces m.0)

abbrev pub texts : List (Bytes × Parts) → List Bytes
texts [] = []
texts ((space, ps) ∷ ms) = print ps ∷ texts ms

skip_space-nil : (w : Bytes) → IsSpaces w → skip_space w ≡ []
unfolding skip_space
skip_space-nil w h = ap skip_space (sym (append-nil w)) ∙ skip_space-spaces w [] h

extract-spaces : (w : Bytes) → IsSpaces w → extract_next_message w ≡ ([], [])
unfolding extract_next_message
extract-spaces w h = rw (skip_space-nil w h) (unfold extract_from in refl)

is_empty-print : (ps : Parts) → is_empty (print ps) ≡ false
unfolding print
is_empty-print ps = refl

stream-IsClean :
    (ms : List (Bytes × Parts)) (last : Bytes)
    → HasSpaces ms
    → IsSpaces last
    → IsClean (stream ms last)
stream-IsClean [] last h k = idle (rw (extract-spaces last k)) (rw (skip_space-nil last k) tt)
stream-IsClean ((space, ps) ∷ ms) last h k =
    more (extract-print space ps (stream ms last) h.0) (is_empty-print ps)
      (stream-IsClean ms last h.1 k)

drain_all-stream :
    (ms : List (Bytes × Parts)) (last : Bytes)
    → HasSpaces ms
    → IsSpaces last
    → drain_all (stream ms last) ≡ (texts ms, [])
drain_all-stream [] last h k = let e = extract-spaces last k in rw (drain_all-idle last (rw e), e)
drain_all-stream ((space, ps) ∷ ms) last h k = rw (
  drain_all-message _ (extract-print space ps (stream ms last) h.0) (is_empty-print ps),
  drain_all-stream ms last h.1 k,
)

-- Every message of a stream is delivered, in order and unchanged, and nothing else is, however
-- the stream is cut into chunks.
pub receive-stream :
    (ms : List (Bytes × Parts)) (last : Bytes) (chunks : List Bytes)
    → HasSpaces ms
    → IsSpaces last
    → concat chunks ≡ stream ms last
    → receive [] chunks ≡ (texts ms, [])
receive-stream ms last chunks h k e =
    receive-concat chunks (rw e (stream-IsClean ms last h k))
    ∙ ap drain_all e
    ∙ drain_all-stream ms last h k
