-- ===== src/Config/Strings.antt =====
-- Strings in a configuration file: what `parse_godot_value` makes of a quoted text, and of the
-- text that `format_value` writes.
use gear_mcp_server.Base.{
  ℕ, suc, ◌-◌, ◌≡◌, refl, ap, ◌∙◌, arith, Bool, true, false, none, [], ◌∷◌, ◌++◌, ◌==◌, ◌||◌,
  if◌then◌else◌, Bool-cases, inl, inr, Bytes, length, length-append, take, take-append_length, All,
  drop_end, front_is, back_is, is_quoted, unquote, is_empty,
}
use gear_mcp_server.Framing.{skip_space, is_space}
use gear_mcp_server.Json.{JsonLib}
use gear_mcp_server.Config.Value.{
  Numbers, unescape, trim, text_value, number_value, trimmed_value, parse_godot_value, needs_quotes,
  format_value,
}

-- A text as Godot writes it between quotes: the four bytes that have an escape sequence are
-- written as that sequence.
abbrev pub escape : Bytes → Bytes
escape [] = []
escape (c ∷ cs) =
    let rest = escape cs in
    if c == b'"'
    then b'\\' ∷ b'"' ∷ rest
    else if c == b'\\'
    then b'\\' ∷ b'\\' ∷ rest
    else if c == b'\n'
    then b'\\' ∷ b'n' ∷ rest
    else if c == b'\t'
    then b'\\' ∷ b't' ∷ rest
    else c ∷ rest

abbrev pub quote : Bytes → Bytes
quote t = b'"' ∷ (t ++ b'"' ∷ [])

abbrev pub NoBackslash : Bytes → Type 0
NoBackslash = All (λ c. (c == b'\\') ≡ false)

unescape_plain : (c : ℕ) (cs : Bytes) → (c == b'\\') ≡ false → unescape (c ∷ cs) ≡ c ∷ unescape cs
unfolding unescape
unescape_plain c [] h = refl
unescape_plain c (d ∷ ds) h = rw (h, unescape)

unescape-escape : (t : Bytes) → unescape (escape t) ≡ t
unfolding unescape
unescape-escape [] = refl
unescape-escape (c ∷ cs) = ground (arith, unescape-escape cs, unescape_plain c (escape cs))

pub unescape_whole : (t : Bytes) → NoBackslash t → unescape t ≡ t
unescape_whole [] h = unfold unescape in refl
unescape_whole (c ∷ cs) h = unescape_plain c cs h.0 ∙ ap (◌∷◌ c) (unescape_whole cs h.1)

back_is_last : (t : Bytes) (c : ℕ) → back_is c (t ++ c ∷ []) ≡ true
back_is_last [] c = ground arith
back_is_last (x ∷ []) c = ground arith
back_is_last (x ∷ y ∷ ys) c = back_is_last (y ∷ ys) c

pub is_quoted-quote : (t : Bytes) → is_quoted (quote t) ≡ true
is_quoted-quote t = ground (arith, length-append t (b'"' ∷ []), back_is_last (b'"' ∷ t) b'"')

pub unquote-quote : (t : Bytes) → unquote (quote t) ≡ t
unquote-quote t =
    let n : suc (length (t ++ b'"' ∷ [])) - 2 ≡ length t =
      omega (arith, length-append t (b'"' ∷ [])) in
    ap (λ k. take k (t ++ b'"' ∷ [])) n ∙ take-append_length t (b'"' ∷ [])

pub not_empty : (xs : Bytes) (c : ℕ) → is_empty (xs ++ c ∷ []) ≡ false
not_empty [] c = refl
not_empty (x ∷ xs) c = refl

pub drop_end_last :
    (t : ℕ → Bool) (xs : Bytes) (c : ℕ) → t c ≡ false → drop_end t (xs ++ c ∷ []) ≡ xs ++ c ∷ []
drop_end_last t [] c h = rw h
drop_end_last t (x ∷ xs) c h =
    rw (drop_end_last t xs c h)
      (rw (not_empty xs c) (elim (Bool-cases (t x)) [ inl e ↦ rw e | inr e ↦ rw e ]))

pub trim-quote : (t : Bytes) → trim (quote t) ≡ quote t
unfolding trim skip_space
trim-quote t = drop_end_last is_space (b'"' ∷ t) b'"' refl

pub format_value-quote :
    (old v : Bytes)
    → is_quoted v ≡ false
    → (front_is b'"' old || needs_quotes v) ≡ true
    → format_value old v ≡ quote v
unfolding format_value
format_value-quote old v bare quoted = rw (bare, quoted)

module _ (lib : JsonLib) (numbers : Numbers lib.Json) where
  open lib use {Json, string}

  pub quoted_value :
      (t : Bytes)
      → numbers.stoll (quote t) ≡ none
      → numbers.stod (quote t) ≡ none
      → parse_godot_value lib numbers (quote t) ≡ string (unescape t)
  unfolding parse_godot_value trimmed_value number_value text_value
  quoted_value t hl hd = rw (trim-quote t) (
      rw (number_value, hl, hd)
        (rw (is_quoted-quote t) (ap (λ u. string (unescape u)) (unquote-quote t))))

  -- A string that is written between quotes with the escape sequences of `"`, of the backslash,
  -- of the line break and of the tabulator is read back as the same string, where the number
  -- readers do not read a text that begins with a quote.
  pub parse_godot_value-quote :
      (t : Bytes)
      → ((s : Bytes) → numbers.stoll (b'"' ∷ s) ≡ none)
      → ((s : Bytes) → numbers.stod (b'"' ∷ s) ≡ none)
      → parse_godot_value lib numbers (quote (escape t)) ≡ string t
  parse_godot_value-quote t hl hd =
      quoted_value (escape t) (hl _) (hd _) ∙ ap string (unescape-escape t)

  -- A new value without a backslash, which is not itself between quotes, is read back as the
  -- string that was set, where the old value was quoted or the new one needs quotes, and where
  -- the number readers do not read a text that begins with a quote.
  pub parse_godot_value-format_value :
      (old v : Bytes)
      → ((s : Bytes) → numbers.stoll (b'"' ∷ s) ≡ none)
      → ((s : Bytes) → numbers.stod (b'"' ∷ s) ≡ none)
      → NoBackslash v
      → is_quoted v ≡ false
      → (front_is b'"' old || needs_quotes v) ≡ true
      → parse_godot_value lib numbers (format_value old v) ≡ string v
  parse_godot_value-format_value old v hl hd plain bare quoted =
      ap (parse_godot_value lib numbers) (format_value-quote old v bare quoted)
      ∙ quoted_value v (hl _) (hd _)
      ∙ ap string (unescape_whole v plain)
