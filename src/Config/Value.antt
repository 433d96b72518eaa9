-- ===== src/Config/Value.antt =====
-- src/shared/config_parser.cpp: `parse_godot_value`, and the quoting of a new value.
use gear_mcp_server.Base.{
  ℕ, Bool, true, false, not, Option, none, some, [], ◌∷◌, ◌++◌, ◌&&◌, ◌||◌, ◌==◌, leb,
  if◌then◌else◌, Bytes, codes, str_eq, is_empty, drop_end, front_is, is_quoted, unquote,
}
use gear_mcp_server.Framing.{is_space, skip_space}
use gear_mcp_server.Json.{JsonLib, ℤ}

-- The two number readers of the standard library, where they read the whole text: std::stoll,
-- and std::stod as a JSON value.
pub record Numbers (Json : Type 0) : Type 0 where
  pub stoll : Bytes → Option ℤ
  pub stod : Bytes → Option Json

unfoldable pub trim : Bytes → Bytes
trim v = drop_end is_space (skip_space v)

-- The byte that a backslash and the second byte stand for.
abbrev pub escape_of : ℕ → ℕ → Option ℕ
escape_of c d =
    if c == b'\\'
    then if d == b'"'
      then some b'"'
      else if d == b'\\'
      then some b'\\'
      else if d == b'n'
      then some b'\n'
      else if d == b't'
      then some b'\t'
      else none
    else none

unfoldable pub unescape : Bytes → Bytes
unescape [] = []
unescape (c ∷ []) = c ∷ []
unescape (c ∷ d ∷ cs) = elim (escape_of c d) [
  | some e ↦ e ∷ unescape cs
  | none ↦ c ∷ unescape (d ∷ cs)
]

module _ (lib : JsonLib) (numbers : Numbers lib.Json) where
  open lib use {Json, string, number, boolean}

  -- From the test for a quoted string on; any other text is kept as a string.
  unfoldable pub text_value : Bytes → Json
  text_value v = if is_quoted v then string (unescape (unquote v)) else string v

  unfoldable pub number_value : Bytes → Json
  number_value v = elim (numbers.stoll v) [
    | some n ↦ number n
    | none ↦ elim (numbers.stod v) [ some x ↦ x | none ↦ text_value v ]
  ]

  unfoldable pub trimmed_value : Bytes → Json
  trimmed_value v =
      if is_empty v
      then string []
      else if str_eq v (codes "true")
      then boolean true
      else if str_eq v (codes "false")
      then boolean false
      else number_value v

  unfoldable pub parse_godot_value : Bytes → Json
  parse_godot_value p_value = trimmed_value (trim p_value)

abbrev pub is_digit : ℕ → Bool
is_digit c = leb b'0' c && leb c b'9'

-- The bytes that a number may have besides digits.
abbrev pub is_mark : ℕ → Bool
is_mark c = c == b'.' || c == b'e' || c == b'E' || c == b'+' || c == b'-'

-- The loop over the bytes of a number.
unfoldable pub not_number : Bytes → Bool → Bool → Bool
not_number [] seen_dot any_digit = not any_digit
not_number (c ∷ cs) seen_dot any_digit =
    let rest = not_number cs (seen_dot || c == b'.') (any_digit || is_digit c) in
    if is_digit c then rest else if is_mark c && not seen_dot then rest else true

-- The loop from behind a sign.
unfoldable pub unsigned_not_number : Bytes → Bool
unsigned_not_number [] = true
unsigned_not_number (c ∷ cs) =
    if c == b'-' || c == b'+' then not_number cs false false else not_number (c ∷ cs) false false

unfoldable pub is_bare : Bytes → Bool
is_bare v =
    str_eq v (codes "true")
    || str_eq v (codes "false")
    || str_eq v (codes "null")
    || str_eq v (codes "Inf")
    || str_eq v (codes "NaN")
    || str_eq v (codes "self")
    || str_eq v (codes "Resource")

unfoldable pub needs_quotes : Bytes → Bool
needs_quotes v =
    if is_empty v
    then false
    else if is_quoted v
    then false
    else if front_is b'"' v
    then true
    else if is_bare v
    then false
    else unsigned_not_number v

unfoldable pub format_value : Bytes → Bytes → Bytes
format_value existing_line_value new_value =
    let was_quoted = front_is b'"' existing_line_value in
    let inner = if is_quoted new_value then unquote new_value else new_value in
    if was_quoted || needs_quotes inner then codes "\"" ++ inner ++ codes "\"" else inner
