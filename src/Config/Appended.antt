-- ===== src/Config/Appended.antt =====
-- A section that was appended to a configuration file, as the reader reads it.
use gear_mcp_server.Base.{
  NoByte, NoByte-append, ℕ, ◌≡◌, refl, sym, ap, ◌∙◌, Bool, true, false, not, ◌&&◌, ◌||◌, none, some,
  List, [], ◌∷◌, ◌++◌, append_assoc, if◌then◌else◌, Bool-cases, inl, inr, Bytes, codes, is_empty,
  lines, back_is, front_is, split_at, split_at-NoByte, drop_end,
}
use gear_mcp_server.Exec.{Result, ok, threw}
use gear_mcp_server.Json.{JsonLib}
use gear_mcp_server.OrdMap.{OrdMap, lookup, insert, has_key}
use gear_mcp_server.Config.Value.{Numbers, trim, parse_godot_value, format_value}
use gear_mcp_server.Framing.{skip_space, is_space}
use gear_mcp_server.Config.Strings.{quote, drop_end_last}
use gear_mcp_server.Config.Edit.{new_line, append_section}
use gear_mcp_server.Config.Ini.{
  section, Ini, is_blank, trimmed_line, header_line, set_value, ini_line, ini_lines,
}
use gear_mcp_server.Config.Lines.{lines-line, is_ended, lines-append, lines_end}

abbrev is_space_front : Bytes → Bool
is_space_front [] = false
is_space_front (c ∷ cs) = is_space c

-- A name that the reader takes as it stands.
pub record IsName (name : Bytes) : Type 0 where
  pub starts : is_space_front name ≡ false
  pub no_comment : (front_is b';' name || front_is b'#' name) ≡ false
  pub no_section : front_is b'[' name ≡ false
  pub no_equals : NoByte b'=' name
  pub no_break : NoByte b'\n' name
  pub ends : drop_end is_blank name ≡ name

-- The line of an entry.
abbrev pub entry_of : Bytes → Bytes → Bytes
entry_of name t = name ++ b'=' ∷ quote t

trim-entry_of :
    (c : ℕ) (cs t : Bytes) → is_space c ≡ false → trim (entry_of (c ∷ cs) t) ≡ entry_of (c ∷ cs) t
unfolding trim skip_space
trim-entry_of c cs t h =
    let line = append_assoc (c ∷ cs) (b'=' ∷ b'"' ∷ t) (b'"' ∷ []) in
    rw h (
      ap (drop_end is_space) (sym line)
      ∙ drop_end_last is_space ((c ∷ cs) ++ b'=' ∷ b'"' ∷ t) b'"' refl
      ∙ line)

-- A section's header, as `set_project_setting` writes it.
abbrev pub header_of : Bytes → Bytes
header_of sn = codes "[" ++ sn ++ codes "]"

-- A name of a section that the reader takes as it stands.
pub record IsSection (sn : Bytes) : Type 0 where
  pub some_name : is_empty sn ≡ false
  pub no_bracket : NoByte b']' sn
  pub no_break : NoByte b'\n' sn

trim-header_of : (sn : Bytes) → trim (header_of sn) ≡ header_of sn
unfolding trim skip_space
trim-header_of sn = drop_end_last is_space (b'[' ∷ sn) b']' refl

module _ (lib : JsonLib) (numbers : Numbers lib.Json) where
  open lib use {Json, string}

  -- What the reader has after these lines, with the section that it is in.
  unfoldable pub ini_run : List Bytes → Bytes × Ini Json → Result (Bytes × Ini Json)
  ini_run [] s = ok s
  ini_run (l ∷ ls) s = elim (ini_line lib numbers l s) [ threw e ↦ threw e | ok t ↦ ini_run ls t ]

  pub ini_lines-append :
      (ls ms : List Bytes) (s t : Bytes × Ini Json)
      → ini_run ls s ≡ ok t
      → ini_lines lib numbers (ls ++ ms) s ≡ ini_lines lib numbers ms t
  unfolding ini_run ini_lines
  ini_lines-append [] ms s t h = cc
  ini_lines-append (l ∷ ls) ms s t h =
      by_line (ini_line lib numbers l s) (λ u. ini_lines-append ls ms u t) h
    where
      by_line :
          (r : Result (Bytes × Ini Json))
          → ((u : Bytes × Ini Json)
              → ini_run ls u ≡ ok t
              → ini_lines lib numbers (ls ++ ms) u ≡ ini_lines lib numbers ms t)
          → elim r as (λ x. Result (Bytes × Ini Json)) [ threw e ↦ threw e | ok u ↦ ini_run ls u ]
            ≡ ok t
          → elim r as (λ x. Result (Ini Json)) [
            | threw e ↦ threw e
            | ok u ↦ ini_lines lib numbers (ls ++ ms) u
          ]
            ≡ ini_lines lib numbers ms t
      by_line (threw e) rest h = cc
      by_line (ok u) rest h = rest u h

  pub empty_line : (s : Bytes × Ini Json) → ini_line lib numbers [] s ≡ ok s
  unfolding ini_line trim skip_space
  empty_line s = refl

  pub section_line :
      (sn sec : Bytes) (res : Ini Json)
      → IsSection sn
      → lookup sn res ≡ none
      → ini_line lib numbers (header_of sn) (sec, res) ≡ ok (sn, insert sn (section []) res)
  unfolding ini_line trimmed_line header_line has_key
  section_line sn sec res n h = rw (trim-header_of sn) (
      let bracket : split_at b']' (header_of sn) ≡ some (b'[' ∷ sn, []) =
        split_at-NoByte b']' (b'[' ∷ sn) [] (refl, n.no_bracket) in
      rw (bracket, header_line) (rw h refl))

  pub entry_line :
      (sn : Bytes) (c : ℕ) (cs t : Bytes) (m : OrdMap Json) (res : Ini Json)
      → IsSection sn
      → IsName (c ∷ cs)
      → lookup sn res ≡ some (section m)
      → parse_godot_value lib numbers (quote t) ≡ string t
      → ini_line lib numbers (entry_of (c ∷ cs) t) (sn, res)
        ≡ ok (sn, insert sn (section (insert (c ∷ cs) (string t) m)) res)
  unfolding ini_line trimmed_line set_value
  entry_line sn c cs t m res s n h p = rw (trim-entry_of c cs t n.starts) (
      rw (n.no_comment, n.no_section)
        (rw (split_at-NoByte b'=' (c ∷ cs) (quote t) n.no_equals)
          (rw (n.ends, p) (rw (s.some_name) (rw h refl)))))

-- The text before the new section.
abbrev ended : Bytes → Bytes
ended c = if not (is_empty c) && not (back_is b'\n' c) then c ++ codes "\n" else c

back_is-append : (x : ℕ) (a : Bytes) → back_is b'\n' ((x ∷ a) ++ codes "\n") ≡ true
back_is-append x [] = refl
back_is-append x (y ∷ a) = back_is-append y a

is_ended-ended : (c : Bytes) → is_ended (ended c) ≡ true
is_ended-ended [] = refl
is_ended-ended (x ∷ a) = elim (Bool-cases (back_is b'\n' (x ∷ a))) [
  | inl e ↦ rw e e
  | inr e ↦ rw e (back_is-append x a)
]

lines-ended : (c : Bytes) → lines (ended c) ≡ lines c
lines-ended [] = refl
lines-ended (x ∷ a) = elim (Bool-cases (back_is b'\n' (x ∷ a))) [
  | inl e ↦ rw e refl
  | inr e ↦ rw e (lines_end x a e)
]

-- The new lines: an empty one, the section's header and the entry.
pub lines-append_section :
    (sn name v t c : Bytes)
    → IsSection sn
    → format_value [] v ≡ quote t
    → NoByte b'\n' name
    → NoByte b'\n' t
    → lines (append_section name v (header_of sn) c)
      ≡ lines c ++ [] ∷ header_of sn ∷ entry_of name t ∷ []
unfolding append_section
lines-append_section sn name v t c s q hn ht =
    let header = header_of sn in
    let entry : new_line name v ≡ entry_of name t ++ codes "\n" =
      ap (λ l. l ++ codes "\n")
        (append_assoc name (codes "=") (format_value [] v)
          ∙ ap (λ u. name ++ (codes "=" ++ u)) q) in
    let base = ended c in
    let line = entry_of name t in
    let flat : append_section name v header c
        ≡ base ++ b'\n' ∷ (header ++ b'\n' ∷ (line ++ b'\n' ∷ [])) =
      ap (λ l. base ++ codes "\n" ++ header ++ codes "\n" ++ l) entry
      ∙ append_assoc (base ++ codes "\n" ++ header) (codes "\n") (line ++ codes "\n")
      ∙ append_assoc (base ++ codes "\n") header (codes "\n" ++ (line ++ codes "\n"))
      ∙ append_assoc base (codes "\n") (header ++ (codes "\n" ++ (line ++ codes "\n"))) in
    let unbroken : NoByte b'\n' line =
      NoByte-append b'\n' name (b'=' ∷ quote t) hn
        (refl, (refl, NoByte-append b'\n' t (b'"' ∷ []) ht (refl, tt))) in
    ap lines flat
    ∙ lines-append base (b'\n' ∷ (header ++ b'\n' ∷ (line ++ b'\n' ∷ []))) (is_ended-ended c)
    ∙ ap (λ ls. ls ++ lines (b'\n' ∷ (header ++ b'\n' ∷ (line ++ b'\n' ∷ [])))) (lines-ended c)
    ∙ ap (λ ls. lines c ++ ls)
        (lines-line [] (header ++ b'\n' ∷ (line ++ b'\n' ∷ [])) tt
          ∙ ap (◌∷◌ []) (
              lines-line header (line ++ b'\n' ∷ [])
                (refl, NoByte-append b'\n' sn (codes "]") s.no_break (refl, tt))
              ∙ ap (◌∷◌ header) (lines-line line [] unbroken ∙ unfold lines in refl)))
