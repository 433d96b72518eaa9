-- ===== src/Config/Edit.antt =====
-- src/shared/config_parser.cpp: the changes of a configuration file, as changes of its text.
use gear_mcp_server.Base.{
  ℕ, suc, ◌+◌, ◌-◌, Bool, not, Option, none, some, [], ◌++◌, ◌&&◌, ltb, if◌then◌else◌, Bytes, codes,
  find, find_from, take, drop, substr, length, is_empty, front_is, back_is,
}
use gear_mcp_server.Config.Value.{format_value}

abbrev pub or_end : Option ℕ → Bytes → ℕ
or_end none content = length content
or_end (some p) content = p

-- replace(pos, stop - pos, text); with stop = pos it is insert, with text = "" it is erase.
abbrev pub splice : ℕ → ℕ → Bytes → Bytes → Bytes
splice pos stop text content = take pos content ++ text ++ drop stop content

abbrev pub key_prefix : Bytes → Bytes
key_prefix p_key = p_key ++ codes "="

-- A new entry, where there was none.
abbrev pub new_line : Bytes → Bytes → Bytes
new_line p_key p_value = key_prefix p_key ++ format_value [] p_value ++ codes "\n"

module _ (p_key p_value : Bytes) where
  -- The section does not exist: it is added at the end.
  unfoldable pub append_section : Bytes → Bytes → Bytes
  append_section section_header content =
      (if not (is_empty content) && not (back_is b'\n' content)
        then content ++ codes "\n"
        else content)
      ++ codes "\n"
      ++ section_header
      ++ codes "\n"
      ++ new_line p_key p_value

  -- The line from the key on is replaced.
  unfoldable pub replace_line : ℕ → Bytes → Bytes
  replace_line key_pos content =
      let val_start = key_pos + length (key_prefix p_key) in
      let line_end = or_end (find_from content (codes "\n") key_pos) content in
      let existing_value = substr content val_start (line_end - val_start) in
      splice key_pos line_end (key_prefix p_key ++ format_value existing_value p_value) content

  -- `start` is the position behind the section's header.
  unfoldable pub insert_line : ℕ → Bytes → Bytes
  insert_line start content =
      let insert_pos = if front_is b'\n' (drop start content) then suc start else start in
      splice insert_pos insert_pos (new_line p_key p_value) content

  -- The key was found at a position, or not; the section ends at `next_section`.
  abbrev pub set_key : Option ℕ → ℕ → ℕ → Bytes → Bytes
  set_key none next_section start content = insert_line start content
  set_key (some key_pos) next_section start content =
      if ltb key_pos next_section then replace_line key_pos content else insert_line start content

  unfoldable pub set_in_section : ℕ → Bytes → Bytes
  set_in_section start content =
      set_key (find_from content (key_prefix p_key) start)
        (or_end (find_from content (codes "\n[") start) content) start content

  -- The section's header was found at a position, or not.
  abbrev pub set_section : Option ℕ → Bytes → Bytes → Bytes
  set_section none section_header content = append_section section_header content
  set_section (some section_pos) section_header content =
      set_in_section (section_pos + length section_header) content

-- The new text that `set_project_setting` writes.
unfoldable pub set_content : Bytes → Bytes → Bytes → Bytes → Bytes
set_content p_section p_key p_value content =
    let section_header = codes "[" ++ p_section ++ codes "]" in
    set_section p_key p_value (find content section_header) section_header content

-- The key was found at a position, or not; then the next section, or none. A key behind the
-- section is not removed.
abbrev pub removable : Option ℕ → Option ℕ → Option ℕ
removable none next_section = none
removable (some key_pos) none = some key_pos
removable (some key_pos) (some next_section) =
    if ltb next_section key_pos then none else some key_pos

-- Whether the byte before the position is a line break.
abbrev pub after_break : ℕ → Bytes → Bool
after_break pos content = ltb 0 pos && front_is b'\n' (drop (pos - 1) content)

abbrev pub past_break : Option ℕ → Bytes → ℕ
past_break none content = length content
past_break (some p) content = suc p

unfoldable pub erase_line : ℕ → Bytes → Bytes
erase_line key_pos content =
    let line_start = if after_break key_pos content then key_pos - 1 else key_pos in
    splice line_start (past_break (find_from content (codes "\n") key_pos) content) [] content

abbrev pub erase_found : Option ℕ → Bytes → Option Bytes
erase_found none content = none
erase_found (some key_pos) content = some (erase_line key_pos content)

-- The new text that `remove_autoload` writes; `none` where it returns false.
unfoldable pub remove_content : Bytes → Bytes → Option Bytes
remove_content p_name content =
    let section_header = codes "[autoload]" in
    elim (find content section_header) [
      | none ↦ none
      | some section_pos ↦
          let start = section_pos + length section_header in
          erase_found
            (removable (find_from content (p_name ++ codes "=") start)
              (find_from content (codes "\n[") start))
            content
    ]
