-- ===== src/Config/Added.antt =====
-- An autoload that was added to a project, as it is then listed.
use gear_mcp_server.Base.{
  str_eq_refl, NoByte, ℕ, ◌≡◌, refl, ap, ◌∙◌, Bool, true, false, none, some, List, [], ◌∷◌, Bytes,
  codes, is_empty, find, lines,
}
use gear_mcp_server.Exec.{Result, ok, threw}
use gear_mcp_server.Json.{JsonLib}
use gear_mcp_server.OrdMap.{lookup, insert, lookup-insert}
use gear_mcp_server.Config.{Disk, read_file, write_file}
use gear_mcp_server.Config.Value.{Numbers, parse_godot_value, format_value, needs_quotes}
use gear_mcp_server.Config.Strings.{
  quote, NoBackslash, is_quoted-quote, unquote-quote, quoted_value, unescape_whole,
}
use gear_mcp_server.Config.Edit.{append_section, set_content}
use gear_mcp_server.Config.Ini.{
  section, Ini, ini_line, ini_lines, parse_ini_file, parse_project_godot, autoload_entry,
  autoload_entries, value_text, get_autoloads,
}
use gear_mcp_server.Config.Project.{project_file, set_project_setting, add_autoload}
use gear_mcp_server.Config.Appended.{
  IsName, entry_of, ini_run, ini_lines-append, empty_line, section_line, entry_line, header_of,
  IsSection, lines-append_section,
}

-- A value that is given between quotes is written between quotes.
format_value-quoted : (t : Bytes) → needs_quotes t ≡ true → format_value [] (quote t) ≡ quote t
unfolding format_value
format_value-quoted t h = rw (is_quoted-quote t) (rw (unquote-quote t) (rw h refl))

pub set_content-append :
    (sn name v c : Bytes)
    → find c (header_of sn) ≡ none
    → set_content sn name v c ≡ append_section name v (header_of sn) c
unfolding set_content
set_content-append sn name v c h = rw h refl

autoload-IsSection : IsSection (codes "autoload")
autoload-IsSection = record {
  some_name = refl;
  no_bracket = (refl, (refl, (refl, (refl, (refl, (refl, (refl, (refl, tt))))))));
  no_break = (refl, (refl, (refl, (refl, (refl, (refl, (refl, (refl, tt))))))));
}

module _ (lib : JsonLib) (numbers : Numbers lib.Json) where
  open lib use {Json, string, array}

  next_line :
      (l : Bytes) (ls : List Bytes) (s t : Bytes × Ini Json)
      → ini_line lib numbers l s ≡ ok t
      → ini_lines lib numbers (l ∷ ls) s ≡ ini_lines lib numbers ls t
  unfolding ini_lines
  next_line l ls s t h =
      ap
        (λ r. elim r as (λ x. Result (Ini Json)) [
          | threw e ↦ threw e
          | ok u ↦ ini_lines lib numbers ls u
        ])
        h

  -- The lines of the new section, read behind a file that has none.
  section_lines :
      (sn : Bytes) (c : ℕ) (cs t sec : Bytes) (res : Ini Json)
      → IsSection sn
      → IsName (c ∷ cs)
      → lookup sn res ≡ none
      → parse_godot_value lib numbers (quote t) ≡ string t
      → ini_lines lib numbers ([] ∷ header_of sn ∷ entry_of (c ∷ cs) t ∷ []) (sec, res)
        ≡ ok (insert sn (section ((c ∷ cs, string t) ∷ [])) (insert sn (section []) res))
  section_lines sn c cs t sec res s n h p =
      let opened = insert sn (section []) res in
      let filled = insert sn (section ((c ∷ cs, string t) ∷ [])) opened in
      let there : lookup sn opened ≡ some (section []) =
        lookup-insert sn sn (section []) res ∙ rw (str_eq_refl sn) refl in
      next_line [] _ (sec, res) (sec, res) (empty_line lib numbers (sec, res))
      ∙ next_line (header_of sn) _ (sec, res) (sn, opened) (section_line lib numbers sn sec res s h)
      ∙ next_line (entry_of (c ∷ cs) t) [] (sn, opened) (sn, filled)
          (entry_line lib numbers sn c cs t [] opened s n there p ∙ unfold insert in refl)
      ∙ unfold ini_lines in refl

  -- What the appended section adds to what the file has.
  pub appended_lines :
      (sn : Bytes) (c : ℕ) (cs t v text sec : Bytes) (res : Ini Json)
      → IsSection sn
      → IsName (c ∷ cs)
      → NoByte b'\n' t
      → format_value [] v ≡ quote t
      → parse_godot_value lib numbers (quote t) ≡ string t
      → ini_run lib numbers (lines text) ([], []) ≡ ok (sec, res)
      → lookup sn res ≡ none
      → ini_lines lib numbers (lines (append_section (c ∷ cs) v (header_of sn) text)) ([], [])
        ≡ ok (insert sn (section ((c ∷ cs, string t) ∷ [])) (insert sn (section []) res))
  appended_lines sn c cs t v text sec res s n ht q p run h =
      ap (λ ls. ini_lines lib numbers ls ([], []))
        (lines-append_section sn (c ∷ cs) v t text s q n.no_break ht)
      ∙ ini_lines-append lib numbers (lines text) _ ([], []) (sec, res) run
      ∙ section_lines sn c cs t sec res s n h p

  module _ {W : Type 0} (disk : Disk W) (ini_error : Bytes → W → Bool) where
    listed_entry :
        (name t : Bytes)
        → autoload_entries lib numbers disk ini_error ((name, string t) ∷ [])
          ≡ ok (autoload_entry lib numbers disk ini_error name t ∷ [])
    unfolding autoload_entries value_text
    listed_entry name t = rw (lib.as_string-string t, autoload_entries, value_text) refl

    listed_section :
        (name t project : Bytes) (res : Ini Json) (w : W)
        → parse_project_godot lib numbers disk ini_error project w
          ≡ ok (insert (codes "autoload") (section ((name, string t) ∷ [])) res)
        → get_autoloads lib numbers disk ini_error project w
          ≡ ok (array (autoload_entry lib numbers disk ini_error name t ∷ []))
    unfolding get_autoloads
    listed_section name t project res w h =
        let found : lookup (codes "autoload")
              (insert (codes "autoload") (section ((name, string t) ∷ [])) res)
            ≡ some (section ((name, string t) ∷ [])) =
          lookup-insert (codes "autoload") (codes "autoload") (section ((name, string t) ∷ []))
            res in
        rw (h, get_autoloads) (rw found (rw (listed_entry name t) refl))

    pub parsed_file :
        (project text : Bytes) (w : W)
        → ini_error (project_file project) w ≡ false
        → disk.read (project_file project) w ≡ some text
        → parse_project_godot lib numbers disk ini_error project w
          ≡ ini_lines lib numbers (lines text) ([], [])
    unfolding parse_project_godot parse_ini_file read_file
    parsed_file project text w h r = rw (h, r) refl

    added_file :
        (project name t text : Bytes) (w w' : W)
        → disk.read (project_file project) w ≡ some text
        → is_empty text ≡ false
        → disk.write (project_file project) (set_content (codes "autoload") name (quote t) text) w
          ≡ (true, w')
        → add_autoload disk project name t w ≡ (true, w')
    unfolding add_autoload set_project_setting read_file write_file
    added_file project name t text w w' r ne written = rw r (rw ne written)

    -- An autoload that is added to a project without a section for autoloads is then the one that
    -- is listed, with its name and its path as they were given, a star before the path taken as
    -- the mark of a singleton. The name is one that the reader takes as it stands; the path is
    -- written between quotes, and has no backslash and no line break; the file is read, parsed and
    -- written without an error, and after the writing it has the text that was written; the number
    -- readers do not read a text that begins with a quote.
    pub get_autoloads-add_autoload :
        (project t text sec : Bytes) (c : ℕ) (cs : Bytes) (res : Ini Json) (w w' : W)
        → disk.read (project_file project) w ≡ some text
        → is_empty text ≡ false
        → find text (codes "[autoload]") ≡ none
        → ini_run lib numbers (lines text) ([], []) ≡ ok (sec, res)
        → lookup (codes "autoload") res ≡ none
        → disk.write
            (project_file project)
            (set_content (codes "autoload") (c ∷ cs) (quote t) text)
            w
          ≡ (true, w')
        → ((f x : Bytes) (v v' : W) → disk.write f x v ≡ (true, v') → disk.read f v' ≡ some x)
        → ini_error (project_file project) w' ≡ false
        → IsName (c ∷ cs)
        → NoByte b'\n' t
        → NoBackslash t
        → needs_quotes t ≡ true
        → ((s : Bytes) → numbers.stoll (b'"' ∷ s) ≡ none)
        → ((s : Bytes) → numbers.stod (b'"' ∷ s) ≡ none)
        → (add_autoload disk project (c ∷ cs) t w ≡ (true, w'))
          × (get_autoloads lib numbers disk ini_error project w'
              ≡ ok (array (autoload_entry lib numbers disk ini_error (c ∷ cs) t ∷ [])))
    get_autoloads-add_autoload project t text sec c cs res w w' r ne absent run unset written reads
          fine name nt plain quoted hl hd =
        let text' = set_content (codes "autoload") (c ∷ cs) (quote t) text in
        let value = quoted_value lib numbers t (hl _) (hd _) ∙ ap string (unescape_whole t plain) in
        (
          added_file project (c ∷ cs) t text w w' r ne written,
          listed_section (c ∷ cs) t project _ w' (
              parsed_file project text' w' fine (reads (project_file project) text' w w' written)
              ∙ ap (λ u. ini_lines lib numbers (lines u) ([], []))
                  (set_content-append (codes "autoload") (c ∷ cs) (quote t) text absent)
              ∙ appended_lines (codes "autoload") c cs t (quote t) text sec res autoload-IsSection
                  name nt (format_value-quoted t quoted) value run unset),
        )
