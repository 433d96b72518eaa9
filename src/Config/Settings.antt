-- ===== src/Config/Settings.antt =====
-- A setting that was changed in a section that the project did not have, as it is then read.
use gear_mcp_server.Base.{
  ℕ, ◌≡◌, refl, ap, ◌∙◌, Bool, true, false, none, some, [], ◌∷◌, Bytes, is_empty, is_quoted, find,
  lines, NoByte, str_eq_refl,
}
use gear_mcp_server.Exec.{ok}
use gear_mcp_server.OrdMap.{lookup, insert, lookup-insert, lookup_head}
use gear_mcp_server.Json.{JsonLib}
use gear_mcp_server.Config.{Disk, read_file, write_file}
use gear_mcp_server.Config.Value.{Numbers, needs_quotes}
use gear_mcp_server.Config.Strings.{NoBackslash, format_value-quote, quoted_value, unescape_whole}
use gear_mcp_server.Config.Edit.{set_content}
use gear_mcp_server.Config.Ini.{
  section, Ini, ini_lines, parse_project_godot, setting, get_project_setting,
}
use gear_mcp_server.Config.Project.{project_file, set_project_setting}
use gear_mcp_server.Config.Appended.{IsName, IsSection, header_of, ini_run}
use gear_mcp_server.Config.Added.{set_content-append, appended_lines, parsed_file}

module _ (lib : JsonLib) (numbers : Numbers lib.Json) {W : Type 0} (disk : Disk W)
    (ini_error : Bytes → W → Bool) where
  open lib use {Json, string, dump}

  setting_head :
      (sn name : Bytes) (j : Json) (res : Ini Json)
      → is_empty sn ≡ false
      → setting lib numbers disk ini_error sn name (insert sn (section ((name, j) ∷ [])) res)
        ≡ some j
  unfolding setting
  setting_head sn name j res e =
      let there : lookup sn (insert sn (section ((name, j) ∷ [])) res)
          ≡ some (section ((name, j) ∷ [])) =
        lookup-insert sn sn (section ((name, j) ∷ [])) res ∙ rw (str_eq_refl sn) refl in
      rw e (rw there (lookup_head name j []))

  read_setting :
      (project sn name : Bytes) (j : Json) (res : Ini Json) (w : W)
      → is_empty sn ≡ false
      → parse_project_godot lib numbers disk ini_error project w
        ≡ ok (insert sn (section ((name, j) ∷ [])) res)
      → get_project_setting lib numbers disk ini_error project sn name w ≡ dump j
  unfolding get_project_setting
  read_setting project sn name j res w e h =
      rw (h, get_project_setting) (rw (setting_head sn name j res e) refl)

  set_file :
      (project sn name v text : Bytes) (w w' : W)
      → disk.read (project_file project) w ≡ some text
      → is_empty text ≡ false
      → disk.write (project_file project) (set_content sn name v text) w ≡ (true, w')
      → set_project_setting disk project sn name v w ≡ (true, w')
  unfolding set_project_setting read_file write_file
  set_file project sn name v text w w' r ne written = rw r (rw ne written)

  -- What a changed setting rests on: the file of the project, with this text, has no section of
  -- that name; the section's name and the key are ones that the reader takes as they stand; the
  -- value is written between quotes, and has no backslash and no line break; the file is read,
  -- parsed and written without an error, and after a writing it has the text that was written;
  -- the number readers do not read a text that begins with a quote.
  pub record CanChange (project sn name v text : Bytes) (w w' : W) : Type 0 where
    pub last : Bytes
    pub ini_parsed : Ini Json
    pub opens : disk.read (project_file project) w ≡ some text
    pub some_text : is_empty text ≡ false
    pub no_header : find text (header_of sn) ≡ none
    pub parses : ini_run lib numbers (lines text) ([], []) ≡ ok (last, ini_parsed)
    pub no_section : lookup sn ini_parsed ≡ none
    pub is_written : disk.write (project_file project) (set_content sn name v text) w ≡ (true, w')
    pub reads : (f x : Bytes) (u u' : W) → disk.write f x u ≡ (true, u') → disk.read f u' ≡ some x
    pub no_error : ini_error (project_file project) w' ≡ false
    pub name_of_section : IsSection sn
    pub name_of_key : IsName name
    pub no_break : NoByte b'\n' v
    pub no_backslash : NoBackslash v
    pub not_quoted : is_quoted v ≡ false
    pub quotes : needs_quotes v ≡ true
    pub stoll_quote : (s : Bytes) → numbers.stoll (b'"' ∷ s) ≡ none
    pub stod_quote : (s : Bytes) → numbers.stod (b'"' ∷ s) ≡ none

  pub get_project_setting-set_project_setting :
      (project sn : Bytes) (c : ℕ) (cs v text : Bytes) (w w' : W)
      → CanChange project sn (c ∷ cs) v text w w'
      → (set_project_setting disk project sn (c ∷ cs) v w ≡ (true, w'))
        × (get_project_setting lib numbers disk ini_error project sn (c ∷ cs) w' ≡ dump (string v))
  get_project_setting-set_project_setting project sn c cs v text w w' h =
      let after = set_content sn (c ∷ cs) v text in
      let value =
        quoted_value lib numbers v (h.stoll_quote _) (h.stod_quote _)
        ∙ ap string (unescape_whole v h.no_backslash) in
      (
        set_file project sn (c ∷ cs) v text w w' h.opens h.some_text h.is_written,
        read_setting project sn (c ∷ cs) (string v) _ w' (h.name_of_section.some_name) (
            parsed_file lib numbers disk ini_error project after w' h.no_error
              (h.reads (project_file project) after w w' h.is_written)
            ∙ ap (λ u. ini_lines lib numbers (lines u) ([], []))
                (set_content-append sn (c ∷ cs) v text h.no_header)
            ∙ appended_lines lib numbers sn c cs v v text h.last h.ini_parsed h.name_of_section
                h.name_of_key h.no_break (format_value-quote [] v h.not_quoted h.quotes) value
                h.parses h.no_section),
      )
