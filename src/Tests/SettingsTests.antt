-- ===== src/Tests/SettingsTests.antt =====
-- A setting of a small project.
use gear_mcp_server.Base.{
  ◌≡◌, refl, sym, ap, Bool, true, false, none, some, [], ◌∷◌, Bytes, codes, find, lines, split_at,
}
use gear_mcp_server.Exec.{Result, ok}
use gear_mcp_server.Json.{JsonLib, member}
use gear_mcp_server.Methods.Rpc.{value}
use gear_mcp_server.OrdMap.{lookup, insert, has_key}
use gear_mcp_server.Framing.{skip_space}
use gear_mcp_server.Config.{Disk}
use gear_mcp_server.Config.Value.{
  Numbers, trim, needs_quotes, is_bare, unsigned_not_number, not_number,
}
use gear_mcp_server.Config.Ini.{section, ini_line, trimmed_line, header_line}
use gear_mcp_server.Config.Edit.{set_content}
use gear_mcp_server.Config.Appended.{IsName, IsSection, ini_run}
use gear_mcp_server.Config.Settings.{CanChange}
use gear_mcp_server.Tools.{Values, answered}
use gear_mcp_server.Tools.Project.Handlers.{handle_get_project_setting, handle_set_project_setting}
use gear_mcp_server.Tools.Project.Settings.{handle_get_project_setting-handle_set_project_setting}
use gear_mcp_server.Tests.Sample.{Value, text, record_of, fields_of, parsing, values_of}

abbrev setting_params : Value
setting_params = record_of (
    fields_of (
      (codes "project_path", text (codes "/p"))
      ∷ (codes "section", text (codes "audio"))
      ∷ (codes "key", text (codes "bus"))
      ∷ (codes "value", text (codes "main bus"))
      ∷ []))

abbrev setting_read : Bytes → Result Value
setting_read t = ok setting_params

abbrev setting_lib : JsonLib
setting_lib = parsing setting_read

abbrev setting_values : Values setting_lib
setting_values = values_of setting_read

abbrev unread : Numbers Value
unread = record { stoll = λ s. none; stod = λ s. none }

-- One file, whatever its name.
abbrev only_file : Disk Bytes
only_file = record { read = λ f w. some w; write = λ f x w. (true, x) }

abbrev parses_well : Bytes → Bytes → Bool
parses_well f w = false

abbrev old_text : Bytes
old_text = codes "[application]\n"

abbrev changed_text : Bytes
changed_text = set_content (codes "audio") (codes "bus") (codes "main bus") old_text

bus-IsName : IsName (codes "bus")
bus-IsName = record {
  starts = refl;
  no_comment = refl;
  no_section = refl;
  no_equals = (refl, (refl, (refl, tt)));
  no_break = (refl, (refl, (refl, tt)));
  ends = refl;
}

audio-IsSection : IsSection (codes "audio")
audio-IsSection = record {
  some_name = refl;
  no_bracket = (refl, (refl, (refl, (refl, (refl, tt)))));
  no_break = (refl, (refl, (refl, (refl, (refl, tt)))));
}

bus-CanChange :
    CanChange setting_lib unread only_file parses_well
      (codes "/p")
      (codes "audio")
      (codes "bus")
      (codes "main bus")
      old_text
      old_text
      changed_text
unfolding find ini_run lines ini_line trim skip_space trimmed_line header_line split_at has_key
    lookup insert needs_quotes is_bare unsigned_not_number not_number
bus-CanChange = record {
  last = codes "application";
  ini_parsed = (codes "application", section []) ∷ [];
  opens = refl;
  some_text = refl;
  no_header = refl;
  parses = refl;
  no_section = refl;
  is_written = refl;
  reads = λ f x u u' e. ap (λ p. some p.1) (sym e);
  no_error = refl;
  name_of_section = audio-IsSection;
  name_of_key = bus-IsName;
  no_break = (refl, (refl, (refl, (refl, (refl, (refl, (refl, (refl, tt))))))));
  no_backslash = (refl, (refl, (refl, (refl, (refl, (refl, (refl, (refl, tt))))))));
  not_quoted = refl;
  quotes = refl;
  stoll_quote = λ s. refl;
  stod_quote = λ s. refl;
}

handle_get_project_setting-handle_set_project_setting_example :
    (handle_set_project_setting setting_lib setting_values only_file
        (λ w. [])
        unread
        parses_well
        (codes "{}")
        old_text
      ≡ (
        answered (
            setting_lib.dump (
              setting_lib.object (
                (codes "success", setting_lib.boolean true)
                ∷ (codes "section", text (codes "audio"))
                ∷ (codes "key", text (codes "bus"))
                ∷ (codes "value", text (codes "main bus"))
                ∷ []))),
        changed_text,
      ))
    × (handle_get_project_setting setting_lib setting_values only_file
          (λ w. [])
          unread
          parses_well
          (codes "{}")
          changed_text
        ≡ (
          answered (
              setting_lib.dump (
                setting_lib.object (
                  (codes "success", setting_lib.boolean true)
                  ∷ (codes "section", text (codes "audio"))
                  ∷ (codes "key", text (codes "bus"))
                  ∷ (codes "value", text (codes "\"main bus\""))
                  ∷ []))),
          changed_text,
        ))
unfolding value member
handle_get_project_setting-handle_set_project_setting_example =
    handle_get_project_setting-handle_set_project_setting setting_lib setting_values only_file
      (λ w. []) unread parses_well (codes "{}") (codes "{}") setting_params setting_params
      (codes "/p") (codes "audio") b'b' (codes "us") (codes "main bus") old_text
      (codes "\"main bus\"") old_text changed_text refl refl refl refl refl refl refl refl refl refl
      bus-CanChange refl
