-- ===== src/Tests/AutoloadTests.antt =====
-- The autoloads of a small project.
use gear_mcp_server.Base.{
  ◌≡◌, refl, sym, ap, Bool, true, false, none, some, [], ◌∷◌, Bytes, codes, find, lines, split_at,
}
use gear_mcp_server.Exec.{ok}
use gear_mcp_server.Json.{JsonLib}
use gear_mcp_server.OrdMap.{lookup, insert, has_key}
use gear_mcp_server.Framing.{skip_space}
use gear_mcp_server.Config.{Disk}
use gear_mcp_server.Config.Value.{
  Numbers, trim, needs_quotes, is_bare, unsigned_not_number, not_number,
}
use gear_mcp_server.Config.Strings.{quote}
use gear_mcp_server.Config.Ini.{
  section, Ini, ini_line, trimmed_line, header_line, autoload_entry, get_autoloads,
}
use gear_mcp_server.Config.Edit.{set_content}
use gear_mcp_server.Config.Project.{add_autoload}
use gear_mcp_server.Config.Appended.{IsName, ini_run}
use gear_mcp_server.Config.Added.{get_autoloads-add_autoload}
use gear_mcp_server.Tests.Sample.{Value, record_of, fields_of, parsing}

abbrev any_lib : JsonLib
any_lib = parsing (λ t. ok (record_of (fields_of [])))

abbrev no_numbers : Numbers Value
no_numbers = record { stoll = λ s. none; stod = λ s. none }

-- One file, whatever its name.
abbrev one_disk : Disk Bytes
one_disk = record { read = λ f w. some w; write = λ f x w. (true, x) }

abbrev no_error : Bytes → Bytes → Bool
no_error f w = false

abbrev project_text : Bytes
project_text = codes "[application]\n"

abbrev sections : Ini Value
sections = (codes "application", section []) ∷ []

hud-IsName : IsName (codes "Hud")
hud-IsName = record {
  starts = refl;
  no_comment = refl;
  no_section = refl;
  no_equals = (refl, (refl, (refl, tt)));
  no_break = (refl, (refl, (refl, tt)));
  ends = refl;
}

abbrev new_text : Bytes
new_text = set_content (codes "autoload") (codes "Hud") (quote (codes "*a.gd")) project_text

get_autoloads-add_autoload_example :
    (add_autoload one_disk (codes "/p") (codes "Hud") (codes "*a.gd") project_text
      ≡ (true, new_text))
    × (get_autoloads any_lib no_numbers one_disk no_error (codes "/p") new_text
        ≡ ok (
            any_lib.array (
              autoload_entry any_lib no_numbers one_disk no_error (codes "Hud") (codes "*a.gd")
              ∷ [])))
unfolding find ini_run lines ini_line trim skip_space trimmed_line header_line split_at has_key
    lookup insert needs_quotes is_bare unsigned_not_number not_number
get_autoloads-add_autoload_example =
    get_autoloads-add_autoload any_lib no_numbers one_disk no_error (codes "/p") (codes "*a.gd")
      project_text (codes "application") b'H' (codes "ud") sections project_text new_text refl refl
      refl refl refl refl (λ f x v v' e. ap (λ p. some p.1) (sym e)) refl hud-IsName
      (refl, (refl, (refl, (refl, (refl, tt))))) (refl, (refl, (refl, (refl, (refl, tt))))) refl
      (λ s. refl) (λ s. refl)
