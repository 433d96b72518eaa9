-- ===== src/Tests/ConfigTests.antt =====
-- Paths, configuration files and built-in resources, at concrete inputs.
use gear_mcp_server.Base.{
  ℕ, ◌+◌, ◌≡◌, refl, true, none, some, [], ◌∷◌, ◌++◌, Bytes, codes, find, find_from,
}
use gear_mcp_server.Exec.{ok}
use gear_mcp_server.Methods.{Server}
use gear_mcp_server.Registry.{new_registry}
use gear_mcp_server.Paths.{normalize, pop_slashes, res_prefix, to_absolute, to_res_path}
use gear_mcp_server.Paths.Project.{to_res_path-to_absolute}
use gear_mcp_server.Config.Value.{Numbers, needs_quotes, unsigned_not_number, not_number, is_bare}
use gear_mcp_server.Config.Edit.{set_content, removable}
use gear_mcp_server.Config.Splices.{Edited, set_content-Edited}
use gear_mcp_server.Config.Removal.{text}
use gear_mcp_server.Builtin.{Engine}
use gear_mcp_server.Tests.Sample.{Value}

root-normalized : normalize (codes "/proj") ≡ codes "/proj"
unfolding normalize pop_slashes
root-normalized = refl

sibling-normalized :
    normalize (codes "/proj" ++ b'2' ∷ codes "/a.gd") ≡ codes "/proj" ++ b'2' ∷ codes "/a.gd"
unfolding normalize pop_slashes
sibling-normalized = refl

to_res_path-to_absolute_example :
    to_res_path (to_absolute (res_prefix ++ codes "a.gd") (codes "/proj")) (codes "/proj")
    ≡ res_prefix ++ codes "a.gd"
to_res_path-to_absolute_example =
    to_res_path-to_absolute (codes "/proj") (codes "a.gd") root-normalized
      (refl, (refl, (refl, (refl, tt)))) refl refl

-- Number readers that read no text.
abbrev no_numbers : Numbers Value
no_numbers = record { stoll = λ s. none; stod = λ s. none }

vulkan-quotes : needs_quotes (codes "vk") ≡ true
unfolding needs_quotes is_bare unsigned_not_number not_number
vulkan-quotes = refl

abbrev settings : Bytes
settings = codes "[s]\nk=1\n"

set_content-Edited_example :
    Edited
      (codes "k")
      (codes "2")
      settings
      (set_content (codes "s") (codes "k") (codes "2") settings)
set_content-Edited_example = set_content-Edited (codes "s") (codes "k") (codes "2") settings

autoload-header :
    find (text (codes "[autoload]\nB=1") (codes "A=2") (codes "C=3")) (codes "[autoload]") ≡ some 0
unfolding find
autoload-header = refl

autoload-found :
    removable
      (find_from
        (text (codes "[autoload]\nB=1") (codes "A=2") (codes "C=3"))
        (codes "A" ++ codes "=")
        (0 + 10))
      (find_from
        (text (codes "[autoload]\nB=1") (codes "A=2") (codes "C=3"))
        (codes "\n[")
        (0 + 10))
    ≡ some 15
unfolding find find_from
autoload-found = refl

abbrev engine : Engine Value ℕ
engine = record {
  get_project_path = λ w. codes "/proj";
  res_to_absolute = λ p w. p;
  engine_version = λ w. none;
  exists = λ p w. true;
  read = λ p w. none;
  dump_indented = λ j. ok [];
}

abbrev fresh : Server ℕ
fresh = record { registry = new_registry _; resources = []; prompts = []; logs = []; world = 0 }
