-- ===== src/Config/Presets.antt =====
-- src/shared/config_parser.cpp: `parse_export_presets`.
use gear_mcp_server.Base.{
  Bool, true, Option, none, some, List, [], ◌∷◌, ◌++◌, ◌&&◌, ltb, if◌then◌else◌, Bytes, codes,
  str_eq, take, drop, length, is_empty, map,
}
use gear_mcp_server.Exec.{Result, ok, threw}
use gear_mcp_server.OrdMap.{OrdMap, lookup, insert}
use gear_mcp_server.Json.{JsonLib, ℤ}
use gear_mcp_server.Paths.{normalize}
use gear_mcp_server.Config.{Disk}
use gear_mcp_server.Config.Value.{Numbers, is_digit}
use gear_mcp_server.Config.Ini.{Node, leaf, section, Ini, parse_ini_file}

unfoldable pub all_digits : Bytes → Bool
all_digits [] = true
all_digits (c ∷ cs) = is_digit c && all_digits cs

-- The number in the name of a section `preset.N`.
unfoldable pub preset_suffix : Bytes → Option Bytes
preset_suffix key =
    if str_eq (take 7 key) (codes "preset.") && ltb 7 (length key) && all_digits (drop 7 key)
    then some (drop 7 key)
    else none

module _ (lib : JsonLib) where
  open lib use {Json, number, object}

  -- preset["options"] = all_presets[options_key], where there is that section
  abbrev pub put_options : Option (Node Json) → OrdMap Json → OrdMap Json
  put_options none preset = preset
  put_options (some (leaf j)) preset = insert (codes "options") j preset
  put_options (some (section m)) preset = insert (codes "options") (object m) preset

  -- One preset with its index; the index stands beside it for the sorting.
  unfoldable pub preset_entry : Ini Json → Bytes → ℤ → OrdMap Json → ℤ × OrdMap Json
  preset_entry all_presets suffix index value = (
    index,
    put_options (lookup (codes "preset." ++ suffix ++ codes ".options") all_presets)
        (insert (codes "index") (number index) value),
  )

  -- The loop over the sections. `stoi` is std::stoi, which may throw.
  module _ (stoi : Bytes → Result ℤ) (all_presets : Ini Json) where
    abbrev pub push_entry :
        Bytes
        → OrdMap Json
        → Result ℤ
        → Result (List (ℤ × OrdMap Json))
        → Result (List (ℤ × OrdMap Json))
    push_entry suffix value (threw e) rest = threw e
    push_entry suffix value (ok index) (threw e) = threw e
    push_entry suffix value (ok index) (ok es) =
        ok (preset_entry all_presets suffix index value ∷ es)

    abbrev pub push_preset :
        Option Bytes → Node Json → Result (List (ℤ × OrdMap Json)) → Result (List (ℤ × OrdMap Json))
    push_preset none n rest = rest
    push_preset (some suffix) (leaf j) rest = rest
    push_preset (some suffix) (section value) rest = push_entry suffix value (stoi suffix) rest

    unfoldable pub preset_entries : Ini Json → Result (List (ℤ × OrdMap Json))
    preset_entries [] = ok []
    preset_entries ((key, n) ∷ ms) = push_preset (preset_suffix key) n (preset_entries ms)

  abbrev pub entry_object : ℤ × OrdMap Json → Json
  entry_object (index, preset) = object preset

-- `sort` is std::sort by the first component.
module _ (lib : JsonLib) (numbers : Numbers lib.Json) {W : Type 0} (disk : Disk W)
    (ini_error : Bytes → W → Bool) (stoi : Bytes → Result ℤ)
    (sort : List (ℤ × OrdMap lib.Json) → List (ℤ × OrdMap lib.Json)) where
  open lib use {Json, array}

  abbrev pub sorted_presets : Result (List (ℤ × OrdMap Json)) → Result Json
  sorted_presets (threw e) = threw e
  sorted_presets (ok es) = ok (array (map (entry_object lib) (sort es)))

  abbrev pub presets_of : Result (Ini Json) → Result Json
  presets_of (threw e) = threw e
  presets_of (ok all_presets) =
      if is_empty all_presets
      then ok (array [])
      else sorted_presets (preset_entries lib stoi all_presets all_presets)

  unfoldable pub parse_export_presets : Bytes → W → Result Json
  parse_export_presets p_project_path w = presets_of (
      parse_ini_file lib numbers disk ini_error
        (normalize p_project_path ++ codes "/export_presets.cfg") w)
