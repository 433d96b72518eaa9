-- ===== src/Builtin/Readers.antt =====
-- src/server/phase4_resources.cpp: the readers of scenes, scripts and resource files, which
-- differ in the prefix of their URIs, in their error text and in the language they report. The
-- reader is called with a URI that has the prefix.
use gear_mcp_server.Base.{
  Option, none, some, [], ◌∷◌, ◌++◌, if◌then◌else◌, Bytes, codes, str_eq, take, drop, length,
  is_empty,
}
use gear_mcp_server.Exec.{Result}
use gear_mcp_server.Json.{JsonLib}
use gear_mcp_server.Builtin.{Engine, detect_language, int_of_size}

abbrev pub scene_prefix : Bytes
scene_prefix = codes "godot://scene/"

abbrev pub script_prefix : Bytes
script_prefix = codes "godot://script/"

abbrev pub resource_prefix : Bytes
resource_prefix = codes "godot://resource/"

-- The path with res:// in front, unless it has it.
unfoldable pub with_res : Bytes → Bytes
with_res res_path =
    if str_eq (take 6 res_path) (codes "res://") then res_path else codes "res://" ++ res_path

unfoldable pub text_or_empty : Option Bytes → Bytes
text_or_empty none = []
text_or_empty (some t) = t

module _ (lib : JsonLib) {W : Type 0} (engine : Engine lib.Json W) where
  open lib use {Json, string, number, object, dump}

  unfoldable pub read_text_file : Bytes → W → Bytes
  read_text_file p_path w = text_or_empty (engine.read p_path w)

  unfoldable pub file_json : Bytes → Bytes → Bytes → Bytes → Bytes → Json
  file_json p_uri res_path abs language content = object (
      (codes "uri", string p_uri)
      ∷ (codes "path", string res_path)
      ∷ (codes "absolute_path", string abs)
      ∷ (codes "language", string language)
      ∷ (codes "size_bytes", number (int_of_size (length content)))
      ∷ (codes "content", string content)
      ∷ [])

  -- What the three readers share, from the path in the URI on. The language is a function of
  -- the path.
  unfoldable pub read_path : Bytes → (Bytes → Bytes) → Bytes → Bytes → W → Result Bytes
  read_path missing language p_uri path w =
      if is_empty path
      then dump (object ((codes "error", string (codes "empty path")) ∷ []))
      else let res_path = with_res path in
        let abs = engine.res_to_absolute res_path w in
        let content = read_text_file abs w in
        if is_empty content
        then dump (object ((codes "error", string missing) ∷ (codes "path", string res_path) ∷ []))
        else engine.dump_indented (file_json p_uri res_path abs (language res_path) content)

  unfoldable pub resource_scene : Bytes → W → Result Bytes × W
  resource_scene p_uri w = (
    read_path (codes "scene not found") (λ _. codes "godot-scene") p_uri
        (drop (length scene_prefix) p_uri) w,
    w,
  )

  unfoldable pub resource_script : Bytes → W → Result Bytes × W
  resource_script p_uri w = (
    read_path (codes "script not found") detect_language p_uri (drop (length script_prefix) p_uri)
        w,
    w,
  )

  unfoldable pub resource_resource : Bytes → W → Result Bytes × W
  resource_resource p_uri w = (
    read_path (codes "resource not found") detect_language p_uri
        (drop (length resource_prefix) p_uri) w,
    w,
  )
