-- ===== src/Tools/Intent/Report.antt =====
-- src/tools/intent/intent_tools.cpp: the handlers that report the state. `show` is a size in
-- decimal digits, as an output stream writes it.
use gear_mcp_server.Base.{
  ℕ, Bool, true, false, not, Option, none, some, List, [], ◌∷◌, ◌++◌, ◌==◌, if◌then◌else◌, ltb, leb,
  Bytes, codes, is_empty,
}
use gear_mcp_server.Exec.{Result, ok, threw, Exec, lift, gets, modify, ◌>>=◌, ◌>>◌}
use gear_mcp_server.Json.{JsonLib, ℤ, pos, negsuc}
use gear_mcp_server.Methods.Rpc.{value}
use gear_mcp_server.Paths.{has_traversal, ensure_parent_dirs}
use gear_mcp_server.Builtin.{int_of_size}
use gear_mcp_server.Tools.{Values, value_of, refuse, reply}
use gear_mcp_server.Tools.Intent.{
  Kind, snapshots, decisions, work_steps, traces, Notes, State, Desk, notes_json,
  resolve_state_path, is_recording, timestamp, count_json, keep_last,
}
use gear_mcp_server.Tools.Intent.Record.{Handler, on_parsed, load}
use gear_mcp_server.Tools.Intent.Brief.{brief_text}

-- if (n < 1) n = low; if (n > high) n = high
abbrev pub clamp : ℕ → ℕ → ℤ → ℕ
clamp low high (negsuc n) = low
clamp low high (pos n) = if n == 0 then low else if ltb high n then high else n

module _ (lib : JsonLib) (values : Values lib) {W : Type 0} (desk : Desk W) where
  open lib use {Json, string, number, boolean, object, array, dump, find, type_error}

  abbrev pub last_of : ℕ → Option (List Json) → Json → Result Json
  last_of n none j = threw (type_error j)
  last_of n (some xs) j = ok (array (keep_last n xs))

  -- The last items of an array; a value with few items is reported as it is.
  unfoldable pub recent_tail : ℕ → Json → Result Json
  recent_tail n j = if leb (values.size j) n then ok j else last_of n (values.as_array j) j

  unfoldable pub counts_json : Notes Json → Json
  counts_json g = object (
      (codes "snapshots", count_json lib values desk snapshots g)
      ∷ (codes "decisions", count_json lib values desk decisions g)
      ∷ (codes "work_steps", count_json lib values desk work_steps g)
      ∷ (codes "traces", count_json lib values desk traces g)
      ∷ [])

  unfoldable pub recording_now : Exec (State Json W) Bool
  recording_now s = (is_recording lib values desk s, s)

  unfoldable pub tail_of : ℕ → Kind → Exec (State Json W) Json
  tail_of n k s = (recent_tail n (s.notes.arrays k), s)

  unfoldable pub summarize : ℕ → Handler lib values desk
  summarize n = do
    load lib values desk
    recording ← recording_now
    counts ← gets (λ s. counts_json s.notes)
    recent_snapshots ← tail_of n snapshots
    recent_decisions ← tail_of n decisions
    recent_work_steps ← tail_of n work_steps
    recent_traces ← tail_of n traces
    reply (
        dump (
          object (
            (codes "recording", boolean recording)
            ∷ (codes "counts", counts)
            ∷ (codes "recent_snapshots", recent_snapshots)
            ∷ (codes "recent_decisions", recent_decisions)
            ∷ (codes "recent_work_steps", recent_work_steps)
            ∷ (codes "recent_traces", recent_traces)
            ∷ [])))

  unfoldable pub handle_summarize_intent_context : Bytes → Handler lib values desk
  handle_summarize_intent_context p_params_json =
      on_parsed lib values desk (lib.parse p_params_json) (λ params. do
        max_recent ← lift (value_of lib values.as_int params (codes "max_recent") (pos 5))
        summarize (clamp 5 100 max_recent))

  module _ (show : ℕ → Bytes) where
    unfoldable pub generate_brief : Bytes → ℕ → Handler lib values desk
    generate_brief title n = do
      load lib values desk
      t ← timestamp lib values desk
      brief ← (λ s. (brief_text lib values desk show true title n t s.notes, s))
      counts ← gets (λ s. counts_json s.notes)
      reply (
          dump (
            object (
              (codes "success", boolean true)
              ∷ (codes "brief", string brief)
              ∷ (codes "counts", counts)
              ∷ [])))

    unfoldable pub handle_generate_handoff_brief : Bytes → Handler lib values desk
    handle_generate_handoff_brief p_params_json =
        on_parsed lib values desk (lib.parse p_params_json) (λ params. do
          title ← lift (value lib params (codes "title") (codes "Gear MCP Handoff Brief"))
          max_recent ← lift (value_of lib values.as_int params (codes "max_recent") (pos 10))
          generate_brief title (clamp 10 200 max_recent))

    unfoldable pub pack_json : Bytes → Bytes → Bytes → Notes Json → Json
    pack_json title t brief g = object (
        (codes "version", number (pos 1))
        ∷ (codes "generated_at", string t)
        ∷ (codes "title", string title)
        ∷ (codes "brief_markdown", string brief)
        ∷ (codes "state", notes_json lib values desk g)
        ∷ [])

    abbrev pub make_parents : List Bytes → W → W
    make_parents [] w = w
    make_parents (d ∷ ds) w = make_parents ds (desk.make_dir d w)

    unfoldable pub ensure_dirs : Bytes → Exec (State Json W) (Unit {0})
    ensure_dirs path =
        modify (λ s. record s { world = make_parents (ensure_parent_dirs path) s.world })

    -- The file is opened before its text is made: a text that cannot be made leaves an empty file.
    abbrev pub open_pack : Bytes → Result Bytes → State Json W → Result Bool × State Json W
    open_pack path (ok text) s =
        let (opened, w) = desk.write path text s.world in (ok opened, record s { world = w })
    open_pack path (threw e) s =
        let (opened, w) = desk.write path [] s.world in
        (if opened then threw e else ok false, record s { world = w })

    unfoldable pub size_of : Bytes → Exec (State Json W) ℕ
    size_of path s = (desk.file_size path s.world, s)

    unfoldable pub export_pack : Bytes → Bytes → ℕ → Handler lib values desk
    export_pack output_path title n = do
      load lib values desk
      snapshot ← gets (λ s. s.notes)
      t ← timestamp lib values desk
      brief ← lift (brief_text lib values desk show false title n t snapshot)
      ensure_dirs output_path
      generated_at ← timestamp lib values desk
      opened ←
          open_pack output_path (values.dump_indented (pack_json title generated_at brief snapshot))
      if not opened
          then refuse (codes "Cannot open output_path for writing: " ++ output_path)
          else do
            bytes_written ← size_of output_path
            reply (
                dump (
                  object (
                    (codes "success", boolean true)
                    ∷ (codes "output_path", string output_path)
                    ∷ (codes "bytes_written", number (int_of_size bytes_written))
                    ∷ (codes "title", string title)
                    ∷ [])))

    unfoldable pub export_to : Json → Bytes → Handler lib values desk
    export_to params output_path =
        if is_empty output_path
        then refuse (codes "Missing required parameter: output_path")
        else if has_traversal output_path
        then refuse (codes "Path traversal detected in output_path")
        else do
          title ← lift (value lib params (codes "title") (codes "Gear MCP Handoff Pack"))
          max_recent ← lift (value_of lib values.as_int params (codes "max_recent") (pos 20))
          export_pack output_path title (clamp 20 1000 max_recent)

    unfoldable pub handle_export_handoff_pack : Bytes → Handler lib values desk
    handle_export_handoff_pack p_params_json =
        on_parsed lib values desk (lib.parse p_params_json) (λ params. do
          output_path ← lift (value lib params (codes "output_path") [])
          export_to params output_path)

  unfoldable pub handle_get_recording_mode : Bytes → Handler lib values desk
  handle_get_recording_mode p_params_json = do
    load lib values desk
    recording ← recording_now
    counts ← gets (λ s. counts_json s.notes)
    state_path ← (λ s. let (p, t) = resolve_state_path lib values desk s in (ok p, t))
    reply (
        dump (
          object (
            (codes "recording", boolean recording)
            ∷ (codes "counts", counts)
            ∷ (codes "state_path", string state_path)
            ∷ [])))
