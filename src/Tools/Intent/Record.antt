-- ===== src/Tools/Intent/Record.antt =====
-- src/tools/intent/intent_tools.cpp: the handlers that append an entry, and the switch of the
-- recording.
use gear_mcp_server.Base.{
  Bool, true, false, not, Option, none, some, List, [], ◌∷◌, ◌++◌, ◌||◌, if◌then◌else◌, Bytes,
  codes, is_empty,
}
use gear_mcp_server.Exec.{Result, ok, threw, Exec, lift, modify, ◌>>=◌, ◌>>◌}
use gear_mcp_server.Json.{JsonLib}
use gear_mcp_server.Methods.Rpc.{value}
use gear_mcp_server.Tools.{Values, value_json, Answer, refuse, reply}
use gear_mcp_server.Tools.Intent.{
  Kind, snapshots, decisions, work_steps, traces, State, Desk, load_state, persist_state,
  is_recording, append_entry, timestamp, count_json,
}

abbrev pub invalid_params_text : Bytes
invalid_params_text = codes "Invalid JSON parameters."

module _ (lib : JsonLib) (values : Values lib) {W : Type 0} (desk : Desk W) where
  open lib use {Json, string, number, boolean, object, array, dump, find}

  abbrev pub Handler : Type 0
  Handler = Exec (State Json W) Answer

  -- json::parse without exceptions: a text that does not parse is refused.
  abbrev pub on_parsed : Result Json → (Json → Handler) → Handler
  on_parsed (ok params) body = body params
  on_parsed (threw e) body = refuse invalid_params_text

  -- The entry is appended, the state is saved, and the answer has the entry and the new count.
  unfoldable pub save_entry : Kind → Bytes → Json → Handler
  save_entry k total entry = do
    append_entry lib values desk k entry
    persist_state lib values desk
    λ s.
        reply
          (dump (
            object (
              (codes "success", boolean true)
              ∷ (codes "entry", entry)
              ∷ (total, count_json lib values desk k s.notes)
              ∷ [])))
          s

  -- The entry with the time at its end.
  unfoldable pub stamped : List (Bytes × Json) → Bytes → Json
  stamped fields t = object (fields ++ (codes "timestamp", string t) ∷ [])

  unfoldable pub save_stamped : Kind → Bytes → List (Bytes × Json) → Handler
  save_stamped k total fields = do
    t ← timestamp lib values desk
    save_entry k total (stamped fields t)

  unfoldable pub load : Exec (State Json W) (Unit {0})
  load = modify (load_state lib values desk)

  -- The answer while the recording is off.
  unfoldable pub not_recorded : Handler
  not_recorded = reply (
      dump (
        object (
          (codes "success", boolean true)
          ∷ (codes "recorded", boolean false)
          ∷ (codes "reason", string (codes "recording off"))
          ∷ [])))

  -- What the three recording handlers do with the state: nothing while the recording is off.
  unfoldable pub if_recording : Handler → Handler
  if_recording body = do
    load
    recording ← (λ s. (is_recording lib values desk s, s))
    if not recording then not_recorded else body

  unfoldable pub capture_snapshot : Json → Bytes → Bytes → Handler
  capture_snapshot params label intent =
      if is_empty label || is_empty intent
      then refuse (codes "Missing required parameters: label, intent")
      else do
        context ← lift (value_json lib params (codes "context") (object []))
        load
        save_stamped snapshots (codes "total_snapshots") (
            (codes "label", string label)
            ∷ (codes "intent", string intent)
            ∷ (codes "context", context)
            ∷ [])

  unfoldable pub handle_capture_intent_snapshot : Bytes → Handler
  handle_capture_intent_snapshot p_params_json = on_parsed (lib.parse p_params_json) (λ params. do
    label ← lift (value lib params (codes "label") [])
    intent ← lift (value lib params (codes "intent") [])
    capture_snapshot params label intent)

  unfoldable pub record_decision : Json → Bytes → Bytes → Handler
  record_decision params decision rationale =
      if is_empty decision || is_empty rationale
      then refuse (codes "Missing required parameters: decision, rationale")
      else if_recording (do
        alternatives ← lift (value_json lib params (codes "alternatives") (array []))
        tags ← lift (value_json lib params (codes "tags") (array []))
        save_stamped decisions (codes "total_decisions") (
            (codes "decision", string decision)
            ∷ (codes "rationale", string rationale)
            ∷ (codes "alternatives", alternatives)
            ∷ (codes "tags", tags)
            ∷ []))

  unfoldable pub handle_record_decision_log : Bytes → Handler
  handle_record_decision_log p_params_json = on_parsed (lib.parse p_params_json) (λ params. do
    decision ← lift (value lib params (codes "decision") [])
    rationale ← lift (value lib params (codes "rationale") [])
    record_decision params decision rationale)

  unfoldable pub record_step : Json → Bytes → Handler
  record_step params action =
      if is_empty action
      then refuse (codes "Missing required parameter: action")
      else if_recording (do
        tool ← lift (value lib params (codes "tool") [])
        args ← lift (value_json lib params (codes "args") (object []))
        outcome ← lift (value lib params (codes "outcome") [])
        save_stamped work_steps (codes "total_work_steps") (
            (codes "action", string action)
            ∷ (codes "tool", string tool)
            ∷ (codes "args", args)
            ∷ (codes "outcome", string outcome)
            ∷ []))

  unfoldable pub handle_record_work_step : Bytes → Handler
  handle_record_work_step p_params_json =
      on_parsed (lib.parse p_params_json) (λ params. do
        action ← lift (value lib params (codes "action") [])
        record_step params action)

  -- The duration is a floating-point number, which stays a JSON number here: `duration` is
  -- value("duration_ms", 0.0).
  unfoldable pub record_trace : (Json → Result Json) → Json → Bytes → Handler
  record_trace duration params event =
      if is_empty event then refuse (codes "Missing required parameter: event") else do
        level ← lift (value lib params (codes "level") (codes "info"))
        if_recording (do
          duration_ms ← lift (duration params)
          details ← lift (value_json lib params (codes "details") (object []))
          save_stamped traces (codes "total_traces") (
              (codes "event", string event)
              ∷ (codes "level", string level)
              ∷ (codes "duration_ms", duration_ms)
              ∷ (codes "details", details)
              ∷ []))

  unfoldable pub handle_record_execution_trace : (Json → Result Json) → Bytes → Handler
  handle_record_execution_trace duration p_params_json =
      on_parsed (lib.parse p_params_json) (λ params. do
        event ← lift (value lib params (codes "event") [])
        record_trace duration params event)

  abbrev pub set_recording : Option Bool → Handler
  set_recording none = refuse (codes "Missing or invalid 'enabled' (boolean)")
  set_recording (some enabled) = do
    load
    modify (λ s. record s { notes = record s.notes { recording = boolean enabled } })
    persist_state lib values desk
    reply (
        dump (object ((codes "success", boolean true) ∷ (codes "recording", boolean enabled) ∷ [])))

  abbrev pub boolean_member : Option Json → Option Bool
  boolean_member none = none
  boolean_member (some j) = values.as_boolean j

  unfoldable pub handle_set_recording_mode : Bytes → Handler
  handle_set_recording_mode p_params_json =
      on_parsed (lib.parse p_params_json)
        (λ params. set_recording (boolean_member (find (codes "enabled") params)))
