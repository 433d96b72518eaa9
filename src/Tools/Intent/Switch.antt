-- ===== src/Tools/Intent/Switch.antt =====
-- The recording switch: what the appending handlers do while it is off, and while it is on.
use gear_mcp_server.Base.{
  ◌≡◌, refl, ap, ◌∙◌, Bool, true, false, not, if◌then◌else◌, some, List, [], last_items, ◌∷◌, ◌++◌,
  ◌||◌, Bytes, codes, is_empty,
}
use gear_mcp_server.Exec.{Result, ok, continue}
use gear_mcp_server.Json.{JsonLib}
use gear_mcp_server.Methods.Rpc.{value}
use gear_mcp_server.Tools.{Values, value_json, answered}
use gear_mcp_server.Tools.Intent.{
  Kind, snapshots, decisions, State, Desk, put_array, is_recording, load_state, cap,
}
use gear_mcp_server.Tools.Intent.Record.{
  Handler, load, stamped, save_stamped, not_recorded, if_recording, capture_snapshot,
  handle_capture_intent_snapshot, record_decision, handle_record_decision_log, record_step,
  handle_record_work_step, record_trace, handle_record_execution_trace,
}
use gear_mcp_server.Tools.Intent.History.{save_entry-notes}

module _ (lib : JsonLib) (values : Values lib) {W : Type 0} (desk : Desk W) where
  open lib use {Json, string, boolean, object, array, dump, parse}

  -- The answer while the recording is off.
  abbrev pub off_answer : Json
  off_answer = object (
      (codes "success", boolean true)
      ∷ (codes "recorded", boolean false)
      ∷ (codes "reason", string (codes "recording off"))
      ∷ [])

  load_state-loaded : (s : State Json W) → s.loaded ≡ true → load_state lib values desk s ≡ s
  unfolding load_state
  load_state-loaded s h = rw h refl

  is_recording_lem :
      (b : Bool) (s : State Json W)
      → values.as_boolean s.notes.recording ≡ some b
      → is_recording lib values desk s ≡ ok b
  unfolding is_recording
  is_recording_lem b s h = rw (h, is_recording) refl

  -- What the guard does with an answer of the switch.
  by_switch : Handler lib values desk → Bool → Handler lib values desk
  by_switch body recording = if not recording then not_recorded lib values desk else body

  if_recording_lem :
      (body : Handler lib values desk) (b : Bool) (s : State Json W)
      → s.loaded ≡ true
      → values.as_boolean s.notes.recording ≡ some b
      → if_recording lib values desk body s ≡ by_switch body b s
  unfolding if_recording load by_switch
  if_recording_lem body b s loaded h =
      ap (λ s'. continue (is_recording lib values desk s') (by_switch body) s')
        (load_state-loaded s loaded)
      ∙ ap (λ r. continue r (by_switch body) s) (is_recording_lem b s h)

  if_recording-off :
      (body : Handler lib values desk) (s : State Json W)
      → s.loaded ≡ true
      → values.as_boolean s.notes.recording ≡ some false
      → if_recording lib values desk body s ≡ (answered (dump off_answer), s)
  unfolding by_switch not_recorded
  if_recording-off = λ body. if_recording_lem body false

  if_recording-on :
      (body : Handler lib values desk) (s : State Json W)
      → s.loaded ≡ true
      → values.as_boolean s.notes.recording ≡ some true
      → if_recording lib values desk body s ≡ body s
  unfolding by_switch
  if_recording-on = λ body. if_recording_lem body true

  -- While the recording is off and the state is loaded, the handlers for decisions, work steps and
  -- traces append nothing and write nothing: they answer that nothing was recorded, and leave the
  -- state, the files included, as it was. Their required parameters are given.
  pub recording-off :
      (t decision rationale action event level : Bytes) (params : Json)
      (duration : Json → Result Json)
      → (s : State Json W) → s.loaded ≡ true
      → values.as_boolean s.notes.recording ≡ some false
      → parse t ≡ ok params
      → value lib params (codes "decision") [] ≡ ok decision
      → value lib params (codes "rationale") [] ≡ ok rationale
      → value lib params (codes "action") [] ≡ ok action
      → value lib params (codes "event") [] ≡ ok event
      → value lib params (codes "level") (codes "info") ≡ ok level
      → (is_empty decision || is_empty rationale) ≡ false
      → is_empty action ≡ false
      → is_empty event ≡ false
      → (handle_record_decision_log lib values desk t s ≡ (answered (dump off_answer), s))
        × (handle_record_work_step lib values desk t s ≡ (answered (dump off_answer), s))
        × (handle_record_execution_trace lib values desk duration t s
            ≡ (answered (dump off_answer), s))
  unfolding handle_record_decision_log record_decision handle_record_work_step record_step
      handle_record_execution_trace record_trace
  recording-off t decision rationale action event level params duration s loaded off hp hd hr ha he
        hl nd na ne =
      (
        rw (hp, hd) (rw hr (rw nd (if_recording-off _ s loaded off))),
        rw (hp, ha) (rw na (if_recording-off _ s loaded off)),
        rw (hp, he) (rw (ne, hl) (if_recording-off _ s loaded off)),
      )

  -- The entry of a snapshot.
  abbrev pub snapshot_fields : Bytes → Bytes → Json → List (Bytes × Json)
  snapshot_fields label intent context =
      (codes "label", string label)
      ∷ (codes "intent", string intent)
      ∷ (codes "context", context)
      ∷ []

  abbrev pub decision_fields : Bytes → Bytes → Json → Json → List (Bytes × Json)
  decision_fields decision rationale alternatives tags =
      (codes "decision", string decision)
      ∷ (codes "rationale", string rationale)
      ∷ (codes "alternatives", alternatives)
      ∷ (codes "tags", tags)
      ∷ []

  save_stamped-notes :
      (k : Kind) (total : Bytes) (fields : List (Bytes × Json)) (s : State Json W) {xs : List Json}
      → values.as_array (s.notes.arrays k) ≡ some xs
      → (save_stamped lib values desk k total fields s).1.notes
        ≡ put_array k
            (array (
              last_items
                (cap k)
                (xs ++ stamped lib values desk fields (desk.iso_now s.world).0 ∷ [])))
            s.notes
  unfolding save_stamped
  save_stamped-notes k total fields s h =
      save_entry-notes lib values desk k total
        (stamped lib values desk fields (desk.iso_now s.world).0)
        (record s { world = (desk.iso_now s.world).1 }) h

  module _ (t : Bytes) (params : Json) (s : State Json W) (xs : List Json)
      (parsed : parse t ≡ ok params) (loaded : s.loaded ≡ true) where
    -- Capturing a snapshot does not ask whether the recording is on: the snapshot is appended with
    -- the time, whatever the switch says. The state is loaded, its snapshots are an array, and the
    -- required parameters are given.
    pub handle_capture_intent_snapshot-records :
        (label intent : Bytes) (context : Json)
        → values.as_array (s.notes.arrays snapshots) ≡ some xs
        → value lib params (codes "label") [] ≡ ok label
        → value lib params (codes "intent") [] ≡ ok intent
        → value_json lib params (codes "context") (object []) ≡ ok context
        → (is_empty label || is_empty intent) ≡ false
        → (handle_capture_intent_snapshot lib values desk t s).1.notes
          ≡ put_array snapshots
              (array (
                last_items 200 (
                  xs
                  ++ stamped lib values desk
                      (snapshot_fields label intent context)
                      (desk.iso_now s.world).0
                    ∷ [])))
              s.notes
    unfolding handle_capture_intent_snapshot capture_snapshot load
    handle_capture_intent_snapshot-records label intent context h hl hi hc ne =
        rw (parsed, hl)
          (rw (hi, ne)
            (rw hc (
              ap
                (λ s'.
                  (save_stamped lib values desk snapshots (codes "total_snapshots")
                    (snapshot_fields label intent context) s').1.notes)
                (load_state-loaded s loaded)
              ∙ save_stamped-notes snapshots _ (snapshot_fields label intent context) s h)))

    -- While the recording is on, a decision is appended with the time, and only its last 500 are
    -- kept. The state is loaded, its decisions are an array, and the required parameters are given.
    pub handle_record_decision_log-records :
        (decision rationale : Bytes) (alternatives tags : Json)
        → values.as_array (s.notes.arrays decisions) ≡ some xs
        → values.as_boolean s.notes.recording ≡ some true
        → value lib params (codes "decision") [] ≡ ok decision
        → value lib params (codes "rationale") [] ≡ ok rationale
        → value_json lib params (codes "alternatives") (array []) ≡ ok alternatives
        → value_json lib params (codes "tags") (array []) ≡ ok tags
        → (is_empty decision || is_empty rationale) ≡ false
        → (handle_record_decision_log lib values desk t s).1.notes
          ≡ put_array decisions
              (array (
                last_items 500 (
                  xs
                  ++ stamped lib values desk
                      (decision_fields decision rationale alternatives tags)
                      (desk.iso_now s.world).0
                    ∷ [])))
              s.notes
    unfolding handle_record_decision_log record_decision
    handle_record_decision_log-records decision rationale alternatives tags h on hd hr ha ht ne =
        rw (parsed, hd)
          (rw (hr, ne)
            (ap (λ p. p.1.notes) (if_recording-on _ s loaded on)
              ∙ rw ha (
                  rw ht (
                    save_stamped-notes decisions _
                      (decision_fields decision rationale alternatives tags) s h))))
