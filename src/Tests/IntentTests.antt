-- ===== src/Tests/IntentTests.antt =====
-- The intent tools at concrete inputs.
use gear_mcp_server.Base.{
  ◌≡◌, refl, sym, ap, ◌∙◌, Bool, true, false, Option, none, some, List, [], last_items, ◌∷◌, ◌++◌,
  if◌then◌else◌, Bytes, codes, str_eq,
}
use gear_mcp_server.Exec.{Result, ok, threw, parse_error}
use gear_mcp_server.Json.{JsonLib}
use gear_mcp_server.Methods.Rpc.{value}
use gear_mcp_server.Tests.Sample.{
  Value, nil, text, flag, record_of, items_of, fields_of, to_items, parsing, values_of,
}
use gear_mcp_server.Tools.{Values, answered}
use gear_mcp_server.Tools.Intent.{
  Kind, snapshots, decisions, work_steps, traces, Notes, State, Desk, notes_json, load_state,
  persist_state,
}
use gear_mcp_server.Tools.Intent.Record.{
  handle_record_decision_log, handle_record_work_step, handle_record_execution_trace,
}
use gear_mcp_server.Tools.Intent.History.{HasHistory, save_all, entries_of, save_all-HasHistory}
use gear_mcp_server.Tools.Intent.Switch.{off_answer, recording-off}
use gear_mcp_server.Tools.Intent.Saved.{load_state-persist_state}

abbrev all_params : Value
all_params = record_of (
    fields_of (
      (codes "label", text (codes "l"))
      ∷ (codes "intent", text (codes "i"))
      ∷ (codes "decision", text (codes "d"))
      ∷ (codes "rationale", text (codes "r"))
      ∷ (codes "action", text (codes "a"))
      ∷ (codes "event", text (codes "e"))
      ∷ []))

-- The state that the tests save: one decision, and the recording off.
abbrev saved : Value
saved = record_of (
    fields_of (
      (codes "decisions", items_of (to_items (text (codes "d") ∷ [])))
      ∷ (codes "recording", flag false)
      ∷ (codes "snapshots", items_of (to_items []))
      ∷ (codes "traces", items_of (to_items []))
      ∷ (codes "work_steps", items_of (to_items []))
      ∷ []))

abbrev parse_note : Bytes → Result Value
parse_note t =
    if str_eq t (codes "saved")
    then ok saved
    else if str_eq t (codes "all")
    then ok all_params
    else threw (parse_error (codes "bad"))

abbrev note_lib : JsonLib
note_lib = parsing parse_note

abbrev note_values : Values note_lib
note_values = values_of parse_note

-- The text of the file beside the state, and of the state's file.
abbrev drawer : Desk (Bytes × Option Bytes)
drawer = record {
  get_project_path = λ w. codes "/p";
  current_path = λ w. codes "/c";
  create_directories = λ d w. w;
  iso_now = λ w. (codes "now", w);
  read = λ f w. w.1;
  write = λ f c w. (true, (c, w.1));
  rename = λ f g w. (true, (w.0, some w.0));
  copy = λ f g w. (w.0, some w.0);
  remove = λ f w. ([], w.1);
  make_dir = λ d w. w;
  file_size = λ f w. ok 0;
}

-- One decision, with the recording on or off.
abbrev held : Bool → Kind → Value
held b decisions = items_of (to_items (text (codes "d") ∷ []))
held b _ = items_of (to_items [])

abbrev desk_state : Bool → State Value (Bytes × Option Bytes)
desk_state b = record {
  notes = record { arrays = held b; recording = flag b };
  loaded = true;
  path = some (codes "/p/s");
  world = ([], none);
}

abbrev past : Kind → List Value
past decisions = text (codes "d") ∷ []
past _ = []

past-HasHistory : HasHistory note_lib note_values drawer past (desk_state true)
past-HasHistory snapshots = refl
past-HasHistory decisions = refl
past-HasHistory work_steps = refl
past-HasHistory traces = refl

abbrev two_entries : List (Kind × (Bytes × Value))
two_entries =
    (decisions, (codes "n", text (codes "e"))) ∷ (traces, (codes "n", text (codes "t"))) ∷ []

save_all-HasHistory_example :
    (save_all note_lib note_values drawer two_entries (desk_state true)).notes.arrays decisions
    ≡ note_lib.array (
        last_items 500
          (past decisions ++ entries_of note_lib note_values drawer decisions two_entries))
save_all-HasHistory_example =
    save_all-HasHistory note_lib note_values drawer past two_entries (desk_state true)
      past-HasHistory decisions

recording-off_example :
    (handle_record_decision_log note_lib note_values drawer (codes "all") (desk_state false)
      ≡ (answered (note_lib.dump (off_answer note_lib note_values drawer)), desk_state false))
    × (handle_record_work_step note_lib note_values drawer (codes "all") (desk_state false)
        ≡ (answered (note_lib.dump (off_answer note_lib note_values drawer)), desk_state false))
    × (handle_record_execution_trace note_lib note_values drawer
          (λ j. ok nil)
          (codes "all")
          (desk_state false)
        ≡ (answered (note_lib.dump (off_answer note_lib note_values drawer)), desk_state false))
unfolding value
recording-off_example =
    recording-off note_lib note_values drawer (codes "all") (codes "d") (codes "r") (codes "a")
      (codes "e") (codes "info") all_params (λ j. ok nil) (desk_state false) refl refl refl refl
      refl refl refl refl refl refl refl

abbrev empty_notes : Notes Value
empty_notes = record { arrays = λ k. items_of (to_items []); recording = flag true }

load_state-persist_state_example :
    ((k : Kind)
      → (load_state note_lib note_values drawer (record {
        notes = empty_notes;
        loaded = false;
        path = some (codes "/p/s");
        world = (persist_state note_lib note_values drawer (desk_state false)).1.world;
      })).notes.arrays
          k
        ≡ (desk_state false).notes.arrays k)
    × ((load_state note_lib note_values drawer (record {
      notes = empty_notes;
      loaded = false;
      path = some (codes "/p/s");
      world = (persist_state note_lib note_values drawer (desk_state false)).1.world;
    })).notes.recording
        ≡ (desk_state false).notes.recording)
unfolding notes_json
load_state-persist_state_example =
    load_state-persist_state note_lib note_values drawer (codes "/p/s") (codes "saved")
      (desk_state false) (codes "saved", none) (codes "saved", some (codes "saved")) empty_notes
      refl refl refl refl (λ f c u v v' e g. ap (λ p. p.1.1) (sym g) ∙ ap (λ p. some p.1.0) (sym e))
      refl refl
