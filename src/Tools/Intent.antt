-- ===== src/Tools/Intent.antt =====
-- src/tools/intent/intent_tools.cpp: the state that the intent tools keep, in memory and on disk.
-- Each handler holds the mutex while it uses the state. `Desk` is what the handlers ask of the
-- outside: Godot's project path and the working directory, the clock as text, the files.
pub mod Record
pub mod Brief
pub mod Report
pub mod History
pub mod Switch
pub mod Saved
use gear_mcp_server.Base.{
  ℕ, ◌-◌, Bool, true, false, not, Option, none, some, List, [], ◌∷◌, ◌++◌, if◌then◌else◌, ltb,
  Bytes, codes, str_eq, is_empty, length, drop,
}
use gear_mcp_server.Exec.{Result, ok, threw, Exec, pure, lift, gets, modify, ◌>>=◌, ◌>>◌}
use gear_mcp_server.Json.{JsonLib, ℤ, pos}
use gear_mcp_server.Tools.{Values, value_of}

-- The four arrays of the state.
pub data Kind : Type 0 where
  snapshots : Kind
  decisions : Kind
  work_steps : Kind
  traces : Kind

abbrev pub key_of : Kind → Bytes
key_of snapshots = codes "snapshots"
key_of decisions = codes "decisions"
key_of work_steps = codes "work_steps"
key_of traces = codes "traces"

-- The length to which an append trims the array.
abbrev pub cap : Kind → ℕ
cap snapshots = 200
cap decisions = 500
cap work_steps = 1000
cap traces = 5000

abbrev pub same_kind : Kind → Kind → Bool
same_kind snapshots snapshots = true
same_kind decisions decisions = true
same_kind work_steps work_steps = true
same_kind traces traces = true
same_kind _ _ = false

-- g_state: the four arrays, which a file that was loaded may have replaced by any value, and
-- "recording".
pub record Notes (Json : Type 0) : Type 0 where
  pub arrays : Kind → Json
  pub recording : Json

-- With g_loaded and g_state_path, which is none before its first use.
pub record State (Json W : Type 0) : Type 0 where
  pub notes : Notes Json
  pub loaded : Bool
  pub path : Option Bytes
  pub world : W

pub record Desk (W : Type 0) : Type 0 where
  pub get_project_path : W → Bytes
  pub current_path : W → Bytes
  pub create_directories : Bytes → W → W
  pub iso_now : W → Bytes × W
  pub read : Bytes → W → Option Bytes
  pub write : Bytes → Bytes → W → Bool × W
  pub rename : Bytes → Bytes → W → Bool × W
  pub copy : Bytes → Bytes → W → W
  pub remove : Bytes → W → W
  pub make_dir : Bytes → W → W
  pub file_size : Bytes → W → Result ℕ

module _ {Json : Type 0} where
  abbrev pub put_array : Kind → Json → Notes Json → Notes Json
  put_array k v g = record g { arrays = λ j. if same_kind k j then v else g.arrays j }

  -- g_state[key] = value, for a key that the state has; any other is passed over.
  unfoldable pub put_item : Bytes → Json → Notes Json → Notes Json
  put_item key v g =
      if str_eq key (codes "decisions")
      then put_array decisions v g
      else if str_eq key (codes "recording")
      then record g { recording = v }
      else if str_eq key (codes "snapshots")
      then put_array snapshots v g
      else if str_eq key (codes "traces")
      then put_array traces v g
      else if str_eq key (codes "work_steps")
      then put_array work_steps v g
      else g

  unfoldable pub put_items : List (Bytes × Json) → Notes Json → Notes Json
  put_items [] g = g
  put_items ((k, v) ∷ ms) g = put_items ms (put_item k v g)

-- Only the last items are kept.
unfoldable pub keep_last {ℓ} : {A : Type ℓ} → ℕ → List A → List A
keep_last n xs = drop (if ltb n (length xs) then length xs - n else 0) xs

module _ (lib : JsonLib) (values : Values lib) {W : Type 0} (desk : Desk W) where
  open lib use {Json, string, number, boolean, object, array, parse, items, type_error}

  abbrev pub initial_notes : Notes Json
  initial_notes = record { arrays = λ k. array []; recording = boolean true }

  -- g_state as a JSON object, its members in the order of their keys.
  unfoldable pub notes_json : Notes Json → Json
  notes_json g = object (
      (codes "decisions", g.arrays decisions)
      ∷ (codes "recording", g.recording)
      ∷ (codes "snapshots", g.arrays snapshots)
      ∷ (codes "traces", g.arrays traces)
      ∷ (codes "work_steps", g.arrays work_steps)
      ∷ [])

  -- The directory of the state.
  abbrev pub project_of : W → Bytes
  project_of w =
      if is_empty (desk.get_project_path w) then desk.current_path w else desk.get_project_path w

  abbrev pub resolved : Option Bytes → State Json W → Bytes × State Json W
  resolved (some p) s = (p, s)
  resolved none s =
      let dir = project_of s.world ++ codes "/.gear_mcp" in
      let p = dir ++ codes "/intent_state.json" in
      (p, record s { path = some p; world = desk.create_directories dir s.world })

  unfoldable pub resolve_state_path : State Json W → Bytes × State Json W
  resolve_state_path s = resolved s.path s

  -- A file that cannot be opened or does not parse changes nothing.
  abbrev pub read_notes : Result Json → Notes Json → Notes Json
  read_notes (ok j) g = put_items (items j) g
  read_notes (threw e) g = g

  abbrev pub from_file : Option Bytes → Notes Json → Notes Json
  from_file none g = g
  from_file (some text) g = read_notes (parse text) g

  unfoldable pub load_state : State Json W → State Json W
  load_state s =
      if s.loaded
      then s
      else let (path, t) = resolve_state_path s in
        record t { notes = from_file (desk.read path t.world) t.notes; loaded = true }

  abbrev pub tmp_of : Bytes → Bytes
  tmp_of path = path ++ codes ".tmp"

  -- After the writing: the file is renamed; where that fails it is copied and removed.
  abbrev pub moved : Bytes → Bool × W → W
  moved path (true, w) = w
  moved path (false, w) = desk.remove (tmp_of path) (desk.copy (tmp_of path) path w)

  abbrev pub wrote : Bytes → Bool × W → W
  wrote path (false, w) = w
  wrote path (true, w) = moved path (desk.rename (tmp_of path) path w)

  -- A text that cannot be made leaves an empty file behind.
  abbrev pub write_notes : Bytes → Result Bytes → W → Result (Unit {0}) × W
  write_notes path (ok text) w = (ok tt, wrote path (desk.write (tmp_of path) text w))
  write_notes path (threw e) w =
      let (opened, w') = desk.write (tmp_of path) [] w in
      if opened then (threw e, w') else (ok tt, w')

  unfoldable pub persist_state : Exec (State Json W) (Unit {0})
  persist_state s =
      let (path, t) = resolve_state_path s in
      let (r, w) = write_notes path (values.dump_indented (notes_json t.notes)) t.world in
      (r, record t { world = w })

  -- g_state.value("recording", true)
  unfoldable pub is_recording : State Json W → Result Bool
  is_recording s = elim (values.as_boolean s.notes.recording) [
    | none ↦ threw (type_error s.notes.recording)
    | some b ↦ ok b
  ]

  abbrev pub pushed : Option (List Json) → Json → Json → Result Json
  pushed (some xs) e j = ok (array (xs ++ e ∷ []))
  pushed none e j = if values.is_null j then ok (array (e ∷ [])) else threw (type_error j)

  -- push_back: null becomes an array, and any other value that is no array throws.
  unfoldable pub push_back : Json → Json → Result Json
  push_back e j = pushed (values.as_array j) e j

  abbrev pub trimmed : ℕ → Option (List Json) → Json → Json
  trimmed n none j = j
  trimmed n (some xs) j = if ltb n (length xs) then array (keep_last n xs) else j

  unfoldable pub trim_array : ℕ → Json → Json
  trim_array n j = trimmed n (values.as_array j) j

  abbrev pub appended : Kind → Result Json → State Json W → Result (Unit {0}) × State Json W
  appended k (threw e) s = (threw e, s)
  appended k (ok j) s = (ok tt, record s { notes = put_array k (trim_array (cap k) j) s.notes })

  -- append_array, then trim_array
  unfoldable pub append_entry : Kind → Json → Exec (State Json W) (Unit {0})
  append_entry k e s = appended k (push_back e (s.notes.arrays k)) s

  abbrev pub timestamp : Exec (State Json W) Bytes
  timestamp s = let (t, w) = desk.iso_now s.world in (ok t, record s { world = w })

  -- g_state[key].size() as JSON
  abbrev pub count_json : Kind → Notes Json → Json
  count_json k g = number (pos (values.size (g.arrays k)))
