-- ===== src/Tools/Intent/Saved.antt =====
-- Saving the state and loading it again, in another run of the program.
use gear_mcp_server.Base.{◌≡◌, refl, ap, ◌∙◌, true, false, some, List, [], ◌∷◌, Bytes, codes}
use gear_mcp_server.Exec.{ok}
use gear_mcp_server.Json.{JsonLib}
use gear_mcp_server.Tools.{Values}
use gear_mcp_server.Tools.Intent.{
  Kind, snapshots, decisions, work_steps, traces, Notes, State, Desk, put_items, put_item,
  notes_json, load_state, persist_state, resolve_state_path, tmp_of,
}

module _ (lib : JsonLib) (values : Values lib) {W : Type 0} (desk : Desk W) where
  open lib use {Json, object, parse, items}

  -- The members of the saved object, in the order of their keys.
  abbrev pub members : Notes Json → List (Bytes × Json)
  members g =
      (codes "decisions", g.arrays decisions)
      ∷ (codes "recording", g.recording)
      ∷ (codes "snapshots", g.arrays snapshots)
      ∷ (codes "traces", g.arrays traces)
      ∷ (codes "work_steps", g.arrays work_steps)
      ∷ []

  put_items-arrays : (g h : Notes Json) (k : Kind) → (put_items (members g) h).arrays k ≡ g.arrays k
  unfolding put_items put_item
  put_items-arrays g h snapshots = refl
  put_items-arrays g h decisions = refl
  put_items-arrays g h work_steps = refl
  put_items-arrays g h traces = refl

  put_items-recording : (g h : Notes Json) → (put_items (members g) h).recording ≡ g.recording
  unfolding put_items put_item
  put_items-recording g h = refl

  module _ (p text : Bytes) (s : State Json W) (w w' : W) (h : Notes Json) (known : s.path ≡ some p)
      (made : values.dump_indented (notes_json lib values desk s.notes) ≡ ok text)
      (written : desk.write (tmp_of lib values desk p) text s.world ≡ (true, w))
      (renamed : desk.rename (tmp_of lib values desk p) p w ≡ (true, w')) where
    persist_state-world : (persist_state lib values desk s).1.world ≡ w'
    unfolding persist_state resolve_state_path
    persist_state-world = rw known (rw (made, written) (rw renamed refl))

    -- What a run of the program loads that knows the path and has loaded nothing.
    load_state-notes :
        desk.read p w' ≡ some text
        → parse text ≡ ok (notes_json lib values desk s.notes)
        → items (notes_json lib values desk s.notes) ≡ members s.notes
        → (load_state lib values desk
            (record { notes = h; loaded = false; path = some p; world = w' })).notes
          ≡ put_items (members s.notes) h
    unfolding load_state resolve_state_path
    load_state-notes stored again in_order = rw (stored, again) (rw in_order refl)

    -- Saving and loading: after the state was saved, a run that has loaded nothing yet loads from
    -- that file the four arrays and the switch as they were, whatever it held before. The file was
    -- written and renamed, what was renamed is then the file's text, and the JSON library parses
    -- the text it made to the same object, whose members come in the order of their keys.
    pub load_state-persist_state :
        ((f c : Bytes) (u v v' : W)
          → desk.write (tmp_of lib values desk f) c u ≡ (true, v)
          → desk.rename (tmp_of lib values desk f) f v ≡ (true, v')
          → desk.read f v' ≡ some c)
        → parse text ≡ ok (notes_json lib values desk s.notes)
        → items (notes_json lib values desk s.notes) ≡ members s.notes
        → ((k : Kind)
            → (load_state lib values desk (record {
              notes = h;
              loaded = false;
              path = some p;
              world = (persist_state lib values desk s).1.world;
            })).notes.arrays
                k
              ≡ s.notes.arrays k)
          × ((load_state lib values desk (record {
            notes = h;
            loaded = false;
            path = some p;
            world = (persist_state lib values desk s).1.world;
          })).notes.recording
              ≡ s.notes.recording)
    load_state-persist_state moves again in_order =
        let reload = λ (v : W).
          (load_state lib values desk
            (record { notes = h; loaded = false; path = some p; world = v })).notes in
        let restored : reload (persist_state lib values desk s).1.world
            ≡ put_items (members s.notes) h =
          ap reload persist_state-world
          ∙ load_state-notes (moves p text s.world w w' written renamed) again in_order in
        (
          λ k. ap (λ g. g.arrays k) restored ∙ put_items-arrays s.notes h k,
          ap (λ g. g.recording) restored ∙ put_items-recording s.notes h,
        )
