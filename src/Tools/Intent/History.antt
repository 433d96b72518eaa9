-- ===== src/Tools/Intent/History.antt =====
-- What the appending handlers keep: the last entries, in the order in which they came.
use gear_mcp_server.Base.{
  ℕ, ◌+◌, ◌-◌, ◌≤◌, ◌≡◌, refl, sym, ap, ◌∙◌, append_assoc, append-nil, arith, Bool, true, false,
  Option, none, some, List, [], ◌∷◌, ◌++◌, ltb, if◌then◌else◌, Bool-cases, inl, inr, Bytes, length,
  length-append, last_items, length-drop, drop, drop-drop, drop-append_le,
}
use gear_mcp_server.Exec.{Result, ok, threw, continue}
use gear_mcp_server.Json.{JsonLib}
use gear_mcp_server.Tools.{Values, reply}
use gear_mcp_server.Tools.Intent.{
  Kind, snapshots, decisions, work_steps, traces, cap, same_kind, put_array, State, Desk, resolved,
  resolve_state_path, persist_state, push_back, trim_array, keep_last, append_entry,
}
use gear_mcp_server.Tools.Intent.Record.{save_entry}

module _ {ℓ} {A : Type ℓ} where
  keep_last-last_items : (n : ℕ) (xs : List A) → keep_last n xs ≡ last_items n xs
  unfolding keep_last
  keep_last-last_items n xs = elim (Bool-cases (ltb n (length xs))) [
    | inl e ↦ rw e
    | inr e ↦
        let none_over : 0 ≡ length xs - n = ground arith in rw e (ap (λ k. drop k xs) none_over)
  ]

  last_items_short : (n : ℕ) (xs : List A) → length xs ≤ n → last_items n xs ≡ xs
  last_items_short n xs h =
      let none_over : length xs - n ≡ 0 = omega arith in ap (λ k. drop k xs) none_over

  -- Items that an earlier trim dropped are dropped in any case.
  pub last_items-append :
      (n : ℕ) (xs ys : List A) → last_items n (last_items n xs ++ ys) ≡ last_items n (xs ++ ys)
  last_items-append n xs ys =
      let a = length xs - n in
      let long : length (drop a xs ++ ys) ≡ length xs - a + length ys =
        length-append (drop a xs) ys ∙ ap (λ k. k + length ys) (length-drop a xs) in
      let shift : a + (length (drop a xs ++ ys) - n) ≡ length (xs ++ ys) - n =
        omega (arith, long, length-append xs ys) in
      ap (drop (length (drop a xs ++ ys) - n)) (sym (drop-append_le a xs ys (omega arith)))
      ∙ drop-drop (length (drop a xs ++ ys) - n) a (xs ++ ys)
      ∙ ap (λ k. drop k (xs ++ ys)) shift

same_kind-eq : (j k : Kind) → same_kind j k ≡ true → j ≡ k
same_kind-eq snapshots snapshots h = refl
same_kind-eq decisions decisions h = refl
same_kind-eq work_steps work_steps h = refl
same_kind-eq traces traces h = refl
same_kind-eq _ _ h = cc

module _ (lib : JsonLib) (values : Values lib) {W : Type 0} (desk : Desk W) where
  open lib use {Json, array}

  trim_array_lem :
      (n : ℕ) (xs : List Json) → trim_array lib values desk n (array xs) ≡ array (last_items n xs)
  unfolding trim_array
  trim_array_lem n xs = rw (values.as_array-array xs) (by_length (ltb n (length xs)) refl)
    where
      by_length :
          (b : Bool)
          → ltb n (length xs) ≡ b
          → (if b then array (keep_last n xs) else array xs) ≡ array (last_items n xs)
      by_length true e = ap array (keep_last-last_items n xs)
      by_length false e = ap array (sym (last_items_short n xs (ground arith)))

  append_entry_lem :
      (k : Kind) (e : Json) (s : State Json W) {xs : List Json}
      → values.as_array (s.notes.arrays k) ≡ some xs
      → append_entry lib values desk k e s ≡ (
        ok tt,
        record s { notes = put_array k (array (last_items (cap k) (xs ++ e ∷ []))) s.notes },
      )
  unfolding append_entry push_back
  append_entry_lem k e s {xs} h = rw h (
      ap (λ j. (ok tt, record s { notes = put_array k j s.notes }))
        (trim_array_lem (cap k) (xs ++ e ∷ [])))

  resolved-notes :
      (o : Option Bytes) (s : State Json W) → (resolved lib values desk o s).1.notes ≡ s.notes
  resolved-notes none s = refl
  resolved-notes (some p) s = refl

  pub persist_state-notes : (s : State Json W) → (persist_state lib values desk s).1.notes ≡ s.notes
  unfolding persist_state resolve_state_path
  persist_state-notes s = resolved-notes s.path s

  -- An answer leaves the state as it is.
  reply-keeps :
      {S : Type 0} (f : S → Result Bytes) (r : Result (Unit {0})) (s : S)
      → (continue r (λ u s'. reply (f s') s') s).1 ≡ s
  reply-keeps f (ok u) s = refl
  reply-keeps f (threw e) s = refl

  -- Whatever the saving does, the entry is in the array.
  pub save_entry-notes :
      (k : Kind) (total : Bytes) (e : Json) (s : State Json W) {xs : List Json}
      → values.as_array (s.notes.arrays k) ≡ some xs
      → (save_entry lib values desk k total e s).1.notes
        ≡ put_array k (array (last_items (cap k) (xs ++ e ∷ []))) s.notes
  unfolding save_entry
  save_entry-notes k total e s {xs} h =
      let s' = record s {
        notes = put_array k (array (last_items (cap k) (xs ++ e ∷ []))) s.notes;
      } in
      rw (append_entry_lem k e s h) (
        ap (λ t. t.notes)
          (reply-keeps _ (persist_state lib values desk s').0 (persist_state lib values desk s').1)
        ∙ persist_state-notes s')

  -- Appends, one after the other: each with its array, the name of its count and its entry.
  unfoldable pub save_all : List (Kind × (Bytes × Json)) → State Json W → State Json W
  save_all [] s = s
  save_all ((k, (total, e)) ∷ es) s = save_all es (save_entry lib values desk k total e s).1

  -- The entries for one array, in the order in which they came.
  unfoldable pub entries_of : Kind → List (Kind × (Bytes × Json)) → List Json
  entries_of k [] = []
  entries_of k ((j, (total, e)) ∷ es) =
      if same_kind j k then e ∷ entries_of k es else entries_of k es

  -- Every array has the last of its entries.
  abbrev pub HasHistory : (Kind → List Json) → State Json W → Type 0
  HasHistory history s = (k : Kind) → s.notes.arrays k ≡ array (last_items (cap k) (history k))

  with_entry : (Kind → List Json) → Kind → Json → Kind → List Json
  with_entry history j e k = if same_kind j k then history k ++ e ∷ [] else history k

  with_entry-append :
      (history : Kind → List Json) (j : Kind) (e : Json) (k : Kind) (xs : List Json)
      → with_entry history j e k ++ xs ≡ history k ++ (if same_kind j k then e ∷ xs else xs)
  unfolding with_entry
  with_entry-append history j e k xs = elim (Bool-cases (same_kind j k)) [
    | inl eq ↦ rw eq (append_assoc (history k) (e ∷ []) xs)
    | inr ne ↦ rw ne refl
  ]

  save_entry-HasHistory :
      (history : Kind → List Json) (j : Kind) (total : Bytes) (e : Json) (s : State Json W)
      → HasHistory history s
      → HasHistory (with_entry history j e) (save_entry lib values desk j total e s).1
  unfolding with_entry
  save_entry-HasHistory history j total e s h k =
      let appended_at : values.as_array (s.notes.arrays j) ≡ some (last_items (cap j) (history j)) =
        rw (h j) (values.as_array-array (last_items (cap j) (history j))) in
      ap (λ g. g.arrays k) (save_entry-notes j total e s appended_at)
      ∙ elim (Bool-cases (same_kind j k)) [
        | inr ne ↦ rw ne (h k)
        | inl eq ↦ rw eq (
            ap array (
              last_items-append (cap j) (history j) (e ∷ [])
              ∙ ap (λ i. last_items (cap i) (history i ++ e ∷ [])) (same_kind-eq j k eq)))
      ]

  -- Any number of appends, to any of the arrays, and whatever becomes of the saving: each array
  -- has the last entries that were ever appended to it, in order, up to its limit, when it had
  -- the last entries of its history before.
  pub save_all-HasHistory :
      (history : Kind → List Json) (es : List (Kind × (Bytes × Json))) (s : State Json W)
      → HasHistory history s
      → HasHistory (λ k. history k ++ entries_of k es) (save_all es s)
  unfolding save_all entries_of
  save_all-HasHistory history [] s h k =
      h k ∙ ap (λ xs. array (last_items (cap k) xs)) (sym (append-nil (history k)))
  save_all-HasHistory history ((j, (total, e)) ∷ es) s h k =
      save_all-HasHistory (with_entry history j e) es (save_entry lib values desk j total e s).1
        (save_entry-HasHistory history j total e s h) k
      ∙ ap (λ xs. array (last_items (cap k) xs)) (with_entry-append history j e k (entries_of k es))
