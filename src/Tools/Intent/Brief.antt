-- ===== src/Tools/Intent/Brief.antt =====
-- src/tools/intent/intent_tools.cpp: the text of a brief. `show` is a size in decimal digits, as an
-- output stream writes it.
use gear_mcp_server.Base.{
  ℕ, Bool, Option, none, some, List, [], ◌∷◌, ◌++◌, ◌==◌, if◌then◌else◌, Bytes, codes, is_empty,
  is_some,
}
use gear_mcp_server.Exec.{Result, ok, threw}
use gear_mcp_server.Json.{JsonLib}
use gear_mcp_server.Methods.Rpc.{value}
use gear_mcp_server.Tools.{Values}
use gear_mcp_server.Tools.Intent.{snapshots, decisions, work_steps, traces, Notes, Desk, keep_last}

module _ (lib : JsonLib) (values : Values lib) {W : Type 0} (desk : Desk W) where
  open lib use {Json, string, number, boolean, object, array, dump, find, type_error}

  -- A text that may have failed, with a text before and behind it.
  abbrev pub around : Bytes → Result Bytes → Bytes → Result Bytes
  around a (ok t) b = ok (a ++ (t ++ b))
  around a (threw e) b = threw e

  abbrev pub then_text : Result Bytes → Result Bytes → Result Bytes
  then_text (ok a) r = around a r []
  then_text (threw e) r = threw e

  -- if (e.contains(key)) brief << before << e.value(key, "") << behind
  unfoldable pub part : Json → Bytes → Bytes → Bytes → Result Bytes
  part e key before behind =
      if is_some (find key e) then around before (value lib e key []) behind else ok []

  -- The chain of decision, intent, action and event.
  unfoldable pub headline : Json → Result Bytes
  headline e =
      if is_some (find (codes "decision") e)
      then value lib e (codes "decision") []
      else if is_some (find (codes "intent") e)
      then value lib e (codes "intent") []
      else if is_some (find (codes "action") e)
      then value lib e (codes "action") []
      else if is_some (find (codes "event") e)
      then value lib e (codes "event") []
      else ok []

  abbrev pub unless_empty : Result Bytes → Result Bytes
  unless_empty (ok t) = if is_empty t then ok [] else ok (codes "  - Outcome: " ++ t ++ codes "\n")
  unless_empty (threw e) = threw e

  unfoldable pub outcome_part : Json → Result Bytes
  outcome_part e =
      if is_some (find (codes "outcome") e)
      then unless_empty (value lib e (codes "outcome") [])
      else ok []

  -- One item of the brief; only the brief itself, not the pack, tells the time of the item.
  unfoldable pub item_text : Bool → Bytes → Json → Result Bytes
  item_text with_time p_item_label e =
      then_text (ok (codes "- **" ++ p_item_label ++ codes "** ")) (
        then_text (part e (codes "label") (codes "[") (codes "] ")) (
          then_text (headline e) (
            then_text (ok (codes "\n")) (
              then_text (part e (codes "rationale") (codes "  - Why: ") (codes "\n")) (
                then_text (outcome_part e) (
                  if with_time
                  then part e (codes "timestamp") (codes "  - At: ") (codes "\n")
                  else ok []))))))

  unfoldable pub items_text : Bool → Bytes → List Json → Result Bytes
  items_text with_time p_item_label [] = ok (codes "\n")
  items_text with_time p_item_label (e ∷ es) =
      then_text (item_text with_time p_item_label e) (items_text with_time p_item_label es)

  abbrev pub listed_items : Bool → Bytes → ℕ → Option (List Json) → Json → Result Bytes
  listed_items with_time p_item_label n none j = threw (type_error j)
  listed_items with_time p_item_label n (some xs) j =
      items_text with_time p_item_label (keep_last n xs)

  module _ (show : ℕ → Bytes) where
    -- write_section
    unfoldable pub section_text : Bool → ℕ → Bytes → Bytes → Json → Result Bytes
    section_text with_time n p_heading p_item_label j =
        then_text
          (ok (codes "## " ++ p_heading ++ codes " (" ++ show (values.size j) ++ codes ")\n\n"))
          (if values.size j == 0
            then ok (codes "_(none)_\n\n")
            else listed_items with_time p_item_label n (values.as_array j) j)

    unfoldable pub sections_text : Bool → ℕ → Notes Json → Result Bytes
    sections_text with_time n g =
        then_text
          (section_text with_time n (codes "Snapshots") (codes "snapshot") (g.arrays snapshots))
          (then_text
            (section_text with_time n (codes "Decisions") (codes "decision") (g.arrays decisions))
            (then_text
              (section_text with_time n (codes "Work Steps") (codes "step") (g.arrays work_steps))
              (section_text with_time n (codes "Traces") (codes "trace") (g.arrays traces))))

    unfoldable pub brief_text : Bool → Bytes → ℕ → Bytes → Notes Json → Result Bytes
    brief_text with_time title n t g =
        then_text
          (ok (codes "# " ++ title ++ codes "\n\n" ++ codes "Generated: " ++ t ++ codes "\n\n"))
          (sections_text with_time n g)
