-- ===== src/Registry/Refines.antt =====
-- What the registry promises, without its maps: a view of three functions, and what each call does
-- to it.
use gear_mcp_server.Base.{
  ℕ, ◌+◌, ◌%◌, ◌^◌, ◌≡◌, refl, arith, ap, ◌∙◌, Bool, true, not, ◌&&◌, Option, none, some, List, [],
  ◌∷◌, is_some, if◌then◌else◌, Bytes, str_eq, Bool-cases, inl, inr,
}
use gear_mcp_server.OrdMap.{lookup, has_key, has_key-nil}
use gear_mcp_server.Registry.{
  ToolInfo, ToolRegistry, Entry, new_entry, str_or, found, register_tool, get_tool,
  set_tool_enabled, is_tool_enabled, enable_all_tools, disable_all_tools, increment_call_count,
  get_call_count, count_or_zero,
}
use gear_mcp_server.Registry.Invariant.{
  IsValid, register_tool-IsValid, set_tool_enabled-IsValid, enable_all_tools-IsValid,
  disable_all_tools-IsValid, increment_call_count-IsValid, has_key-disable_keys,
}
use gear_mcp_server.Registry.Enabled.{set_tool_enabled_lem}
use gear_mcp_server.Registry.Calls.{get_tool-register_tool, get_call_count-increment}

-- The calls that change the registry, with their arguments.
pub data Op (H : Type 0) : Type 0 where
  register : Option Bytes → Option Bytes → Option Bytes → Option H → Bool → Op H
  toggle : Bytes → Bool → Op H
  enable_all : Op H
  disable_all : Op H
  increment : Bytes → Op H

-- What a name finds, whether it is enabled, and how often it was called.
pub record View (H : Type 0) : Type 0 where
  pub tool : Bytes → Option (ToolInfo × Option H)
  pub enabled : Bytes → Bool
  pub calls : Bytes → ℕ

module _ {H : Type 0} where
  unfoldable pub run_op : Op H → ToolRegistry H → ToolRegistry H
  run_op (register n d s h b) r = register_tool n d s h b r
  run_op (toggle n b) r = (set_tool_enabled n b r).1
  run_op enable_all r = (enable_all_tools r).1
  run_op disable_all r = (disable_all_tools r).1
  run_op (increment n) r = increment_call_count n r

  unfoldable pub run_ops : List (Op H) → ToolRegistry H → ToolRegistry H
  run_ops [] r = r
  run_ops (o ∷ os) r = run_ops os (run_op o r)

  abbrev pub is_tool : View H → Bytes → Bool
  is_tool v k = is_some (v.tool k)

  -- What each call promises: a registration replaces the tool of that name and keeps its switch; a
  -- switch is set for a registered tool only; a call adds one to its own counter.
  unfoldable pub promise : Op H → View H → View H
  promise (register n d s h b) v = record v {
    tool = λ k. if str_eq (str_or n []) k then some ((new_entry n d s h b).info, h) else v.tool k;
  }
  promise (toggle n b) v = record v {
    enabled = λ k. if is_tool v n && str_eq n k then b else v.enabled k;
  }
  promise enable_all v = record v { enabled = λ k. true }
  promise disable_all v = record v { enabled = λ k. not (is_tool v k) }
  promise (increment n) v = record v {
    calls = λ k. if str_eq n k then (v.calls n + 1) % 2 ^ 64 else v.calls k;
  }

  unfoldable pub promises : List (Op H) → View H → View H
  promises [] v = v
  promises (o ∷ os) v = promises os (promise o v)

  unfoldable pub view : ToolRegistry H → View H
  view r = record {
    tool = λ k. get_tool (some k) r;
    enabled = λ k. is_tool_enabled k r;
    calls = λ k. get_call_count k r;
  }

  run_op-IsValid : (o : Op H) (r : ToolRegistry H) → IsValid r → IsValid (run_op o r)
  unfolding run_op
  run_op-IsValid (register n d s h b) r v = register_tool-IsValid n d s h b r v
  run_op-IsValid (toggle n b) r v = set_tool_enabled-IsValid n b r v
  run_op-IsValid enable_all r v = enable_all_tools-IsValid r v
  run_op-IsValid disable_all r v = disable_all_tools-IsValid r v
  run_op-IsValid (increment n) r v = increment_call_count-IsValid n r v

  pub is_some-get_tool :
      (k : Bytes) (r : ToolRegistry H) → is_some (get_tool (some k) r) ≡ has_key k r.tools
  unfolding get_tool has_key
  is_some-get_tool k r = by_entry (lookup k r.tools)
    where
      by_entry : (o : Option (Entry H)) → is_some (found o) ≡ is_some o
      by_entry none = refl
      by_entry (some e) = refl

  pub set_tool_enabled-tools :
      (n : Bytes) (b : Bool) (r : ToolRegistry H)
      → ((set_tool_enabled n b r).1.tools ≡ r.tools)
        × ((set_tool_enabled n b r).1.call_counts ≡ r.call_counts)
  unfolding set_tool_enabled
  set_tool_enabled-tools n b r = elim (Bool-cases (has_key n r.tools)) [
    | inl e ↦ rw e (refl, refl)
    | inr e ↦ rw e (refl, refl)
  ]

  disable_all_tools-enabled :
      (r : ToolRegistry H) (k : Bytes)
      → IsValid r
      → is_tool_enabled k (disable_all_tools r).1 ≡ not (has_key k r.tools)
  unfolding is_tool_enabled disable_all_tools
  disable_all_tools-enabled r k v =
      rw (has_key-disable_keys k r.tools 0 r.disabled) (ground (arith, v.known k))

  -- Each field of the view of the next registry.
  run_op-tool :
      (o : Op H) (r : ToolRegistry H) (k : Bytes)
      → get_tool (some k) (run_op o r) ≡ (promise o (view r)).tool k
  unfolding run_op promise view get_tool register_tool enable_all_tools disable_all_tools
      increment_call_count
  run_op-tool (register n d s h b) r k = get_tool-register_tool n d s (some k) h b r
  run_op-tool (toggle n b) r k = ap (λ m. found (lookup k m)) (set_tool_enabled-tools n b r).0
  run_op-tool enable_all r k = refl
  run_op-tool disable_all r k = refl
  run_op-tool (increment n) r k = refl

  run_op-enabled :
      (o : Op H) (r : ToolRegistry H)
      → IsValid r
      → (k : Bytes) → is_tool_enabled k (run_op o r) ≡ (promise o (view r)).enabled k
  unfolding run_op promise view is_tool_enabled register_tool enable_all_tools increment_call_count
  run_op-enabled (register n d s h b) r v k = refl
  run_op-enabled (toggle n b) r v k = rw (is_some-get_tool n r) (set_tool_enabled_lem n k b r).1
  run_op-enabled enable_all r v k = rw (has_key-nil (Unit {0}) k) refl
  run_op-enabled disable_all r v k = rw (is_some-get_tool k r) (disable_all_tools-enabled r k v)
  run_op-enabled (increment n) r v k = refl

  run_op-calls :
      (o : Op H) (r : ToolRegistry H) (k : Bytes)
      → get_call_count k (run_op o r) ≡ (promise o (view r)).calls k
  unfolding run_op promise view get_call_count register_tool enable_all_tools disable_all_tools
  run_op-calls (register n d s h b) r k = refl
  run_op-calls (toggle n b) r k =
      ap (λ m. count_or_zero (lookup k m)) (set_tool_enabled-tools n b r).1
  run_op-calls enable_all r k = refl
  run_op-calls disable_all r k = refl
  run_op-calls (increment n) r k = get_call_count-increment n k r

  view-run_op : (o : Op H) (r : ToolRegistry H) → IsValid r → view (run_op o r) ≡ promise o (view r)
  unfolding view promise
  view-run_op o r v = λ i. record {
    tool = λ k. run_op-tool o r k i;
    enabled = λ k. run_op-enabled o r v k i;
    calls = λ k. run_op-calls o r k i;
  }

  -- The registry keeps its promises: after any calls, in any order, a valid registry looks as if
  -- each call had done what it promises to the tools by name, the switches and the counters.
  pub view-run_ops :
      (os : List (Op H)) (r : ToolRegistry H)
      → IsValid r
      → view (run_ops os r) ≡ promises os (view r)
  unfolding run_ops promises
  view-run_ops [] r v = refl
  view-run_ops (o ∷ os) r v =
      view-run_ops os (run_op o r) (run_op-IsValid o r v) ∙ ap (promises os) (view-run_op o r v)
