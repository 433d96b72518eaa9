-- ===== src/Registry.antt =====
-- src/server/tool_registry.h and tool_registry.cpp: the tools by name, the tools that the panel
-- has disabled and the calls counted per tool. Each method runs under the mutex of the registry
-- from its first line to its last, so it is one step here. Sizes of containers are below 2 ^ 64,
-- so `size_t` is ℕ; the one subtraction on it keeps its wrap-around, and so do the `int64_t`
-- counters, which are kept as their bit patterns.
pub mod Invariant
pub mod Enabled
pub mod Calls
pub mod Refines
use gear_mcp_server.Base.{
  ℕ, zero, suc, ◌+◌, ◌-◌, ◌%◌, ◌^◌, Bool, true, false, not, Option, none, some, List, [], ◌∷◌, map,
  if◌then◌else◌, Bytes, codes, length,
}
use gear_mcp_server.OrdMap.{OrdMap, lookup, insert, erase, has_key}

pub record ToolInfo : Type 0 where
  pub name : Bytes
  pub description : Bytes
  pub input_schema : Bytes
  pub main_thread : Bool

-- A handler is a function pointer: `H` is the type of what it may point to, and `none` is null.
pub record Entry (H : Type 0) : Type 0 where
  pub info : ToolInfo
  pub handler : Option H

-- A set is a map to the unit type.
pub record ToolRegistry (H : Type 0) : Type 0 where
  pub tools : OrdMap (Entry H)
  pub disabled : OrdMap (Unit {0})
  pub call_counts : OrdMap ℕ

abbrev pub new_registry : (H : Type 0) → ToolRegistry H
new_registry H = record { tools = []; disabled = []; call_counts = [] }

-- A `const char *`, null or not, as a std::string.
abbrev pub str_or : Option Bytes → Bytes → Bytes
str_or none d = d
str_or (some s) d = s

-- a missing counter is 0
abbrev pub count_or_zero : Option ℕ → ℕ
count_or_zero none = 0
count_or_zero (some c) = c

module _ {H : Type 0} where
  abbrev pub new_entry : Option Bytes → Option Bytes → Option Bytes → Option H → Bool → Entry H
  new_entry p_name p_description p_input_schema p_handler p_main_thread = record {
    info = record {
      name = str_or p_name [];
      description = str_or p_description [];
      input_schema = str_or p_input_schema (codes "{}");
      main_thread = p_main_thread;
    };
    handler = p_handler;
  }

  unfoldable pub register_tool :
      Option Bytes → Option Bytes → Option Bytes → Option H → Bool → ToolRegistry H → ToolRegistry H
  register_tool p_name p_description p_input_schema p_handler p_main_thread r =
      let entry = new_entry p_name p_description p_input_schema p_handler p_main_thread in
      record r { tools = insert entry.info.name entry r.tools }

  abbrev pub found : Option (Entry H) → Option (ToolInfo × Option H)
  found none = none
  found (some e) = some (e.info, e.handler)

  -- `none` is the result false
  unfoldable pub get_tool : Option Bytes → ToolRegistry H → Option (ToolInfo × Option H)
  get_tool p_name r = found (lookup (str_or p_name []) r.tools)

  unfoldable pub infos : OrdMap (Entry H) → List ToolInfo
  infos [] = []
  infos ((k, e) ∷ m) = e.info ∷ infos m

  unfoldable pub list_tools : ToolRegistry H → List ToolInfo
  unfolding infos
  list_tools r = infos r.tools

  pub tool_count : ToolRegistry H → ℕ
  tool_count r = length r.tools

  pub enabled_count : ToolRegistry H → ℕ
  enabled_count r = (length r.tools + 2 ^ 64 - length r.disabled) % 2 ^ 64

  unfoldable pub set_tool_enabled : Bytes → Bool → ToolRegistry H → Bool × ToolRegistry H
  set_tool_enabled p_name p_enabled r =
      if has_key p_name r.tools
      then (
        true,
        record r {
          disabled = if p_enabled then erase p_name r.disabled else insert p_name tt r.disabled;
        },
      )
      else (false, r)

  unfoldable pub is_tool_enabled : Bytes → ToolRegistry H → Bool
  is_tool_enabled p_name r = not (has_key p_name r.disabled)

  pub enable_all_tools : ToolRegistry H → ℕ × ToolRegistry H
  enable_all_tools r = (length r.disabled, record r { disabled = [] })

  -- The loop of `disable_all_tools`: `insert(...).second` says whether the key was new.
  pub disable_keys : OrdMap (Entry H) → ℕ → OrdMap (Unit {0}) → ℕ × OrdMap (Unit {0})
  disable_keys [] n d = (n, d)
  disable_keys ((k, e) ∷ m) n d = disable_keys m (if has_key k d then n else n + 1) (insert k tt d)

  pub disable_all_tools : ToolRegistry H → ℕ × ToolRegistry H
  unfolding disable_keys
  disable_all_tools r =
      let (n, d) = disable_keys r.tools 0 r.disabled in (n, record r { disabled = d })

  -- `++m_call_counts[p_name]`, where operator[] inserts 0 for a missing key.
  unfoldable pub increment_call_count : Bytes → ToolRegistry H → ToolRegistry H
  increment_call_count p_name r = record r {
    call_counts =
        insert p_name ((count_or_zero (lookup p_name r.call_counts) + 1) % 2 ^ 64) r.call_counts;
  }

  pub get_call_count : Bytes → ToolRegistry H → ℕ
  get_call_count p_name r = count_or_zero (lookup p_name r.call_counts)

-- The loop of `total_call_count`.
pub sum_counts : OrdMap ℕ → ℕ → ℕ
sum_counts [] sum = sum
sum_counts ((k, c) ∷ m) sum = sum_counts m ((sum + c) % 2 ^ 64)

pub total_call_count : {H : Type 0} → ToolRegistry H → ℕ
unfolding sum_counts
total_call_count r = sum_counts r.call_counts 0
