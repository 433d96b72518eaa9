-- ===== src/Registry/Invariant.antt =====
-- The invariant of the registry, and that every method keeps it.
use gear_mcp_server.Base.{
  ℕ, ◌≡◌, ◌∙◌, refl, Bool, true, false, Option, some, [], ◌∷◌, arith, if◌then◌else◌, Bytes, str_eq,
  str_eq_iff, Bool-cases, inl, inr,
}
use gear_mcp_server.OrdMap.{
  OrdMap, lookup, insert, erase, has_key, IsSorted, insert-IsSorted, erase-IsSorted, lookup-insert,
  has_key-insert, has_key-erase, has_key-cons,
}
use gear_mcp_server.Registry.{
  ToolRegistry, Entry, new_registry, str_or, register_tool, set_tool_enabled, enable_all_tools,
  disable_keys, disable_all_tools, increment_call_count,
}

-- Every key of the first map is a key of the second.
abbrev pub Within {ℓ κ} : {V : Type ℓ} {W : Type κ} → OrdMap V → OrdMap W → Type 0
Within m n = (k : Bytes) → has_key k m ≡ true → has_key k n ≡ true

-- The maps are in order, only tools that exist are disabled, and a tool stands under its name.
pub record IsValid {H : Type 0} (r : ToolRegistry H) : Type 0 where
  pub tools_sorted : IsSorted r.tools
  pub disabled_sorted : IsSorted r.disabled
  pub counts_sorted : IsSorted r.call_counts
  pub known : Within r.disabled r.tools
  pub named : (k : Bytes) (e : Entry H) → lookup k r.tools ≡ some e → e.info.name ≡ k

module _ {H : Type 0} where
  new_registry-IsValid : IsValid (new_registry H)
  unfolding Within has_key lookup
  new_registry-IsValid = record {
    tools_sorted = tt;
    disabled_sorted = tt;
    counts_sorted = tt;
    known = λ k h. h;
    named = λ k e h. cc;
  }

  pub register_tool-IsValid :
      (p_name p_description p_input_schema : Option Bytes) (p_handler : Option H) (b : Bool)
      (r : ToolRegistry H)
      → IsValid r
      → IsValid (register_tool p_name p_description p_input_schema p_handler b r)
  unfolding register_tool
  register_tool-IsValid p_name d s h b r v = record {
    tools_sorted = insert-IsSorted _ _ r.tools v.tools_sorted;
    disabled_sorted = v.disabled_sorted;
    counts_sorted = v.counts_sorted;
    known = λ k hk. rw has_key-insert (ground (arith, v.known k hk));
    named = λ k e f.
        ground (arith, rw lookup-insert at f, v.named k e, str_eq_iff (str_or p_name []) k);
  }

  pub set_tool_enabled-IsValid :
      (p_name : Bytes) (b : Bool) (r : ToolRegistry H)
      → IsValid r
      → IsValid (set_tool_enabled p_name b r).1
  unfolding set_tool_enabled
  set_tool_enabled-IsValid p_name b r v = elim (Bool-cases (has_key p_name r.tools)) [
    | inr e ↦ rw e v
    | inl e ↦ rw e (toggled b e)
  ]
    where
      toggled :
          (b : Bool)
          → has_key p_name r.tools ≡ true
          → IsValid (record r {
            disabled = if b then erase p_name r.disabled else insert p_name tt r.disabled;
          })
      toggled true e = record {
        tools_sorted = v.tools_sorted;
        disabled_sorted = erase-IsSorted p_name r.disabled v.disabled_sorted;
        counts_sorted = v.counts_sorted;
        known = λ k h. ground (arith, rw (has_key-erase p_name k r.disabled) at h, v.known k);
        named = v.named;
      }
      toggled false e = record {
        tools_sorted = v.tools_sorted;
        disabled_sorted = insert-IsSorted p_name tt r.disabled v.disabled_sorted;
        counts_sorted = v.counts_sorted;
        known = λ k h. ground (
          arith,
          rw (has_key-insert p_name k tt r.disabled) at h,
          v.known k,
          e,
          str_eq_iff p_name k,
        );
        named = v.named;
      }

  pub enable_all_tools-IsValid : (r : ToolRegistry H) → IsValid r → IsValid (enable_all_tools r).1
  unfolding enable_all_tools Within has_key lookup
  enable_all_tools-IsValid r v = record {
    tools_sorted = v.tools_sorted;
    disabled_sorted = tt;
    counts_sorted = v.counts_sorted;
    known = λ k h. cc;
    named = v.named;
  }

  disable_keys-IsSorted :
      (m : OrdMap (Entry H)) (n : ℕ) (d : OrdMap (Unit {0}))
      → IsSorted d
      → IsSorted (disable_keys m n d).1
  unfolding disable_keys
  disable_keys-IsSorted [] n d s = s
  disable_keys-IsSorted ((k, e) ∷ m) n d s =
      disable_keys-IsSorted m _ (insert k tt d) (insert-IsSorted k tt d s)

  -- The loop disables the keys that it meets, and no other.
  pub has_key-disable_keys :
      (j : Bytes) (m : OrdMap (Entry H)) (n : ℕ) (d : OrdMap (Unit {0}))
      → has_key j (disable_keys m n d).1 ≡ (if has_key j m then true else has_key j d)
  unfolding disable_keys
  has_key-disable_keys j [] n d = unfold has_key lookup in refl
  has_key-disable_keys j ((k, e) ∷ m) n d =
      has_key-disable_keys j m _ (insert k tt d)
      ∙ rw (has_key-insert k j tt d, has_key-cons j k e m) (by_cases (str_eq k j) (has_key j m))
    where
      by_cases :
          (a b : Bool)
          → (if b then true else if a then true else has_key j d)
            ≡ (if if a then true else b then true else has_key j d)
      by_cases true true = refl
      by_cases true false = refl
      by_cases false true = refl
      by_cases false false = refl

  pub disable_all_tools-IsValid : (r : ToolRegistry H) → IsValid r → IsValid (disable_all_tools r).1
  unfolding disable_all_tools
  disable_all_tools-IsValid r v = record {
    tools_sorted = v.tools_sorted;
    disabled_sorted = disable_keys-IsSorted r.tools 0 r.disabled v.disabled_sorted;
    counts_sorted = v.counts_sorted;
    known = λ k h. ground (arith, rw (has_key-disable_keys k r.tools 0 r.disabled) at h, v.known k);
    named = v.named;
  }

  pub increment_call_count-IsValid :
      (p_name : Bytes) (r : ToolRegistry H) → IsValid r → IsValid (increment_call_count p_name r)
  unfolding increment_call_count
  increment_call_count-IsValid p_name r v = record {
    tools_sorted = v.tools_sorted;
    disabled_sorted = v.disabled_sorted;
    counts_sorted = insert-IsSorted p_name _ r.call_counts v.counts_sorted;
    known = v.known;
    named = v.named;
  }

-- One call of a method that changes the registry.
pub data Step {H : Type 0} (r : ToolRegistry H) : ToolRegistry H → Type 0 where
  register :
      (p_name p_description p_input_schema : Option Bytes) (p_handler : Option H) (b : Bool)
      → Step r (register_tool p_name p_description p_input_schema p_handler b r)
  toggle : (p_name : Bytes) (b : Bool) → Step r (set_tool_enabled p_name b r).1
  enable_all : Step r (enable_all_tools r).1
  disable_all : Step r (disable_all_tools r).1
  increment : (p_name : Bytes) → Step r (increment_call_count p_name r)

-- The registries that calls lead to, by any threads in any order, from an empty one.
pub data Reach {H : Type 0} : ToolRegistry H → Type 0 where
  initial : {r : ToolRegistry H} → r ≡ new_registry H → Reach r
  next : {r s : ToolRegistry H} → Reach r → Step r s → Reach s

Step-IsValid : {H : Type 0} {r s : ToolRegistry H} → Step r s → IsValid r → IsValid s
Step-IsValid {r} (register n d i h b) v = register_tool-IsValid n d i h b r v
Step-IsValid {r} (toggle n b) v = set_tool_enabled-IsValid n b r v
Step-IsValid {r} enable_all v = enable_all_tools-IsValid r v
Step-IsValid {r} disable_all v = disable_all_tools-IsValid r v
Step-IsValid {r} (increment n) v = increment_call_count-IsValid n r v

-- After any calls, from any threads in any order, the maps are in order, only registered tools
-- are disabled, and each tool stands under its own name.
pub Reach-IsValid : {H : Type 0} {r : ToolRegistry H} → Reach r → IsValid r
Reach-IsValid (initial e) = rw e new_registry-IsValid
Reach-IsValid (next reach step) = Step-IsValid step (Reach-IsValid reach)
