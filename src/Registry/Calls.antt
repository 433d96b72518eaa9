-- ===== src/Registry/Calls.antt =====
-- Registration, look-up, the list of the tools and the call counters.
use gear_mcp_server.Base.{
  ℕ, suc, ◌+◌, ◌%◌, ◌^◌, ◌<◌, ◌≡◌, refl, ap, ◌∙◌, Bool, true, Option, some, List, [], ◌∷◌, arith,
  if◌then◌else◌, Bytes, str_eq, str_eq_iff, Bool-cases, inl, inr, All, length,
}
use gear_mcp_server.OrdMap.{
  OrdMap, lookup, insert, before, IsSorted, Above, lookup-insert, lookup-Above, before_irrefl,
  Above-trans, lookup_head, lookup_tail,
}
use gear_mcp_server.Registry.{
  ToolInfo, ToolRegistry, Entry, new_entry, str_or, register_tool, get_tool, infos, list_tools,
  count_or_zero, found, increment_call_count, get_call_count, tool_count, sum_counts,
  total_call_count,
}
use gear_mcp_server.Registry.Invariant.{IsValid}

-- Each name is before those behind it.
abbrev pub Ascending : List ToolInfo → Type 0
Ascending [] = Unit
Ascending (x ∷ xs) = All (λ t. before x.name t.name ≡ true) xs × Ascending xs

module _ {H : Type 0} where
  -- After a registration, that name finds what was registered, null arguments replaced by their
  -- defaults, also where the name was registered before; every other name finds what it did.
  pub get_tool-register_tool :
      (p_name p_description p_input_schema q_name : Option Bytes) (p_handler : Option H) (b : Bool)
      (r : ToolRegistry H)
      → get_tool q_name (register_tool p_name p_description p_input_schema p_handler b r) ≡ (
          if str_eq (str_or p_name []) (str_or q_name [])
          then some ((new_entry p_name p_description p_input_schema p_handler b).info, p_handler)
          else get_tool q_name r)
  unfolding get_tool register_tool
  get_tool-register_tool n d s q h b r =
      ap found (lookup-insert (str_or n []) (str_or q []) (new_entry n d s h b) r.tools)
      ∙ (elim (Bool-cases (str_eq (str_or n []) (str_or q []))) [ inl e ↦ rw e | inr e ↦ rw e ])

  length-infos : (m : OrdMap (Entry H)) → length (infos m) ≡ length m
  unfolding infos
  length-infos [] = refl
  length-infos ((k, e) ∷ m) = ap suc (length-infos m)

  infos-NamesAbove :
      (k : Bytes) (m : OrdMap (Entry H))
      → ((j : Bytes) (e : Entry H) → lookup j m ≡ some e → e.info.name ≡ j)
      → Above k m
      → IsSorted m
      → All (λ t. before k t.name ≡ true) (infos m)
  unfolding infos
  infos-NamesAbove k [] named a s = tt
  infos-NamesAbove k ((j, e) ∷ m) named a s = (
    rw (named j e (lookup_head j e m)) a.0,
    infos-NamesAbove k m (λ i x p. named i x (lookup_tail j i e x m s.0 p)) a.1 s.1,
  )

  infos-Ascending :
      (m : OrdMap (Entry H))
      → ((j : Bytes) (e : Entry H) → lookup j m ≡ some e → e.info.name ≡ j)
      → IsSorted m
      → Ascending (infos m)
  unfolding infos
  infos-Ascending [] named s = tt
  infos-Ascending ((j, e) ∷ m) named s =
      let tail = λ (i : Bytes) (x : Entry H) (p : lookup i m ≡ some x).
        named i x (lookup_tail j i e x m s.0 p) in
      (
        rw (named j e (lookup_head j e m)) (infos-NamesAbove j m tail s.0 s.1),
        infos-Ascending m tail s.1,
      )

  -- The tools are listed in the strictly ascending order of their names, so each name once, and
  -- as many as `tool_count` says.
  pub list_tools-Ascending :
      (r : ToolRegistry H)
      → IsValid r
      → Ascending (list_tools r) × (length (list_tools r) ≡ tool_count r)
  unfolding list_tools tool_count
  list_tools-Ascending r v = (infos-Ascending r.tools v.named v.tools_sorted, length-infos r.tools)

-- One call raises the counter of its tool by one and no other.
pub get_call_count-increment :
    {H : Type 0} (k j : Bytes) (r : ToolRegistry H)
    → get_call_count j (increment_call_count k r)
      ≡ (if str_eq k j then (get_call_count k r + 1) % 2 ^ 64 else get_call_count j r)
unfolding get_call_count increment_call_count
get_call_count-increment k j r =
    ap count_or_zero
      (lookup-insert k j ((count_or_zero (lookup k r.call_counts) + 1) % 2 ^ 64) r.call_counts)
    ∙ (elim (Bool-cases (str_eq k j)) [ inl e ↦ rw e | inr e ↦ rw e ])

unfoldable pub sum_all : OrdMap ℕ → ℕ
sum_all [] = 0
sum_all ((k, c) ∷ m) = c + sum_all m

sum_counts-eq : (m : OrdMap ℕ) (n : ℕ) → n < 2 ^ 64 → sum_counts m n ≡ (n + sum_all m) % 2 ^ 64
unfolding sum_counts sum_all
sum_counts-eq [] n h = omega arith
sum_counts-eq ((k, c) ∷ m) n h = omega (arith, sum_counts-eq m ((n + c) % 2 ^ 64))

sum_all-insert :
    (k : Bytes) (v : ℕ) (m : OrdMap ℕ)
    → IsSorted m
    → sum_all (insert k v m) + count_or_zero (lookup k m) ≡ v + sum_all m
unfolding sum_all insert lookup
sum_all-insert k v [] s = omega arith
sum_all-insert k v ((j, c) ∷ m) s = ground (
  arith,
  str_eq_iff j k,
  str_eq_iff k j,
  before_irrefl j,
  lookup-Above k m,
  Above-trans k j m,
  sum_all-insert k v m,
)

-- One call raises the total by one, while the total fits an `int64_t`.
pub total_call_count-increment :
    {H : Type 0} (k : Bytes) (r : ToolRegistry H)
    → IsValid r
    → sum_all r.call_counts + 1 < 2 ^ 63
    → total_call_count (increment_call_count k r) ≡ total_call_count r + 1
unfolding total_call_count increment_call_count
total_call_count-increment k r v h =
    let m = r.call_counts in
    let old = count_or_zero (lookup k m) in
    let new = (old + 1) % 2 ^ 64 in
    omega (
      arith,
      sum_counts-eq m 0 (omega arith),
      sum_counts-eq (insert k new m) 0 (omega arith),
      sum_all-insert k new m v.counts_sorted,
      sum_all-insert k 0 m v.counts_sorted,
    )
