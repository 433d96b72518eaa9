-- ===== src/Registry/Enabled.antt =====
-- What the panel's switches do, and that the counts agree with them.
use gear_mcp_server.Base.{
  ℕ, suc, ◌+◌, ◌^◌, ◌<◌, ◌≡◌, refl, Bool, true, false, not, ◌&&◌, [], ◌∷◌, arith, if◌then◌else◌,
  Bytes, str_eq, str_eq_iff, Bool-cases, inl, inr, length,
}
use gear_mcp_server.OrdMap.{
  OrdMap, insert, erase, has_key, IsSorted, Above, has_key-insert, has_key-erase, has_key-cons,
  has_key-nil, has_key_head, insert-IsSorted, length-erase, length-insert, erase-IsSorted,
  before_irrefl,
}
use gear_mcp_server.Registry.{
  ToolRegistry, Entry, enabled_count, set_tool_enabled, is_tool_enabled, enable_all_tools,
  disable_keys, disable_all_tools, tool_count,
}
use gear_mcp_server.Registry.Invariant.{
  IsValid, Within, has_key-disable_keys, disable_all_tools-IsValid,
}

module _ {H : Type 0} where
  -- How many keys pass the test.
  pub count_keys : (Bytes → Bool) → OrdMap (Entry H) → ℕ
  count_keys p [] = 0
  count_keys p ((k, e) ∷ m) = (if p k then 1 else 0) + count_keys p m

  -- How many registered tools `is_tool_enabled` holds for.
  pub count_enabled : ToolRegistry H → ℕ
  count_enabled r = count_keys (λ k. is_tool_enabled k r) r.tools

  count_keys-erase :
      (k : Bytes) (m : OrdMap (Entry H)) (d : OrdMap (Unit {0}))
      → Above k m
      → count_keys (λ j. not (has_key j (erase k d))) m ≡ count_keys (λ j. not (has_key j d)) m
  unfolding count_keys
  count_keys-erase k [] d a = refl
  count_keys-erase k ((j, e) ∷ m) d a = elim (Bool-cases (str_eq k j)) [
    | inl same ↦ absurd (ground (arith, before_irrefl j, a.0, (str_eq_iff k j).0 same))
    | inr other ↦ rw (has_key-erase k j d, other, count_keys-erase k m d a.1)
  ]

  Within-erase :
      (k : Bytes) (e : Entry H) (m : OrdMap (Entry H)) (d : OrdMap (Unit {0}))
      → Within d ((k, e) ∷ m)
      → Within (erase k d) m
  Within-erase k e m d w j h = elim (Bool-cases (str_eq k j)) [
    | inl same ↦ absurd (ground (arith, has_key-erase k j d, same, h))
    | inr other ↦ ground (arith, has_key-erase k j d, other, h, has_key-cons j k e m, w j)
  ]

  count_keys-add :
      (m : OrdMap (Entry H)) (d : OrdMap (Unit {0}))
      → IsSorted m
      → IsSorted d
      → Within d m
      → count_keys (λ j. not (has_key j d)) m + length d ≡ length m
  unfolding count_keys
  count_keys-add [] [] s t w = omega arith
  count_keys-add [] ((j, u) ∷ d) s t w = cc (w j (has_key_head j u d), has_key-nil (Entry H) j)
  count_keys-add ((k, e) ∷ m) d s t w =
      let rest = count_keys-add m (erase k d) s.1 (erase-IsSorted k d t) (Within-erase k e m d w) in
      let same = count_keys-erase k m d s.0 in
      elim (Bool-cases (has_key k d)) [
        | inl e ↦ rw e (omega (arith, rest, same, rw e at (length-erase k d t)))
        | inr e ↦ rw e (omega (arith, rest, same, rw e at (length-erase k d t)))
      ]

  -- The count that the panel shows is the number of tools that are enabled, and the subtraction
  -- in it does not wrap around.
  pub enabled_count-eq :
      (r : ToolRegistry H) → IsValid r → length r.tools < 2 ^ 64 → enabled_count r ≡ count_enabled r
  unfolding enabled_count count_enabled is_tool_enabled
  enabled_count-eq r v h =
      omega (arith, count_keys-add r.tools r.disabled v.tools_sorted v.disabled_sorted v.known)

  -- Setting a tool succeeds exactly if the tool exists. It then decides `is_tool_enabled` for
  -- that tool, and changes it for no other tool; a failed call changes nothing.
  pub set_tool_enabled_lem :
      (k j : Bytes) (b : Bool) (r : ToolRegistry H)
      → ((set_tool_enabled k b r).0 ≡ has_key k r.tools)
        × (is_tool_enabled j (set_tool_enabled k b r).1
            ≡ (if has_key k r.tools && str_eq k j then b else is_tool_enabled j r))
  unfolding set_tool_enabled is_tool_enabled
  set_tool_enabled_lem k j b r = elim (Bool-cases (has_key k r.tools)) [
    | inr e ↦ rw e (refl, refl)
    | inl e ↦ rw e (refl, switched b)
  ]
    where
      switched :
          (b : Bool)
          → not (has_key j (if b then erase k r.disabled else insert k tt r.disabled))
            ≡ (if str_eq k j then b else not (has_key j r.disabled))
      switched true = rw (has_key-erase k j r.disabled) (ground arith)
      switched false = rw (has_key-insert k j tt r.disabled) (ground arith)

  disable_keys-count :
      (m : OrdMap (Entry H)) (n : ℕ) (d : OrdMap (Unit {0}))
      → IsSorted m
      → IsSorted d
      → ((disable_keys m n d).0 + length d ≡ n + length (disable_keys m n d).1)
  unfolding disable_keys
  disable_keys-count [] n d s t = refl
  disable_keys-count ((k, e) ∷ m) n d s t =
      let rest =
        disable_keys-count m (if has_key k d then n else n + 1) (insert k tt d) s.1
          (insert-IsSorted k tt d t) in
      disable_step (has_key k d) _ _ _ rest (length-insert k tt d t)
    where
      disable_step :
          (known : Bool) (x y z : ℕ)
          → x + y ≡ (if known then n else n + 1) + z
          → y ≡ (if known then length d else suc (length d))
          → x + length d ≡ n + z
      disable_step true x y z p q = omega arith
      disable_step false x y z p q = omega arith

  count_keys-Within :
      (m : OrdMap (Entry H)) (d : OrdMap (Unit {0}))
      → Within m d
      → count_keys (λ j. not (has_key j d)) m ≡ 0
  unfolding count_keys
  count_keys-Within [] d w = refl
  count_keys-Within ((k, e) ∷ m) d w =
      let rest = count_keys-Within m d (λ j h. w j (rw (has_key-cons j k e m) (ground arith))) in
      rw (w k (has_key_head k e m)) (omega (arith, rest))

  -- Disabling all tools returns the count of those that were enabled, and leaves no registered
  -- tool enabled.
  pub disable_all_tools_lem :
      (r : ToolRegistry H)
      → IsValid r
      → length r.tools < 2 ^ 64
      → ((disable_all_tools r).0 ≡ enabled_count r)
        × (enabled_count (disable_all_tools r).1 ≡ 0)
        × ((k : Bytes) → is_tool_enabled k (disable_all_tools r).1 ≡ not (has_key k r.tools))
  unfolding disable_all_tools enabled_count is_tool_enabled
  disable_all_tools_lem r v h =
      let after = disable_all_tools-IsValid r v in
      let d = (disable_keys r.tools 0 r.disabled).1 in
      let keys = λ (k : Bytes). has_key-disable_keys k r.tools 0 r.disabled in
      let full = count_keys-Within r.tools d (λ k e. rw (keys k, e)) in
      let total = count_keys-add r.tools d after.tools_sorted after.disabled_sorted after.known in
      let loop = disable_keys-count r.tools 0 r.disabled v.tools_sorted v.disabled_sorted in
      let before_ = count_keys-add r.tools r.disabled v.tools_sorted v.disabled_sorted v.known in
      (
        omega (arith, full, total, loop, before_),
        omega (arith, full, total),
        λ k. rw (keys k) (ground (arith, v.known k)),
      )

  -- Enabling all tools leaves every tool enabled, and returns how many were not.
  pub enable_all_tools_lem :
      (r : ToolRegistry H)
      → IsValid r
      → length r.tools < 2 ^ 64
      → ((enable_all_tools r).0 + enabled_count r ≡ tool_count r)
        × (enabled_count (enable_all_tools r).1 ≡ tool_count r)
        × ((k : Bytes) → is_tool_enabled k (enable_all_tools r).1 ≡ true)
  unfolding enable_all_tools enabled_count is_tool_enabled tool_count
  enable_all_tools_lem r v h =
      let before_ = count_keys-add r.tools r.disabled v.tools_sorted v.disabled_sorted v.known in
      (omega (arith, before_), omega arith, λ k. rw (has_key-nil (Unit {0}) k))
