-- ===== src/Tools/Dx/Usages/Limit.antt =====
-- find_resource_usages: the loop that stops at the limit, against all usages.
use gear_mcp_server.Base.{
  ℕ, zero, suc, ◌+◌, ◌-◌, ◌<◌, ◌≡◌, refl, sym, ◌∙◌, arith, Bool, Option, none, some, List, [], ◌∷◌,
  ◌++◌, append-nil, append_assoc, ◌⊎◌, inl, inr, Bool-cases, leb, if◌then◌else◌, Bytes, length,
  length-append, take, find,
}
use gear_mcp_server.Tools.Dx.{FileSystem}
use gear_mcp_server.Tools.Dx.Usages.{Usage, usage_at, usage_in, is_scanned, usage_loop}

usage_at-cases :
    (path content stem : Bytes) (o : Option ℕ)
    → (usage_at path content stem o ≡ []) ⊎ ((u : Usage) × (usage_at path content stem o ≡ u ∷ []))
usage_at-cases path content stem none = inl refl
usage_at-cases path content stem (some p) = inr (_, refl)

-- A file adds one usage at most.
pub usage_in-cases :
    (path stem : Bytes) (opened : Option Bytes)
    → (usage_in path stem opened ≡ []) ⊎ ((u : Usage) × (usage_in path stem opened ≡ u ∷ []))
unfolding usage_in
usage_in-cases path stem none = inl refl
usage_in-cases path stem (some content) = usage_at-cases path content stem (find content stem)

-- One usage is added to those before it, and the loop may end.
one_more :
    (limit : ℕ) (ms : List Usage) (u : Usage) (us : List Usage) (n : ℕ) (next : ℕ × List Usage)
    → length ms < limit
    → (length (ms ++ u ∷ []) < limit
        → next.1 ≡ (ms ++ u ∷ []) ++ take (limit - length (ms ++ u ∷ [])) us)
    → (if leb limit (length (ms ++ u ∷ [])) then (n, ms ++ u ∷ []) else next).1
      ≡ ms ++ take (limit - length ms) (u ∷ us)
one_more limit ms u us n next room ih =
    let longer : length (ms ++ u ∷ []) ≡ length ms + 1 = length-append ms (u ∷ []) in
    let less : limit - length ms ≡ suc (limit - length (ms ++ u ∷ [])) = omega (arith, longer) in
    elim (Bool-cases (leb limit (length (ms ++ u ∷ [])))) [
      | inl e ↦ rw (e, less) (ends (limit - length (ms ++ u ∷ [])) (ground (arith, e)))
      | inr e ↦ rw (e, less) (ih (ground (arith, e)) ∙ append_assoc ms (u ∷ []) _)
    ]
  where
    ends : (k : ℕ) → k ≡ 0 → ms ++ u ∷ [] ≡ ms ++ take (suc k) (u ∷ us)
    ends zero h = refl
    ends (suc k) h = absurd (omega arith)

module _ {W : Type 0} (file_system : FileSystem W) (stem : Bytes) (limit : ℕ) (w : W) where
  -- The usages in all the entries that are scanned.
  unfoldable pub usages : List (Bytes × Bool) → List Usage
  usages [] = []
  usages (entry ∷ es) =
      let rest = usages es in
      if is_scanned file_system stem limit w entry
      then usage_in entry.0 stem (file_system.text entry.0 w) ++ rest
      else rest

  -- From fewer usages than the limit, the loop adds usages of the entries, in their order, until
  -- there are as many as the limit.
  pub usage_loop-take :
      (es : List (Bytes × Bool)) (n : ℕ) (ms : List Usage)
      → length ms < limit
      → (usage_loop file_system stem limit w es n ms).1 ≡ ms ++ take (limit - length ms) (usages es)
  unfolding usage_loop usages
  usage_loop-take [] n ms room = ends (limit - length ms)
    where
      ends : (k : ℕ) → ms ≡ ms ++ take {A = Usage} k []
      ends zero = sym (append-nil ms)
      ends (suc k) = sym (append-nil ms)
  usage_loop-take (entry ∷ es) n ms room =
      elim (Bool-cases (is_scanned file_system stem limit w entry)) [
        | inr e ↦ rw e (usage_loop-take es n ms room)
        | inl e ↦ elim (usage_in-cases entry.0 stem (file_system.text entry.0 w)) [
          | inl nothing ↦ rw (e, nothing) (rw append-nil (usage_loop-take es (n + 1) ms room))
          | inr (u, one) ↦
              rw (e, one)
                (one_more limit ms u (usages es) (n + 1) _ room
                  (usage_loop-take es (n + 1) (ms ++ u ∷ [])))
        ]
      ]
