-- ===== src/Paths/Parents.antt =====
-- `ensure_parent_dirs`: the directories that it makes.
use gear_mcp_server.Base.{
  ℕ, ◌≡◌, refl, sym, ap, ◌∙◌, append_assoc, true, Option, none, some, List, [], ◌∷◌, ◌++◌,
  if◌then◌else◌, Bool-cases, inl, inr, Bytes, All,
}
use gear_mcp_server.Paths.{is_separator, before_last, segments, segments_of, ensure_parent_dirs}

-- `d` is what stands before a separator of `p`.
abbrev pub IsParent : Bytes → Bytes → Type 0
IsParent p d = (c : ℕ) × ((rest : Bytes) × ((is_separator c ≡ true) × (p ≡ d ++ c ∷ rest)))

abbrev Before : Bytes → Option Bytes → Type 0
Before p none = Unit
Before p (some d) = IsParent p d

Before-cons :
    (c : ℕ) (cs : Bytes) (o : Option Bytes)
    → Before cs o
    → Before (c ∷ cs) (elim o as (λ x. Option Bytes) [
      | some p ↦ some (c ∷ p)
      | none ↦ if is_separator c then some [] else none
    ])
Before-cons c cs (some d) (x, (rest, (h, e))) = (x, (rest, (h, ap (◌∷◌ c) e)))
Before-cons c cs none b = elim (Bool-cases (is_separator c)) [
  | inl h ↦ rw h (c, (cs, (h, refl)))
  | inr h ↦ rw h tt
]

before_last-Before : (p : Bytes) → Before p (before_last p)
unfolding before_last
before_last-Before [] = tt
before_last-Before (c ∷ cs) = Before-cons c cs (before_last cs) (before_last-Before cs)

segments-IsParent :
    (p done ahead : Bytes) (s : ℕ) (rest : Bytes)
    → is_separator s ≡ true
    → p ≡ done ++ (ahead ++ s ∷ rest)
    → All (IsParent p) (segments done ahead)
unfolding segments
segments-IsParent p done [] s rest h e = tt
segments-IsParent p done (c ∷ []) s rest h e =
    let moved = e ∙ sym (append_assoc done (c ∷ []) (s ∷ rest)) in
    elim (Bool-cases (is_separator c)) [
      | inl hc ↦ rw hc ((c, (s ∷ rest, (hc, e))), tt)
      | inr hc ↦ rw hc ((s, (rest, (h, moved))), tt)
    ]
segments-IsParent p done (c ∷ d ∷ ds) s rest h e =
    let moved = e ∙ sym (append_assoc done (c ∷ []) (d ∷ (ds ++ s ∷ rest))) in
    let others = segments-IsParent p (done ++ c ∷ []) (d ∷ ds) s rest h moved in
    elim (Bool-cases (is_separator c)) [
      | inl hc ↦ rw hc ((c, (d ∷ (ds ++ s ∷ rest), (hc, e))), others)
      | inr hc ↦ rw hc others
    ]

segments_of-IsParent :
    (p parent : Bytes) → IsParent p parent → All (IsParent p) (segments_of parent)
unfolding segments_of
segments_of-IsParent p [] b = tt
segments_of-IsParent p (c ∷ cs) (s, (rest, (h, e))) = elim (Bool-cases (is_separator c)) [
  | inl hc ↦ rw hc (segments-IsParent p (c ∷ []) cs s rest h e)
  | inr hc ↦ rw hc (segments-IsParent p [] (c ∷ cs) s rest h e)
]

All-found :
    (p : Bytes) (o : Option Bytes)
    → Before p o
    → All (IsParent p) (elim o as (λ x. List Bytes) [ none ↦ [] | some d ↦ segments_of d ])
All-found p none b = tt
All-found p (some d) b = segments_of-IsParent p d b

-- Every directory that is made for a path is what stands before a separator of that path.
pub ensure_parent_dirs-IsParent : (p : Bytes) → All (IsParent p) (ensure_parent_dirs p)
unfolding ensure_parent_dirs
ensure_parent_dirs-IsParent p = All-found p (before_last p) (before_last-Before p)
