-- ===== src/Base/Search.antt =====
-- What std::string::find finds, as an occurrence of a text in another.
use Prim.Native.Nat.{ℕ, suc}
use mathlib.Core.Path.{◌≡◌, refl, sym, ap, ◌∙◌}
use mathlib.Core.Logic.{◌↔◌, inl, inr}
use mathlib.Core.Bool.{Bool, true, false}
use mathlib.Core.Option.{Option, none, some}
use mathlib.Core.List.{[], ◌∷◌, ◌++◌, map}
use gear_mcp_server.Base.Tests.{is_some, if◌then◌else◌, Option-cases}
use gear_mcp_server.Base.Lists.{drop, length}
use gear_mcp_server.Base.Text.{Bytes, starts_with, starts_with-append, starts_with-split, find}

-- A text that is found stands at the position.
abbrev pub IsAt : Bytes → Bytes → ℕ → Type 0
IsAt xs needle p =
    (before : Bytes) × (after : Bytes) × (xs ≡ before ++ (needle ++ after)) × (length before ≡ p)

-- The text stands somewhere in the other.
abbrev pub Occurs : Bytes → Bytes → Type 0
Occurs xs needle = (before : Bytes) × (after : Bytes) × (xs ≡ before ++ (needle ++ after))

find_cons :
    (x : ℕ) (xs needle : Bytes) (p : ℕ) (b : Bool) (o : Option ℕ)
    → starts_with (x ∷ xs) needle ≡ b
    → ((i : ℕ) → o ≡ some i → IsAt xs needle i)
    → (if b then some 0 else elim o as (λ y. Option ℕ) [ none ↦ none | some i ↦ some (suc i) ])
      ≡ some p
    → IsAt (x ∷ xs) needle p
find_cons x xs needle p true o s rest h =
    ([], drop (length needle) (x ∷ xs), sym (starts_with-split (x ∷ xs) needle s), cc)
find_cons x xs needle p false none s rest h = cc
find_cons x xs needle p false (some i) s rest h =
    let (before, after, e, l) = rest i refl in
    let shift : suc i ≡ p = cc in (x ∷ before, after, ap (◌∷◌ x) e, ap suc l ∙ shift)

pub find-IsAt : (xs needle : Bytes) (p : ℕ) → find xs needle ≡ some p → IsAt xs needle p
unfolding find
find-IsAt [] [] p h = ([], [], refl, cc)
find-IsAt [] (y ∷ ys) p h = cc
find-IsAt (x ∷ xs) needle p h =
    find_cons x xs needle p (starts_with (x ∷ xs) needle) (find xs needle) refl
      (λ i e. find-IsAt xs needle i e) h

found_or_later :
    (b : Bool) (o : Option ℕ)
    → is_some o ≡ true
    → is_some
        (if b then some 0 else elim o as (λ y. Option ℕ) [ none ↦ none | some i ↦ some (suc i) ])
      ≡ true
found_or_later true o h = refl
found_or_later false none h = cc
found_or_later false (some i) h = refl

-- A text that is in a text is in each longer one.
pub find-longer :
    (pre xs needle : Bytes)
    → is_some (find xs needle) ≡ true
    → is_some (find (pre ++ xs) needle) ≡ true
unfolding find
find-longer [] xs needle h = h
find-longer (c ∷ pre) xs needle h =
    found_or_later (starts_with (c ∷ (pre ++ xs)) needle) (find (pre ++ xs) needle)
      (find-longer pre xs needle h)

find_here : (xs needle : Bytes) → starts_with xs needle ≡ true → is_some (find xs needle) ≡ true
unfolding find
find_here [] [] h = refl
find_here [] (y ∷ ys) h = cc
find_here (x ∷ xs) needle h = rw h refl

-- What occurs is found, and what is found occurs.
pub find-Occurs : (xs needle : Bytes) → (is_some (find xs needle) ≡ true) ↔ Occurs xs needle
find-Occurs xs needle = (forth, back)
  where
    forth : is_some (find xs needle) ≡ true → Occurs xs needle
    forth h = elim (Option-cases (find xs needle)) [
      | inl e ↦ absurd (let no = rw e at h in cc)
      | inr (p, e) ↦
          let (before, after, splits, l) = find-IsAt xs needle p e in (before, after, splits)
    ]

    back : Occurs xs needle → is_some (find xs needle) ≡ true
    back (before, after, splits) = rw splits (
        find-longer before (needle ++ after) needle
          (find_here (needle ++ after) needle (starts_with-append needle after)))

-- A text that a function on the bytes gives comes in the parts that it has.
pub map-splits :
    (f : ℕ → ℕ) (xs a b : Bytes)
    → map f xs ≡ a ++ b
    → (a' : Bytes) × (b' : Bytes) × (xs ≡ a' ++ b') × (map f a' ≡ a) × (map f b' ≡ b)
map-splits f xs [] b h = ([], xs, refl, refl, h)
map-splits f [] (y ∷ a) b h = cc
map-splits f (x ∷ xs) (y ∷ a) b h =
    let head : f x ≡ y = cc in
    let tail : map f xs ≡ a ++ b = cc in
    let (a', b', e, ea, eb) = map-splits f xs a b tail in
    (x ∷ a', b', ap (◌∷◌ x) e, (λ i. head i ∷ ea i), eb)
