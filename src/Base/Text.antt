-- ===== src/Base/Text.antt =====
-- std::string as the list of its bytes, with the members of std::string that the code calls.
-- A position that may be npos is an `Option`.
use Prim.Native.Nat.{ℕ, suc, ◌+◌, ◌-◌}
use Prim.Native.Char.{code}
use Prim.Native.String.{String}
use mathlib.Core.Path.{◌≡◌, refl}
use mathlib.Core.Logic.{◌↔◌}
use mathlib.Core.Bool.{Bool, true, false, ◌&&◌}
use mathlib.Core.Option.{Option, none, some}
use mathlib.Core.List.{List, [], ◌∷◌, ◌++◌}
use native.Mathlib.Omega.{arith}
use gear_mcp_server.Base.Tests.{◌==◌, leb, if◌then◌else◌}
use gear_mcp_server.Base.Lists.{All, drop, take, length, is_empty}

abbrev pub Bytes : Type 0
Bytes = List ℕ

-- The bytes of an ASCII literal.
abbrev pub codes : String → Bytes
codes String.[] = []
codes (String.◌∷◌ c s) = code c ∷ codes s

-- operator==
abbrev pub str_eq : Bytes → Bytes → Bool
str_eq [] [] = true
str_eq [] (y ∷ ys) = false
str_eq (x ∷ xs) [] = false
str_eq (x ∷ xs) (y ∷ ys) = x == y && str_eq xs ys

-- whether the first list begins with the second
abbrev pub starts_with : Bytes → Bytes → Bool
starts_with xs [] = true
starts_with [] (y ∷ ys) = false
starts_with (x ∷ xs) (y ∷ ys) = (x == y) && starts_with xs ys

-- find(needle, 0)
unfoldable pub find : Bytes → Bytes → Option ℕ
find [] needle = if is_empty needle then some 0 else none
find (x ∷ xs) needle =
    let rest : Option ℕ = elim (find xs needle) [ none ↦ none | some i ↦ some (suc i) ] in
    if starts_with (x ∷ xs) needle then some 0 else rest

-- find(needle, pos)
unfoldable pub find_from : Bytes → Bytes → ℕ → Option ℕ
unfolding find
find_from xs needle pos =
    if leb pos (length xs)
    then elim (find (drop pos xs) needle) [ none ↦ none | some i ↦ some (pos + i) ]
    else none

-- substr(pos, count)
abbrev pub substr : Bytes → ℕ → ℕ → Bytes
substr xs pos count = take count (drop pos xs)

-- The bytes before and after the first byte `c`; `none` where there is no such byte.
unfoldable pub split_at : ℕ → Bytes → Option (Bytes × Bytes)
split_at c [] = none
split_at c (x ∷ xs) =
    let rest : Option (Bytes × Bytes) = elim (split_at c xs) [
      | none ↦ none
      | some (a, b) ↦ some (x ∷ a, b)
    ] in
    if x == c then some ([], xs) else rest

pub str_eq_refl : (xs : Bytes) → str_eq xs xs ≡ true
str_eq_refl [] = refl
str_eq_refl (x ∷ xs) = ground (arith, str_eq_refl xs)

pub eq_of_str_eq : (xs ys : Bytes) → str_eq xs ys ≡ true → xs ≡ ys
eq_of_str_eq [] [] h = refl
eq_of_str_eq [] (y ∷ ys) h = ground arith
eq_of_str_eq (x ∷ xs) [] h = ground arith
eq_of_str_eq (x ∷ xs) (y ∷ ys) h = ground (arith, eq_of_str_eq xs ys)

pub str_eq_iff : (xs ys : Bytes) → (str_eq xs ys ≡ true) ↔ (xs ≡ ys)
str_eq_iff xs ys = (eq_of_str_eq xs ys, λ e. rw (← e) (str_eq_refl xs))

pub starts_with-append : (xs ys : Bytes) → starts_with (xs ++ ys) xs ≡ true
starts_with-append [] ys = refl
starts_with-append (x ∷ xs) ys = ground (arith, starts_with-append xs ys)

pub starts_with-split : (xs ys : Bytes) → starts_with xs ys ≡ true → ys ++ drop (length ys) xs ≡ xs
starts_with-split xs [] h = refl
starts_with-split [] (y ∷ ys) h = ground arith
starts_with-split (x ∷ xs) (y ∷ ys) h = ground (arith, starts_with-split xs ys)

-- Without the longest end of bytes that satisfy `t`: substr(0, find_last_not_of(...) + 1).
abbrev pub drop_end : (ℕ → Bool) → Bytes → Bytes
drop_end t [] = []
drop_end t (x ∷ xs) = let rest = drop_end t xs in if t x && is_empty rest then [] else x ∷ rest

-- !empty() && front() == c
abbrev pub front_is : ℕ → Bytes → Bool
front_is c [] = false
front_is c (x ∷ xs) = x == c

-- !empty() && back() == c
abbrev pub back_is : ℕ → Bytes → Bool
back_is c [] = false
back_is c (x ∷ []) = x == c
back_is c (x ∷ y ∷ xs) = back_is c (y ∷ xs)

-- size() >= 2 && front() == '"' && back() == '"'
abbrev pub is_quoted : Bytes → Bool
is_quoted v = leb 2 (length v) && front_is b'"' v && back_is b'"' v

-- substr(1, size() - 2)
abbrev pub unquote : Bytes → Bytes
unquote v = substr v 1 (length v - 2)

abbrev pub cons_first : ℕ → List Bytes → List Bytes
cons_first c [] = (c ∷ []) ∷ []
cons_first c (l ∷ ls) = (c ∷ l) ∷ ls

-- What calls of std::getline return until they fail.
unfoldable pub lines : Bytes → List Bytes
lines [] = []
lines (c ∷ cs) = let rest = lines cs in if c == b'\n' then [] ∷ rest else cons_first c rest

-- The byte does not occur in the text.
abbrev pub NoByte : ℕ → Bytes → Type 0
NoByte b = All (λ c. (c == b) ≡ false)

pub NoByte-append : (b : ℕ) (xs ys : Bytes) → NoByte b xs → NoByte b ys → NoByte b (xs ++ ys)
NoByte-append b [] ys h k = k
NoByte-append b (x ∷ xs) ys h k = (h.0, NoByte-append b xs ys h.1 k)

pub split_at-NoByte :
    (c : ℕ) (xs ys : Bytes) → NoByte c xs → split_at c (xs ++ c ∷ ys) ≡ some (xs, ys)
unfolding split_at
split_at-NoByte c [] ys h = ground arith
split_at-NoByte c (x ∷ xs) ys h = rw (h.0, split_at-NoByte c xs ys h.1)
