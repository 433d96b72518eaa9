-- ===== src/Tools/Project/Found.antt =====
-- What a search finds in a project, without a limit, and how a limited search picks from it.
use native.Mathlib.Decide.{dec_le}
use gear_mcp_server.Base.{
  ℕ, zero, suc, ◌+◌, ◌≤◌, ◌≡◌, refl, ap, sym, arith, Option, none, some, List, [], ◌∷◌, ◌++◌,
  if◌then◌else◌, Bytes, codes, is_some, find, lines, length, length-append,
}
use gear_mcp_server.Tools.Glob.Spec.{matches}
use gear_mcp_server.Folders.{FileKind, directory, regular, special, Folders}
use gear_mcp_server.Tools.Project.{SearchMatch, is_skipped}

-- The lines that hold the query, each with its number, of which `n` lines come before.
unfoldable pub lines_with : Bytes → Bytes → ℕ → List Bytes → List SearchMatch
lines_with full query n [] = []
lines_with full query n (l ∷ ls) =
    let rest = lines_with full query (suc n) ls in
    if is_some (find l query)
    then record { file = full; line = suc n; content = l } ∷ rest
    else rest

unfoldable pub found_in_text : Bytes → Bytes → Option Bytes → List SearchMatch
found_in_text full query none = []
found_in_text full query (some t) = lines_with full query 0 (lines t)

module _ {W : Type 0} (folders : Folders W) (query pattern : Bytes) (w : W) where
  -- In an entry that is not passed over: what is found below a directory, and in a file whose
  -- name the pattern stands for.
  unfoldable pub found_at :
      (Bytes → List SearchMatch) → Bytes → Bytes → Option FileKind → List SearchMatch
  found_at below full name none = []
  found_at below full name (some directory) = below full
  found_at below full name (some regular) =
      if matches pattern name then found_in_text full query (folders.text full w) else []
  found_at below full name (some special) = []

  unfoldable pub found_among : (Bytes → List SearchMatch) → Bytes → List Bytes → List SearchMatch
  found_among below dir [] = []
  found_among below dir (name ∷ names) =
      let full = dir ++ codes "/" ++ name in
      let rest = found_among below dir names in
      if is_skipped name then rest else found_at below full name (folders.stat full w) ++ rest

  unfoldable pub found_opened :
      (Bytes → List SearchMatch) → Bytes → Option (List Bytes) → List SearchMatch
  found_opened below dir none = []
  found_opened below dir (some names) = found_among below dir names

  -- What is found in a directory and in the directories below it, of which there are at most `n`
  -- levels, in the order in which the directories list them.
  unfoldable pub found_below : ℕ → Bytes → List SearchMatch
  found_below zero dir = []
  found_below (suc n) dir = found_opened (found_below n) dir (folders.names dir w)

-- The first list is the second one with some items left out.
pub data Sub {ℓ} {A : Type ℓ} : List A → List A → Type ℓ where
  done : Sub [] []
  keep : (x : A) {xs ys : List A} → Sub xs ys → Sub (x ∷ xs) (x ∷ ys)
  skip : (x : A) {xs ys : List A} → Sub xs ys → Sub xs (x ∷ ys)

module _ {ℓ} {A : Type ℓ} where
  pub Sub-nil : (ys : List A) → Sub [] ys
  Sub-nil [] = done
  Sub-nil (y ∷ ys) = skip y (Sub-nil ys)

  pub Sub-append : {xs ys us vs : List A} → Sub xs ys → Sub us vs → Sub (xs ++ us) (ys ++ vs)
  Sub-append done t = t
  Sub-append (keep x s) t = keep x (Sub-append s t)
  Sub-append (skip x s) t = skip x (Sub-append s t)

  pub length_zero : (xs : List A) → length xs ≡ 0 → xs ≡ []
  length_zero [] h = refl
  length_zero (x ∷ xs) h = absurd (omega arith)

-- With `n` results before, a search with this limit adds `r` where there is `f` to be found:
-- items of `f` in their order; all of them, if the limit admits them; and otherwise at least as
-- many as the limit admits.
pub record Picks (limit n : ℕ) (f r : List SearchMatch) : Type 0 where
  pub sub : Sub r f
  pub all : n + length f ≤ limit → r ≡ f
  pub enough : limit ≤ n + length f → limit ≤ n + length r

pub Picks-nothing : (limit n : ℕ) → Picks limit n [] []
Picks-nothing limit n = record { sub = done; all = λ h. refl; enough = λ h. h }

pub Picks-full : (limit n : ℕ) (f : List SearchMatch) → limit ≤ n → Picks limit n f []
Picks-full limit n f full = record {
  sub = Sub-nil f;
  all = λ h. sym (length_zero f (omega arith));
  enough = λ h. omega arith;
}

pub Picks-one : (limit n : ℕ) (m : SearchMatch) → Picks limit n (m ∷ []) (m ∷ [])
Picks-one limit n m = record { sub = keep m done; all = λ h. refl; enough = λ h. h }

-- One search after another.
pub Picks-append :
    (limit n : ℕ) (f f' r r' : List SearchMatch)
    → Picks limit n f r
    → Picks limit (n + length r) f' r'
    → Picks limit n (f ++ f') (r ++ r')
Picks-append limit n f f' r r' p q = record {
  sub = Sub-append p.sub q.sub;
  all = λ h. all_found (rw length-append at h);
  enough = λ h. rw length-append (enough_found (rw length-append at h));
}
  where
    all_found : n + (length f + length f') ≤ limit → r ++ r' ≡ f ++ f'
    all_found h =
        let first : r ≡ f = p.all (omega arith) in
        let second : r' ≡ f' = q.all (omega (arith, ap length first)) in cc

    enough_found : limit ≤ n + (length f + length f') → limit ≤ n + (length r + length r')
    enough_found h = elim (dec_le limit (n + length f)) [
      | yes le ↦ omega (arith, p.enough le)
      | no lt ↦
          let same : r ≡ f = p.all (omega arith) in
          let rest = q.enough (omega (arith, ap length same)) in omega (arith, rest)
    ]
