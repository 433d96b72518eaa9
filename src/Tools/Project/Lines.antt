-- ===== src/Tools/Project/Lines.antt =====
-- The search of a file against what there is to be found in it, and the names that the pattern
-- stands for.
use gear_mcp_server.Base.{
  ℕ, suc, ◌+◌, ◌≡◌, refl, ap, ◌∙◌, sym, arith, Bool, true, false, Option, none, some, List, [], ◌∷◌,
  ◌++◌, append_assoc, append-nil, leb, if◌then◌else◌, Bytes, is_some, find, lines, length,
  length-append, inl, inr, Bool-cases,
}
use gear_mcp_server.Tools.Glob.{pattern_match, match_from, only_stars}
use gear_mcp_server.Tools.Glob.Spec.{matches}
use gear_mcp_server.Tools.Glob.Rounds.{NoStar}
use gear_mcp_server.Tools.Glob.Loop.{pattern_match-eq-matches}
use gear_mcp_server.Tools.Project.{SearchMatch, glob_match, match_lines, match_opened, match_file}
use gear_mcp_server.Tools.Project.Found.{
  lines_with, found_in_text, Picks, Picks-nothing, Picks-full, Picks-one, Picks-append,
}

-- A search that had these results ends with some of what there was to be found behind them.
abbrev pub Searched : ℕ → List SearchMatch → List SearchMatch → List SearchMatch → Type 0
Searched limit ms f result =
    (r : List SearchMatch) × (result ≡ ms ++ r) × Picks limit (length ms) f r

pub Searched-nothing : (limit : ℕ) (ms : List SearchMatch) → Searched limit ms [] ms
Searched-nothing limit ms = ([], sym (append-nil ms), Picks-nothing limit (length ms))

pub Searched-append :
    (limit : ℕ) (ms f f' next result : List SearchMatch)
    → Searched limit ms f next
    → Searched limit next f' result
    → Searched limit ms (f ++ f') result
Searched-append limit ms f f' next result (r, e, p) (r', e', p') =
    let shorter : length next ≡ length ms + length r = ap length e ∙ length-append ms r in
    (
      r ++ r',
      e' ∙ ap (λ xs. xs ++ r') e ∙ append_assoc ms r r',
      Picks-append limit (length ms) f f' r r' p (rw shorter at p'),
    )

-- A search that looks no further once it has as many results as the limit.
pub Searched-stop :
    (limit : ℕ) (ms f next : List SearchMatch)
    → Searched limit ms f next
    → Searched limit ms f (if leb limit (length ms) then ms else next)
Searched-stop limit ms f next h = elim (Bool-cases (leb limit (length ms))) [
  | inr e ↦ rw e h
  | inl e ↦ rw e ([], sym (append-nil ms), Picks-full limit (length ms) f (ground (arith, e)))
]

module _ (full query : Bytes) (limit : ℕ) where
  pub match_lines-Searched :
      (n : ℕ) (ls : List Bytes) (ms : List SearchMatch)
      → Searched limit ms (lines_with full query n ls) (match_lines full query limit n ls ms)
  unfolding match_lines lines_with
  match_lines-Searched n [] ms = Searched-nothing limit ms
  match_lines-Searched n (l ∷ ls) ms =
      let m : SearchMatch = record { file = full; line = suc n; content = l } in
      let one : Searched limit ms (m ∷ []) (ms ++ m ∷ []) =
        (m ∷ [], refl, Picks-one limit (length ms) m) in
      elim (Bool-cases (is_some (find l query))) [
        | inr e ↦ rw e (match_lines-Searched (suc n) ls ms)
        | inl e ↦ rw e (
            Searched-append limit ms (m ∷ []) (lines_with full query (suc n) ls) (ms ++ m ∷ []) _
              one (Searched-stop limit _ _ _ (match_lines-Searched (suc n) ls _)))
      ]

  pub match_opened-Searched :
      (opened : Option Bytes) (ms : List SearchMatch)
      → Searched limit ms
          (found_in_text full query opened)
          (match_opened full query limit opened ms)
  unfolding found_in_text
  match_opened-Searched none ms = Searched-nothing limit ms
  match_opened-Searched (some t) ms = match_lines-Searched 0 (lines t) ms

  -- A result that is there, and that is one of a search.
  abbrev pub Ends : List SearchMatch → List SearchMatch → Option (List SearchMatch) → Type 0
  Ends ms f o = (result : List SearchMatch) × (o ≡ some result) × Searched limit ms f result

  pub Ends-stop :
      (ms f : List SearchMatch) (o : Option (List SearchMatch))
      → Ends ms f o
      → Ends ms f (if leb limit (length ms) then some ms else o)
  Ends-stop ms f o (result, e, s) = elim (Bool-cases (leb limit (length ms))) [
    | inr off ↦ rw off (result, e, s)
    | inl on ↦
        rw on
          (ms, refl, ([], sym (append-nil ms), Picks-full limit (length ms) f (ground (arith, on))))
  ]

  pub match_file-Ends :
      (fits : Option Bool) (b : Bool) (opened : Option Bytes) (ms : List SearchMatch)
      → fits ≡ some b
      → Ends ms
          (if b then found_in_text full query opened else [])
          (match_file fits full query limit opened ms)
  match_file-Ends none b opened ms e = cc
  match_file-Ends (some true) true opened ms e = (_, refl, match_opened-Searched opened ms)
  match_file-Ends (some false) false opened ms e = (_, refl, Searched-nothing limit ms)
  match_file-Ends (some true) false opened ms e = cc
  match_file-Ends (some false) true opened ms e = cc

glob_match-pattern_match :
    (x : ℕ) (p name : Bytes) → glob_match (x ∷ p) name ≡ pattern_match name (x ∷ p)
unfolding glob_match pattern_match
glob_match-pattern_match x p name = refl

glob_match-empty : (name : Bytes) → glob_match [] name ≡ some (matches [] name)
unfolding glob_match match_from matches only_stars
glob_match-empty [] = refl
glob_match-empty (c ∷ name) = refl

-- For a name without stars the answer is whether the pattern stands for it.
pub glob_match-eq-matches :
    (pattern name : Bytes) → NoStar name → glob_match pattern name ≡ some (matches pattern name)
glob_match-eq-matches [] name clean = glob_match-empty name
glob_match-eq-matches (x ∷ p) name clean =
    glob_match-pattern_match x p name ∙ pattern_match-eq-matches name (x ∷ p) clean
