-- ===== src/Tools/Project/Overrun.antt =====
-- The limit of a search is tested behind a match and behind a directory, not before a file: the
-- files of one directory that come after the limit was reached are still searched, up to the
-- first match in each.
use gear_mcp_server.Base.{
  ℕ, suc, ◌+◌, ◌≤◌, ◌≡◌, refl, ap, ◌∙◌, arith, Bool, true, false, Option, some, List, [], ◌∷◌, ◌++◌,
  leb, if◌then◌else◌, Bytes, codes, is_some, find, lines, length, length-append, inl, inr, All,
  Bool-cases,
}
use gear_mcp_server.Tools.Glob.Spec.{matches}
use gear_mcp_server.Tools.Glob.Rounds.{NoStar}
use gear_mcp_server.Folders.{regular, Folders}
use gear_mcp_server.Tools.Project.{
  SearchMatch, is_skipped, match_lines, visit, glob_match, search_entries, search_directory,
}
use gear_mcp_server.Tools.Project.Lines.{glob_match-eq-matches}

-- Some line holds the query.
abbrev pub has_line : Bytes → List Bytes → Bool
has_line query [] = false
has_line query (l ∷ ls) = if is_some (find l query) then true else has_line query ls

match_lines-one :
    (full query : Bytes) (limit n : ℕ) (ls : List Bytes) (ms : List SearchMatch)
    → limit ≤ suc (length ms)
    → has_line query ls ≡ true
    → length (match_lines full query limit n ls ms) ≡ suc (length ms)
unfolding match_lines
match_lines-one full query limit n [] ms full_soon h = cc
match_lines-one full query limit n (l ∷ ls) ms full_soon h =
    let m : SearchMatch = record { file = full; line = suc n; content = l } in
    let longer : length (ms ++ m ∷ []) ≡ suc (length ms) =
      length-append ms (m ∷ []) ∙ omega arith in
    let reached : leb limit (length (ms ++ m ∷ [])) ≡ true = ground (arith, longer) in
    elim (Bool-cases (is_some (find l query))) [
      | inl e ↦ rw e (rw reached longer)
      | inr e ↦ rw e (match_lines-one full query limit (suc n) ls ms full_soon (rw e at h))
    ]

module _ {W : Type 0} (folders : Folders W) (query pattern : Bytes) (w : W) where
  -- A regular file that the search comes to, of which some line holds the query.
  pub record HasMatch (dir name : Bytes) : Type 0 where
    pub visible : is_skipped name ≡ false
    pub is_file : folders.stat (dir ++ codes "/" ++ name) w ≡ some regular
    pub clean : NoStar name
    pub in_pattern : matches pattern name ≡ true
    pub content : Bytes
    pub opens : folders.text (dir ++ codes "/" ++ name) w ≡ some content
    pub holds : has_line query (lines content) ≡ true

  module _ (limit : ℕ) where
    visited :
        (below : Bytes → List SearchMatch → Option (List SearchMatch)) (dir name : Bytes)
        (ms : List SearchMatch)
        → HasMatch dir name
        → limit ≤ suc (length ms)
        → (next : List SearchMatch) × (visit folders query pattern limit w below
              (dir ++ codes "/" ++ name)
              name
              (folders.stat (dir ++ codes "/" ++ name) w)
              ms
            ≡ some (next, false))
          × (length next ≡ suc (length ms))
    visited below dir name ms h room =
        let fit : glob_match pattern name ≡ some true =
          glob_match-eq-matches pattern name h.clean ∙ ap some h.in_pattern in
        (
          match_lines (dir ++ codes "/" ++ name) query limit 0 (lines h.content) ms,
          rw h.is_file (rw (fit, h.opens, visit) refl),
          match_lines-one _ query limit 0 (lines h.content) ms room h.holds,
        )

    each_one :
        (below : Bytes → List SearchMatch → Option (List SearchMatch)) (dir : Bytes)
        (names : List Bytes) (ms : List SearchMatch)
        → All (HasMatch dir) names
        → limit ≤ suc (length ms)
        → (result : List SearchMatch) × (search_entries folders query pattern limit w below dir
              names ms
            ≡ some result)
          × (length result ≡ length ms + length names)
    unfolding search_entries
    each_one below dir [] ms h room = (ms, refl, omega arith)
    each_one below dir (name ∷ names) ms (h, hs) room =
        let (next, v, longer) = visited below dir name ms h room in
        let (result, e, more) = each_one below dir names next hs (omega arith) in
        (result, rw (h.visible) (rw v e), omega arith)

  -- A directory of nothing but files that are not hidden, whose names have no star and are ones
  -- that the pattern stands for, and each of which opens and has a line with the query. A search
  -- there for one result answers with one result for each of the files.
  pub search_directory-overrun :
      (f : ℕ) (dir : Bytes) (names : List Bytes)
      → folders.names dir w ≡ some names
      → All (HasMatch dir) names
      → (result : List SearchMatch) × (search_directory folders query pattern 1 w (suc f) dir []
          ≡ some result)
        × (length result ≡ length names)
  unfolding search_directory
  search_directory-overrun f dir names listing h =
      let (result, e, many) =
        each_one 1 (search_directory folders query pattern 1 w f) dir names [] h (omega arith) in
      (result, rw listing e, omega (arith, many))
