-- ===== src/Tools/Project/Search.antt =====
-- The search of a project against what there is to be found in it.
use gear_mcp_server.Base.{
  ℕ, zero, suc, ◌≤◌, ◌≡◌, refl, ◌∙◌, sym, arith, Bool, true, false, Option, none, some, List, [],
  ◌∷◌, ◌++◌, append-nil, leb, Bytes, codes, length, ◌⊎◌, inl, inr, All, Bool-cases,
}
use gear_mcp_server.Tools.Glob.Spec.{matches}
use gear_mcp_server.Tools.Glob.Rounds.{NoStar}
use gear_mcp_server.Folders.{FileKind, directory, regular, special, Folders}
use gear_mcp_server.Tools.Project.{
  SearchMatch, glob_match, is_skipped, visit, proceed, search_entries, search_opened,
  search_directory,
}
use gear_mcp_server.Tools.Project.Found.{
  found_at, found_among, found_opened, found_below, Sub, Picks-full,
}
use gear_mcp_server.Tools.Project.Lines.{
  Searched, Searched-nothing, Searched-append, Ends, Ends-stop, match_file-Ends,
  glob_match-eq-matches,
}

-- An entry of a directory: it is passed over, or it is no directory and has no star in its name,
-- or it is a directory of which `below` holds.
abbrev Fair : (Bytes → Type 0) → Bytes → Bytes → Option FileKind → Type 0
Fair below full name none = Unit
Fair below full name (some directory) = below full
Fair below full name (some regular) = NoStar name
Fair below full name (some special) = Unit

module _ {W : Type 0} (folders : Folders W) (w : W) where
  abbrev FairEntries : (Bytes → Type 0) → Bytes → List Bytes → Type 0
  FairEntries below dir = All (λ name.
      (is_skipped name ≡ true)
      ⊎ Fair below (dir ++ codes "/" ++ name) name (folders.stat (dir ++ codes "/" ++ name) w))

  abbrev FairNames : (Bytes → Type 0) → Bytes → Option (List Bytes) → Type 0
  FairNames below dir none = Unit
  FairNames below dir (some names) = FairEntries below dir names

  -- The directories below this one are nested less than `n` deep, and no file that the search
  -- comes to has a star in its name.
  abbrev pub Walkable : ℕ → Bytes → Type 0
  Walkable zero dir = ⊥
  Walkable (suc n) dir = FairNames (Walkable n) dir (folders.names dir w)

  module _ (query pattern : Bytes) (limit : ℕ) where
    -- The search below a directory finds what is there.
    abbrev Finds :
        (Bytes → Type 0)
        → (Bytes → List SearchMatch)
        → (Bytes → List SearchMatch → Option (List SearchMatch))
        → Type 0
    Finds P spec below =
        (dir : Bytes) (ms : List SearchMatch)
        → P dir
        → Ends dir query limit ms (spec dir) (below dir ms)

    visit-Ends :
        (P : Bytes → Type 0) (spec : Bytes → List SearchMatch)
        (below : Bytes → List SearchMatch → Option (List SearchMatch)) (full name : Bytes)
        (kind : Option FileKind) (ms : List SearchMatch)
        → Finds P spec below
        → Fair P full name kind
        → (next : List SearchMatch) × (stop : Bool) × (visit folders query pattern limit w below
              full name kind ms
            ≡ some (next, stop))
          × Searched limit ms (found_at folders query pattern w spec full name kind) next
          × (stop ≡ true → leb limit (length next) ≡ true)
    unfolding found_at
    visit-Ends P spec below full name none ms h fair =
        (ms, false, refl, Searched-nothing limit ms, λ e. cc)
    visit-Ends P spec below full name (some special) ms h fair =
        (ms, false, refl, Searched-nothing limit ms, λ e. cc)
    visit-Ends P spec below full name (some directory) ms h fair =
        let (ms', e, s) = h full ms fair in
        (ms', leb limit (length ms'), rw (e, visit) refl, s, λ e. e)
    visit-Ends P spec below full name (some regular) ms h fair =
        let (ms', e, s) =
          match_file-Ends full query limit (glob_match pattern name) (matches pattern name)
            (folders.text full w) ms (glob_match-eq-matches pattern name fair) in
        (ms', false, rw (e, visit) refl, s, λ e. cc)

    -- A visit, and then the other entries, unless the visit ended the loop.
    proceed-Ends :
        (dir : Bytes) (ms f f' next : List SearchMatch) (stop : Bool)
        (visited : Option (List SearchMatch × Bool))
        (go : List SearchMatch → Option (List SearchMatch))
        → visited ≡ some (next, stop)
        → Searched limit ms f next
        → (stop ≡ true → leb limit (length next) ≡ true)
        → Ends dir query limit next f' (go next)
        → Ends dir query limit ms (f ++ f') (proceed folders query pattern limit w visited go)
    proceed-Ends dir ms f f' next false visited go e s full (result, e', s') =
        (result, rw (e, e') refl, Searched-append limit ms f f' next result s s')
    proceed-Ends dir ms f f' next true visited go e s full h = (
      next,
      rw e refl,
      Searched-append limit ms f f' next next s (
        [],
        sym (append-nil next),
        Picks-full limit (length next) f' (ground (arith, full refl)),
      ),
    )

    entries-Ends :
        (P : Bytes → Type 0) (spec : Bytes → List SearchMatch)
        (below : Bytes → List SearchMatch → Option (List SearchMatch)) (dir : Bytes)
        (names : List Bytes) (ms : List SearchMatch)
        → Finds P spec below
        → FairEntries P dir names
        → Ends dir query limit ms
            (found_among folders query pattern w spec dir names)
            (search_entries folders query pattern limit w below dir names ms)
    unfolding search_entries found_among
    entries-Ends P spec below dir [] ms h fair = (ms, refl, Searched-nothing limit ms)
    entries-Ends P spec below dir (name ∷ names) ms h (fair, more) =
        let rest = λ (later : List SearchMatch). entries-Ends P spec below dir names later h more in
        elim (Bool-cases (is_skipped name)) [
          | inl e ↦ rw e (rest ms)
          | inr e ↦
              let (next, stop, v, s, stops) =
                visit-Ends P spec below (dir ++ codes "/" ++ name) name
                  (folders.stat (dir ++ codes "/" ++ name) w) ms h (not_skipped e fair) in
              rw e (proceed-Ends dir ms _ _ next stop _ _ v s stops (rest next))
        ]
      where
        not_skipped : {A : Type 0} → is_skipped name ≡ false → (is_skipped name ≡ true) ⊎ A → A
        not_skipped e (inl t) = cc
        not_skipped e (inr a) = a

    opened-Ends :
        (P : Bytes → Type 0) (spec : Bytes → List SearchMatch)
        (below : Bytes → List SearchMatch → Option (List SearchMatch)) (dir : Bytes)
        (names : Option (List Bytes)) (ms : List SearchMatch)
        → Finds P spec below
        → FairNames P dir names
        → Ends dir query limit ms
            (found_opened folders query pattern w spec dir names)
            (search_opened folders query pattern limit w below dir names ms)
    unfolding found_opened
    opened-Ends P spec below dir none ms h fair = (ms, refl, Searched-nothing limit ms)
    opened-Ends P spec below dir (some names) ms h fair =
        entries-Ends P spec below dir names ms h fair

    walked :
        (n : ℕ)
        → Finds
            (Walkable n)
            (found_below folders query pattern w n)
            (search_directory folders query pattern limit w n)
    unfolding search_directory found_below
    walked zero dir ms h = absurd h
    walked (suc n) dir ms h =
        Ends-stop dir query limit ms _ _
          (opened-Ends (Walkable n) _ _ dir (folders.names dir w) ms (walked n) h)

    -- The search ends when the directories below the one that it starts from are nested less deep
    -- than the fuel, and no file that it comes to has a star in its name. It then answers with
    -- results that are there to be found, in the order in which the directories list them: all of
    -- them, if they are no more than the limit, and otherwise no fewer than the limit.
    pub search_directory-found :
        (n : ℕ) (dir : Bytes)
        → Walkable n dir
        → (result : List SearchMatch) × (search_directory folders query pattern limit w n dir []
            ≡ some result)
          × Sub result (found_below folders query pattern w n dir)
          × (length (found_below folders query pattern w n dir) ≤ limit
              → result ≡ found_below folders query pattern w n dir)
          × (limit ≤ length (found_below folders query pattern w n dir) → limit ≤ length result)
    search_directory-found n dir h =
        let (result, e, (r, same, p)) = walked n dir [] h in
        (
          result,
          e,
          rw same p.sub,
          λ few. same ∙ p.all (omega arith),
          λ many. rw same (omega (arith, p.enough (omega arith))),
        )
