-- ===== src/Tools/Files/Listing.antt =====
-- list_directory: the listing of a tree of directories ends.
use gear_mcp_server.Base.{
  ℕ, zero, suc, ◌≡◌, refl, ap, arith, Bool, true, false, not, ◌&&◌, ◌||◌, ◌⊎◌, inl, inr, Option,
  none, some, List, [], ◌∷◌, ◌++◌, All, is_some, if◌then◌else◌, Bool-cases, Bytes, codes, str_eq,
}
use gear_mcp_server.Json.{JsonLib}
use gear_mcp_server.Tools.{Values}
use gear_mcp_server.Tools.Glob.{pattern_match}
use gear_mcp_server.Tools.Glob.Rounds.{NoStar}
use gear_mcp_server.Tools.Glob.Loop.{pattern_match-eq-matches}
use gear_mcp_server.Tools.Files.{Files, join, list_entries, list_opened, list_recursive}

-- The two names that the loop passes over.
abbrev is_dots : Bytes → Bool
is_dots name = str_eq name (codes ".") || str_eq name (codes "..")

-- Each entry has a name without a star, and is passed over, no directory, or a directory of
-- which `below` holds.
abbrev EntriesHave : (Bytes → Type 0) → Bytes → List (Bytes × Bool) → Type 0
EntriesHave below path =
    All (λ e. NoStar e.0 × ((is_dots e.0 || not e.1) ≡ true ⊎ below (path ++ codes "/" ++ e.0)))

abbrev OpenedHas : (Bytes → Type 0) → Bytes → Option (List (Bytes × Bool)) → Type 0
OpenedHas below path none = Unit
OpenedHas below path (some es) = EntriesHave below path es

module _ (lib : JsonLib) (values : Values lib) {W : Type 0} (files : Files W) where
  open lib use {Json}

  -- Below this directory, directories are nested less than `n` deep.
  abbrev pub Nested : ℕ → W → Bytes → Type 0
  Nested zero w path = ⊥
  Nested (suc n) w path = OpenedHas (Nested n w) path (files.list path w)

  join-some :
      (m : Option Bool) (e : Json) (xs ys : Option (List Json))
      → is_some m ≡ true
      → is_some xs ≡ true
      → is_some ys ≡ true
      → is_some (join lib values files m e xs ys) ≡ true
  join-some none e xs ys hm hx hy = cc
  join-some (some b) e none ys hm hx hy = cc
  join-some (some b) e (some xs) none hm hx hy = cc
  join-some (some true) e (some xs) (some ys) hm hx hy = refl
  join-some (some false) e (some xs) (some ys) hm hx hy = refl

  pattern_match-some :
      (name pattern : Bytes) → NoStar name → is_some (pattern_match name pattern) ≡ true
  pattern_match-some name pattern clean = ap is_some (pattern_match-eq-matches name pattern clean)

  below-some :
      (below : Bytes → Option (List Json)) (P : Bytes → Type 0) (full : Bytes)
      (dots is_dir p_recursive : Bool)
      → ((path : Bytes) → P path → is_some (below path) ≡ true)
      → dots ≡ false
      → ((dots || not is_dir) ≡ true ⊎ P full)
      → is_some (if is_dir && p_recursive then below full else some []) ≡ true
  below-some below P full dots false p_recursive h d e = refl
  below-some below P full dots true false h d e = refl
  below-some below P full dots true true h d (inr deep) = h full deep
  below-some below P full dots true true h d (inl e) = absurd (ground (arith, d, e))

  list_entries-some :
      (below : Bytes → Option (List Json)) (P : Bytes → Type 0) (path : Bytes) (p_recursive : Bool)
      (pattern : Bytes)
      → (es : List (Bytes × Bool)) → ((full : Bytes) → P full → is_some (below full) ≡ true)
      → EntriesHave P path es
      → is_some (list_entries lib values files below path p_recursive pattern es) ≡ true
  unfolding list_entries
  list_entries-some below P path p_recursive pattern [] h have = refl
  list_entries-some below P path p_recursive pattern ((name, is_dir) ∷ es) h have =
      let rest = list_entries-some below P path p_recursive pattern es h have.1 in
      elim (Bool-cases (is_dots name)) [
        | inl e ↦ rw e rest
        | inr e ↦ rw e (
            join-some (pattern_match name pattern) _ _ _ (pattern_match-some name pattern have.0.0)
              (below-some below P (path ++ codes "/" ++ name) (is_dots name) is_dir p_recursive h e
                have.0.1)
              rest)
      ]

  -- The listing of a directory ends when its directories are nested less deep than the fuel, and
  -- no name has a star in it.
  pub list_recursive-Nested :
      (n : ℕ) (path : Bytes) (p_recursive : Bool) (pattern : Bytes) (w : W)
      → Nested n w path
      → is_some (list_recursive lib values files n path p_recursive pattern w) ≡ true
  unfolding list_recursive
  list_recursive-Nested zero path p_recursive pattern w deep = absurd deep
  list_recursive-Nested (suc n) path p_recursive pattern w deep =
      by_list (files.list path w) (λ full d. list_recursive-Nested n full true pattern w d) deep
    where
      by_list :
          (o : Option (List (Bytes × Bool)))
          → ((full : Bytes)
              → Nested n w full
              → is_some (list_recursive lib values files n full true pattern w) ≡ true)
          → OpenedHas (Nested n w) path o
          → is_some (
              list_opened lib values files
                (λ full. list_recursive lib values files n full true pattern w)
                path
                p_recursive
                pattern
                o)
            ≡ true
      by_list none h have = refl
      by_list (some es) h have = list_entries-some _ (Nested n w) path p_recursive pattern es h have
