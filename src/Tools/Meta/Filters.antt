-- ===== src/Tools/Meta/Filters.antt =====
-- tool_catalog and manage_tool_groups: which domains and tools they report.
use gear_mcp_server.Base.{
  ℕ, ◌+◌, ◌≤◌, ◌++◌, ◌⊎◌, ◌≡◌, refl, sym, ap, ◌∙◌, arith, Bool, true, false, not, Option, none,
  some, List, [], ◌∷◌, ◌&&◌, ◌||◌, map, if◌then◌else◌, Bool-cases, inl, inr, Bytes, codes, str_eq,
  str_eq_iff, is_empty, length,
}
use gear_mcp_server.Json.{JsonLib}
use gear_mcp_server.Tools.{Values}
use gear_mcp_server.Tools.Meta.Groups.{DomainInfo, domain_catalog}
use gear_mcp_server.Tools.Meta.{
  find_domain, is_asked, asked_tools, domain_json, asked_domains, describe, manage_groups,
}

-- The same letter, or one an ASCII capital and the other its small letter.
abbrev pub IsUpper : ℕ → Type 0
IsUpper c = (b'A' ≤ c) × (c ≤ b'Z')

abbrev pub SameLetter : ℕ → ℕ → Type 0
SameLetter c d = (c ≡ d) ⊎ ((IsUpper c × (d ≡ c + 32)) ⊎ (IsUpper d × (c ≡ d + 32)))

abbrev pub SameLetters : Bytes → Bytes → Type 0
SameLetters [] [] = Unit
SameLetters [] (d ∷ ds) = ⊥
SameLetters (c ∷ cs) [] = ⊥
SameLetters (c ∷ cs) (d ∷ ds) = SameLetter c d × SameLetters cs ds

-- The name has the query in it, whatever the case of the letters of either.
abbrev pub Asks : Bytes → Bytes → Type 0
Asks query name =
    (before : Bytes) × (part : Bytes) × (after : Bytes) × (name ≡ before ++ (part ++ after))
    × SameLetters part query

-- The items that pass the test.
abbrev pub kept {ℓ} : {A : Type ℓ} → (A → Bool) → List A → List A
kept p [] = []
kept p (x ∷ xs) = if p x then x ∷ kept p xs else kept p xs

-- How many tools the domains have of which a part is taken.
abbrev pub count_tools : (List Bytes → List Bytes) → List DomainInfo → ℕ
count_tools part [] = 0
count_tools part (d ∷ ds) = length (part d.tools) + count_tools part ds

abbrev pub is_selected : Bytes → DomainInfo → Bool
is_selected domain d = is_empty domain || str_eq domain d.name

counted {ℓ} :
    {A : Type ℓ} {xs ys : A} {a b c d : ℕ}
    → xs ≡ ys
    → a ≡ c
    → b ≡ d
    → ◌≡◌ {A = A × (ℕ × ℕ)} (xs, (a, b)) (ys, (c, d))
counted p q r = λ i. (p i, (q i, r i))

asked_tools-kept :
    (query : Bytes) (ts : List Bytes) (a b : ℕ)
    → asked_tools query ts a b
      ≡ (kept (is_asked query) ts, (a + length ts, b + length (kept (is_asked query) ts)))
unfolding asked_tools
asked_tools-kept query [] a b = counted refl (omega arith) (omega arith)
asked_tools-kept query (t ∷ ts) a b = elim (Bool-cases (is_asked query t)) [
  | inl e ↦ rw e (
      let rest = asked_tools-kept query ts (a + 1) (b + 1) in
      counted (ap (λ r. t ∷ r.0) rest) (ap (λ r. r.1.0) rest ∙ omega arith)
        (ap (λ r. r.1.1) rest ∙ omega arith))
  | inr e ↦ rw e (
      let rest = asked_tools-kept query ts (a + 1) b in
      counted (ap (λ r. r.0) rest) (ap (λ r. r.1.0) rest ∙ omega arith) (ap (λ r. r.1.1) rest))
]

kept-asked : (ts : List Bytes) → kept (is_asked []) ts ≡ ts
unfolding is_asked
kept-asked [] = refl
kept-asked (t ∷ ts) = ap (◌∷◌ t) (kept-asked ts)

-- Whether a domain of that name is among these, and whether no two have the same name.
abbrev is_named : Bytes → List DomainInfo → Bool
is_named g [] = false
is_named g (d ∷ ds) = str_eq g d.name || is_named g ds

abbrev are_distinct : List DomainInfo → Bool
are_distinct [] = true
are_distinct (d ∷ ds) = not (is_named d.name ds) && are_distinct ds

catalog_distinct : are_distinct domain_catalog ≡ true
unfolding domain_catalog
catalog_distinct = refl

abbrev as_list {ℓ} : {A : Type ℓ} → Option A → List A
as_list none = []
as_list (some x) = x ∷ []

kept-not_named :
    (g : Bytes) (ds : List DomainInfo)
    → is_empty g ≡ false
    → is_named g ds ≡ false
    → kept (is_selected g) ds ≡ []
kept-not_named g [] ne h = refl
kept-not_named g (d ∷ ds) ne h =
    let other : str_eq g d.name ≡ false = ground arith in
    rw (ne, other) (kept-not_named g ds ne (ground arith))

kept-find_domain :
    (g : Bytes) (ds : List DomainInfo)
    → is_empty g ≡ false
    → are_distinct ds ≡ true
    → kept (is_selected g) ds ≡ as_list (find_domain g ds)
unfolding find_domain
kept-find_domain g [] ne h = refl
kept-find_domain g (d ∷ ds) ne h = elim (Bool-cases (str_eq d.name g)) [
  | inl e ↦
      let same : d.name ≡ g = (str_eq_iff d.name g).0 e in
      let back : str_eq g d.name ≡ true = (str_eq_iff g d.name).1 (sym same) in
      let only : is_named g ds ≡ false = ap (λ n. is_named n ds) (sym same) ∙ ground arith in
      rw (ne, back) (rw e (ap (◌∷◌ d) (kept-not_named g ds ne only)))
  | inr e ↦
      let other : str_eq g d.name ≡ false =
        ground (arith, str_eq_iff d.name g, str_eq_iff g d.name) in
      rw (ne, other) (rw e (kept-find_domain g ds ne (ground arith)))
]

module _ (lib : JsonLib) (values : Values lib) where
  open lib use {Json, dump, parse}

  -- A domain with those of its tools that are asked for.
  abbrev pub report : Bytes → DomainInfo → Json
  report query d = domain_json lib values d (kept (is_asked query) d.tools)

  asked_domains-kept :
      (domain query : Bytes) (ds : List DomainInfo) (a b : ℕ)
      → asked_domains lib values domain query ds a b ≡ (
        map (report query) (kept (is_selected domain) ds),
        (
          a + count_tools (λ ts. ts) (kept (is_selected domain) ds),
          b + count_tools (kept (is_asked query)) (kept (is_selected domain) ds),
        ),
      )
  unfolding asked_domains
  asked_domains-kept domain query [] a b = counted refl (omega arith) (omega arith)
  asked_domains-kept domain query (d ∷ ds) a b =
      let skip : (not (is_empty domain) && not (str_eq domain d.name))
          ≡ not (is_selected domain d) =
        ground arith in
      let part = kept (is_asked query) d.tools in
      elim (Bool-cases (is_selected domain d)) [
        | inr e ↦ rw (skip, e) (asked_domains-kept domain query ds a b)
        | inl e ↦
            rw (skip, e)
              (rw (asked_tools-kept query d.tools a b) (
                let rest =
                  asked_domains-kept domain query ds (a + length d.tools) (b + length part) in
                counted (ap (λ r. report query d ∷ r.0) rest) (ap (λ r. r.1.0) rest ∙ omega arith)
                  (ap (λ r. r.1.1) rest ∙ omega arith)))
      ]

  asked_domains_lem :
      (domain query : Bytes) (ds : List DomainInfo)
      → asked_domains lib values domain query ds 0 0 ≡ (
        map (report query) (kept (is_selected domain) ds),
        (
          count_tools (λ ts. ts) (kept (is_selected domain) ds),
          count_tools (kept (is_asked query)) (kept (is_selected domain) ds),
        ),
      )
  asked_domains_lem domain query ds =
      let r = asked_domains-kept domain query ds 0 0 in
      counted (ap (λ r. r.0) r) (ap (λ r. r.1.0) r ∙ omega arith) (ap (λ r. r.1.1) r ∙ omega arith)

  -- What tool_catalog lists for a domain of that name.
  abbrev pub described : Option DomainInfo → List Json
  described none = []
  described (some d) = domain_json lib values d d.tools ∷ []

  described-kept :
      (g : Bytes) (ds : List DomainInfo)
      → is_empty g ≡ false
      → are_distinct ds ≡ true
      → (asked_domains lib values g [] ds 0 0).0 ≡ described (find_domain g ds)
  described-kept g ds ne h =
      ap (λ r. r.0) (asked_domains_lem g [] ds)
      ∙ ap (map (report [])) (kept-find_domain g ds ne h)
      ∙ reported (find_domain g ds)
    where
      reported : (o : Option DomainInfo) → map (report []) (as_list o) ≡ described o
      reported none = refl
      reported (some d) = ap (λ ts. domain_json lib values d ts ∷ []) (kept-asked d.tools)

  -- The two handlers agree on a domain: manage_tool_groups describes a group exactly if
  -- tool_catalog lists one domain of that name, with the same text, and refuses a group of which
  -- tool_catalog lists none. The name is not empty.
  pub manage_groups-asked_domains :
      {W : Type 0} (g : Bytes) (o : Option DomainInfo) (w : W)
      → is_empty g ≡ false
      → find_domain g domain_catalog ≡ o
      → (manage_groups lib values (codes "describe") g w ≡ describe lib values g o w)
        × ((asked_domains lib values g [] domain_catalog 0 0).0 ≡ described o)
  unfolding manage_groups
  manage_groups-asked_domains g o w ne h = (
    rw ne (ap (λ o. describe lib values g o w) h),
    described-kept g domain_catalog ne catalog_distinct ∙ ap described h,
  )
