-- ===== src/Config/Below.antt =====
-- The directories below a directory that have a file for a project.
use gear_mcp_server.Base.{
  ℕ, zero, suc, ◌≡◌, refl, Bool, true, false, not, ◌||◌, ◌&&◌, ◌⊎◌, inl, inr, Option, none, some,
  List, [], ◌∷◌, ◌++◌, if◌then◌else◌, Bool-cases, All, Bytes, codes, str_eq, is_some,
}
use gear_mcp_server.Folders.{Folders}
use gear_mcp_server.Config.Scan.{is_directory}

-- The text is one of the list.
abbrev pub In : Bytes → List Bytes → Type 0
In p [] = ⊥
In p (x ∷ xs) = (p ≡ x) ⊎ In p xs

In-left : (p : Bytes) (xs ys : List Bytes) → In p xs → In p (xs ++ ys)
In-left p (x ∷ xs) ys (inl e) = inl e
In-left p (x ∷ xs) ys (inr h) = inr (In-left p xs ys h)
In-left p [] ys h = absurd h

In-right : (p : Bytes) (xs ys : List Bytes) → In p ys → In p (xs ++ ys)
In-right p [] ys h = h
In-right p (x ∷ xs) ys h = inr (In-right p xs ys h)

In-cases : (p : Bytes) (xs ys : List Bytes) → In p (xs ++ ys) → In p xs ⊎ In p ys
In-cases p [] ys h = inr h
In-cases p (x ∷ xs) ys (inl e) = inl (inl e)
In-cases p (x ∷ xs) ys (inr h) = elim (In-cases p xs ys h) [ inl a ↦ inl (inr a) | inr b ↦ inr b ]

if_own : (b : Bool) (p q : Bytes) → In q (if b then p ∷ [] else []) → (q ≡ p) × (b ≡ true)
if_own true p q (inl e) = (e, refl)
if_own true p q (inr h) = absurd h
if_own false p q h = absurd h

module _ {W : Type 0} (folders : Folders W) (w : W) where
  -- A name of a directory that the scan goes into.
  abbrev pub is_entered : Bytes → Bytes → Bool
  is_entered dir name =
      not (str_eq name (codes ".") || str_eq name (codes ".."))
      && is_directory (folders.stat (dir ++ codes "/" ++ name) w)

  abbrev pub has_project : Bytes → Bool
  has_project p = is_some (folders.stat (p ++ codes "/project.godot") w)

  -- A directory in a directory.
  pub record IsChild (dir p : Bytes) : Type 0 where
    pub names : List Bytes
    pub listing : folders.names dir w ≡ some names
    pub name : Bytes
    pub among : In name names
    pub entered : is_entered dir name ≡ true
    pub path : p ≡ dir ++ codes "/" ++ name

  -- A directory somewhere below a directory.
  pub data Below : Bytes → Bytes → Type 0 where
    child : (dir p : Bytes) → IsChild dir p → Below dir p
    deeper : (dir p q : Bytes) → IsChild dir p → Below p q → Below dir q

  abbrev pub FewNames : (Bytes → Type 0) → Bytes → Option (List Bytes) → Type 0
  FewNames P dir none = Unit
  FewNames P dir (some names) =
      All (λ name. (is_entered dir name ≡ false) ⊎ P (dir ++ codes "/" ++ name)) names

  -- The directories below this one are nested less than `n` deep.
  abbrev pub Shallow : ℕ → Bytes → Type 0
  Shallow zero dir = ⊥
  Shallow (suc n) dir = FewNames (Shallow n) dir (folders.names dir w)

  -- The paths of the projects, in the order of the scan.
  abbrev pub own_path : Bytes → List Bytes
  own_path p = if has_project p then p ∷ [] else []

  unfoldable pub paths_among : (Bytes → List Bytes) → Bytes → List Bytes → List Bytes
  paths_among below dir [] = []
  paths_among below dir (name ∷ names) =
      let rest = paths_among below dir names in
      let full = dir ++ codes "/" ++ name in
      if is_entered dir name then own_path full ++ (below full ++ rest) else rest

  abbrev pub paths_opened : (Bytes → List Bytes) → Bytes → Option (List Bytes) → List Bytes
  paths_opened below dir none = []
  paths_opened below dir (some names) = paths_among below dir names

  unfoldable pub paths : ℕ → Bytes → List Bytes
  paths zero dir = []
  paths (suc n) dir = paths_opened (paths n) dir (folders.names dir w)

  own_path-project : (p q : Bytes) → In q (own_path p) → (q ≡ p) × (has_project p ≡ true)
  own_path-project p q h = if_own (has_project p) p q h

  project-own_path : (p full : Bytes) → p ≡ full → has_project p ≡ true → In p (own_path full)
  project-own_path p full e h = let same : has_project full ≡ true = rw e at h in rw same (inl e)

  -- What one of the names gives: its own directory, or one below it.
  abbrev From : (Bytes → List Bytes) → Bytes → Bytes → Bytes → Type 0
  From below dir q name =
      (is_entered dir name ≡ true)
      × (In q (own_path (dir ++ codes "/" ++ name)) ⊎ In q (below (dir ++ codes "/" ++ name)))

  paths_among-From :
      (below : Bytes → List Bytes) (dir q : Bytes) (names : List Bytes)
      → In q (paths_among below dir names)
      → (name : Bytes) × In name names × From below dir q name
  unfolding paths_among
  paths_among-From below dir q [] h = absurd h
  paths_among-From below dir q (x ∷ names) h = elim (Bool-cases (is_entered dir x)) [
    | inr e ↦ later (paths_among-From below dir q names (rw e at h))
    | inl e ↦ entered (λ k. paths_among-From below dir q names k) e (rw e at h)
  ]
    where
      later :
          (name : Bytes) × In name names × From below dir q name
          → (name : Bytes) × In name (x ∷ names) × From below dir q name
      later (name, i, f) = (name, inr i, f)

      here :
          is_entered dir x ≡ true
          → In q (own_path (dir ++ codes "/" ++ x)) ⊎ In q (below (dir ++ codes "/" ++ x))
          → (name : Bytes) × In name (x ∷ names) × From below dir q name
      here e f = (x, inl refl, (e, f))

      entered :
          (In q (paths_among below dir names)
            → (name : Bytes) × In name names × From below dir q name)
          → is_entered dir x ≡ true
          → In q (
              own_path (dir ++ codes "/" ++ x)
              ++ (below (dir ++ codes "/" ++ x) ++ paths_among below dir names))
          → (name : Bytes) × In name (x ∷ names) × From below dir q name
      entered others e k = elim (In-cases q (own_path (dir ++ codes "/" ++ x)) _ k) [
        | inl own ↦ here e (inl own)
        | inr more ↦ elim (In-cases q (below (dir ++ codes "/" ++ x)) _ more) [
          | inl deep ↦ here e (inr deep)
          | inr rest ↦ later (others rest)
        ]
      ]

  From-paths_among :
      (below : Bytes → List Bytes) (dir q name : Bytes) (names : List Bytes)
      → In name names
      → From below dir q name
      → In q (paths_among below dir names)
  unfolding paths_among
  From-paths_among below dir q name [] i f = absurd i
  From-paths_among below dir q name (x ∷ names) (inl same) f =
      let (e, place) = (rw same at f) in
      rw e (elim place [
        | inl own ↦ In-left q (own_path (dir ++ codes "/" ++ x)) _ own
        | inr deep ↦
            In-right q (own_path (dir ++ codes "/" ++ x)) _
              (In-left q (below (dir ++ codes "/" ++ x)) _ deep)
      ])
  From-paths_among below dir q name (x ∷ names) (inr i) f =
      let rest = From-paths_among below dir q name names i f in
      elim (Bool-cases (is_entered dir x)) [
        | inr e ↦ rw e rest
        | inl e ↦ rw e (
            In-right q (own_path (dir ++ codes "/" ++ x)) _
              (In-right q (below (dir ++ codes "/" ++ x)) _ rest))
      ]

  child_of :
      (P : Bytes → Type 0) (dir name : Bytes) (names : List Bytes)
      → All (λ x. (is_entered dir x ≡ false) ⊎ P (dir ++ codes "/" ++ x)) names
      → In name names
      → is_entered dir name ≡ true
      → P (dir ++ codes "/" ++ name)
  child_of P dir name [] few i e = absurd i
  child_of P dir name (x ∷ names) (inl off, few) (inl same) e =
      let on : is_entered dir x ≡ true = rw same at e in absurd (cc)
  child_of P dir name (x ∷ names) (inr deep, few) (inl same) e = rw same deep
  child_of P dir name (x ∷ names) (_, few) (inr i) e = child_of P dir name names few i e

  pub Below-paths :
      (n : ℕ) (dir q : Bytes)
      → Shallow n dir
      → Below dir q
      → has_project q ≡ true
      → In q (paths n dir)
  unfolding paths
  Below-paths zero dir q few b h = absurd few
  Below-paths (suc n) dir q few (child _ _ c) h = rw (c.listing) (
      From-paths_among (paths n) dir q c.name c.names c.among
        (c.entered, inl (project-own_path q _ c.path h)))
  Below-paths (suc n) dir q few (deeper _ p _ c b) h =
      let below : Shallow n p =
        rw (c.path)
          (child_of (Shallow n) dir c.name c.names (rw (c.listing) at few) c.among c.entered) in
      let there : In q (paths n p) = Below-paths n p q below b h in
      rw (c.listing) (
        From-paths_among (paths n) dir q c.name c.names c.among
          (c.entered, inr (rw (c.path) at there)))

  pub paths-Below :
      (n : ℕ) (dir q : Bytes) → In q (paths n dir) → Below dir q × (has_project q ≡ true)
  unfolding paths
  paths-Below zero dir q h = absurd h
  paths-Below (suc n) dir q h = by_list (folders.names dir w) refl h (λ p k. paths-Below n p q k)
    where
      by_list :
          (o : Option (List Bytes))
          → folders.names dir w ≡ o
          → In q (paths_opened (paths n) dir o)
          → ((p : Bytes) → In q (paths n p) → Below p q × (has_project q ≡ true))
          → Below dir q × (has_project q ≡ true)
      by_list none e k rest = absurd k
      by_list (some names) e k rest =
          let (name, i, (on, place)) = paths_among-From (paths n) dir q names k in
          let full = dir ++ codes "/" ++ name in
          let c : IsChild dir full = record {
            names = names;
            listing = e;
            name = name;
            among = i;
            entered = on;
            path = refl;
          } in
          elim place [
            | inl own ↦
                let (same, there) = own_path-project full q own in
                (rw same (child dir full c), rw same there)
            | inr deep ↦ let (below, there) = rest full deep in (deeper dir full q c below, there)
          ]
