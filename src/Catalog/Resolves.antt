-- ===== src/Catalog/Resolves.antt =====
-- Which resource a request for a URI finds, in terms of the URI and of what a template is.
use gear_mcp_server.Base.{
  ℕ, zero, suc, ◌≡◌, refl, sym, ap, arith, Bool, true, false, Option, none, some, List, [], ◌∷◌,
  ◌++◌, ◌&&◌, ◌==◌, ltb, if◌then◌else◌, Bool-cases, Option-cases, inl, inr, Bytes, is_empty, length,
  length-append, drop, str_eq, str_eq_iff, starts_with, starts_with-append, starts_with-split,
  split_at, split_at-NoByte, All, NoByte,
}
use gear_mcp_server.Catalog.{
  ResourceInfo, find_exact, find_template, find_resource, matches_template,
}

-- The template has a brace, and what stands before its first one is a proper prefix of the URI:
-- what is left of the URI for the handler is not empty.
pub record FitsTemplate (uri template : Bytes) : Type 0 where
  pub prefix : Bytes
  pub hole : Bytes
  pub rest : Bytes
  pub is_template : template ≡ prefix ++ b'{' ∷ hole
  pub first_brace : NoByte b'{' prefix
  pub splits : uri ≡ prefix ++ rest
  pub nonempty : is_empty rest ≡ false

-- The byte stands between the two parts, and not in the first.
abbrev Splits : ℕ → Bytes → Bytes → Bytes → Type 0
Splits c xs a b = (xs ≡ a ++ c ∷ b) × NoByte c a

later_split :
    (c x : ℕ) (xs : Bytes) (o : Option (Bytes × Bytes)) {a b : Bytes}
    → (x == c) ≡ false
    → ((a b : Bytes) → o ≡ some (a, b) → Splits c xs a b)
    → (elim o as (λ o. Option (Bytes × Bytes)) [ none ↦ none | some (a, b) ↦ some (x ∷ a, b) ])
      ≡ some (a, b)
    → Splits c (x ∷ xs) a b
later_split c x xs none h ih e = cc
later_split c x xs (some (a, b)) {a = a'} {b = b'} h ih e =
    let (splits, free) = ih a b refl in
    let first : x ∷ a ≡ a' = cc in
    let second : b ≡ b' = cc in rw (← first, ← second) (ap (◌∷◌ x) splits, (h, free))

split_at-Splits : (c : ℕ) (xs a b : Bytes) → split_at c xs ≡ some (a, b) → Splits c xs a b
unfolding split_at
split_at-Splits c [] a b h = cc
split_at-Splits c (x ∷ xs) a b h = elim (Bool-cases (x == c)) [
  | inl e ↦
      let here = rw e at h in
      let first : [] ≡ a = cc in
      let second : xs ≡ b = cc in
      let same : x ≡ c = ground (arith, e) in rw (← first, ← second, same) (refl, tt)
  | inr e ↦
      let later = rw e at h in
      later_split c x xs (split_at c xs) e (λ a b k. split_at-Splits c xs a b k) later
]

drop-nonempty : (n : ℕ) (xs : Bytes) → ltb n (length xs) ≡ true → is_empty (drop n xs) ≡ false
drop-nonempty zero [] h = ground arith
drop-nonempty zero (x ∷ xs) h = refl
drop-nonempty (suc n) [] h = ground arith
drop-nonempty (suc n) (x ∷ xs) h = drop-nonempty n xs (ground arith)

matches-FitsTemplate :
    (uri template : Bytes) → matches_template uri template ≡ true → FitsTemplate uri template
unfolding matches_template
matches-FitsTemplate uri template h = elim (Option-cases (split_at b'{' template)) [
  | inl n ↦ absurd (ground (arith, n))
  | inr ((prefix, hole), e) ↦
      let both : (ltb (length prefix) (length uri) && starts_with uri prefix) ≡ true =
        rw (e, matches_template) at h in
      let (splits, free) = split_at-Splits b'{' template prefix hole e in
      record {
        prefix = prefix;
        hole = hole;
        rest = drop (length prefix) uri;
        is_template = splits;
        first_brace = free;
        splits = sym (starts_with-split uri prefix (ground arith));
        nonempty = drop-nonempty (length prefix) uri (ground arith);
      }
]

longer : (xs ys : Bytes) → is_empty ys ≡ false → ltb (length xs) (length (xs ++ ys)) ≡ true
longer xs [] h = cc
longer xs (y ∷ ys) h = rw (length-append xs (y ∷ ys)) (ground arith)

FitsTemplate-matches :
    (uri template : Bytes) → FitsTemplate uri template → matches_template uri template ≡ true
unfolding matches_template
FitsTemplate-matches uri template f =
    rw (f.is_template, f.splits)
      (rw (matches_template, split_at-NoByte b'{' f.prefix f.hole f.first_brace)
        (rw (longer f.prefix f.rest f.nonempty, starts_with-append f.prefix f.rest) refl))

-- `r` is the first of the list that is so.
pub record First {A : Type 0} (P : A → Type 0) (xs : List A) (r : A) : Type 0 where
  pub earlier : List A
  pub later : List A
  pub splits : xs ≡ earlier ++ r ∷ later
  pub passes : P r
  pub skipped : All (λ s. P s → ⊥) earlier

-- A search returned the first that is so, or none where none is.
pub data Finds {A : Type 0} (P : A → Type 0) (xs : List A) : Option A → Type 0 where
  hit : {r : A} → First P xs r → Finds P xs (some r)
  miss : All (λ s. P s → ⊥) xs → Finds P xs none

module _ {A : Type 0} (P : A → Type 0) where
  Finds-cons : (x : A) (xs : List A) {o : Option A} → (P x → ⊥) → Finds P xs o → Finds P (x ∷ xs) o
  Finds-cons x xs h (hit f) = hit (record {
    earlier = x ∷ f.earlier;
    later = f.later;
    splits = ap (◌∷◌ x) f.splits;
    passes = f.passes;
    skipped = (h, f.skipped);
  })
  Finds-cons x xs h (miss a) = miss (h, a)

  -- One step of a search whose test tells what is so.
  Finds-step :
      (x : A) (xs : List A) (o : Option A) (b : Bool)
      → (b ≡ true → P x)
      → (P x → b ≡ true)
      → Finds P xs o
      → Finds P (x ∷ xs) (if b then some x else o)
  Finds-step x xs o true holds passed f =
      hit (record { earlier = []; later = xs; splits = refl; passes = holds refl; skipped = tt })
  Finds-step x xs o false holds passed f = Finds-cons x xs (λ p. cc (passed p)) f

module _ {R : Type 0} where
  abbrev pub Exact : Bytes → ResourceInfo R → Type 0
  Exact uri r = r.uri ≡ uri

  abbrev pub Template : Bytes → ResourceInfo R → Type 0
  Template uri r = FitsTemplate uri r.uri

  find_exact-Finds :
      (uri : Bytes) (rs : List (ResourceInfo R)) → Finds (Exact uri) rs (find_exact uri rs)
  unfolding find_exact
  find_exact-Finds uri [] = miss tt
  find_exact-Finds uri (r ∷ rs) =
      Finds-step (Exact uri) r rs (find_exact uri rs) (str_eq r.uri uri) (str_eq_iff r.uri uri).0
        (str_eq_iff r.uri uri).1 (find_exact-Finds uri rs)

  find_template-Finds :
      (uri : Bytes) (rs : List (ResourceInfo R)) → Finds (Template uri) rs (find_template uri rs)
  unfolding find_template
  find_template-Finds uri [] = miss tt
  find_template-Finds uri (r ∷ rs) =
      Finds-step (Template uri) r rs (find_template uri rs) (matches_template uri r.uri)
        (matches-FitsTemplate uri r.uri) (FitsTemplate-matches uri r.uri)
        (find_template-Finds uri rs)

  -- What a request for a URI finds: the resource of exactly that URI; where there is none, the
  -- first whose template the URI fits; and nothing only where there is neither.
  pub data Resolution (uri : Bytes) (rs : List (ResourceInfo R))
      : Option (ResourceInfo R) → Type 0 where
    exact : {r : ResourceInfo R} → First (Exact uri) rs r → Resolution uri rs (some r)
    template :
        {r : ResourceInfo R}
        → All (λ s. Exact uri s → ⊥) rs
        → First (Template uri) rs r
        → Resolution uri rs (some r)
    missing :
        All (λ s. Exact uri s → ⊥) rs → All (λ s. Template uri s → ⊥) rs → Resolution uri rs none

  second_loop-Resolution :
      (uri : Bytes) (rs : List (ResourceInfo R)) {o : Option (ResourceInfo R)}
      → All (λ s. Exact uri s → ⊥) rs
      → Finds (Template uri) rs o
      → Resolution uri rs o
  second_loop-Resolution uri rs a (hit f) = template a f
  second_loop-Resolution uri rs a (miss b) = missing a b

  both_loops-Resolution :
      (uri : Bytes) (rs : List (ResourceInfo R)) {o : Option (ResourceInfo R)}
      → Finds (Exact uri) rs o
      → Resolution uri rs (elim o [ none ↦ find_template uri rs | some r ↦ some r ])
  both_loops-Resolution uri rs (hit f) = exact f
  both_loops-Resolution uri rs (miss a) =
      second_loop-Resolution uri rs a (find_template-Finds uri rs)

  -- What a request for a URI finds: the first resource of exactly that URI; where there is none,
  -- the first whose URI is a template that the URI fits, that is, what stands before the
  -- template's first brace is a prefix of the URI, and not all of it; and nothing exactly where
  -- there is neither.
  pub find_resource-Resolution :
      (uri : Bytes) (rs : List (ResourceInfo R)) → Resolution uri rs (find_resource uri rs)
  unfolding find_resource
  find_resource-Resolution uri rs = both_loops-Resolution uri rs (find_exact-Finds uri rs)
