-- ===== src/OrdMap.antt =====
-- std::map and std::set with std::string keys: the entries in the order of their keys.
mod Order
pub use Order.*
unfoldable pub use Order.{before}
use gear_mcp_server.Base.{
  ℕ, suc, ◌+◌, ◌≡◌, refl, Bool, true, false, Option, none, some, List, [], ◌∷◌, arith,
  if◌then◌else◌, Bytes, str_eq, str_eq_iff, str_eq_refl, length, Bool-cases, inl, inr, is_some,
}

abbrev pub OrdMap {ℓ} : Type ℓ → Type ℓ
OrdMap V = List (Bytes × V)

module _ {ℓ} {V : Type ℓ} where
  -- find
  unfoldable pub lookup : Bytes → OrdMap V → Option V
  lookup k [] = none
  lookup k ((j, v) ∷ m) = if str_eq j k then some v else lookup k m

  -- operator[] with an assignment, and insert of a set
  unfoldable pub insert : Bytes → V → OrdMap V → OrdMap V
  insert k v [] = (k, v) ∷ []
  insert k v ((j, w) ∷ m) =
      let rest = insert k v m in
      if before k j then (k, v) ∷ (j, w) ∷ m else if str_eq k j then (k, v) ∷ m else (j, w) ∷ rest

  -- erase
  unfoldable pub erase : Bytes → OrdMap V → OrdMap V
  erase k [] = []
  erase k ((j, w) ∷ m) = if str_eq j k then erase k m else (j, w) ∷ erase k m

  -- find(k) != end()
  unfoldable pub has_key : Bytes → OrdMap V → Bool
  has_key k m = is_some (lookup k m)

  -- Every key of the map is after `k`.
  abbrev pub Above : Bytes → OrdMap V → Type 0
  Above k [] = Unit
  Above k ((j, w) ∷ m) = (before k j ≡ true) × Above k m

  abbrev pub IsSorted : OrdMap V → Type 0
  IsSorted [] = Unit
  IsSorted ((j, w) ∷ m) = Above j m × IsSorted m

module _ {ℓ} {V : Type ℓ} where
  pub lookup-insert :
      (k j : Bytes) (v : V) (m : OrdMap V)
      → lookup j (insert k v m) ≡ (if str_eq k j then some v else lookup j m)
  unfolding lookup insert
  lookup-insert k j v [] = refl
  lookup-insert k j v ((i, w) ∷ m) =
      ground (arith, str_eq_iff k j, str_eq_iff i j, str_eq_iff k i, lookup-insert k j v m)

  pub lookup-erase :
      (k j : Bytes) (m : OrdMap V)
      → lookup j (erase k m) ≡ (if str_eq k j then none else lookup j m)
  unfolding lookup erase
  lookup-erase k j [] = ground arith
  lookup-erase k j ((i, w) ∷ m) =
      ground (arith, str_eq_iff k j, str_eq_iff i j, str_eq_iff i k, lookup-erase k j m)

  pub Above-trans : (k j : Bytes) (m : OrdMap V) → before k j ≡ true → Above j m → Above k m
  Above-trans k j [] h a = tt
  Above-trans k j ((i, w) ∷ m) h a = (before_trans k j i h a.0, Above-trans k j m h a.1)

  Above-insert :
      (j k : Bytes) (v : V) (m : OrdMap V) → before j k ≡ true → Above j m → Above j (insert k v m)
  unfolding insert
  Above-insert j k v [] h a = (h, tt)
  Above-insert j k v ((i, w) ∷ m) h a = ground (arith, Above-insert j k v m)

  pub insert-IsSorted : (k : Bytes) (v : V) (m : OrdMap V) → IsSorted m → IsSorted (insert k v m)
  unfolding insert
  insert-IsSorted k v [] s = (tt, tt)
  insert-IsSorted k v ((j, w) ∷ m) s = ground (
    arith,
    str_eq_iff k j,
    before_total k j,
    Above-trans k j m,
    Above-insert j k v m,
    insert-IsSorted k v m,
  )

  Above-erase : (j k : Bytes) (m : OrdMap V) → Above j m → Above j (erase k m)
  unfolding erase
  Above-erase j k [] a = tt
  Above-erase j k ((i, w) ∷ m) a = ground (arith, Above-erase j k m)

  pub erase-IsSorted : (k : Bytes) (m : OrdMap V) → IsSorted m → IsSorted (erase k m)
  unfolding erase
  erase-IsSorted k [] s = tt
  erase-IsSorted k ((j, w) ∷ m) s = ground (arith, erase-IsSorted k m, Above-erase j k m)

  pub lookup-Above : (k : Bytes) (m : OrdMap V) → Above k m → lookup k m ≡ none
  unfolding lookup
  lookup-Above k [] a = refl
  lookup-Above k ((j, w) ∷ m) a = ground (arith, str_eq_iff j k, before_irrefl j, lookup-Above k m)

  -- In a sorted map, an insertion adds an entry exactly if the key is new.
  pub length-insert :
      (k : Bytes) (v : V) (m : OrdMap V)
      → IsSorted m
      → length (insert k v m) ≡ (if has_key k m then length m else suc (length m))
  unfolding insert lookup has_key
  length-insert k v [] s = refl
  length-insert k v ((j, w) ∷ m) s = ground (
    arith,
    str_eq_iff j k,
    str_eq_iff k j,
    before_irrefl j,
    length-insert k v m,
    lookup-Above k m,
    Above-trans k j m,
  )

  pub has_key-insert :
      (k j : Bytes) (v : V) (m : OrdMap V)
      → has_key j (insert k v m) ≡ (if str_eq k j then true else has_key j m)
  unfolding has_key
  has_key-insert k j v m =
      rw (lookup-insert k j v m) (elim (Bool-cases (str_eq k j)) [ inl e ↦ rw e | inr e ↦ rw e ])

  pub has_key-erase :
      (k j : Bytes) (m : OrdMap V)
      → has_key j (erase k m) ≡ (if str_eq k j then false else has_key j m)
  unfolding has_key
  has_key-erase k j m =
      rw (lookup-erase k j m) (elim (Bool-cases (str_eq k j)) [ inl e ↦ rw e | inr e ↦ rw e ])

  pub has_key-cons :
      (j k : Bytes) (v : V) (m : OrdMap V)
      → has_key j ((k, v) ∷ m) ≡ (if str_eq k j then true else has_key j m)
  unfolding has_key lookup
  has_key-cons j k v m = elim (Bool-cases (str_eq k j)) [ inl e ↦ rw e | inr e ↦ rw e ]

  pub has_key-Above : (k : Bytes) (m : OrdMap V) → Above k m → has_key k m ≡ false
  unfolding has_key
  has_key-Above k m a = rw (lookup-Above k m a)

  -- In a sorted map there is at most one entry for a key.
  pub length-erase :
      (k : Bytes) (m : OrdMap V)
      → IsSorted m
      → length m ≡ length (erase k m) + (if has_key k m then 1 else 0)
  unfolding erase
  length-erase k [] s = unfold has_key lookup in refl
  length-erase k ((j, w) ∷ m) s = elim (Bool-cases (str_eq j k)) [
    | inl e ↦
        let gone = has_key-Above k m (rw ((str_eq_iff j k).0 e) at s.0) in
        rw (has_key-cons k j w m, e) (omega (arith, rw gone at (length-erase k m s.1)))
    | inr e ↦ rw (has_key-cons k j w m, e) (omega (arith, length-erase k m s.1))
  ]

  pub has_key_head : (k : Bytes) (v : V) (m : OrdMap V) → has_key k ((k, v) ∷ m) ≡ true
  has_key_head k v m = rw (has_key-cons k k v m, str_eq_refl k)

  pub lookup_head : (k : Bytes) (v : V) (m : OrdMap V) → lookup k ((k, v) ∷ m) ≡ some v
  unfolding lookup
  lookup_head k v m = rw (str_eq_refl k)

  pub lookup_tail :
      (j k : Bytes) (w v : V) (m : OrdMap V)
      → Above j m
      → lookup k m ≡ some v
      → lookup k ((j, w) ∷ m) ≡ some v
  unfolding lookup
  lookup_tail j k w v m a e = elim (Bool-cases (str_eq j k)) [
    | inl same ↦ absurd (some≢none (rw ((str_eq_iff j k).0 same, e) at (lookup-Above j m a)))
    | inr other ↦ rw other e
  ]
    where
      some≢none : some v ≡ none → ⊥
      some≢none h = cc

pub has_key-nil {ℓ} : (V : Type ℓ) (k : Bytes) → has_key {V = V} k [] ≡ false
unfolding has_key lookup
has_key-nil V k = refl
