-- ===== src/OrdMap/Order.antt =====
-- operator< of std::string: the lexicographic order of the bytes, taken as unsigned.
use gear_mcp_server.Base.{
  ◌≡◌, refl, Bool, true, false, [], ◌∷◌, arith, Bytes, ltb, ◌==◌, if◌then◌else◌, str_eq,
}

unfoldable pub before : Bytes → Bytes → Bool
before [] [] = false
before [] (y ∷ ys) = true
before (x ∷ xs) [] = false
before (x ∷ xs) (y ∷ ys) = if x == y then before xs ys else ltb x y

pub before_irrefl : (xs : Bytes) → before xs xs ≡ false
unfolding before
before_irrefl [] = refl
before_irrefl (x ∷ xs) = ground (arith, before_irrefl xs)

pub before_total :
    (xs ys : Bytes) → before xs ys ≡ false → str_eq xs ys ≡ false → before ys xs ≡ true
unfolding before
before_total [] [] h n = ground arith
before_total [] (y ∷ ys) h n = ground arith
before_total (x ∷ xs) [] h n = refl
before_total (x ∷ xs) (y ∷ ys) h n = ground (arith, before_total xs ys)

pub before_trans :
    (xs ys zs : Bytes) → before xs ys ≡ true → before ys zs ≡ true → before xs zs ≡ true
unfolding before
before_trans [] [] zs h k = ground arith
before_trans [] (y ∷ ys) [] h k = ground arith
before_trans [] (y ∷ ys) (z ∷ zs) h k = refl
before_trans (x ∷ xs) [] zs h k = ground arith
before_trans (x ∷ xs) (y ∷ ys) [] h k = ground arith
before_trans (x ∷ xs) (y ∷ ys) (z ∷ zs) h k = ground (arith, before_trans xs ys zs)
