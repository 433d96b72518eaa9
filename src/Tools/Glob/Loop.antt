-- ===== src/Tools/Glob/Loop.antt =====
-- The loop of `pattern_match` ends, and decides what the pattern means.
use gear_mcp_server.Base.{
  ℕ, zero, suc, ◌+◌, ◌*◌, ◌≡◌, refl, sym, ap, ◌∙◌, arith, Bool, true, false, inl, inr, Option, none,
  some, [], ◌∷◌, ◌||◌, ◌==◌, ==_iff, Bool-cases, Bytes, length, is_empty, codes,
}
use gear_mcp_server.Tools.Glob.{fits, match_from, pattern_match}
use gear_mcp_server.Tools.Glob.Spec.{matches, matches_byte, matches_none, matches_one_star}
use gear_mcp_server.Tools.Glob.Rounds.{
  NoStar, Decides, Rounds, Decides-end, Decides-retry, Decides-star, Decides-byte,
}

-- `G` is the question of the call, and no pattern in the loop is longer than `k`.
module _ (G : Type 0) (k : ℕ) where
  star_step :
      (f : ℕ) (p : Bytes) (c : ℕ) (s : Bytes) (back : Option (Bytes × Bytes))
      → (c == b'*') ≡ false
      → Decides G (match_from f p (c ∷ s) (some (p, c ∷ s)))
      → Decides G (match_from (suc f) (b'*' ∷ p) (c ∷ s) back)
  unfolding match_from
  star_step f p c s back h d = let other : (b'*' == c) ≡ false = ground arith in rw other d

  rounds : (f : ℕ) → Rounds G k f
  unfolding match_from
  rounds zero p s none room clean live = absurd (omega (arith, room.1))
  rounds zero p s (some b) room clean live = absurd (omega (arith, room.3))
  rounds (suc f) p [] back room clean live = Decides-end G k p back live
  rounds (suc f) [] (c ∷ s) back room clean live =
      Decides-retry G k f [] c s back (rounds f) room live (matches_none c s)
  rounds (suc f) (x ∷ p) (c ∷ s) back room clean live =
      let next = rounds f in
      elim (Bool-cases (x == b'*')) [
        | inl star ↦ starred next ((==_iff x b'*').0 star)
        | inr plain ↦ elim (Bool-cases (fits (x ∷ p) c)) [
          | inl fit ↦ rw fit (Decides-byte G k f x p c s back next room clean live plain fit)
          | inr miss ↦
              rw (miss, plain)
                (Decides-retry G k f (x ∷ p) c s back next room live
                  (matches_byte x p c s plain ∙ rw miss refl))
        ]
      ]
    where
      starred : Rounds G k f → x ≡ b'*' → Decides G (match_from (suc f) (x ∷ p) (c ∷ s) back)
      starred next e = rw e (
          star_step f p c s back clean.0
            (Decides-star G k f p c s back next (rw e at room) clean (rw e at live)))

eq_of_Decides : (b : Bool) (o : Option Bool) → Decides (b ≡ true) o → o ≡ some b
eq_of_Decides b none d = absurd d
eq_of_Decides b (some true) d = ap some (sym d)
eq_of_Decides true (some false) d = absurd (d refl)
eq_of_Decides false (some false) d = refl

-- A name without stars: the call ends, and its answer is true exactly if the pattern is empty or
-- the name is one that the pattern stands for.
pub pattern_match-eq-matches :
    (name pattern : Bytes)
    → NoStar name
    → pattern_match name pattern ≡ some (is_empty pattern || matches pattern name)
unfolding pattern_match
pattern_match-eq-matches name [] clean = refl
pattern_match-eq-matches name (x ∷ p) clean =
    let q = x ∷ p in
    eq_of_Decides (matches q name) _ (
      rounds (matches q name ≡ true) (length q)
        (suc ((length name + 1) * (length q + 1) + length q)) q name none (omega arith, omega arith)
        clean (λ m. m, λ m. m))

misread :
    (f c : ℕ) (s : Bytes) → match_from (suc (suc f)) (codes "*") (b'*' ∷ c ∷ s) none ≡ some false
unfolding match_from
misread f c s = refl

-- A name that begins with a star and is longer does not match the pattern of one star, which
-- stands for any name: the star of the pattern is taken for the star of the name.
pub pattern_match-star_name :
    (c : ℕ) (s : Bytes)
    → (pattern_match (b'*' ∷ c ∷ s) (codes "*") ≡ some false)
      × (matches (codes "*") (b'*' ∷ c ∷ s) ≡ true)
unfolding pattern_match
pattern_match-star_name c s =
    let fuel : suc ((length (b'*' ∷ c ∷ s) + 1) * 2 + 1)
        ≡ suc (suc ((length (b'*' ∷ c ∷ s) + 1) * 2)) =
      omega arith in
    (
      ap (λ f. match_from f (codes "*") (b'*' ∷ c ∷ s) none) fuel ∙ misread _ c s,
      matches_one_star (b'*' ∷ c ∷ s),
    )
