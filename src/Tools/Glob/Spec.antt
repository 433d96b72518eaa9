-- ===== src/Tools/Glob/Spec.antt =====
-- What a pattern means: `*` stands for any bytes, `?` for one, and any other byte for itself.
use gear_mcp_server.Base.{
  ℕ, ◌≡◌, refl, ap, Bool, true, false, ◌⊎◌, inl, inr, [], ◌∷◌, ◌||◌, ◌==◌, if◌then◌else◌,
  Bool-cases, Bytes,
}
use gear_mcp_server.Tools.Glob.{only_stars}

unfoldable pub matches : Bytes → Bytes → Bool
matches [] [] = true
matches [] (c ∷ s) = false
matches (x ∷ p) [] = let rest = matches p [] in if x == b'*' then rest else false
matches (x ∷ p) (c ∷ s) =
    let here = matches p (c ∷ s) in
    let longer = matches (x ∷ p) s in
    let next = matches p s in
    if x == b'*'
    then (if here then true else longer)
    else if x == b'?' || x == c
    then next
    else false

-- `u` is an end of `s`.
abbrev pub End : Bytes → Bytes → Type 0
End u [] = u ≡ []
End u (c ∷ s) = (u ≡ c ∷ s) ⊎ End u s

-- `u` is an end of `s`, and not all of it.
abbrev pub ShortEnd : Bytes → Bytes → Type 0
ShortEnd u [] = ⊥
ShortEnd u (c ∷ s) = End u s

pub End-whole : (s : Bytes) → End s s
End-whole [] = refl
End-whole (c ∷ s) = inl refl

pub End-short : (u s : Bytes) → ShortEnd u s → End u s
End-short u [] h = absurd h
End-short u (c ∷ s) h = inr h

pub End-cases : (u s : Bytes) → End u s → (u ≡ s) ⊎ ShortEnd u s
End-cases u [] h = inl h
End-cases u (c ∷ s) (inl e) = inl e
End-cases u (c ∷ s) (inr e) = inr e

pub End-trans : (u v s : Bytes) → End u v → End v s → End u s
End-trans u v [] h e = rw e at h
End-trans u v (c ∷ s) h (inl e) = rw e at h
End-trans u v (c ∷ s) h (inr e) = inr (End-trans u v s h e)

pub End-tail : (d : ℕ) (v s : Bytes) → End (d ∷ v) s → ShortEnd v s
End-tail d v [] e = cc
End-tail d v (c ∷ s) (inl e) = let same : v ≡ s = cc in rw same (End-whole s)
End-tail d v (c ∷ s) (inr e) = End-short v s (End-tail d v s e)

-- A star matches exactly where the rest of the pattern matches some end.
pub star_of_End : (p u s : Bytes) → End u s → matches p u ≡ true → matches (b'*' ∷ p) s ≡ true
unfolding matches
star_of_End p u [] e m = rw e at m
star_of_End p u (c ∷ s) (inl e) m = rw (rw e at m) refl
star_of_End p u (c ∷ s) (inr e) m =
    let rest = star_of_End p u s e m in
    elim (Bool-cases (matches p (c ∷ s))) [ inl h ↦ rw h | inr h ↦ rw h rest ]

pub End-of_star :
    (p s : Bytes) → matches (b'*' ∷ p) s ≡ true → (u : Bytes) × (End u s × (matches p u ≡ true))
unfolding matches
End-of_star p [] m = ([], (refl, m))
End-of_star p (c ∷ s) m = elim (Bool-cases (matches p (c ∷ s))) [
  | inl h ↦ (c ∷ s, (inl refl, h))
  | inr h ↦ let (u, (e, k)) = End-of_star p s (rw h at m) in (u, (inr e, k))
]

pub matches-nil : (p : Bytes) → matches p [] ≡ only_stars p
unfolding matches only_stars
matches-nil [] = refl
matches-nil (x ∷ p) = ap (λ r. if x == b'*' then r else false) (matches-nil p)

-- A pattern that begins with no star, at a byte.
pub matches_byte :
    (x : ℕ) (p : Bytes) (c : ℕ) (s : Bytes)
    → (x == b'*') ≡ false
    → matches (x ∷ p) (c ∷ s) ≡ (if x == b'?' || x == c then matches p s else false)
unfolding matches
matches_byte x p c s h = rw h

pub matches_end : (x : ℕ) (p : Bytes) → (x == b'*') ≡ false → matches (x ∷ p) [] ≡ false
unfolding matches
matches_end x p h = rw h

pub matches_none : (c : ℕ) (s : Bytes) → matches [] (c ∷ s) ≡ false
unfolding matches
matches_none c s = refl

End-nil : (s : Bytes) → End [] s
End-nil [] = refl
End-nil (c ∷ s) = inr (End-nil s)

pub matches_one_star : (s : Bytes) → matches (b'*' ∷ []) s ≡ true
matches_one_star s = star_of_End [] [] s (End-nil s) (unfold matches in refl)
