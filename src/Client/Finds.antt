-- ===== src/Client/Finds.antt =====
-- What std::string::find finds in a text that grows.
use gear_mcp_server.Base.{
  NoByte, starts_with-append, ℕ, suc, ◌+◌, ◌≤◌, ◌≡◌, refl, sym, ap, ◌∙◌, arith, Bool, true, false,
  ◌&&◌, ◌==◌, Option, none, some, [], ◌∷◌, ◌++◌, if◌then◌else◌, Bytes, find, starts_with, length,
}

starts_with-length : (xs nd : Bytes) → starts_with xs nd ≡ true → length nd ≤ length xs
starts_with-length xs [] h = omega arith
starts_with-length [] (y ∷ ys) h = ground arith
starts_with-length (x ∷ xs) (y ∷ ys) h = ground (arith, starts_with-length xs ys)

-- What follows a text that is long enough does not matter.
starts_with-grown :
    (xs rest nd : Bytes) → length nd ≤ length xs → starts_with (xs ++ rest) nd ≡ starts_with xs nd
starts_with-grown xs rest [] h = refl
starts_with-grown [] rest (y ∷ ys) h = absurd (omega arith)
starts_with-grown (x ∷ xs) rest (y ∷ ys) h =
    ap (λ b. (x == y) && b) (starts_with-grown xs rest ys (omega arith))

module _ (n : ℕ) (nd : Bytes) where
  abbrev needle : Bytes
  needle = n ∷ nd

  shifted : Option ℕ → Option ℕ
  shifted none = none
  shifted (some i) = some (suc i)

  find-cons :
      (x : ℕ) (xs : Bytes)
      → find (x ∷ xs) needle
        ≡ (if starts_with (x ∷ xs) needle then some 0 else shifted (find xs needle))
  unfolding find shifted
  find-cons x xs = refl

  find-nil : find [] needle ≡ none
  unfolding find
  find-nil = refl

  within_step :
      (b : Bool) (o : Option ℕ) (p l : ℕ)
      → (b ≡ true → length needle ≤ suc l)
      → ((i : ℕ) → o ≡ some i → i + length needle ≤ l)
      → (if b then some 0 else shifted o) ≡ some p
      → p + length needle ≤ suc l
  unfolding shifted
  within_step true o p l f g e = let at : 0 ≡ p = cc in omega (arith, f refl, at)
  within_step false none p l f g e = cc
  within_step false (some i) p l f g e = let at : suc i ≡ p = cc in omega (arith, g i refl, at)

  -- What was found lies within the text.
  pub find-within : (xs : Bytes) (p : ℕ) → find xs needle ≡ some p → p + length needle ≤ length xs
  find-within [] p h = cc (h, find-nil)
  find-within (x ∷ xs) p h =
      within_step (starts_with (x ∷ xs) needle) (find xs needle) p (length xs)
        (starts_with-length (x ∷ xs) needle) (λ i e. find-within xs i e) (sym (find-cons x xs) ∙ h)

  grown_step :
      (b c : Bool) (o q : Option ℕ) (p : ℕ)
      → (b ≡ true → c ≡ true)
      → ((i : ℕ) → o ≡ some i → (q ≡ some i) × (c ≡ b))
      → (if b then some 0 else shifted o) ≡ some p
      → (if c then some 0 else shifted q) ≡ some p
  unfolding shifted
  grown_step true c o q p f g e = rw (f refl) e
  grown_step false c none q p f g e = cc
  grown_step false c (some i) q p f g e = rw ((g i refl).1) (rw ((g i refl).0) e)

  -- What was found is found at the same place when the text grows.
  pub find-grown :
      (xs rest : Bytes) (p : ℕ) → find xs needle ≡ some p → find (xs ++ rest) needle ≡ some p
  find-grown [] rest p h = cc (h, find-nil)
  find-grown (x ∷ xs) rest p h =
      let same =
        λ (e : length needle ≤ length (x ∷ xs)). starts_with-grown (x ∷ xs) rest needle e in
      find-cons x (xs ++ rest)
      ∙ grown_step (starts_with (x ∷ xs) needle) (starts_with (x ∷ (xs ++ rest)) needle)
          (find xs needle) (find (xs ++ rest) needle) p
          (λ e. same (starts_with-length (x ∷ xs) needle e) ∙ e)
          (λ i e. (find-grown xs rest i e, same (let w = find-within xs i e in omega (arith, w))))
          (sym (find-cons x xs) ∙ h)

-- A text without the first byte of what is sought.
pub find-NoByte : (b : ℕ) (bs xs : Bytes) → NoByte b xs → find xs (b ∷ bs) ≡ none
unfolding find
find-NoByte b bs [] h = refl
find-NoByte b bs (x ∷ xs) h = rw (h.0) (rw (find-NoByte b bs xs h.1) refl)

-- The first place of a text behind bytes that are not its first.
pub find-first :
    (b : ℕ) (bs h rest : Bytes)
    → NoByte b h
    → find (h ++ ((b ∷ bs) ++ rest)) (b ∷ bs) ≡ some (length h)
unfolding find
find-first b bs [] rest n = rw (starts_with-append (b ∷ bs) rest) refl
find-first b bs (x ∷ h) rest n = rw (n.0) (rw (find-first b bs h rest n.1) refl)
