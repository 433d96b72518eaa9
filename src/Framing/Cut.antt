-- ===== src/Framing/Cut.antt =====
-- What one call of `extract_next_message` does to the buffer, and that the buffer holds enough
-- fuel for the loop that calls it.
use gear_mcp_server.Base.{
  ℕ, zero, suc, ◌<◌, true, false, Option, none, some, [], ◌∷◌, ◌++◌, ◌≡◌, inl, inr, refl, sym, ap,
  ◌∙◌, arith, if◌then◌else◌, Bool-cases, Option-cases, Bytes, is_empty, length, length-append,
  length_pos, All,
}
use gear_mcp_server.Framing.{
  is_space, skip_space, Scanner, scan_byte, prepend, scan, outside, extract_from,
  extract_next_message, drain, drain_all,
}

abbrev pub IsSpaces : Bytes → Type 0
IsSpaces = All (λ c. is_space c ≡ true)

-- The next byte that counts is no garbage: there is none, or it opens a message.
abbrev pub AtMessage : Bytes → Type 0
AtMessage [] = Unit
AtMessage (c ∷ cs) = c ≡ b'{'

pub IsClean : Bytes → Type 0
IsClean x = AtMessage (skip_space x)

pub scan_more :
    (s : Scanner) (c : ℕ) (cs : Bytes)
    → (scan_byte s c).1 ≡ false
    → scan s (c ∷ cs) ≡ prepend (c ∷ []) (scan (scan_byte s c).0 cs)
unfolding scan
scan_more s c cs h = rw h

pub scan_end :
    (s : Scanner) (c : ℕ) (cs : Bytes)
    → (scan_byte s c).1 ≡ true
    → scan s (c ∷ cs) ≡ some (c ∷ [], cs)
unfolding scan
scan_end s c cs h = rw h

pub prepend-eq-some :
    (p : Bytes) (o : Option (Bytes × Bytes)) {a b : Bytes}
    → prepend p o ≡ some (a, b)
    → (a' : Bytes) × (o ≡ some (a', b)) × (a ≡ p ++ a')
prepend-eq-some p none h = cc
prepend-eq-some p (some (a', b')) h = (a', ground arith, ground arith)

-- A scan that found the end finds the same end when more bytes follow, and neither adds nor
-- drops a byte.
pub scan-append :
    (s : Scanner) (x y : Bytes) {a b : Bytes}
    → scan s x ≡ some (a, b)
    → (scan s (x ++ y) ≡ some (a, b ++ y)) × (a ++ b ≡ x) × (is_empty a ≡ false)
scan-append s [] y h = unfold scan in ground arith
scan-append s (c ∷ cs) y h = elim (Bool-cases (scan_byte s c).1) [
  | inl e ↦ ground (arith, scan_end s c cs e, scan_end s c (cs ++ y) e)
  | inr e ↦
      let (a', read, eq) =
        prepend-eq-some (c ∷ []) (scan (scan_byte s c).0 cs) (sym (scan_more s c cs e) ∙ h) in
      let (later, whole, _) = scan-append (scan_byte s c).0 cs y read in
      (scan_more s c (cs ++ y) e ∙ rw (later, eq), rw (eq, whole), rw eq)
]

-- How `extract_from` ends where a message starts.
pub extract_from-message :
    (z y : Bytes) {m r : Bytes}
    → extract_from z ≡ (m, r)
    → is_empty m ≡ false
    → (extract_from (z ++ y) ≡ (m, r ++ y)) × (m ++ r ≡ z) × (is_empty z ≡ false)
unfolding extract_from
extract_from-message [] y e h = ground arith
extract_from-message (c ∷ cs) y e h = elim (Option-cases (scan outside (c ∷ cs))) [
  | inl n ↦ ground (arith, n)
  | inr ((a, b), f) ↦ ground (arith, f, scan-append outside (c ∷ cs) y f)
]

-- Whitespace that has been skipped stays skipped when more bytes follow.
pub skip_space-append :
    (x y : Bytes)
    → skip_space (x ++ y) ≡ (if is_empty (skip_space x) then skip_space y else skip_space x ++ y)
unfolding skip_space
skip_space-append [] y = refl
skip_space-append (c ∷ cs) y = ground (arith, skip_space-append cs y)

pub skip_space-spaces : (w y : Bytes) → IsSpaces w → skip_space (w ++ y) ≡ skip_space y
unfolding skip_space
skip_space-spaces [] y h = refl
skip_space-spaces (c ∷ cs) y h = ground (arith, skip_space-spaces cs y h.1)

-- The bytes that are skipped are whitespace.
pub skip_space_splits : (x : Bytes) → (w : Bytes) × IsSpaces w × (x ≡ w ++ skip_space x)
unfolding skip_space
skip_space_splits [] = ([], tt, refl)
skip_space_splits (c ∷ cs) = elim (Bool-cases (is_space c)) [
  | inl e ↦ let (w, spaces, eq) = skip_space_splits cs in (c ∷ w, (e, spaces), ap (◌∷◌ c) eq ∙ rw e)
  | inr e ↦ ([], tt, rw e)
]

-- What one call did: `extract_next_message x` returned the message `m` and left `r`.
pub record Extracts (x m r : Bytes) : Type 0 where
  pub space : Bytes
  pub spaces : IsSpaces space
  pub splits : x ≡ space ++ (m ++ r)
  pub shorter : length r < length x
  pub later : (y : Bytes) → extract_next_message (x ++ y) ≡ (m, r ++ y)

-- A call that returns a message took it off the front of the buffer, behind whitespace, and
-- would take the same message if more bytes were there.
pub extract-Extracts :
    (x : Bytes) {m r : Bytes}
    → extract_next_message x ≡ (m, r)
    → is_empty m ≡ false
    → Extracts x m r
unfolding extract_next_message
extract-Extracts x {m} {r} e h =
    let (w, spaces, eq) = skip_space_splits x in
    let size = length_pos m h in
    let at = λ (y : Bytes). extract_from-message (skip_space x) y e h in
    record {
      space = w;
      spaces = spaces;
      splits = eq ∙ ap (◌++◌ w) (sym (at []).1);
      shorter = omega (
        arith,
        ap length eq,
        ap length (at []).1,
        length-append {0} w (skip_space x),
        length-append {0} m r,
      );
      later = λ y. rw (skip_space-append x y, (at y).2) (at y).0;
    }

extract_from-wait :
    (z : Bytes) → AtMessage z → is_empty (extract_from z).0 ≡ true → (extract_from z).1 ≡ z
unfolding extract_from
extract_from-wait [] a h = refl
extract_from-wait (c ∷ cs) a h = elim (Option-cases (scan outside (c ∷ cs))) [
  | inl n ↦ ground (arith, n)
  | inr ((m, r), f) ↦ ground (arith, f, scan-append outside (c ∷ cs) [] f)
]

skip_space-append_wait :
    (z y : Bytes)
    → AtMessage z
    → skip_space (z ++ y) ≡ (if is_empty z then skip_space y else z ++ y)
unfolding skip_space
skip_space-append_wait [] y a = refl
skip_space-append_wait (c ∷ cs) y a = ground arith

-- A call that returns no message, where no garbage is next, only drops whitespace: with more
-- bytes behind it the buffer gives what it would have given without the call.
pub extract-wait :
    (x y : Bytes)
    → AtMessage (skip_space x)
    → is_empty (extract_next_message x).0 ≡ true
    → extract_next_message (x ++ y) ≡ extract_next_message ((extract_next_message x).1 ++ y)
unfolding extract_next_message
extract-wait x y a h = rw (
  extract_from-wait (skip_space x) a h,
  skip_space-append x y,
  skip_space-append_wait (skip_space x) y a,
)

pub extract-AtMessage :
    (x : Bytes) → is_empty (extract_next_message x).0 ≡ false → AtMessage (skip_space x)
unfolding extract_next_message
extract-AtMessage x h = extract_from-AtMessage (skip_space x) h
  where
    extract_from-AtMessage : (z : Bytes) → is_empty (extract_from z).0 ≡ false → AtMessage z
    extract_from-AtMessage [] h = tt
    extract_from-AtMessage (c ∷ cs) h = unfold extract_from in ground arith

pub AtMessage-prefix : (z y : Bytes) → AtMessage (z ++ y) → AtMessage z
AtMessage-prefix [] y a = tt
AtMessage-prefix (c ∷ cs) y a = a

-- The loop over a buffer ends within as many rounds as the buffer has bytes, and one: with any
-- more fuel it gives the same messages and leaves the same buffer.
pub drain-fuel : (f g : ℕ) (x : Bytes) → length x < f → length x < g → drain f x ≡ drain g x
unfolding drain
drain-fuel zero g x h k = absurd (omega arith)
drain-fuel (suc f) zero x h k = absurd (omega arith)
drain-fuel (suc f) (suc g) x h k = elim (Bool-cases (is_empty (extract_next_message x).0)) [
  | inl e ↦ rw e
  | inr e ↦
      let cut = (extract-Extracts x refl e).shorter in
      rw (e, drain-fuel f g (extract_next_message x).1 (omega arith) (omega arith))
]

-- The loop, by what the first call returns.
pub drain_all-idle :
    (x : Bytes)
    → is_empty (extract_next_message x).0 ≡ true
    → drain_all x ≡ ([], (extract_next_message x).1)
unfolding drain_all drain
drain_all-idle x e = rw e

pub drain_all-message :
    (x : Bytes) {m r : Bytes}
    → extract_next_message x ≡ (m, r)
    → is_empty m ≡ false
    → drain_all x ≡ (m ∷ (drain_all r).0, (drain_all r).1)
unfolding drain_all
drain_all-message x {m} {r} e h =
    let cut = (extract-Extracts x e h).shorter in
    unfold drain in rw (e, h, drain-fuel (length x) (suc (length r)) r cut (omega arith))

pub drain_all-ext :
    (x y : Bytes) → extract_next_message x ≡ extract_next_message y → drain_all x ≡ drain_all y
drain_all-ext x y e = elim (Bool-cases (is_empty (extract_next_message x).0)) [
  | inl n ↦ rw (drain_all-idle x n, drain_all-idle y (rw e at n), e)
  | inr m ↦ rw (drain_all-message x e (rw e at m), drain_all-message y refl (rw e at m))
]
