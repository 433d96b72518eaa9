-- ===== src/Paths/Normal.antt =====
-- `normalize`: what it does to a path, and that a second time changes nothing.
use gear_mcp_server.Base.{
  ℕ, ◌≤◌, ◌≡◌, refl, ap, arith, Bool, true, false, ◌⊎◌, inl, inr, [], ◌∷◌, ◌++◌, ◌&&◌, ◌==◌, map,
  if◌then◌else◌, Bool-cases, Bytes, is_empty, drop_end, back_is, length, All,
}
use gear_mcp_server.Paths.{slash, pop_slashes, normalize}

abbrev pub is_slash : ℕ → Bool
is_slash x = x == b'/'

abbrev pub AllSlash : Bytes → Type 0
AllSlash = All (λ c. is_slash c ≡ true)

abbrev pub NoBackslash : Bytes → Type 0
NoBackslash = All (λ c. (c == b'\\') ≡ false)

-- `r` is `p` with its separators as `/` and without the `/` at its end, except for a first one.
pub record Normalized (p r : Bytes) : Type 0 where
  pub gone : Bytes
  pub gone-AllSlash : AllSlash gone
  pub kept : r ++ gone ≡ map slash p
  pub clean : NoBackslash r
  pub ends : (length r ≤ 1) ⊎ (back_is b'/' r ≡ false)

abbrev Split : (ℕ → Bool) → Bytes → Bytes → Type 0
Split t r xs = (tail : Bytes) × ((r ++ tail ≡ xs) × All (λ c. t c ≡ true) tail)

Split-cons :
    (t : ℕ → Bool) (x : ℕ) (d xs : Bytes)
    → Split t d xs
    → Split t (if t x && is_empty d then [] else x ∷ d) (x ∷ xs)
Split-cons t x [] xs (tail, (e, a)) = elim (Bool-cases (t x)) [
  | inl h ↦ (x ∷ tail, (rw h (ap (◌∷◌ x) e), (h, a)))
  | inr h ↦ (tail, (rw h (ap (◌∷◌ x) e), a))
]
Split-cons t x (y ∷ ys) xs (tail, (e, a)) = elim (Bool-cases (t x)) [
  | inl h ↦ (tail, (rw h (ap (◌∷◌ x) e), a))
  | inr h ↦ (tail, (rw h (ap (◌∷◌ x) e), a))
]

pub drop_end-Split : (t : ℕ → Bool) (xs : Bytes) → Split t (drop_end t xs) xs
drop_end-Split t [] = ([], (refl, tt))
drop_end-Split t (x ∷ xs) = Split-cons t x (drop_end t xs) xs (drop_end-Split t xs)

back_is-cons :
    (x : ℕ) (d : Bytes)
    → back_is b'/' d ≡ false
    → back_is b'/' (if is_slash x && is_empty d then [] else x ∷ d) ≡ false
back_is-cons x [] h = ground arith
back_is-cons x (y ∷ ys) h = ground arith

pub back_is-drop_end : (xs : Bytes) → back_is b'/' (drop_end is_slash xs) ≡ false
back_is-drop_end [] = refl
back_is-drop_end (x ∷ xs) = back_is-cons x (drop_end is_slash xs) (back_is-drop_end xs)

pub drop_end_clean : (xs : Bytes) → back_is b'/' xs ≡ false → drop_end is_slash xs ≡ xs
drop_end_clean [] h = refl
drop_end_clean (x ∷ []) h = rw h
drop_end_clean (x ∷ y ∷ ys) h = rw (drop_end_clean (y ∷ ys) h) (ground arith)

pub map-slash-NoBackslash : (p : Bytes) → NoBackslash (map slash p)
map-slash-NoBackslash [] = tt
map-slash-NoBackslash (c ∷ cs) = (ground arith, map-slash-NoBackslash cs)

pub map-slash_clean : (p : Bytes) → NoBackslash p → map slash p ≡ p
map-slash_clean [] h = refl
map-slash_clean (c ∷ cs) h = rw h.0 (ap (◌∷◌ c) (map-slash_clean cs h.1))

pub NoBackslash-front : (a b : Bytes) → NoBackslash (a ++ b) → NoBackslash a
NoBackslash-front [] b h = tt
NoBackslash-front (c ∷ cs) b h = (h.0, NoBackslash-front cs b h.1)

pub NoBackslash-normalize : (p : Bytes) → NoBackslash (normalize p)
unfolding normalize pop_slashes
NoBackslash-normalize [] = tt
NoBackslash-normalize (c ∷ cs) =
    let clean = map-slash-NoBackslash (c ∷ cs) in
    let (tail, (e, a)) = drop_end-Split is_slash (map slash cs) in
    (clean.0, NoBackslash-front (drop_end is_slash (map slash cs)) tail (rw e clean.1))

back_is-tail :
    (c : ℕ) (d : Bytes)
    → back_is b'/' d ≡ false
    → (length (c ∷ d) ≤ 1) ⊎ (back_is b'/' (c ∷ d) ≡ false)
back_is-tail c [] h = inl (omega arith)
back_is-tail c (y ∷ ys) h = inr h

-- Normalising a path: the result is the path with every backslash as `/`, less the longest end
-- of `/` that leaves one byte; it has no backslash, and has at most one byte or does not end
-- with `/`.
pub normalize-Normalized : (p : Bytes) → Normalized p (normalize p)
unfolding normalize pop_slashes
normalize-Normalized [] = record {
  gone = [];
  gone-AllSlash = tt;
  kept = refl;
  clean = tt;
  ends = inr refl;
}
normalize-Normalized (c ∷ cs) =
    let (tail, (e, a)) = drop_end-Split is_slash (map slash cs) in
    record {
      gone = tail;
      gone-AllSlash = a;
      kept = ap (◌∷◌ (slash c)) e;
      clean = NoBackslash-normalize (c ∷ cs);
      ends =
          back_is-tail (slash c) (drop_end is_slash (map slash cs))
            (back_is-drop_end (map slash cs));
    }

-- A path that is clean, and whose end behind the first byte is too, stays as it is.
pub normalize_clean :
    (c : ℕ) (cs : Bytes)
    → NoBackslash (c ∷ cs)
    → back_is b'/' cs ≡ false
    → normalize (c ∷ cs) ≡ c ∷ cs
unfolding normalize pop_slashes
normalize_clean c cs clean h =
    rw clean.0 (ap (◌∷◌ c) (rw (map-slash_clean cs clean.1) (drop_end_clean cs h)))

-- Normalising a path a second time changes nothing.
pub normalize-normalize : (p : Bytes) → normalize (normalize p) ≡ normalize p
normalize-normalize [] = unfold normalize pop_slashes in refl
normalize-normalize (c ∷ cs) =
    let d = drop_end is_slash (map slash cs) in
    let clean : NoBackslash (slash c ∷ d) =
      unfold normalize pop_slashes in NoBackslash-normalize (c ∷ cs) in
    let step : normalize (slash c ∷ d) ≡ slash c ∷ d =
      normalize_clean (slash c) d clean (back_is-drop_end (map slash cs)) in
    unfold normalize pop_slashes in step
