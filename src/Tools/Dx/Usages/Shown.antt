-- ===== src/Tools/Dx/Usages/Shown.antt =====
-- find_resource_usages: what a usage shows of the file.
use gear_mcp_server.Base.{
  Occurs, find-IsAt, take-middle, length-map, map-append, ℕ, zero, suc, ◌+◌, ◌-◌, ◌≤◌, ◌≡◌, refl,
  ap, ◌∙◌, arith, some, [], ◌∷◌, ◌++◌, append_assoc, inl, inr, Bool-cases, leb, ltb, ◌==◌,
  if◌then◌else◌, map, Bytes, codes, length, length-append, length-take, length-drop, take, drop,
  find, substr, drop-append_le, NoByte, NoByte-append,
}
use gear_mcp_server.Tools.Dx.Usages.{
  Usage, count_breaks, to_space, min_of, shorten, surroundings, usage_context,
}

-- How many line breaks a text has.
pub breaks : Bytes → ℕ
breaks [] = 0
breaks (c ∷ s) = (if c == b'\n' then 1 else 0) + breaks s

count_breaks-breaks :
    (before rest : Bytes) (n : ℕ)
    → count_breaks n (length before) (before ++ rest) ≡ n + breaks before
unfolding breaks
count_breaks-breaks [] rest n = ground arith
count_breaks-breaks (c ∷ s) rest n = elim (Bool-cases (c == b'\n')) [
  | inl e ↦ rw e (count_breaks-breaks s rest (n + 1) ∙ omega arith)
  | inr e ↦ rw e (count_breaks-breaks s rest n ∙ omega arith)
]

-- No byte is a line break or a carriage return.
abbrev pub OneLine : Bytes → Type 0
OneLine s = NoByte b'\n' s × NoByte b'\r' s

NoByte-to_space : (s : Bytes) → OneLine (map to_space s)
NoByte-to_space [] = (tt, tt)
NoByte-to_space (c ∷ s) = let (n, r) = NoByte-to_space s in ((ground arith, n), (ground arith, r))

NoByte-take : (b n : ℕ) (s : Bytes) → NoByte b s → NoByte b (take n s)
NoByte-take b zero s h = tt
NoByte-take b (suc n) [] h = tt
NoByte-take b (suc n) (c ∷ s) h = (h.0, NoByte-take b n s h.1)

shorten-OneLine : (s : Bytes) → OneLine s → OneLine (shorten s)
shorten-OneLine s (n, r) = elim (Bool-cases (ltb 160 (length s))) [
  | inr e ↦ rw e (n, r)
  | inl e ↦ rw e (
    NoByte-append b'\n' (take 160 s) (codes "...") (NoByte-take b'\n' 160 s n)
        (refl, (refl, (refl, tt))),
    NoByte-append b'\r' (take 160 s) (codes "...") (NoByte-take b'\r' 160 s r)
        (refl, (refl, (refl, tt))),
  )
]

shorten-length : (s : Bytes) → length (shorten s) ≤ 163
shorten-length s = elim (Bool-cases (ltb 160 (length s))) [
  | inr e ↦ rw e (ground (arith, e))
  | inl e ↦ rw e (rw (length-append (take 160 s) (codes "..."), length-take 160 s) (omega arith))
]

shorten-Occurs :
    (a part b : Bytes) → length a + length part ≤ 160 → Occurs (shorten (a ++ (part ++ b))) part
shorten-Occurs a part b h = elim (Bool-cases (ltb 160 (length (a ++ (part ++ b))))) [
  | inr e ↦ rw e (a, b, refl)
  | inl e ↦
      let (rest, same) = take-middle 160 a part b h in
      rw e (
        a,
        rest ++ codes "...",
        ap (λ t. t ++ codes "...") same
            ∙ append_assoc a (part ++ rest) (codes "...")
            ∙ ap (◌++◌ a) (append_assoc part rest (codes "...")),
      )
]

-- Where what is around a position begins and ends.
window :
    (position : ℕ)
    → let s = if leb 80 position then position - 80 else 0 in (s ≤ position) × (position ≤ s + 80)
window position = elim (Bool-cases (leb 80 position)) [
  | inl e ↦ rw e (omega arith, omega arith)
  | inr e ↦ rw e (omega arith, ground (arith, e))
]

min_of-le : (k a b : ℕ) → k ≤ a → k ≤ b → k ≤ min_of a b
min_of-le k a b h h' = ground arith

cut-Occurs :
    (before stem after : Bytes) (s epos : ℕ)
    → s ≤ length before
    → length before ≤ s + 80
    → length before + length stem ≤ epos
    → length stem ≤ 80
    → Occurs
        (shorten (map to_space (substr (before ++ (stem ++ after)) s (epos - s))))
        (map to_space stem)
cut-Occurs before stem after s epos low high far short =
    let lead = drop s before in
    let measured : length lead ≡ length before - s = length-drop s before in
    let (rest, same) = take-middle (epos - s) lead stem after (omega (arith, measured)) in
    let whole : map to_space (substr (before ++ (stem ++ after)) s (epos - s))
        ≡ map to_space lead ++ (map to_space stem ++ map to_space rest) =
      ap (λ t. map to_space (take (epos - s) t)) (drop-append_le s before (stem ++ after) low)
      ∙ ap (map to_space) same
      ∙ map-append to_space lead (stem ++ rest)
      ∙ ap (◌++◌ (map to_space lead)) (map-append to_space stem rest) in
    rw whole (
      shorten-Occurs (map to_space lead) (map to_space stem) (map to_space rest)
        (omega (arith, length-map to_space lead, length-map to_space stem, measured)))

usage_context-Occurs :
    (before stem after : Bytes)
    → length stem ≤ 80
    → Occurs (usage_context (before ++ (stem ++ after)) stem (length before)) (map to_space stem)
unfolding usage_context surroundings
usage_context-Occurs before stem after short =
    let size : length (before ++ (stem ++ after)) ≡ length before + (length stem + length after) =
      length-append before (stem ++ after)
      ∙ ap (λ k. length before + k) (length-append stem after) in
    let (low, high) = window (length before) in
    cut-Occurs before stem after _ _ low high
      (min_of-le (length before + length stem) (length (before ++ (stem ++ after)))
        (length before + length stem + 80) (omega (arith, size)) (omega arith))
      short

-- A usage of a path in a file with this text: the path is in the text, with as many line breaks
-- before it as the number of the usage's line says, counted from 1. What is shown has at most 163
-- bytes and is one line; it has the path in it, line breaks as spaces, if the path has at most 80
-- bytes.
pub record Shows (path stem content : Bytes) (u : Usage) : Type 0 where
  pub of_file : u.file ≡ path
  pub place :
      (before : Bytes) × (after : Bytes) × (content ≡ before ++ (stem ++ after))
      × (u.line ≡ 1 + breaks before)
  pub short : length u.around ≤ 163
  pub one_line : OneLine u.around
  pub holds : length stem ≤ 80 → Occurs u.around (map to_space stem)

usage_context-short : (content stem : Bytes) (p : ℕ) → length (usage_context content stem p) ≤ 163
unfolding usage_context
usage_context-short content stem p = shorten-length (map to_space (surroundings content stem p))

usage_context-OneLine : (content stem : Bytes) (p : ℕ) → OneLine (usage_context content stem p)
unfolding usage_context
usage_context-OneLine content stem p =
    shorten-OneLine (map to_space (surroundings content stem p))
      (NoByte-to_space (surroundings content stem p))

pub found-Shows :
    (path stem content : Bytes) (p : ℕ)
    → find content stem ≡ some p
    → Shows path stem content (record {
      file = path;
      line = count_breaks 1 p content;
      around = usage_context content stem p;
    })
found-Shows path stem content p h =
    let (before, after, e, l) = find-IsAt content stem p h in
    record {
      of_file = refl;
      place = (before, after, e, rw (e, ← l) (count_breaks-breaks before (stem ++ after) 1));
      short = usage_context-short content stem p;
      one_line = usage_context-OneLine content stem p;
      holds = λ few. rw (e, ← l) (usage_context-Occurs before stem after few);
    }
