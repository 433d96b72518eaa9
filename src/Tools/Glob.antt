-- ===== src/Tools/Glob.antt =====
-- src/tools/file/file_tools.cpp: `pattern_match`. A position in the pattern or in the name is
-- the text from that position on; `back` is the position behind the last `*` that was met, with
-- the position in the name where it stands for no byte yet.
pub mod Spec
pub mod Rounds
pub mod Loop
use gear_mcp_server.Base.{
  ℕ, zero, suc, ◌+◌, ◌*◌, Bool, true, false, Option, none, some, [], ◌∷◌, ◌||◌, ◌==◌, if◌then◌else◌,
  Bytes, drop, is_empty, front_is, length,
}

-- pi < p_pattern.size() && (p_pattern[pi] == '?' || p_pattern[pi] == p_name[ni])
abbrev pub fits : Bytes → ℕ → Bool
fits [] c = false
fits (x ∷ p) c = x == b'?' || x == c

-- The loop over the stars behind the name.
unfoldable pub only_stars : Bytes → Bool
only_stars [] = true
only_stars (x ∷ p) = let rest = only_stars p in if x == b'*' then rest else false

-- The last two branches of the loop.
abbrev pub retry :
    Option (Bytes × Bytes) → (Bytes → Bytes → Option (Bytes × Bytes) → Option Bool) → Option Bool
retry none next = some false
retry (some (after_star, at)) next = next after_star (drop 1 at) (some (after_star, drop 1 at))

-- The loop on fuel, with what follows it; `none` is fuel that ran out.
unfoldable pub match_from : ℕ → Bytes → Bytes → Option (Bytes × Bytes) → Option Bool
match_from zero p s back = none
match_from (suc f) p [] back = some (only_stars p)
match_from (suc f) p (c ∷ s) back =
    let onward = match_from f (drop 1 p) s back in
    let star = match_from f (drop 1 p) (c ∷ s) (some (drop 1 p, c ∷ s)) in
    let again = retry back (match_from f) in
    if fits p c then onward else if front_is b'*' p then star else again

unfoldable pub pattern_match : Bytes → Bytes → Option Bool
pattern_match p_name p_pattern =
    if is_empty p_pattern
    then some true
    else match_from (suc ((length p_name + 1) * (length p_pattern + 1) + length p_pattern))
        p_pattern p_name none
