-- ===== src/Config/Lines.antt =====
-- The lines of a text that another text follows.
use gear_mcp_server.Base.{
  NoByte, ℕ, ◌≡◌, refl, sym, ap, ◌∙◌, arith, Bool, true, false, ◌||◌, ◌==◌, List, [], ◌∷◌, ◌++◌,
  if◌then◌else◌, Bool-cases, inl, inr, Bytes, is_empty, lines, back_is, cons_first,
}

pub lines-line : (l b : Bytes) → NoByte b'\n' l → lines (l ++ b'\n' ∷ b) ≡ l ∷ lines b
unfolding lines
lines-line [] b h = refl
lines-line (c ∷ l) b h = rw (h.0, lines-line l b h.1) refl

-- The text is empty or its last line is ended.
abbrev pub is_ended : Bytes → Bool
is_ended a = is_empty a || back_is b'\n' a

lines-cons :
    (c : ℕ) (cs : Bytes)
    → lines (c ∷ cs) ≡ (if c == b'\n' then [] ∷ lines cs else cons_first c (lines cs))
unfolding lines
lines-cons c cs = refl

cons_first_some : (c : ℕ) (ls : List Bytes) → is_empty (cons_first c ls) ≡ false
cons_first_some c [] = refl
cons_first_some c (l ∷ ls) = refl

lines_some : (c : ℕ) (cs : Bytes) → is_empty (lines (c ∷ cs)) ≡ false
lines_some c cs = elim (Bool-cases (c == b'\n')) [
  | inl e ↦ ap is_empty (lines-cons c cs) ∙ rw e refl
  | inr e ↦ ap is_empty (lines-cons c cs) ∙ rw e (cons_first_some c (lines cs))
]

cons_first-append :
    (c : ℕ) (ls ms : List Bytes)
    → is_empty ls ≡ false
    → cons_first c (ls ++ ms) ≡ cons_first c ls ++ ms
cons_first-append c [] ms h = cc
cons_first-append c (l ∷ ls) ms h = refl

pub lines-append : (a b : Bytes) → is_ended a ≡ true → lines (a ++ b) ≡ lines a ++ lines b
lines-append [] b h = unfold lines in refl
lines-append (x ∷ []) b h =
    let last : (x == b'\n') ≡ true = ground arith in unfold lines in rw last refl
lines-append (x ∷ y ∷ a) b h =
    let rest = lines-append (y ∷ a) b h in
    lines-cons x (y ∷ a ++ b)
    ∙ (elim (Bool-cases (x == b'\n')) [
      | inl e ↦ rw e (ap (◌∷◌ []) rest)
      | inr e ↦
          rw e (
            ap (cons_first x) rest ∙ cons_first-append x (lines (y ∷ a)) (lines b) (lines_some y a))
    ])
    ∙ ap (λ ls. ls ++ lines b) (sym (lines-cons x (y ∷ a)))

-- A line break at the end adds no line.
pub lines_end :
    (x : ℕ) (a : Bytes)
    → back_is b'\n' (x ∷ a) ≡ false
    → lines ((x ∷ a) ++ b'\n' ∷ []) ≡ lines (x ∷ a)
lines_end x [] h = unfold lines in rw h refl
lines_end x (y ∷ a) h =
    lines-cons x (y ∷ a ++ b'\n' ∷ [])
    ∙ ap (λ ls. if x == b'\n' then [] ∷ ls else cons_first x ls) (lines_end y a h)
    ∙ sym (lines-cons x (y ∷ a))
