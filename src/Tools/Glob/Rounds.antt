-- ===== src/Tools/Glob/Rounds.antt =====
-- The rounds of the loop of `pattern_match`: what each keeps of the question that the call asks.
use gear_mcp_server.Base.{
  ℕ, suc, ◌+◌, ◌*◌, ◌≤◌, ◌<◌, ◌≡◌, refl, sym, ◌∙◌, arith, Bool, true, false, ◌⊎◌, inl, inr, Option,
  none, some, [], ◌∷◌, ◌||◌, ◌==◌, if◌then◌else◌, Bool-cases, Bytes, length, All,
}
use gear_mcp_server.Tools.Glob.{fits, only_stars, retry, match_from}
use gear_mcp_server.Tools.Glob.Spec.{
  matches, End, ShortEnd, End-whole, End-short, End-cases, End-trans, End-tail, star_of_End,
  End-of_star, matches-nil, matches_byte, matches_end,
}

abbrev pub NoStar : Bytes → Type 0
NoStar = All (λ c. (c == b'*') ≡ false)

-- The answer is there, and is right about `G`.
abbrev pub Decides : Type 0 → Option Bool → Type 0
Decides G none = ⊥
Decides G (some true) = G
Decides G (some false) = ¬ G

times_mono : (a b n : ℕ) → a ≤ b → a * n ≤ b * n
times_mono a b n h = grind arith

-- `G` is the question of the call, and no pattern in the loop is longer than `k`.
module _ (G : Type 0) (k : ℕ) where
  -- The question comes down to what is ahead, or to a later place for the last star; and a match
  -- at such a place makes a match at an end of what is ahead, so that no earlier star is needed.
  abbrev pub Live : Bytes → Bytes → Option (Bytes × Bytes) → Type 0
  Live p s none = (matches p s ≡ true → G) × (G → matches p s ≡ true)
  Live p s (some (bp, bs)) =
      (matches p s ≡ true → G)
      × ((u : Bytes) → ShortEnd u bs → matches bp u ≡ true → G)
      × (G → (matches p s ≡ true) ⊎ ((u : Bytes) × (ShortEnd u bs × (matches bp u ≡ true))))
      × ((u : Bytes)
          → ShortEnd u bs
          → matches bp u ≡ true
          → (v : Bytes) × (ShortEnd v s × (matches p v ≡ true)))
      × NoStar bs

  -- Each round has fewer bytes of the pattern ahead, or fewer places left for the last star.
  abbrev pub Room : ℕ → Bytes → Bytes → Option (Bytes × Bytes) → Type 0
  Room f p s none = (length p ≤ k) × ((length s + 1) * (k + 1) + length p < f)
  Room f p s (some (bp, bs)) =
      (length p ≤ k)
      × (length bp ≤ k)
      × (length s ≤ length bs)
      × (length bs * (k + 1) + length p < f)

  abbrev pub Rounds : ℕ → Type 0
  Rounds f =
      (p s : Bytes) (back : Option (Bytes × Bytes))
      → Room f p s back
      → NoStar s
      → Live p s back
      → Decides G (match_from f p s back)

  pub Decides-end :
      (p : Bytes) (back : Option (Bytes × Bytes)) → Live p [] back → Decides G (some (only_stars p))
  Decides-end p none live = elim (Bool-cases (matches p [])) [
    | inl h ↦ rw (← matches-nil p, h) (live.0 h)
    | inr h ↦ rw (← matches-nil p, h) (λ g. cc (live.1 g))
  ]
  Decides-end p (some (bp, bs)) live = elim (Bool-cases (matches p [])) [
    | inl h ↦ rw (← matches-nil p, h) (live.0 h)
    | inr h ↦
        rw (← matches-nil p, h)
          (λ g. elim (live.2 g) [ inl m ↦ cc | inr (u, (e, m)) ↦ (live.3 u e m).1.0 ])
  ]

  Room-retry :
      (f : ℕ) (p : Bytes) (c : ℕ) (s bp : Bytes) (d : ℕ) (ds : Bytes)
      → Room (suc f) p (c ∷ s) (some (bp, d ∷ ds))
      → Room f bp ds (some (bp, ds))
  Room-retry f p c s bp d ds r = (r.1, r.1, omega arith, grind (arith, r.1, r.3))

  -- Nothing ahead matches: the loop goes back to the last star, or answers no.
  pub Decides-retry :
      (f : ℕ) (p : Bytes) (c : ℕ) (s : Bytes) (back : Option (Bytes × Bytes))
      → Rounds f
      → Room (suc f) p (c ∷ s) back
      → Live p (c ∷ s) back
      → matches p (c ∷ s) ≡ false
      → Decides G (retry back (match_from f))
  Decides-retry f p c s none next room live off = λ g. cc (live.1 g)
  Decides-retry f p c s (some (bp, [])) next room live off = absurd (omega (arith, room.2))
  Decides-retry f p c s (some (bp, d ∷ ds)) next room live off =
      next bp ds (some (bp, ds)) (Room-retry f p c s bp d ds room) live.4.1 (
        λ m. live.1 ds (End-whole ds) m,
        λ u e m. live.1 u (End-short u ds e) m,
        λ g. elim (live.2 g) [
          | inl m ↦ absurd (cc)
          | inr (u, (e, m)) ↦ elim (End-cases u ds e) [
            | inl same ↦ inl (rw same at m)
            | inr short ↦ inr (u, (short, m))
          ]
        ],
        λ u e m. (u, (e, m)),
        live.4.1,
      )

  -- The head of the pattern is a star.
  pub Decides-star :
      (f : ℕ) (p : Bytes) (c : ℕ) (s : Bytes) (back : Option (Bytes × Bytes))
      → Rounds f
      → Room (suc f) (b'*' ∷ p) (c ∷ s) back
      → NoStar (c ∷ s)
      → Live (b'*' ∷ p) (c ∷ s) back
      → Decides G (match_from f p (c ∷ s) (some (p, c ∷ s)))
  Decides-star f p c s back next room clean live =
      next p (c ∷ s) (some (p, c ∷ s)) (room_star back room) clean (
        λ m. yes_ahead (star_of_End p (c ∷ s) (c ∷ s) (inl refl) m),
        λ u e m. yes_ahead (star_of_End p u (c ∷ s) (inr e) m),
        λ g. split (End-of_star p (c ∷ s) (ahead back live g)),
        λ u e m. (u, (e, m)),
        clean,
      )
    where
      sound :
          (b : Option (Bytes × Bytes))
          → Live (b'*' ∷ p) (c ∷ s) b
          → matches (b'*' ∷ p) (c ∷ s) ≡ true
          → G
      sound none l = l.0
      sound (some _) l = l.0

      yes_ahead : matches (b'*' ∷ p) (c ∷ s) ≡ true → G
      yes_ahead = sound back live

      room_star :
          (b : Option (Bytes × Bytes))
          → Room (suc f) (b'*' ∷ p) (c ∷ s) b
          → Room f p (c ∷ s) (some (p, c ∷ s))
      room_star none r = (omega (arith, r.0), omega (arith, r.0), omega arith, grind (arith, r.1))
      room_star (some (bp, bs)) r = (
        omega (arith, r.0),
        omega (arith, r.0),
        omega arith,
        omega (arith, r.3, times_mono (length (c ∷ s)) (length bs) (k + 1) r.2),
      )

      ahead :
          (b : Option (Bytes × Bytes))
          → Live (b'*' ∷ p) (c ∷ s) b
          → G
          → matches (b'*' ∷ p) (c ∷ s) ≡ true
      ahead none l g = l.1 g
      ahead (some (bp, bs)) l g = elim (l.2 g) [
        | inl m ↦ m
        | inr (u, (e, m)) ↦
            let (v, (ev, mv)) = l.3 u e m in
            let (w, (ew, mw)) = End-of_star p v mv in
            star_of_End p w (c ∷ s) (inr (End-trans w v s ew ev)) mw
      ]

      split :
          (w : Bytes) × (End w (c ∷ s) × (matches p w ≡ true))
          → (matches p (c ∷ s) ≡ true) ⊎ ((u : Bytes) × (ShortEnd u (c ∷ s) × (matches p u ≡ true)))
      split (w, (inl e, m)) = inl (rw e at m)
      split (w, (inr e, m)) = inr (w, (e, m))

  -- The head of the pattern is no star, and fits.
  pub Decides-byte :
      (f x : ℕ) (p : Bytes) (c : ℕ) (s : Bytes) (back : Option (Bytes × Bytes))
      → Rounds f
      → Room (suc f) (x ∷ p) (c ∷ s) back
      → NoStar (c ∷ s)
      → Live (x ∷ p) (c ∷ s) back
      → (x == b'*') ≡ false
      → fits (x ∷ p) c ≡ true
      → Decides G (match_from f p s back)
  Decides-byte f x p c s none next room clean live plain fit =
      let same : matches (x ∷ p) (c ∷ s) ≡ matches p s = matches_byte x p c s plain ∙ rw fit refl in
      next p s none (omega (arith, room.0), grind (arith, room.1)) clean.1
        (λ m. live.0 (same ∙ m), λ g. sym same ∙ live.1 g)
  Decides-byte f x p c s (some (bp, bs)) next room clean live plain fit =
      let same : matches (x ∷ p) (c ∷ s) ≡ matches p s = matches_byte x p c s plain ∙ rw fit refl in
      next p s (some (bp, bs))
        (omega (arith, room.0), room.1, omega (arith, room.2), omega (arith, room.3)) clean.1
        (
          λ m. live.0 (same ∙ m),
          live.1,
          λ g. elim (live.2 g) [ inl m ↦ inl (sym same ∙ m) | inr later ↦ inr later ],
          λ u e m. let (v, (ev, mv)) = live.3 u e m in shorter v ev mv,
          live.4,
        )
    where
      shorter :
          (v : Bytes)
          → End v s
          → matches (x ∷ p) v ≡ true
          → (w : Bytes) × (ShortEnd w s × (matches p w ≡ true))
      shorter [] e m = absurd (cc (matches_end x p plain))
      shorter (d ∷ w) e m = (
        w,
        (End-tail d w s e, taken (x == b'?' || x == d) (sym (matches_byte x p d w plain) ∙ m)),
      )
        where
          taken : (b : Bool) → (if b then matches p w else false) ≡ true → matches p w ≡ true
          taken true h = h
          taken false h = cc
