-- ===== src/Tools/Dx/Health/Counts.antt =====
-- get_project_health: what is counted, and how many issues there are.
use gear_mcp_server.Base.{
  ℕ, zero, suc, ◌+◌, ◌-◌, ◌≡◌, refl, ap, ◌∙◌, arith, Bool, true, false, Option, none, some, List,
  [], ◌∷◌, ◌++◌, ltb, if◌then◌else◌, Bytes, codes, length, length-append,
}
use gear_mcp_server.Exec.{ok}
use gear_mcp_server.Tools.Dx.{FileSystem, Regexes}
use gear_mcp_server.Tools.Dx.Health.{
  Sources, Findings, max_issues, max_refs, ref_pattern, check_scripts, is_broken, script_checked,
  ref_checked, check_refs, check_text, check_files, check_sources,
}

-- How many items pass a test.
abbrev pub one_if : Bool → ℕ
one_if true = 1
one_if false = 0

pub count : {A : Type 0} → (A → Bool) → List A → ℕ
count t [] = 0
count t (x ∷ xs) = one_if (t x) + count t xs

-- With `k` issues before, so many of `b` broken references become issues.
abbrev pub admitted : ℕ → ℕ → ℕ
admitted k b = if ltb b (max_issues - k) then b else max_issues - k

-- The second findings are the first ones with so many empty scripts more.
pub record MoreEmpty (f : Findings) (n : ℕ) (g : Findings) : Type 0 where
  pub issue_each : length g.issues ≡ length f.issues + n
  pub empty_each : g.empty_scripts ≡ f.empty_scripts + n
  pub refs_same : g.broken_refs ≡ f.broken_refs

-- The second findings are the first ones with so many broken references more.
pub record MoreBroken (f : Findings) (n : ℕ) (g : Findings) : Type 0 where
  pub issue_some : length g.issues ≡ length f.issues + admitted (length f.issues) n
  pub empty_same : g.empty_scripts ≡ f.empty_scripts
  pub ref_each : g.broken_refs ≡ f.broken_refs + n

MoreEmpty-trans :
    (f g h : Findings) (m n : ℕ) → MoreEmpty f m g → MoreEmpty g n h → MoreEmpty f (m + n) h
MoreEmpty-trans f g h m n p q = record {
  issue_each = omega (arith, p.issue_each, q.issue_each);
  empty_each = omega (arith, p.empty_each, q.empty_each);
  refs_same = q.refs_same ∙ p.refs_same;
}

admits_one :
    (xs : List Bytes) (x : Bytes)
    → length (if ltb (length xs) max_issues then xs ++ x ∷ [] else xs)
      ≡ length xs + admitted (length xs) 1
admits_one xs x = ground (arith, length-append xs (x ∷ []))

MoreBroken-none : (f : Findings) → MoreBroken f 0 f
MoreBroken-none f = record { issue_some = ground arith; empty_same = refl; ref_each = omega arith }

MoreBroken-trans :
    (f g h : Findings) (m n : ℕ) → MoreBroken f m g → MoreBroken g n h → MoreBroken f (m + n) h
MoreBroken-trans f g h m n p q = record {
  issue_some = ground (arith, p.issue_some, q.issue_some);
  empty_same = q.empty_same ∙ p.empty_same;
  ref_each = omega (arith, p.ref_each, q.ref_each);
}

module _ (regexes : Regexes) {W : Type 0} (file_system : FileSystem W)
    (res_to_absolute : Bytes → W → Bytes) (w : W) where
  open regexes use {Regex, compile, search_next}

  -- The references in a text, at most so many.
  pub refs_in : Regex → ℕ → Bytes → List Bytes
  refs_in re zero s = []
  refs_in re (suc n) s = elim (search_next re s) [
    | none ↦ []
    | some (ref, suffix) ↦ ref ∷ refs_in re n suffix
  ]

  pub broken_in : Regex → Option Bytes → ℕ
  broken_in re none = 0
  broken_in re (some content) =
      count (is_broken regexes file_system res_to_absolute w) (refs_in re max_refs content)

  -- The broken references in files.
  pub broken_among : Regex → List Bytes → ℕ
  broken_among re [] = 0
  broken_among re (path ∷ ps) = broken_in re (file_system.text path w) + broken_among re ps

  script_checked-MoreEmpty :
      (path : Bytes) (b : Bool) (f : Findings)
      → MoreEmpty f (one_if b) (script_checked regexes file_system res_to_absolute w path b f)
  script_checked-MoreEmpty path false f = record {
    issue_each = omega arith;
    empty_each = omega arith;
    refs_same = refl;
  }
  script_checked-MoreEmpty path true f = record {
    issue_each = length-append f.issues (_ ∷ []) ∙ omega arith;
    empty_each = refl;
    refs_same = refl;
  }

  check_scripts-MoreEmpty :
      (ps : List Bytes) (f : Findings)
      → MoreEmpty f
          (count (λ p. file_system.is_zero_size p w) ps)
          (check_scripts regexes file_system res_to_absolute w ps f)
  unfolding check_scripts count
  check_scripts-MoreEmpty [] f = record {
    issue_each = omega arith;
    empty_each = omega arith;
    refs_same = refl;
  }
  check_scripts-MoreEmpty (path ∷ ps) f =
      let b = file_system.is_zero_size path w in
      MoreEmpty-trans f _ _ (one_if b) _ (script_checked-MoreEmpty path b f)
        (check_scripts-MoreEmpty ps (script_checked regexes file_system res_to_absolute w path b f))

  ref_checked-MoreBroken :
      (p_kind path ref : Bytes) (b : Bool) (f : Findings)
      → MoreBroken f
          (one_if b)
          (ref_checked regexes file_system res_to_absolute w p_kind path ref b f)
  ref_checked-MoreBroken p_kind path ref false f = MoreBroken-none f
  ref_checked-MoreBroken p_kind path ref true f = record {
    issue_some = admits_one f.issues _;
    empty_same = refl;
    ref_each = refl;
  }

  check_refs-MoreBroken :
      (re : Regex) (p_kind path : Bytes) (n : ℕ) (s : Bytes) (f : Findings)
      → MoreBroken f
          (count (is_broken regexes file_system res_to_absolute w) (refs_in re n s))
          (check_refs regexes file_system res_to_absolute w re p_kind path n s f)
  unfolding check_refs count refs_in
  check_refs-MoreBroken re p_kind path zero s f = MoreBroken-none f
  check_refs-MoreBroken re p_kind path (suc n) s f = next (search_next re s) (λ ref suffix.
      check_refs-MoreBroken re p_kind path n suffix (
        ref_checked regexes file_system res_to_absolute w p_kind path ref
          (is_broken regexes file_system res_to_absolute w ref) f))
    where
      next :
          (o : Option (Bytes × Bytes))
          → ((ref suffix : Bytes)
              → let g =
                  ref_checked regexes file_system res_to_absolute w p_kind path ref
                    (is_broken regexes file_system res_to_absolute w ref)
                    f in
                MoreBroken g
                  (count (is_broken regexes file_system res_to_absolute w) (refs_in re n suffix))
                  (check_refs regexes file_system res_to_absolute w re p_kind path n suffix g))
          → MoreBroken f
              (count
                (is_broken regexes file_system res_to_absolute w)
                (elim o as (λ x. List Bytes) [
                  | none ↦ []
                  | some (ref, suffix) ↦ ref ∷ refs_in re n suffix
                ]))
              (elim o as (λ x. Findings) [
                | none ↦ f
                | some (ref, suffix) ↦
                    check_refs regexes file_system res_to_absolute w re p_kind path n suffix (
                      ref_checked regexes file_system res_to_absolute w p_kind path ref
                        (is_broken regexes file_system res_to_absolute w ref)
                        f)
              ])
      next none more = MoreBroken-none f
      next (some (ref, suffix)) more =
          let b = is_broken regexes file_system res_to_absolute w ref in
          MoreBroken-trans f _ _ (one_if b) _ (ref_checked-MoreBroken p_kind path ref b f)
            (more ref suffix)

  check_text-MoreBroken :
      (re : Regex) (p_kind path : Bytes) (opened : Option Bytes) (f : Findings)
      → compile ref_pattern ≡ ok re
      → (g : Findings) × (check_text regexes file_system res_to_absolute w p_kind path opened f
          ≡ ok g)
        × MoreBroken f (broken_in re opened) g
  unfolding broken_in
  check_text-MoreBroken re p_kind path none f h = (f, refl, MoreBroken-none f)
  check_text-MoreBroken re p_kind path (some content) f h =
      (_, rw (h, check_text) refl, check_refs-MoreBroken re p_kind path max_refs content f)

  check_files-MoreBroken :
      (re : Regex) (p_kind : Bytes) (ps : List Bytes) (f : Findings)
      → compile ref_pattern ≡ ok re
      → (g : Findings) × (check_files regexes file_system res_to_absolute w p_kind ps f ≡ ok g)
        × MoreBroken f (broken_among re ps) g
  unfolding check_files broken_among
  check_files-MoreBroken re p_kind [] f h = (f, refl, MoreBroken-none f)
  check_files-MoreBroken re p_kind (path ∷ ps) f h =
      let (g, e, p) = check_text-MoreBroken re p_kind path (file_system.text path w) f h in
      let (last, e', q) = check_files-MoreBroken re p_kind ps g h in
      (last, rw (e, check_files) e', MoreBroken-trans f g last _ _ p q)

  -- The empty scripts, where they are asked for.
  pub empty_among : Bool → List Bytes → ℕ
  empty_among scan_scripts ps =
      if scan_scripts then count (λ p. file_system.is_zero_size p w) ps else 0

  scanned-MoreEmpty :
      (scan_scripts : Bool) (ps : List Bytes) (f : Findings)
      → MoreEmpty f
          (empty_among scan_scripts ps)
          (if scan_scripts then check_scripts regexes file_system res_to_absolute w ps f else f)
  unfolding empty_among
  scanned-MoreEmpty true ps f = check_scripts-MoreEmpty ps f
  scanned-MoreEmpty false ps f = record {
    issue_each = omega arith;
    empty_each = omega arith;
    refs_same = refl;
  }

  pub check_sources-counts :
      (re : Regex) (scan_scripts : Bool) (s : Sources) (f : Findings)
      → compile ref_pattern ≡ ok re
      → let empties = empty_among scan_scripts s.scripts in
        let broken = broken_among re s.scenes + broken_among re s.resources in
        (g : Findings) × (check_sources regexes file_system res_to_absolute w scan_scripts s f
          ≡ ok g)
        × (length g.issues
            ≡ length f.issues + empties + admitted (length f.issues + empties) broken)
        × (g.empty_scripts ≡ f.empty_scripts + empties)
        × (g.broken_refs ≡ f.broken_refs + broken)
  unfolding check_sources
  check_sources-counts re scan_scripts s f h =
      let broken = broken_among re s.scenes + broken_among re s.resources in
      let p = scanned-MoreEmpty scan_scripts s.scripts f in
      let (g, e, q) = check_files-MoreBroken re (codes "scene") s.scenes _ h in
      let (last, e', r) = check_files-MoreBroken re (codes "resource") s.resources g h in
      let both = MoreBroken-trans _ g last _ _ q r in
      (
        last,
        rw (e, check_sources) e',
        both.issue_some ∙ ap (λ k. k + admitted k broken) p.issue_each,
        both.empty_same ∙ p.empty_each,
        both.ref_each ∙ ap (λ k. k + broken) p.refs_same,
      )
