-- ===== src/Tools/Files/Slices.antt =====
-- read_file: which bytes of a file it returns.
use gear_mcp_server.Base.{
  ℕ, zero, suc, ◌+◌, ◌-◌, ◌^◌, ◌≤◌, ◌<◌, ◌≡◌, refl, ap, ◌∙◌, arith, Bool, true, false, some, List,
  [], ◌∷◌, ltb, Bytes, codes, is_empty, take, drop, length, length-drop, Bool-cases, inl, inr,
}
use gear_mcp_server.Exec.{ok}
use gear_mcp_server.Json.{JsonLib, pos}
use gear_mcp_server.Methods.Rpc.{value}
use gear_mcp_server.Paths.{has_traversal}
use gear_mcp_server.Builtin.{int_of_size}
use gear_mcp_server.Tools.{Values, value_of, answered}
use gear_mcp_server.Tools.Files.{
  Files, default_max, sum_exceeds, sum_below, slice, slice_json, read_range, read_at,
  read_file_handler,
}

take_more {ℓ} :
    {A : Type ℓ} (m n : ℕ) (xs : List A) → length xs ≤ m → length xs ≤ n → take m xs ≡ take n xs
take_more zero zero xs h k = refl
take_more zero (suc n) [] h k = refl
take_more zero (suc n) (x ∷ xs) h k = absurd (omega arith)
take_more (suc m) zero [] h k = refl
take_more (suc m) zero (x ∷ xs) h k = absurd (omega arith)
take_more (suc m) (suc n) [] h k = refl
take_more (suc m) (suc n) (x ∷ xs) h k = ap (◌∷◌ x) (take_more m n xs (omega arith) (omega arith))

-- Without overflow, the slice is the bytes from the offset on, at most `max_bytes` of them.
slice_lem :
    (max_bytes offset : ℕ) (text : Bytes)
    → offset + max_bytes < 2 ^ 31
    → slice max_bytes offset text ≡ take max_bytes (drop offset text)
unfolding slice
slice_lem max_bytes offset text h =
    elim (Bool-cases (sum_exceeds (offset + max_bytes) (length text))) [
      | inr e ↦ rw e
      | inl e ↦
          let over : length text < offset + max_bytes = ground arith in
          rw e (
            take_more (length text - offset) max_bytes (drop offset text)
              (omega (arith, length-drop offset text)) (omega (arith, length-drop offset text)))
    ]

pub take_all {ℓ} : {A : Type ℓ} (n : ℕ) (xs : List A) → length xs ≤ n → take n xs ≡ xs
take_all zero [] h = refl
take_all zero (x ∷ xs) h = absurd (omega arith)
take_all (suc n) [] h = refl
take_all (suc n) (x ∷ xs) h = ap (◌∷◌ x) (take_all n xs (omega arith))

slice_overflow :
    (max_bytes offset : ℕ) (text : Bytes)
    → 2 ^ 31 ≤ offset + max_bytes
    → length text ≤ offset + max_bytes
    → slice max_bytes offset text ≡ drop offset text
unfolding slice
slice_overflow max_bytes offset text h k =
    let wraps : sum_exceeds (offset + max_bytes) (length text) ≡ false = ground arith in
    rw wraps (take_all max_bytes (drop offset text) (omega (arith, length-drop offset text)))

module _ (lib : JsonLib) (values : Values lib) {W : Type 0} (files : Files W) where
  open lib use {Json, string, number, boolean, object, dump, parse}

  -- The answer for a file with this text, and this flag.
  abbrev pub read_answer : Bytes → Bytes → Bool → Bytes → Json
  read_answer path content truncated text = object (
      (codes "path", string path)
      ∷ (codes "content", string content)
      ∷ (codes "truncated", boolean truncated)
      ∷ (codes "size", number (int_of_size (length text)))
      ∷ [])

  slice_answer :
      (path : Bytes) (max_bytes offset : ℕ) (text : Bytes)
      → offset + max_bytes < 2 ^ 31
      → slice_json lib values files path max_bytes offset text
        ≡ read_answer path
            (take max_bytes (drop offset text))
            (ltb (offset + max_bytes) (length text))
            text
  unfolding slice_json
  slice_answer path m o text h =
      let flag : sum_below (o + m) (length text) ≡ ltb (o + m) (length text) = ground arith in
      ap (λ b. read_answer path (slice m o text) b text) flag
      ∙ ap (λ c. read_answer path c (ltb (o + m) (length text)) text) (slice_lem m o text h)

  slice_overflow_answer :
      (path : Bytes) (m o : ℕ) (text : Bytes)
      → 2 ^ 31 ≤ o + m
      → length text ≤ o + m
      → slice_json lib values files path m o text ≡ read_answer path (drop o text) true text
  unfolding slice_json
  slice_overflow_answer path m o text h k =
      let flag : sum_below (o + m) (length text) ≡ true = ground arith in
      ap (λ b. read_answer path (slice m o text) b text) flag
      ∙ ap (λ c. read_answer path c true text) (slice_overflow m o text h k)

  module _ (t path text : Bytes) (params : Json) (m o : ℕ) (w : W) (parsed : parse t ≡ ok params)
      (named : value lib params (codes "path") [] ≡ ok path)
      (limit : value_of lib values.as_int params (codes "max_bytes") (pos default_max)
        ≡ ok (pos (suc m)))
      (from : value_of lib values.as_int params (codes "offset") (pos 0) ≡ ok (pos o))
      (ne : is_empty path ≡ false) (safe : has_traversal path ≡ false)
      (opened : files.read path w ≡ some text) (inside : o ≤ length text) where
    read_slice :
        read_file_handler lib values files t w
        ≡ (answered (dump (slice_json lib values files path (suc m) o text)), w)
    unfolding read_file_handler read_at read_range
    read_slice =
        let near : ltb (length text) o ≡ false = ground arith in
        rw (parsed, named) (rw (ne, safe) (rw (limit, from) (rw opened (rw near refl))))

    -- Reading a file: the answer has the bytes from the offset on, at most `max_bytes` of them,
    -- and says that it is truncated exactly if the file has more bytes behind these. The path is
    -- not empty and without `..`, the file can be opened, `max_bytes` is positive, the offset is
    -- within the file, and their sum is below 2 ^ 31.
    pub read_file_handler_lem :
        o + suc m < 2 ^ 31
        → read_file_handler lib values files t w ≡ (
          answered (
              dump (
                read_answer path
                  (take (suc m) (drop o text))
                  (ltb (o + suc m) (length text))
                  text)),
          w,
        )
    read_file_handler_lem h =
        read_slice ∙ ap (λ j. (answered (dump j), w)) (slice_answer path (suc m) o text h)

    -- Where the sum overflows an `int` and the file ends before the sum, the answer has all bytes
    -- from the offset on, and says that it is truncated.
    pub read_file_handler-overflow :
        2 ^ 31 ≤ o + suc m
        → length text ≤ o + suc m
        → read_file_handler lib values files t w
          ≡ (answered (dump (read_answer path (drop o text) true text)), w)
    read_file_handler-overflow h k =
        read_slice
        ∙ ap (λ j. (answered (dump j), w)) (slice_overflow_answer path (suc m) o text h k)
