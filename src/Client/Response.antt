-- ===== src/Client/Response.antt =====
-- The reading of a response that was framed as the client frames its calls.
use gear_mcp_server.Base.{
  ℕ, zero, suc, ◌+◌, ◌≤◌, ◌<◌, ◌^◌, ◌≡◌, refl, sym, ap, ◌∙◌, arith, append_assoc, append-nil, some,
  List, [], ◌∷◌, ◌++◌, NoByte, NoByte-append, Bytes, codes, find, length, length-append, take,
  substr, take-append_length, drop-append_length,
}
use gear_mcp_server.Exec.{ok}
use gear_mcp_server.Json.{JsonLib, ℤ, pos}
use gear_mcp_server.Framing.Chunks.{concat}
use gear_mcp_server.Client.{
  Reply, answered, failed, Reading, read_headers, skip_blanks, length_text, read_body, frame,
  parsed, body_read, with_length, with_text, with_headers, read_response,
}
use gear_mcp_server.Client.Finds.{find-NoByte, find-first}
use gear_mcp_server.Client.Reads.{terminator, HasFour, Seen, read_headers-Seen, read_body-whole}

take_grown : (n : ℕ) (xs ys : Bytes) → n ≤ length xs → take n (xs ++ ys) ≡ take n xs
take_grown zero xs ys h = refl
take_grown (suc n) [] ys h = absurd (omega arith)
take_grown (suc n) (x ∷ xs) ys h = ap (◌∷◌ x) (take_grown n xs ys (omega arith))

abbrev length_header : Bytes → Bytes
length_header digits = codes "Content-Length: " ++ digits

length_text-header :
    (digits : Bytes)
    → NoByte b'\r' digits
    → skip_blanks digits ≡ digits
    → length_text (length_header digits) ≡ some digits
unfolding length_text find
length_text-header digits n s = rw s (rw (find-NoByte b'\r' (codes "\n") digits n) refl)

module _ (lib : JsonLib) (atoi : Bytes → ℤ) (show : ℕ → Bytes)
    (show-NoByte : (n : ℕ) → NoByte b'\r' (show n))
    (show-skip_blanks : (n : ℕ) → skip_blanks (show n) ≡ show n)
    (atoi-show : (n : ℕ) → n < 2 ^ 31 → atoi (show n) ≡ pos n) where
  open lib use {Json, parse}

  abbrev header_of : Bytes → Bytes
  header_of body = length_header (show (length body))

  frame-split : (body : Bytes) → frame lib atoi show body ≡ header_of body ++ (terminator ++ body)
  unfolding frame
  frame-split body = append_assoc (header_of body) terminator body

  header-NoByte : (body : Bytes) → NoByte b'\r' (header_of body)
  header-NoByte body =
      NoByte-append b'\r' (codes "Content-Length: ") (show (length body))
        (
          refl,
          (
            refl,
            (
              refl,
              (
                refl,
                (
                  refl,
                  (
                    refl,
                    (
                      refl,
                      (refl, (refl, (refl, (refl, (refl, (refl, (refl, (refl, (refl, tt))))))))),
                    ),
                  ),
                ),
              ),
            ),
          ),
        )
        (show-NoByte (length body))

  frame-found :
      (body : Bytes) → find (frame lib atoi show body) terminator ≡ some (length (header_of body))
  frame-found body =
      ap (λ t. find t terminator) (frame-split body)
      ∙ find-first b'\r' (codes "\n\r\n") (header_of body) body (header-NoByte body)

  length-frame :
      (body : Bytes) → length (header_of body) + 4 + length body ≡ length (frame lib atoi show body)
  length-frame body =
      let all = ap length (frame-split body) in
      omega (
        arith,
        all,
        length-append (header_of body) (terminator ++ body),
        length-append terminator body,
      )

  -- The part of the frame behind the terminator.
  frame-body :
      (body : Bytes)
      → substr (frame lib atoi show body) (length (header_of body) + 4) (length body) ≡ body
  frame-body body =
      let h = header_of body in
      let start : length h + 4 ≡ length (h ++ terminator) = sym (length-append h terminator) in
      let whole : frame lib atoi show body ≡ (h ++ terminator) ++ body =
        frame-split body ∙ sym (append_assoc h terminator body) in
      ap (λ k. substr (frame lib atoi show body) k (length body)) start
      ∙ ap (λ t. substr t (length (h ++ terminator)) (length body)) whole
      ∙ ap (take (length body)) (drop-append_length (h ++ terminator) body ∙ sym (append-nil body))
      ∙ take-append_length body []

  read_header :
      (body : Bytes) (r : Reading)
      → r.buf ++ concat r.chunks ≡ frame lib atoi show body
      → length (header_of body) + 4 ≤ length r.buf
      → take (length (header_of body)) r.buf ≡ header_of body
  read_header body r whole within =
      sym (take_grown (length (header_of body)) r.buf (concat r.chunks) (omega (arith, within)))
      ∙ ap (take (length (header_of body))) (whole ∙ frame-split body)
      ∙ take-append_length (header_of body) (terminator ++ body)

  with_headers-Seen :
      (x : ℕ) (xs : Bytes) (j : Json) (r : Reply (ℕ × Reading))
      → length (x ∷ xs) < 2 ^ 31
      → parse (x ∷ xs) ≡ ok j
      → Seen (length (header_of (x ∷ xs))) (frame lib atoi show (x ∷ xs)) (frame-found (x ∷ xs)) r
      → with_headers lib atoi show r ≡ answered j
  unfolding Seen
  with_headers-Seen x xs j (failed e) small hp seen = cc
  with_headers-Seen x xs j (answered (k, r)) small hp (at, (whole, (within, few))) =
      let body = x ∷ xs in
      let start = length (header_of body) + 4 in
      ap (λ k. with_text lib atoi show (length_text (take k r.buf)) (k + 4) r) at
      ∙ ap (λ t. with_text lib atoi show (length_text t) start r) (read_header body r whole within)
      ∙ ap (λ o. with_text lib atoi show o start r)
          (length_text-header (show (length body)) (show-NoByte (length body))
            (show-skip_blanks (length body)))
      ∙ ap (λ n. with_length lib atoi show (show (length body)) n start r)
          (atoi-show (length body) small)
      ∙ ap (λ n. body_read lib atoi show start (length body) (read_body n r.chunks r.buf r.safety))
          (length-frame body)
      ∙ ap (body_read lib atoi show start (length body))
          (read_body-whole (frame lib atoi show body) r.chunks r.buf r.safety whole few)
      ∙ ap (λ t. parsed lib atoi show t (parse t)) (frame-body body)
      ∙ ap (parsed lib atoi show body) hp

  -- A response that is framed as the client frames its calls is read back, however it is split
  -- into what `recv` returns: at most 50 texts, the first of at least four bytes. The body is not
  -- empty, shorter than 2 ^ 31 and parses; of the standard library, a size that is written in
  -- digits has no carriage return and no blank before it, and `atoi` reads it back.
  pub read_response-frame :
      (x : ℕ) (xs : Bytes) (j : Json) (chunks : List Bytes)
      → length (x ∷ xs) < 2 ^ 31
      → parse (x ∷ xs) ≡ ok j
      → concat chunks ≡ frame lib atoi show (x ∷ xs)
      → length chunks ≤ 50
      → HasFour [] chunks
      → read_response lib atoi show chunks ≡ answered j
  unfolding read_response find
  read_response-frame x xs j chunks small hp whole few four =
      with_headers-Seen x xs j (read_headers chunks [] 0) small hp (
        read_headers-Seen (length (header_of (x ∷ xs))) (frame lib atoi show (x ∷ xs))
          (frame-found (x ∷ xs)) chunks [] 0 whole refl (omega arith) four)
