-- ===== src/Client/Reads.antt =====
-- The two loops over `recv`, on a text that has the terminator of the headers.
use gear_mcp_server.Base.{
  ℕ, suc, ◌+◌, ◌≤◌, ◌≡◌, refl, sym, ap, ◌∙◌, arith, append_assoc, append-nil, true, false, Option,
  none, some, List, [], ◌∷◌, ◌++◌, ltb, leb, Bool-cases, inl, inr, Bytes, codes, find, length,
  length-append,
}
use gear_mcp_server.Framing.Chunks.{concat}
use gear_mcp_server.Client.{Reply, answered, failed, Reading, header_seen, read_headers, read_body}
use gear_mcp_server.Client.Finds.{find-within, find-grown}

abbrev pub terminator : Bytes
terminator = codes "\r\n\r\n"

-- The first `recv` returns at least four bytes together with what is there.
abbrev pub HasFour : Bytes → List Bytes → Type 0
HasFour buf [] = Unit
HasFour buf (c ∷ cs) = 4 ≤ length (buf ++ c)

module _ (h : ℕ) (f : Bytes) (found : find f terminator ≡ some h) where
  -- The headers were read, up to the terminator; what was read and what is left make the whole
  -- text.
  unfoldable pub Seen : Reply (ℕ × Reading) → Type 0
  Seen (failed e) = true ≡ false
  Seen (answered (k, r)) =
      (k ≡ h)
      × ((r.buf ++ concat r.chunks ≡ f)
          × ((h + 4 ≤ length r.buf) × (r.safety + length r.chunks ≤ 50)))

  Seen-step :
      (o : Option ℕ) (r : Reading) (rest : Reply (ℕ × Reading))
      → find r.buf terminator ≡ o
      → r.buf ++ concat r.chunks ≡ f
      → r.safety + length r.chunks ≤ 50
      → (find r.buf terminator ≡ none → Seen rest)
      → Seen (header_seen o r rest)
  unfolding Seen
  Seen-step none r rest e whole few next = next e
  Seen-step (some k) r rest e whole few next =
      let grown = find-grown b'\r' (codes "\n\r\n") r.buf (concat r.chunks) k e in
      let same : find (r.buf ++ concat r.chunks) terminator ≡ find f terminator =
        ap (λ t. find t terminator) whole in
      let at : k ≡ h = cc (grown, same, found) in
      let within = find-within b'\r' (codes "\n\r\n") r.buf k e in
      (at, (whole, (omega (arith, within, at), few)))

  pub read_headers-Seen :
      (chunks : List Bytes) (buf : Bytes) (safety : ℕ)
      → buf ++ concat chunks ≡ f
      → find buf terminator ≡ none
      → safety + length chunks ≤ 50
      → HasFour buf chunks
      → Seen (read_headers chunks buf safety)
  unfolding read_headers
  read_headers-Seen [] buf safety whole unseen few four =
      let same : find (buf ++ []) terminator ≡ find f terminator =
        ap (λ t. find t terminator) whole in
      let plain : find (buf ++ []) terminator ≡ find buf terminator =
        ap (λ t. find t terminator) (append-nil buf) in
      cc (same, plain, unseen, found)
  read_headers-Seen (c ∷ cs) buf safety whole unseen few four =
      let more : ltb safety 50 ≡ true = ground arith in
      let enough : leb 4 (length (buf ++ c)) ≡ true = ground arith in
      let whole' = append_assoc buf c (concat cs) ∙ whole in
      rw more (
        rw enough (
          Seen-step (find (buf ++ c) terminator)
            (record { buf = buf ++ c; chunks = cs; safety = suc safety }) _ refl whole'
            (omega arith)
            (λ e.
              read_headers-Seen cs (buf ++ c) (suc safety) whole' e (omega arith) (four_more cs))))
    where
      four_more : (ds : List Bytes) → HasFour (buf ++ c) ds
      four_more [] = tt
      four_more (d ∷ ds) = omega (arith, length-append (buf ++ c) d)

all_there : (buf rest f : Bytes) → buf ++ rest ≡ f → length f ≤ length buf → buf ≡ f
all_there buf [] f e h = sym (append-nil buf) ∙ e
all_there buf (x ∷ xs) f e h =
    let total : length (buf ++ x ∷ xs) ≡ length f = ap length e in
    absurd (omega (arith, length-append buf (x ∷ xs), total, h))

-- The body is read until the whole text is there.
pub read_body-whole :
    (f : Bytes) (chunks : List Bytes) (buf : Bytes) (safety : ℕ)
    → buf ++ concat chunks ≡ f
    → safety + length chunks ≤ 50
    → read_body (length f) chunks buf safety ≡ answered f
unfolding read_body
read_body-whole f [] buf safety whole few =
    let same : buf ≡ f = sym (append-nil buf) ∙ whole in
    let sizes : length buf ≡ length f = ap length same in
    let full : ltb (length buf) (length f) ≡ false = ground (arith, sizes) in
    rw full (ap answered same)
read_body-whole f (c ∷ cs) buf safety whole few = elim (Bool-cases (ltb (length buf) (length f))) [
  | inl e ↦
      let more : ltb safety 500 ≡ true = ground arith in
      rw e (
        rw more (
          read_body-whole f cs (buf ++ c) (suc safety) (append_assoc buf c (concat cs) ∙ whole)
            (omega arith)))
  | inr e ↦ rw e (ap answered (all_there buf (c ++ concat cs) f whole (ground arith)))
]
