-- ===== src/Framing/Chunks.antt =====
-- The messages that a connection delivers do not depend on how `recv` cuts the stream.
use gear_mcp_server.Base.{
  true, false, List, [], ◌∷◌, ◌++◌, ◌≡◌, inl, inr, refl, sym, ap, ◌∙◌, arith, if◌then◌else◌,
  Bool-cases, Bytes, is_empty, append-nil, append_assoc,
}
use gear_mcp_server.Framing.{skip_space, extract_from, extract_next_message, drain_all, receive}
use gear_mcp_server.Framing.Cut.{
  AtMessage, extract-Extracts, extract-wait, extract-AtMessage, skip_space-append, drain_all-idle,
  drain_all-message, drain_all-ext,
}

-- The buffer holds messages with whitespace between them, and at its end whitespace or the
-- start of a message.
pub data IsClean : Bytes → Type 0 where
  idle :
      {x : Bytes}
      → is_empty (extract_next_message x).0 ≡ true
      → AtMessage (skip_space x)
      → IsClean x
  more :
      {x m r : Bytes} → extract_next_message x ≡ (m, r) → is_empty m ≡ false → IsClean r → IsClean x

AtMessage-skip : (x y : Bytes) → AtMessage (skip_space (x ++ y)) → AtMessage (skip_space x)
AtMessage-skip x y a = go (skip_space x) (rw (skip_space-append x y) at a)
  where
    go : (z : Bytes) → AtMessage (if is_empty z then skip_space y else z ++ y) → AtMessage z
    go [] a = tt
    go (c ∷ cs) a = a

IsClean-prefix : {z : Bytes} → IsClean z → (x y : Bytes) → z ≡ x ++ y → IsClean x
IsClean-prefix (idle {x = z} e a) x y p = elim (Bool-cases (is_empty (extract_next_message x).0)) [
  | inl n ↦ idle n (AtMessage-skip x y (rw p at a))
  | inr m ↦ absurd (ground (arith, p, e, m, (extract-Extracts x refl m).later y))
]
IsClean-prefix (more {x = z} {m} {r} e h c) x y p =
    elim (Bool-cases (is_empty (extract_next_message x).0)) [
      | inl n ↦ idle n (AtMessage-skip x y (rw p at (extract-AtMessage z (rw e h))))
      | inr n ↦ more refl n (
          IsClean-prefix c (extract_next_message x).1 y (
            ap (λ t. t.1)
              (sym e ∙ ap extract_next_message p ∙ (extract-Extracts x refl n).later y)))
    ]

-- Draining now what has arrived, and later the rest, delivers what draining it at once does.
drain_all-append :
    {x : Bytes}
    → IsClean x
    → (y : Bytes)
    → drain_all (x ++ y) ≡ (
      (drain_all x).0 ++ (drain_all ((drain_all x).1 ++ y)).0,
      (drain_all ((drain_all x).1 ++ y)).1,
    )
drain_all-append (idle {x} e a) y =
    drain_all-ext _ _ (extract-wait x y a e) ∙ rw (drain_all-idle x e)
drain_all-append (more {x} {m} {r} e h c) y =
    drain_all-message (x ++ y) ((extract-Extracts x e h).later y) h
    ∙ rw (drain_all-append c y, drain_all-message x e h)

abbrev pub concat : List Bytes → Bytes
concat [] = []
concat (c ∷ cs) = c ++ concat cs

receive-drain_all :
    (buf : Bytes) (chunks : List Bytes)
    → IsClean (buf ++ concat chunks)
    → ((drain_all buf).0 ++ (receive (drain_all buf).1 chunks).0
        ≡ (drain_all (buf ++ concat chunks)).0)
      × ((receive (drain_all buf).1 chunks).1 ≡ (drain_all (buf ++ concat chunks)).1)
unfolding receive
receive-drain_all buf [] c = rw (append-nil buf) (append-nil (drain_all buf).0, refl)
receive-drain_all buf (x ∷ xs) c =
    let grown = sym (append_assoc buf x (concat xs)) in
    let clean = IsClean-prefix (rw grown at c) (buf ++ x) (concat xs) refl in
    let step = drain_all-append (IsClean-prefix clean buf x refl) x in
    let (out, left) = receive-drain_all (buf ++ x) xs (rw grown at c) in
    (rw (grown, ← out, step, append_assoc), rw (grown, ← left, step))

drain_all-nil : drain_all [] ≡ ([], [])
unfolding extract_next_message skip_space extract_from
drain_all-nil = drain_all-idle [] refl

-- However `recv` cuts a clean stream into chunks, the connection delivers the messages that it
-- delivers when the whole stream arrives at once, and keeps the same buffer.
pub receive-concat :
    (chunks : List Bytes) → IsClean (concat chunks) → receive [] chunks ≡ drain_all (concat chunks)
receive-concat chunks c =
    let (out, left) = receive-drain_all [] chunks c in
    λ i. ((rw drain_all-nil at out) i, (rw drain_all-nil at left) i)
