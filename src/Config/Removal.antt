-- ===== src/Config/Removal.antt =====
-- What the removal of an entry does to the lines around it.
use gear_mcp_server.Base.{
  ℕ, suc, ◌+◌, ◌-◌, ◌≡◌, refl, sym, ap, ◌∙◌, arith, append-nil, true, some, [], ◌∷◌, ◌++◌, leb, ltb,
  if◌then◌else◌, Bytes, codes, find, find_from, length, length-append, take, drop,
  take-append_length, drop-append_length, drop-drop, front_is,
}
use gear_mcp_server.Config.Edit.{
  removable, erase_line, remove_content, after_break, past_break, splice, erase_found,
}
use gear_mcp_server.Config.Splices.{NoBreak}

find_break : (l b : Bytes) → NoBreak l → find (l ++ b'\n' ∷ b) (codes "\n") ≡ some (length l)
unfolding find
find_break [] b h = refl
find_break (c ∷ cs) b h = rw h.0 (rw (find_break cs b h.1) refl)

erase_line_at :
    (pos start stop : ℕ) (content : Bytes)
    → (if after_break pos content then pos - 1 else pos) ≡ start
    → past_break (find_from content (codes "\n") pos) content ≡ stop
    → erase_line pos content ≡ take start content ++ drop stop content
unfolding erase_line
erase_line_at pos start stop content e1 e2 =
    ap (λ x. splice x (past_break (find_from content (codes "\n") pos) content) [] content) e1
    ∙ ap (λ y. splice start y [] content) e2
    ∙ ap (λ t. t ++ drop stop content) (append-nil (take start content))

module _ (a l b : Bytes) where
  abbrev pub text : Bytes
  text = a ++ b'\n' ∷ (l ++ b'\n' ∷ b)

  drop_first : drop (suc (length a)) text ≡ l ++ b'\n' ∷ b
  drop_first =
      let e : suc (length a) ≡ length a + 1 = omega arith in
      ap (λ n. drop n text) e
      ∙ sym (drop-drop 1 (length a) text)
      ∙ ap (drop 1) (drop-append_length a (b'\n' ∷ (l ++ b'\n' ∷ b)))

  drop_second : drop (suc (suc (length a) + length l)) text ≡ b
  drop_second =
      let e : suc (suc (length a) + length l) ≡ suc (length a) + (length l + 1) = omega arith in
      ap (λ n. drop n text) e
      ∙ sym (drop-drop (length l + 1) (suc (length a)) text)
      ∙ ap (drop (length l + 1)) drop_first
      ∙ sym (drop-drop 1 (length l) (l ++ b'\n' ∷ b))
      ∙ ap (drop 1) (drop-append_length l (b'\n' ∷ b))

  break_found :
      NoBreak l → find_from text (codes "\n") (suc (length a)) ≡ some (suc (length a) + length l)
  unfolding find_from
  break_found h =
      let inside : leb (suc (length a)) (length text) ≡ true =
        ground (arith, length-append a (b'\n' ∷ (l ++ b'\n' ∷ b))) in
      rw (inside, drop_first, find_break l b h)

  erase_line-joins : NoBreak l → erase_line (suc (length a)) text ≡ a ++ b
  erase_line-joins h =
      let before_it : after_break (suc (length a)) text ≡ true =
        let far : ltb 0 (suc (length a)) ≡ true = ground arith in
        let back : suc (length a) - 1 ≡ length a = omega arith in
        let at : drop (suc (length a) - 1) text ≡ b'\n' ∷ (l ++ b'\n' ∷ b) =
          ap (λ n. drop n text) back ∙ drop-append_length a (b'\n' ∷ (l ++ b'\n' ∷ b)) in
        rw far (ap (front_is b'\n') at) in
      erase_line_at (suc (length a)) (length a) (suc (suc (length a) + length l)) text
        (rw before_it (omega arith)) (ap (λ o. past_break o text) (break_found h))
      ∙ ap (λ t. take (length a) text ++ t) drop_second
      ∙ ap (λ t. t ++ b) (take-append_length a (b'\n' ∷ (l ++ b'\n' ∷ b)))

-- Removing an autoload that stands on a line of its own between two others, found in its
-- section: the line break before it and the one behind it both go, so that the line before and
-- the line after become one line.
pub remove_content-joins :
    (a l b name : Bytes) (h : ℕ)
    → NoBreak l
    → find (text a l b) (codes "[autoload]") ≡ some h
    → removable
        (find_from (text a l b) (name ++ codes "=") (h + 10))
        (find_from (text a l b) (codes "\n[") (h + 10))
      ≡ some (suc (length a))
    → remove_content name (text a l b) ≡ some (a ++ b)
unfolding remove_content
remove_content-joins a l b name h nb eh er =
    rw (remove_content, eh)
      (ap (λ o. erase_found o (text a l b)) er ∙ ap some (erase_line-joins a l b nb))
