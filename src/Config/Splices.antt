-- ===== src/Config/Splices.antt =====
-- What the changes of a configuration file leave as it is.
use gear_mcp_server.Base.{
  ℕ, suc, ◌+◌, ◌≡◌, refl, sym, ap, ◌∙◌, arith, append_assoc, false, Option, none, some, [], ◌∷◌,
  ◌++◌, ltb, if◌then◌else◌, Bool-cases, inl, inr, Bytes, codes, find, find_from, length, take, drop,
  take-append-drop, All, ◌==◌, leb, drop-length, length-drop, not, ◌&&◌, is_empty, back_is,
  append-nil, drop-drop,
}
use gear_mcp_server.Config.Value.{format_value}
use gear_mcp_server.Config.Edit.{
  key_prefix, new_line, or_end, splice, append_section, replace_line, insert_line, set_key,
  set_in_section, set_section, set_content,
}

abbrev pub NoBreak : Bytes → Type 0
NoBreak = All (λ c. (c == b'\n') ≡ false)

-- The text after a change is the text before it with one new line, of the key and the value,
-- in place of a piece of one line. `lead` and `tail` are what is written around the line.
pub record Edited (p_key p_value before after : Bytes) : Type 0 where
  pub front : Bytes
  pub removed : Bytes
  pub back : Bytes
  pub lead : Bytes
  pub old : Bytes
  pub tail : Bytes
  pub was : before ≡ front ++ (removed ++ back)
  pub is :
      after ≡ front ++ ((lead ++ (key_prefix p_key ++ format_value old p_value) ++ tail) ++ back)
  pub one_line : NoBreak removed

-- The text from a position on, up to the line break and from it on.
abbrev Line : Option ℕ → Bytes → Type 0
Line none rest = NoBreak rest
Line (some i) rest = NoBreak (take i rest)

Line-cons :
    (c : ℕ) (cs : Bytes) (o : Option ℕ)
    → (c == b'\n') ≡ false
    → Line o cs
    → Line (elim o [ none ↦ none | some i ↦ some (suc i) ]) (c ∷ cs)
Line-cons c cs none e h = (e, h)
Line-cons c cs (some i) e h = (e, h)

find-Line : (rest : Bytes) → Line (find rest (codes "\n")) rest
unfolding find
find-Line [] = tt
find-Line (c ∷ cs) = elim (Bool-cases (c == b'\n')) [
  | inl e ↦ rw e tt
  | inr e ↦ rw e (Line-cons c cs _ e (find-Line cs))
]

-- A line from a position on: what is removed, and what stays behind it.
abbrev Cut : ℕ → Bytes → Bytes → Type 0
Cut stop rest back_text = (removed : Bytes) × ((rest ≡ removed ++ back_text) × NoBreak removed)

Cut-found :
    (content : Bytes) (pos : ℕ) (o : Option ℕ)
    → Line o (drop pos content)
    → Cut 0
        (drop pos content)
        (drop (or_end (elim o [ none ↦ none | some i ↦ some (pos + i) ]) content) content)
Cut-found content pos none h = (
  drop pos content,
  (sym (ap (λ t. drop pos content ++ t) (drop-length content) ∙ append-nil _), h),
)
Cut-found content pos (some i) h = (
  take i (drop pos content),
  (
    sym (
        ap (λ t. take i (drop pos content) ++ t) (sym (drop-drop i pos content))
        ∙ take-append-drop i (drop pos content)),
    h,
  ),
)

nil_of_length : (xs : Bytes) → length xs ≡ 0 → xs ≡ []
nil_of_length [] h = refl
nil_of_length (x ∷ xs) h = absurd (omega arith)

past_end : (content : Bytes) (pos : ℕ) → leb pos (length content) ≡ false → drop pos content ≡ []
past_end content pos e = nil_of_length (drop pos content) (length-drop pos content ∙ ground arith)

Cut-line :
    (content : Bytes) (pos : ℕ)
    → Cut 0 (drop pos content) (drop (or_end (find_from content (codes "\n") pos) content) content)
unfolding find_from
Cut-line content pos = elim (Bool-cases (leb pos (length content))) [
  | inl e ↦
      rw e (
        Cut-found content pos (find (drop pos content) (codes "\n")) (find-Line (drop pos content)))
  | inr e ↦ rw e ([], (past_end content pos e ∙ sym (drop-length content), tt))
]

module _ (p_key p_value : Bytes) where
  Edited-insert :
      (pos : ℕ) (content : Bytes)
      → Edited p_key p_value content (splice pos pos (new_line p_key p_value) content)
  Edited-insert pos content = record {
    front = take pos content;
    removed = [];
    back = drop pos content;
    lead = [];
    old = [];
    tail = codes "\n";
    was = sym (take-append-drop pos content);
    is = append_assoc (take pos content) (new_line p_key p_value) (drop pos content);
    one_line = tt;
  }

  Edited-replace :
      (pos : ℕ) (content old : Bytes)
      → Edited p_key p_value content (
          splice pos
            (or_end (find_from content (codes "\n") pos) content)
            (key_prefix p_key ++ format_value old p_value)
            content)
  Edited-replace pos content old =
      let (removed, (e, h)) = Cut-line content pos in
      let line = key_prefix p_key ++ format_value old p_value in
      let back = drop (or_end (find_from content (codes "\n") pos) content) content in
      record {
        front = take pos content;
        removed = removed;
        back = back;
        lead = [];
        old = old;
        tail = [];
        was = sym (take-append-drop pos content) ∙ ap (λ t. take pos content ++ t) e;
        is =
            append_assoc (take pos content) line back
            ∙ ap (λ t. take pos content ++ (t ++ back)) (sym (append-nil line));
        one_line = h;
      }

  Edited-append :
      (header content : Bytes)
      → Edited p_key p_value content (append_section p_key p_value header content)
  unfolding append_section
  Edited-append header content = record {
    front = content;
    removed = [];
    back = [];
    lead =
        (if not (is_empty content) && not (back_is b'\n' content) then codes "\n" else [])
        ++ codes "\n"
        ++ header
        ++ codes "\n";
    old = [];
    tail = codes "\n";
    was = sym (append-nil content);
    is = elim (Bool-cases (not (is_empty content) && not (back_is b'\n' content))) [
      | inl e ↦ rw e (simp (append_assoc, append-nil))
      | inr e ↦ rw e (simp (append_assoc, append-nil))
    ];
    one_line = tt;
  }

  Edited-set_key :
      (o : Option ℕ) (next start : ℕ) (content : Bytes)
      → Edited p_key p_value content (set_key p_key p_value o next start content)
  unfolding insert_line replace_line
  Edited-set_key none next start content = Edited-insert _ content
  Edited-set_key (some pos) next start content = elim (Bool-cases (ltb pos next)) [
    | inl e ↦ rw e (Edited-replace pos content _)
    | inr e ↦ rw e (Edited-insert _ content)
  ]

  Edited-set_section :
      (o : Option ℕ) (header content : Bytes)
      → Edited p_key p_value content (set_section p_key p_value o header content)
  unfolding set_in_section
  Edited-set_section none header content = Edited-append header content
  Edited-set_section (some pos) header content =
      let start = pos + length header in
      Edited-set_key (find_from content (key_prefix p_key) start)
        (or_end (find_from content (codes "\n[") start) content) start content

-- Setting a value: the new text has the new line, of the key and the quoted or bare value, in
-- place of a piece of the old text without a line break, which may be empty; all other bytes of
-- the file stay, in their order.
pub set_content-Edited :
    (p_section p_key p_value content : Bytes)
    → Edited p_key p_value content (set_content p_section p_key p_value content)
unfolding set_content
set_content-Edited p_section p_key p_value content =
    Edited-set_section p_key p_value (find content (codes "[" ++ p_section ++ codes "]"))
      (codes "[" ++ p_section ++ codes "]") content
