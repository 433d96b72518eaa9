-- ===== src/Paths/Project.antt =====
-- `to_absolute` and `to_res_path`: paths in a project and back.
use gear_mcp_server.Base.{
  ℕ, suc, ◌+◌, ◌≡◌, refl, sym, ap, ◌∙◌, append_assoc, arith, true, false, [], ◌∷◌, ◌++◌, ltb, Bytes,
  codes, str_eq_refl, drop, length, length-append, take-append_length, drop-append_length,
  drop-drop, is_empty, back_is,
}
use gear_mcp_server.Paths.{normalize, res_prefix, to_absolute, to_res_path}
use gear_mcp_server.Paths.Normal.{NoBackslash, NoBackslash-normalize, normalize_clean}

NoBackslash-append : (a b : Bytes) → NoBackslash a → NoBackslash b → NoBackslash (a ++ b)
NoBackslash-append [] b ha hb = hb
NoBackslash-append (c ∷ cs) b ha hb = (ha.0, NoBackslash-append cs b ha.1 hb)

back_is-append :
    (a b : Bytes) → is_empty b ≡ false → back_is b'/' b ≡ false → back_is b'/' (a ++ b) ≡ false
back_is-append [] b ne h = h
back_is-append (c ∷ []) [] ne h = ground arith
back_is-append (c ∷ []) (y ∷ ys) ne h = h
back_is-append (c ∷ d ∷ cs) b ne h = back_is-append (d ∷ cs) b ne h

back_is_under :
    (x : ℕ) (b : Bytes) → is_empty b ≡ false → back_is b'/' b ≡ false → back_is b'/' (x ∷ b) ≡ false
back_is_under x b ne h = back_is-append (x ∷ []) b ne h

normalize-join :
    (root rel : Bytes)
    → NoBackslash root
    → NoBackslash rel
    → is_empty rel ≡ false
    → back_is b'/' rel ≡ false
    → normalize (root ++ b'/' ∷ rel) ≡ root ++ b'/' ∷ rel
normalize-join [] rel hr clean ne back = normalize_clean b'/' rel (refl, clean) back
normalize-join (c ∷ cs) rel hr clean ne back =
    normalize_clean c (cs ++ b'/' ∷ rel) (NoBackslash-append (c ∷ cs) (b'/' ∷ rel) hr (refl, clean))
      (back_is-append cs (b'/' ∷ rel) refl (back_is_under b'/' rel ne back))

longer :
    (root : Bytes) (c : ℕ) (rest : Bytes) → ltb (length root) (length (root ++ c ∷ rest)) ≡ true
longer root c rest =
    let e : length (root ++ c ∷ rest) ≡ length root + suc (length rest) =
      length-append root (c ∷ rest) in
    ground arith

drop_past : (root : Bytes) (c : ℕ) (rest : Bytes) → drop (length root + 1) (root ++ c ∷ rest) ≡ rest
drop_past root c rest =
    sym (drop-drop 1 (length root) (root ++ c ∷ rest))
    ∙ ap (drop 1) (drop-append_length root (c ∷ rest))

-- Where the test for the project's root compares bytes only: of a path that begins with the
-- root, the byte behind the root is dropped, whether it is a separator or not. So a file in a
-- directory whose name continues the name of the root is reported as a file of the project, under
-- a path that lacks that byte. Root and path are normalised.
pub to_res_path-sibling :
    (root : Bytes) (c : ℕ) (rest : Bytes)
    → normalize root ≡ root
    → normalize (root ++ c ∷ rest) ≡ root ++ c ∷ rest
    → to_res_path (root ++ c ∷ rest) root ≡ res_prefix ++ rest
unfolding to_res_path
to_res_path-sibling root c rest hr ha =
    rw (ha, hr)
      (rw (longer root c rest, take-append_length root (c ∷ rest), str_eq_refl root)
        (ap (λ t. res_prefix ++ t) (drop_past root c rest)))

to_absolute-res :
    (c : ℕ) (cs root : Bytes)
    → to_absolute (res_prefix ++ c ∷ cs) root ≡ normalize (root ++ b'/' ∷ c ∷ cs)
unfolding to_absolute
to_absolute-res c cs root =
    let long : ltb 6 (length (res_prefix ++ c ∷ cs)) ≡ true = ground arith in
    rw long (ap normalize (append_assoc root (codes "/") (c ∷ cs)))

-- A path in the project, made absolute and turned back, is the same path, where the root is
-- normalised and the path behind `res://` is not empty, has no backslash and does not end with
-- `/`.
pub to_res_path-to_absolute :
    (root rel : Bytes)
    → normalize root ≡ root
    → NoBackslash rel
    → is_empty rel ≡ false
    → back_is b'/' rel ≡ false
    → to_res_path (to_absolute (res_prefix ++ rel) root) root ≡ res_prefix ++ rel
to_res_path-to_absolute root [] hr clean ne back = ground arith
to_res_path-to_absolute root (c ∷ cs) hr clean ne back =
    let clean_root : NoBackslash root = rw hr at (NoBackslash-normalize root) in
    let join = normalize-join root (c ∷ cs) clean_root clean ne back in
    ap (λ p. to_res_path p root) (to_absolute-res c cs root ∙ join)
    ∙ to_res_path-sibling root b'/' (c ∷ cs) hr join
