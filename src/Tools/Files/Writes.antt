-- ===== src/Tools/Files/Writes.antt =====
-- write_file, and what read_file returns after it.
use gear_mcp_server.Base.{
  ◌+◌, ◌≤◌, ◌≡◌, refl, ap, ◌∙◌, arith, true, false, some, [], ltb, Bytes, codes, is_empty, take,
  length,
}
use gear_mcp_server.Exec.{ok}
use gear_mcp_server.Json.{JsonLib, pos}
use gear_mcp_server.Methods.Rpc.{value}
use gear_mcp_server.Paths.{has_traversal, ensure_parent_dirs}
use gear_mcp_server.Tools.{Values, value_of, answered}
use gear_mcp_server.Tools.Files.{
  Files, default_max, make_dirs, write_text, write_at, write_file_handler, read_file_handler,
}
use gear_mcp_server.Tools.Files.Slices.{take_all, read_answer, read_file_handler_lem}

module _ (lib : JsonLib) (values : Values lib) {W : Type 0} (files : Files W) where
  open lib use {Json, dump, parse}

  module _ (t u path content : Bytes) (p q : Json) (w w' : W) (parsed : parse t ≡ ok p)
      (named : value lib p (codes "path") [] ≡ ok path)
      (given : value lib p (codes "content") [] ≡ ok content) (ne : is_empty path ≡ false)
      (safe : has_traversal path ≡ false) where
    write_file_state :
        value lib p (codes "mode") (codes "write") ≡ ok (codes "write")
        → files.write path content (make_dirs lib values files (ensure_parent_dirs path) w)
          ≡ (true, w')
        → (write_file_handler lib values files t w).1 ≡ w'
    unfolding write_file_handler write_at write_text
    write_file_state mode done =
        rw (parsed, named) (rw ne (rw (given, mode) (rw safe (rw done refl))))

    -- A file that was written and is then read without a limit or an offset: the answer has the
    -- text that was written, whole, and is not marked as truncated. The text has at most 256 KB,
    -- the file could be opened, and the file system returns the text that was written last.
    pub read_file-write_file :
        value lib p (codes "mode") (codes "write") ≡ ok (codes "write")
        → files.write path content (make_dirs lib values files (ensure_parent_dirs path) w)
          ≡ (true, w')
        → parse u ≡ ok q
        → value lib q (codes "path") [] ≡ ok path
        → value_of lib values.as_int q (codes "max_bytes") (pos default_max) ≡ ok (pos default_max)
        → value_of lib values.as_int q (codes "offset") (pos 0) ≡ ok (pos 0)
        → length content ≤ default_max
        → ((f c : Bytes) (v v' : W) → files.write f c v ≡ (true, v') → files.read f v' ≡ some c)
        → read_file_handler lib values files u (write_file_handler lib values files t w).1
          ≡ (answered (dump (read_answer lib values files path content false content)), w')
    read_file-write_file mode done parsed2 named2 limit from small reads =
        let not_cut : ltb (0 + 262144) (length content) ≡ false = ground arith in
        ap (read_file_handler lib values files u) (write_file_state mode done)
        ∙ read_file_handler_lem lib values files u path content q 262143 0 w' parsed2 named2 limit
            from ne safe (reads path content _ w' done) (omega arith) (omega arith)
        ∙ ap
            (λ b. (
              answered (dump (read_answer lib values files path (take 262144 content) b content)),
              w',
            ))
            not_cut
        ∙ ap (λ c. (answered (dump (read_answer lib values files path c false content)), w'))
            (take_all 262144 content small)
