-- ===== src/Tests/FramingTests.antt =====
-- src/server/tcp_server.cpp: the framing.
use gear_mcp_server.Base.{◌≡◌, refl, [], ◌∷◌, codes}
use gear_mcp_server.Framing.{
  skip_space, scan_byte, scan, extract_from, extract_next_message, drain, drain_all, receive,
}
use gear_mcp_server.Framing.Chunks.{IsClean, idle, more, receive-concat}
use gear_mcp_server.Framing.Grammar.{
  plain, escape, byte, text, object, Parts, end, piece, print, receive-stream,
}
use gear_mcp_server.Framing.Garbage.{receive-garbage}

-- {"a}\"":{}}
abbrev tricky : Parts
tricky =
    piece (text (plain b'a' refl ∷ plain b'}' refl ∷ escape b'"' ∷ []))
      (piece (byte b':' refl) (piece (object end) end))

print-tricky : print tricky ≡ codes "{\"a}\\\"\":{}}"
unfolding print
print-tricky = refl

two_chunks :
    receive [] (codes " {\"a\":\"" ∷ codes "}\"}\n{}{" ∷ [])
    ≡ (codes "{\"a\":\"}\"}" ∷ codes "{}" ∷ [], codes "{")
unfolding receive drain_all drain extract_next_message extract_from skip_space scan scan_byte
two_chunks = refl

receive-stream_example : receive [] (codes "{" ∷ codes "} " ∷ []) ≡ (print end ∷ [], [])
receive-stream_example =
    receive-stream (([], end) ∷ []) (codes " ") (codes "{" ∷ codes "} " ∷ []) (tt, tt) (refl, tt)
      (unfold print in refl)

clean : IsClean (codes "{}")
unfolding extract_next_message extract_from skip_space scan scan_byte
clean = more {m = codes "{}"} {r = []} refl refl (idle refl tt)

receive-concat_example : receive [] (codes "{" ∷ codes "}" ∷ []) ≡ drain_all (codes "{}")
receive-concat_example = receive-concat (codes "{" ∷ codes "}" ∷ []) clean

one_message : extract_next_message (codes " {}x") ≡ (codes "{}", codes "x")
unfolding extract_next_message extract_from skip_space scan scan_byte
one_message = refl

receive-garbage_example : receive [] (codes "GET /\n{}" ∷ []) ≡ ([], codes "{}")
receive-garbage_example = receive-garbage b'G' (codes "ET /") (codes "{}") (record {
  visible = refl;
  no_brace = refl;
  one_line = (refl, (refl, (refl, (refl, (refl, tt)))));
})
