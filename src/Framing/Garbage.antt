-- ===== src/Framing/Garbage.antt =====
-- A line that is no JSON: `extract_next_message` drops it, and returns the empty string for it,
-- which the loop of the connection takes for "no complete message".
use gear_mcp_server.Base.{ℕ, false, [], ◌∷◌, ◌++◌, ◌≡◌, ◌==◌, Bytes, split_at-NoByte, All}
use gear_mcp_server.Framing.{is_space, skip_space, extract_from, extract_next_message, receive}
use gear_mcp_server.Framing.Cut.{drain_all-idle}

-- A line with no newline in it, whose first byte starts neither whitespace nor a message.
pub record IsGarbage (first : ℕ) (line : Bytes) : Type 0 where
  pub visible : is_space first ≡ false
  pub no_brace : (first == b'{') ≡ false
  pub one_line : All (λ c. (c == b'\n') ≡ false) (first ∷ line)

module _ (first : ℕ) (line rest : Bytes) where
  extract-garbage :
      IsGarbage first line → extract_next_message (first ∷ (line ++ (b'\n' ∷ rest))) ≡ ([], rest)
  unfolding extract_next_message skip_space extract_from
  extract-garbage g =
      rw (g.visible, extract_from, g.no_brace, split_at-NoByte b'\n' (first ∷ line) rest g.one_line)

  -- A chunk, with nothing kept before it, that begins with a line whose first byte is neither a
  -- brace nor white space: it delivers no message at all, whatever follows the line, and complete
  -- messages behind the line stay in the buffer.
  pub receive-garbage :
      IsGarbage first line → receive [] ((first ∷ (line ++ (b'\n' ∷ rest))) ∷ []) ≡ ([], rest)
  unfolding receive
  receive-garbage g =
      let buf : Bytes = first ∷ (line ++ (b'\n' ∷ rest)) in
      let e = extract-garbage g in rw (drain_all-idle buf (rw e), e)
