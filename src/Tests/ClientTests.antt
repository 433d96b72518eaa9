-- ===== src/Tests/ClientTests.antt =====
-- A response in two parts. The tests write a number as that many letters.
use gear_mcp_server.Base.{ℕ, zero, suc, ◌≡◌, refl, ap, arith, [], ◌∷◌, Bytes, NoByte, codes, length}
use gear_mcp_server.Exec.{ok}
use gear_mcp_server.Json.{JsonLib, ℤ, pos}
use gear_mcp_server.Client.{answered, skip_blanks, frame, read_response}
use gear_mcp_server.Client.Response.{read_response-frame}
use gear_mcp_server.Tests.Sample.{record_of, fields_of, parsing}

abbrev letters : ℕ → Bytes
letters zero = []
letters (suc n) = b'x' ∷ letters n

abbrev counted : Bytes → ℤ
counted t = pos (length t)

letters-NoByte : (n : ℕ) → NoByte b'\r' (letters n)
letters-NoByte zero = tt
letters-NoByte (suc n) = (refl, letters-NoByte n)

skip_blanks-letters : (n : ℕ) → skip_blanks (letters n) ≡ letters n
skip_blanks-letters zero = refl
skip_blanks-letters (suc n) = refl

length-letters : (n : ℕ) → length (letters n) ≡ n
length-letters zero = refl
length-letters (suc n) = ap suc (length-letters n)

abbrev reply_lib : JsonLib
reply_lib = parsing (λ t. ok (record_of (fields_of [])))

read_response-frame_example :
    read_response reply_lib counted letters (codes "Content-Length: xx\r\n" ∷ codes "\r\n{}" ∷ [])
    ≡ answered (record_of (fields_of []))
unfolding frame
read_response-frame_example =
    read_response-frame reply_lib counted letters letters-NoByte skip_blanks-letters
      (λ n h. ap pos (length-letters n)) b'{' (codes "}") (record_of (fields_of []))
      (codes "Content-Length: xx\r\n" ∷ codes "\r\n{}" ∷ []) (omega arith) refl refl (omega arith)
      (omega arith)
