-- ===== src/Shell/Commands/Forward.antt =====
-- The bytes that the user shell hands to the kernel for a line: `encode_line` (user/src/main.rs).
use package.solaros.Prelude.{
  ℕ, ◌+◌, ◌*◌, ◌≤◌, ◌≡◌, sym, ◌∙◌, ap, false, some, List, [], ◌∷◌, ◌++◌, length, length-append,
  append_assoc, append-nil, All, arith, ltb,
}
use package.solaros.Prelude.Utf8.{
  IsScalar, encode_utf8, encode_utf8-length, encode_all, decode_utf8, length-encode_all,
  decode_utf8-encode_all,
}
use solaros.Shell.Commands.{encode_chars, encode_line, line_bytes}

encode_chars-encode_all :
    (line out : List ℕ)
    → length out + 4 * length line ≤ line_bytes
    → encode_chars line out ≡ out ++ encode_all line
unfolding encode_chars encode_all
encode_chars-encode_all [] out h = sym (append-nil out)
encode_chars-encode_all (c ∷ line) out h =
    let room : ltb line_bytes (length out + 4) ≡ false = ground arith in
    let fits : ltb line_bytes (length out + length (encode_utf8 c)) ≡ false =
      ground (arith, encode_utf8-length c) in
    rw (room, encode_chars)
      (rw fits (
        encode_chars-encode_all line (out ++ encode_utf8 c)
          (omega (arith, encode_utf8-length c, length-append out (encode_utf8 c)))
        ∙ append_assoc out (encode_utf8 c) (encode_all line)))

-- A line of at most 128 chars is encoded whole.
pub encode_line-encode_all :
    (line : List ℕ) → length line ≤ 128 → encode_line line ≡ encode_all line
unfolding encode_line
encode_line-encode_all line h = encode_chars-encode_all line [] (omega arith)

-- For a line of at most 128 chars: its bytes fit the 512 of the buffer, and decoding them gives the line.
pub decode_utf8-encode_line :
    (line : List ℕ)
    → length line ≤ 128
    → All IsScalar line
    → (length (encode_line line) ≤ line_bytes) × (decode_utf8 (encode_line line) ≡ some line)
decode_utf8-encode_line line h all =
    let same = encode_line-encode_all line h in
    (
      omega (arith, ap length same, length-encode_all line),
      ap decode_utf8 same ∙ decode_utf8-encode_all line all,
    )
