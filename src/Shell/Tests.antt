-- ===== src/Shell/Tests.antt =====
-- Runs of the user shell, and its theorems at these (user/src/main.rs).
use package.solaros.Prelude.{
  ℕ, ◌≤◌, ◌<◌, ◌≡◌, refl, List, [], ◌∷◌, ◌++◌, length, take, get_or, min, arith, inl, if◌then◌else◌,
  ltb, ◌==◌, ◌||◌, some,
}
use package.solaros.Prelude.Utf8.{decode_utf8}
use solaros.Shell.{
  codes, puts, put_char, put_chars, empty_hist, history_push, parse_args, arg, max_args,
  max_arg_len,
}
use solaros.Shell.Words.Steps.{words}
use solaros.Shell.Words.{parse_args-words}
use solaros.Shell.History.Lines.{IsHist, Pushed, lines}
use solaros.Shell.History.{history_push-Pushed}
use solaros.Shell.Commands.{execute, cmd_count, count_lines, encode_line, line_bytes, trim_front}
use solaros.Shell.Commands.Echo.{echo_line, execute-echo_line}
use solaros.Shell.Commands.Count.{decimal, cmd_count-decimal}
use solaros.Shell.Commands.Forward.{decode_utf8-encode_line}
use solaros.Shell.Editor.{new_editor, on_char}
use solaros.Shell.Editor.Screen.{cells, Edited, on_char-Edited}

-- The line `  cp  a b`.
abbrev copy_line : List ℕ
copy_line = codes "  cp  a b"

parse_args-words_example :
    ((parse_args copy_line).count ≡ min max_args (length (words copy_line)))
    × ((i : ℕ)
        → i < (parse_args copy_line).count
        → arg (parse_args copy_line) i ≡ take max_arg_len (get_or (words copy_line) i []))
parse_args-words_example = parse_args-words copy_line

copy_words : words copy_line ≡ codes "cp" ∷ codes "a" ∷ codes "b" ∷ []
copy_words = refl

copy_run : arg (parse_args copy_line) 2 ≡ codes "b"
unfolding parse_args
copy_run = refl

empty_hist-IsHist : IsHist empty_hist
empty_hist-IsHist = record {
  rows = refl;
  lens = refl;
  row = omega arith;
  fits = omega arith;
  count = omega arith;
}

history_push-Pushed_example :
    IsHist (history_push copy_line empty_hist)
    × Pushed copy_line (lines empty_hist) (lines (history_push copy_line empty_hist))
history_push-Pushed_example = history_push-Pushed copy_line empty_hist empty_hist-IsHist

pushed_twice : lines (history_push copy_line (history_push copy_line empty_hist)) ≡ copy_line ∷ []
unfolding history_push
pushed_twice = refl

-- The cells of the prompt.
abbrev prompt : List (List ℕ)
prompt = cells (codes "solaros> ")

on_char-Edited_example : Edited 80 prompt b'x' new_editor (on_char b'x' new_editor)
on_char-Edited_example =
    on_char-Edited 80 prompt b'x' new_editor (record { size = refl; len = omega arith })

-- A numeral far above 2^64.
abbrev long_numeral : List ℕ
long_numeral = codes "8446744073709551617446744073709551617"

cmd_count-decimal_example : cmd_count (b'1' ∷ long_numeral) ≡ (
    if (decimal 0 (b'1' ∷ long_numeral) == 0) || ltb 100 (decimal 0 (b'1' ∷ long_numeral))
    then puts "Counting to that is too long! (try 1-100)\n"
    else count_lines (decimal 0 (b'1' ∷ long_numeral)) 1)
cmd_count-decimal_example = cmd_count-decimal b'1' long_numeral (omega arith)

-- The word `ışık`, which is not ASCII.
abbrev light : List ℕ
light = 0x131 ∷ 0x15F ∷ 0x131 ∷ b'k' ∷ []

decode_utf8-encode_line_example :
    (length (encode_line light) ≤ line_bytes) × (decode_utf8 (encode_line light) ≡ some light)
decode_utf8-encode_line_example =
    decode_utf8-encode_line light (omega arith)
      (inl (omega arith), (inl (omega arith), (inl (omega arith), (inl (omega arith), tt))))

execute-echo_line_example :
    (execute (echo_line 1 (codes "hi")) empty_hist).0
    ≡ put_chars (if ◌==◌ 1 0 then trim_front (codes "hi") else codes "o" ++ b' ' ∷ codes "hi")
      ++ put_char b'\n' ∷ []
execute-echo_line_example = execute-echo_line 1 (codes "hi") empty_hist (omega arith)
