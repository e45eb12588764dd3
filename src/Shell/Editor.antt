-- ===== src/Shell/Editor.antt =====
-- The line editor of the user shell: the loop of `_start` (user/src/main.rs).
pub mod Screen
use package.solaros.Prelude.{
  ℕ, zero, suc, ◌+◌, ◌-◌, ◌*◌, List, [], ◌∷◌, ◌++◌, get_or, set, take, replicate, if◌then◌else◌,
  ltb, leb, ◌==◌,
}
use solaros.Shell.{Call, console, put_char, puts, Hist, empty_hist}
use solaros.Shell.Commands.{execute}

abbrev pub line_cap : ℕ
line_cap = 128

-- The variables of `_start` and the statics of the history.
pub record Editor : Type 0 where
  pub line : List ℕ
  pub len : ℕ
  pub hist : Hist

abbrev pub new_editor : Editor
new_editor = record { line = replicate line_cap 0; len = 0; hist = empty_hist }

abbrev pub print_prompt : List Call
print_prompt = console 1 (0x5D * 65536 + 0xDC * 256 + 0xFF) ∷ puts "solaros> " ++ console 2 0 ∷ []

-- The banner and the first prompt.
abbrev pub banner : List Call
banner =
    console 1 (0x5D * 65536 + 0xDC * 256 + 0xFF) ∷ puts "          S O L A R   O S   26.1\n"
    ++ console 2 0 ∷ puts "\nWelcome to SolarOS. Type 'help' for a list of commands.\n\n"
    ++ print_prompt

-- The loop of Ctrl-C: one backspace for each char of the line.
pub erase : ℕ → List Call
erase zero = []
erase (suc left) = console 3 0 ∷ erase left

abbrev pub enter : Editor → List Call × Editor
enter ed =
    let (calls, h) = execute (take ed.len ed.line) ed.hist in
    (put_char b'\n' ∷ calls ++ print_prompt, record ed { len = 0; hist = h })

abbrev pub insert_char : ℕ → Editor → List Call × Editor
insert_char c ed =
    if ltb ed.len line_cap
    then (put_char c ∷ [], record ed { line = set ed.line ed.len c; len = ed.len + 1 })
    else ([], ed)

-- The loop's body on a char: the calls and the state after it.
unfoldable pub on_char : ℕ → Editor → List Call × Editor
unfolding erase execute
on_char c ed =
    if (c == b'\n')
    then enter ed
    else if c == 0x0D
    then enter ed
    else if c == 0x08
    then (if ltb 0 ed.len then (console 3 0 ∷ [], record ed { len = ed.len - 1 }) else ([], ed))
    else if c == 0x03
    then (erase ed.len ++ put_char b'\n' ∷ print_prompt, record ed { len = 0 })
    else if leb 0x20 c
    then insert_char c ed
    else ([], ed)
