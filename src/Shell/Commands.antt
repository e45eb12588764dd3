-- ===== src/Shell/Commands.antt =====
-- The built-in commands of the user shell, and `execute` (user/src/main.rs).
pub mod Echo
pub mod Count
pub mod Forward
use package.solaros.Prelude.{
  ℕ, zero, suc, ◌+◌, ◌-◌, ◌*◌, ◌/◌, ◌%◌, ◌^◌, Bool, true, false, ◌&&◌, ◌||◌, not, Option, none,
  some, List, [], ◌∷◌, ◌++◌, length, get_or, take, drop, map, min, if◌then◌else◌, ltb, leb, ◌==◌,
}
use mathlib.Core.List.{reverse}
use package.solaros.Prelude.Utf8.{encode_utf8}
use solaros.Shell.{
  Call, write, console, exec, codes, put_char, put_chars, puts, eq_ci_str, Hist, history_push,
  parse_args, arg, is_blank,
}

-- `tmp` of `write_ordinal`, which has 24 places: the digits from the lowest on.
abbrev ordinal_cap : ℕ
ordinal_cap = 24

pub low_digits : ℕ → ℕ → List ℕ
low_digits zero v = []
low_digits (suc left) v =
    (b'0' + v % 10) ∷ elim (v / 10 == 0) [ true ↦ [] | false ↦ low_digits left (v / 10) ]

unfoldable pub write_ordinal : ℕ → Call
unfolding low_digits
write_ordinal v = write (reverse (low_digits ordinal_cap v) ++ b' ' ∷ b' ' ∷ [])

abbrev cmd_help : List Call
cmd_help =
    puts "SolarOS shell commands (user-space builtins):\n"
    ++ puts "  help       - shows this list\n"
    ++ puts "  clear      - clears the screen\n"
    ++ puts "  color      - changes the text color: color <name>\n"
    ++ puts "  count      - counts from 1 to n: count <n>\n"
    ++ puts "  echo       - prints the given text: echo <text>\n"
    ++ puts "  history    - lists recently executed commands\n"
    ++ puts "  version    - shows the SolarOS version\n"
    ++ puts "  help2      - hidden command\n"
    ++ puts "Other commands (solarfetch, status, diskinfo, pci, ls, cat, mkfs,\n"
    ++ puts "whoami, users, adduser, passwd, login, su, loadkeys, wtest, ...)\n"
    ++ puts "run in the kernel service via the exec syscall.\n"

abbrev pub trim_front : List ℕ → List ℕ
trim_front [] = []
trim_front (c ∷ cs) = if is_blank c then trim_front cs else c ∷ cs

unfoldable pub cmd_echo : List ℕ → List Call
cmd_echo rest = put_chars (trim_front rest) ++ put_char b'\n' ∷ []

abbrev pub u64_max : ℕ
u64_max = 2 ^ 64 - 1

-- The loop of `cmd_count`, with `saturating_mul` and `saturating_add`.
pub count_value : ℕ → List ℕ → Option ℕ
count_value n [] = some n
count_value n (c ∷ cs) =
    let rest = count_value (min (min (n * 10) u64_max + (c - b'0')) u64_max) cs in
    if leb b'0' c && leb c b'9' then rest else none

-- `for i in 1..=n`, with the numbers from `i` on left.
pub count_lines : ℕ → ℕ → List Call
unfolding write_ordinal
count_lines zero i = []
count_lines (suc left) i = write_ordinal i ∷ put_char b'\n' ∷ count_lines left (i + 1)

-- What `cmd_count` does with the number, if it was one.
abbrev pub count_answer : Option ℕ → List Call
count_answer none = puts "Error: enter a number.\n"
count_answer (some n) =
    if (n == 0) || ltb 100 n
    then puts "Counting to that is too long! (try 1-100)\n"
    else count_lines n 1

pub cmd_count : List ℕ → List Call
unfolding count_value count_lines
cmd_count [] = puts "Usage: count <n>\n"
cmd_count (c ∷ cs) = count_answer (count_value 0 (c ∷ cs))

-- The table of `cmd_color`: the parts of a color, none for the default, or an unknown name.
abbrev color_of : List ℕ → Option (Option (ℕ × ℕ × ℕ))
color_of s =
    if eq_ci_str s (codes "red")
    then some (some (255, 90, 90))
    else if eq_ci_str s (codes "green")
    then some (some (120, 255, 140))
    else if eq_ci_str s (codes "blue")
    then some (some (90, 160, 255))
    else if eq_ci_str s (codes "yellow")
    then some (some (255, 210, 110))
    else if eq_ci_str s (codes "purple")
    then some (some (200, 120, 255))
    else if eq_ci_str s (codes "cyan")
    then some (some (90, 255, 220))
    else if eq_ci_str s (codes "orange")
    then some (some (255, 150, 60))
    else if eq_ci_str s (codes "pink")
    then some (some (255, 120, 180))
    else if eq_ci_str s (codes "white")
    then some (some (255, 255, 255))
    else if eq_ci_str s (codes "default") || eq_ci_str s (codes "reset")
    then some none
    else none

abbrev set_color : Option (Option (ℕ × ℕ × ℕ)) → List Call
set_color none =
    puts "Unknown color. (red, green, blue, yellow, purple, cyan, orange, pink, white, default)\n"
set_color (some none) = console 2 0 ∷ puts "Back to default colors.\n"
set_color (some (some (r, g, b))) =
    console 1 (r * 65536 + g * 256 + b) ∷ puts "Text color changed.\n"

pub cmd_color : List ℕ → List Call
unfolding eq_ci_str
cmd_color name = set_color (color_of (take 16 name))

-- The loop of `cmd_history` over the lines from `i` on.
pub list_lines : ℕ → ℕ → Hist → List Call
unfolding write_ordinal
list_lines zero i h = []
list_lines (suc left) i h =
    write_ordinal (i + 1) ∷ put_chars (take (get_or h.lens i 0) (get_or h.rows i []))
    ++ put_char b'\n' ∷ list_lines left (i + 1) h

pub cmd_history : Hist → List Call
unfolding list_lines
cmd_history h = if h.count == 0 then puts "History is empty.\n" else list_lines h.count 0 h

abbrev pub line_bytes : ℕ
line_bytes = 512

-- The loop of `encode_line`, with the bytes so far.
pub encode_chars : List ℕ → List ℕ → List ℕ
encode_chars [] out = out
encode_chars (c ∷ line) out = elim (ltb line_bytes (length out + 4)) [
  | true ↦ out
  | false ↦ elim (ltb line_bytes (length out + length (encode_utf8 c))) [
    | true ↦ out
    | false ↦ encode_chars line (out ++ encode_utf8 c)
  ]
]

unfoldable pub encode_line : List ℕ → List ℕ
unfolding encode_chars
encode_line line = encode_chars line []

-- What `execute` does with a name: the whole line is at hand.
abbrev pub dispatch : List ℕ → List ℕ → ℕ → List ℕ → Hist → List Call
dispatch name line name_len first h =
    if eq_ci_str name (codes "help")
    then cmd_help
    else if eq_ci_str name (codes "clear")
    then console 0 0 ∷ []
    else if eq_ci_str name (codes "echo")
    then cmd_echo (drop name_len line)
    else if eq_ci_str name (codes "version")
    then puts "SolarOS 26.1\n"
    else if eq_ci_str name (codes "count")
    then cmd_count first
    else if eq_ci_str name (codes "color")
    then cmd_color first
    else if eq_ci_str name (codes "history")
    then cmd_history h
    else if eq_ci_str name (codes "help2")
    then puts "Hidden command found! More is coming here in the future.\n"
    else exec (encode_line line) ∷ []

-- `execute` on the line that the editor holds: the calls, and the history after it.
unfoldable pub execute : List ℕ → Hist → List Call × Hist
unfolding history_push parse_args cmd_echo cmd_count cmd_color cmd_history encode_line eq_ci_str
execute [] h = ([], h)
execute (c ∷ cs) h =
    let line = c ∷ cs in
    let h' = history_push line h in
    let p = parse_args line in
    if p.count == 0
    then ([], h')
    else (dispatch (arg p 0) line (get_or p.lens 0 0) (arg p 1) h', h')
