-- ===== src/Shell.antt =====
-- The user shell, user/src/main.rs: its history, its words, its built-in commands and its line editor.
-- A char is its code point; the system calls that a function makes are its result, in order.
pub mod History
pub mod Words
pub mod Editor
pub mod Commands
mod Tests
use Prim.Native.Char.{code}
use Prim.Native.String.{String}
use package.solaros.Prelude.{
  ℕ, zero, suc, ◌+◌, ◌-◌, ◌*◌, ◌/◌, ◌%◌, ◌^◌, Bool, true, false, ◌&&◌, ◌||◌, not, List, [], ◌∷◌,
  ◌++◌, length, get_or, set, take, drop, replicate, map, min, if◌then◌else◌, ltb, leb, ◌==◌,
}
use package.solaros.Prelude.Utf8.{encode_utf8}

-- The system calls but `read_char`: `write` has the bytes, `console` its operation and argument, `exec` the
-- bytes of the line.
pub data Call : Type 0 where
  write : List ℕ → Call
  console : ℕ → ℕ → Call
  exec : List ℕ → Call

abbrev pub codes : String → List ℕ
codes String.[] = []
codes (String.◌∷◌ c s) = code c ∷ codes s

abbrev pub put_char : ℕ → Call
put_char c = write (encode_utf8 c)

abbrev pub put_chars : List ℕ → List Call
put_chars cs = map put_char cs

abbrev pub puts : String → List Call
puts s = write (codes s) ∷ []

-- `char::to_ascii_lowercase`
abbrev pub lower : ℕ → ℕ
lower c = if leb b'A' c && leb c b'Z' then c + 32 else c

-- `eq_ci_str`, and `matches`.
unfoldable pub eq_ci_str : List ℕ → List ℕ → Bool
eq_ci_str [] [] = true
eq_ci_str [] (y ∷ b) = false
eq_ci_str (x ∷ a) [] = false
eq_ci_str (x ∷ a) (y ∷ b) = (lower x == lower y) && eq_ci_str a b

abbrev pub hist_cap : ℕ
hist_cap = 50

abbrev pub hist_len_cap : ℕ
hist_len_cap = 64

-- The statics `HIST`, `HLEN` and `HCOUNT`.
pub record Hist : Type 0 where
  pub rows : List (List ℕ)
  pub lens : List ℕ
  pub count : ℕ

abbrev pub empty_hist : Hist
empty_hist = record {
  rows = replicate hist_cap (replicate hist_len_cap 0);
  lens = replicate hist_cap 0;
  count = 0;
}

abbrev pub same_chars : List ℕ → List ℕ → Bool
same_chars [] [] = true
same_chars [] (y ∷ b) = false
same_chars (x ∷ a) [] = false
same_chars (x ∷ a) (y ∷ b) = (x == y) && same_chars a b

-- The test that the newest line is this one; the slice is taken only for a line of its length.
abbrev pub is_newest_line : List ℕ → Hist → Bool
is_newest_line line h =
    let newest = h.count - 1 in
    ltb 0 h.count
    && (get_or h.lens newest 0 == length line)
    && same_chars (take (length line) (get_or h.rows newest [])) line

-- The loop over `HIST` and `HLEN` from `i` on: each place takes what stands behind it.
pub shift_down {ℓ} : {A : Type ℓ} → A → ℕ → ℕ → List A → List A
shift_down d zero i xs = xs
shift_down d (suc left) i xs = shift_down d left (i + 1) (set xs i (get_or xs (i + 1) d))

abbrev pub drop_oldest : Hist → Hist
drop_oldest h = record {
  rows = shift_down [] (hist_cap - 1) 0 h.rows;
  lens = shift_down 0 (hist_cap - 1) 0 h.lens;
  count = h.count - 1;
}

-- `HIST[HCOUNT][..n].copy_from_slice(&line[..n])`
abbrev pub put_row : List ℕ → List ℕ → List ℕ
put_row line row =
    take (min (length line) hist_len_cap) line ++ drop (min (length line) hist_len_cap) row

abbrev pub put_line : List ℕ → Hist → Hist
put_line line h = record {
  rows = set h.rows h.count (put_row line (get_or h.rows h.count []));
  lens = set h.lens h.count (min (length line) hist_len_cap);
  count = h.count + 1;
}

unfoldable pub history_push : List ℕ → Hist → Hist
unfolding shift_down
history_push line h =
    if is_newest_line line h
    then h
    else put_line line (if h.count == hist_cap then drop_oldest h else h)

abbrev pub max_args : ℕ
max_args = 8

abbrev pub max_arg_len : ℕ
max_arg_len = 64

-- The variables of `parse_args`.
pub record Parse : Type 0 where
  pub args : List ℕ
  pub lens : List ℕ
  pub count : ℕ
  pub in_arg : Bool

abbrev pub empty_parse : Parse
empty_parse = record {
  args = replicate (max_args * max_arg_len) 0;
  lens = replicate max_args 0;
  count = 0;
  in_arg = false;
}

abbrev pub is_blank : ℕ → Bool
is_blank c = (c == b' ') || (c == 0x09)

abbrev pub end_word : Parse → Parse
end_word p =
    if p.in_arg
    then record p {
      count = (if ltb p.count max_args then p.count + 1 else p.count);
      in_arg = false;
    }
    else p

-- The end of the loop's body: the char is put behind the argument, if it has room.
abbrev pub put_arg : ℕ → Parse → Parse
put_arg c p =
    let len = get_or p.lens p.count 0 in
    if ltb len max_arg_len
    then record p {
      args = set p.args (p.count * max_arg_len + len) c;
      lens = set p.lens p.count (len + 1);
      in_arg = true;
    }
    else record p { in_arg = true }

-- The loop of `parse_args`; it ends early at a ninth argument.
pub parse_chars : List ℕ → Parse → Parse
parse_chars [] p = p
parse_chars (c ∷ cs) p = elim (is_blank c) [
  | true ↦ parse_chars cs (end_word p)
  | false ↦ elim (not p.in_arg && leb max_args p.count) [
    | true ↦ p
    | false ↦ parse_chars cs (put_arg c p)
  ]
]

unfoldable pub parse_args : List ℕ → Parse
unfolding parse_chars
parse_args chars = end_word (parse_chars chars empty_parse)

-- `arg`, where a slice out of range does not occur.
abbrev pub arg : Parse → ℕ → List ℕ
arg p i = if ltb i p.count then take (get_or p.lens i 0) (drop (i * max_arg_len) p.args) else []
