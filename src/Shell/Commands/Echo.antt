-- ===== src/Shell/Commands/Echo.antt =====
-- What `execute` prints for a line whose first word is `echo` (user/src/main.rs).
use package.solaros.Prelude.{
  ℕ, zero, suc, ◌-◌, ◌≤◌, ◌<◌, ◌≡◌, refl, ◌∙◌, ap, ap₂, false, List, [], ◌∷◌, ◌++◌, length, take,
  drop, get_or, replicate, arith, if◌then◌else◌, ◌==◌,
}
use solaros.Shell.{
  Call, codes, put_char, put_chars, Hist, history_push, parse_args, arg, is_blank, max_args,
}
use solaros.Shell.Words.Steps.{words}
use solaros.Shell.Words.{parse_args-words, parse_args-lens}
use solaros.Shell.Commands.{cmd_echo, dispatch, execute, trim_front}

abbrev pub echo_name : List ℕ
echo_name = codes "echo"

-- `n` spaces, `echo`, a space and the rest.
abbrev pub echo_line : ℕ → List ℕ → List ℕ
echo_line n rest = replicate n b' ' ++ echo_name ++ b' ' ∷ rest

words-echo_line : (n : ℕ) (rest : List ℕ) → words (echo_line n rest) ≡ echo_name ∷ words rest
words-echo_line zero rest = refl
words-echo_line (suc n) rest = words-echo_line n rest

-- The arguments of the line.
module _ (n : ℕ) (rest : List ℕ) where
  line_count : ((parse_args (echo_line n rest)).count == 0) ≡ false
  line_count =
      let e = (parse_args-words (echo_line n rest)).0 in
      let some_word : 0 < (parse_args (echo_line n rest)).count =
        omega (arith, e, ap length (words-echo_line n rest)) in
      ground arith

  line_name : arg (parse_args (echo_line n rest)) 0 ≡ echo_name
  line_name =
      let e = parse_args-words (echo_line n rest) in
      e.1 0 (omega (arith, e.0, ap length (words-echo_line n rest)))
      ∙ ap (λ (ws : List (List ℕ)). take 64 (get_or ws 0 [])) (words-echo_line n rest)

  name_len : get_or (parse_args (echo_line n rest)).lens 0 0 ≡ 4
  name_len =
      let e = (parse_args-words (echo_line n rest)).0 in
      parse_args-lens (echo_line n rest) 0 (omega (arith, e, ap length (words-echo_line n rest)))
      ∙ ap length line_name

execute-dispatch :
    (c : ℕ) (cs : List ℕ) (h : Hist)
    → ((parse_args (c ∷ cs)).count == 0) ≡ false
    → (execute (c ∷ cs) h).0
      ≡ dispatch
          (arg (parse_args (c ∷ cs)) 0)
          (c ∷ cs)
          (get_or (parse_args (c ∷ cs)).lens 0 0)
          (arg (parse_args (c ∷ cs)) 1)
          (history_push (c ∷ cs) h)
unfolding execute
execute-dispatch c cs h some_word = rw some_word

dispatch_echo :
    (line first : List ℕ) (h : Hist) → dispatch echo_name line 4 first h ≡ cmd_echo (drop 4 line)
unfolding solaros.Shell.eq_ci_str
dispatch_echo line first h = refl

execute_echo :
    (n : ℕ) (rest : List ℕ) (h : Hist)
    → (execute (echo_line n rest) h).0 ≡ cmd_echo (drop 4 (echo_line n rest))
execute_echo n rest h = nonempty n
  where
    dispatched :
        (n : ℕ)
        → dispatch
            (arg (parse_args (echo_line n rest)) 0)
            (echo_line n rest)
            (get_or (parse_args (echo_line n rest)).lens 0 0)
            (arg (parse_args (echo_line n rest)) 1)
            (history_push (echo_line n rest) h)
          ≡ cmd_echo (drop 4 (echo_line n rest))
    dispatched n =
        let line = echo_line n rest in
        let p = parse_args line in
        ap₂ (λ name k. dispatch name line k (arg p 1) (history_push line h)) (line_name n rest)
          (name_len n rest)
        ∙ dispatch_echo line (arg p 1) (history_push line h)

    nonempty : (n : ℕ) → (execute (echo_line n rest) h).0 ≡ cmd_echo (drop 4 (echo_line n rest))
    nonempty zero =
        execute-dispatch b'e' (codes "cho" ++ b' ' ∷ rest) h (line_count 0 rest) ∙ dispatched 0
    nonempty (suc n) =
        execute-dispatch b' ' (echo_line n rest) h (line_count (suc n) rest) ∙ dispatched (suc n)

echo_tail :
    (n : ℕ) (rest : List ℕ)
    → n ≤ 4
    → drop 4 (echo_line n rest) ≡ drop (4 - n) echo_name ++ b' ' ∷ rest
echo_tail zero rest h = refl
echo_tail (suc zero) rest h = refl
echo_tail (suc (suc zero)) rest h = refl
echo_tail (suc (suc (suc zero))) rest h = refl
echo_tail (suc (suc (suc (suc zero)))) rest h = refl
echo_tail (suc (suc (suc (suc (suc n))))) rest h = absurd (omega arith)

-- For a line of `n` spaces, at most four, then `echo`, a space and a rest: the shell prints the rest without its
-- first blanks when there are no spaces before `echo`, and otherwise the last `n` chars of the word `echo`, a
-- space and the whole rest.
pub execute-echo_line :
    (n : ℕ) (rest : List ℕ) (h : Hist)
    → n ≤ 4
    → (execute (echo_line n rest) h).0
      ≡ put_chars (if n == 0 then trim_front rest else drop (4 - n) echo_name ++ b' ' ∷ rest)
        ++ put_char b'\n' ∷ []
unfolding cmd_echo
execute-echo_line n rest h small =
    execute_echo n rest h ∙ ap cmd_echo (echo_tail n rest small) ∙ by_spaces n small
  where
    by_spaces :
        (n : ℕ)
        → n ≤ 4
        → cmd_echo (drop (4 - n) echo_name ++ b' ' ∷ rest)
          ≡ put_chars (if n == 0 then trim_front rest else drop (4 - n) echo_name ++ b' ' ∷ rest)
            ++ put_char b'\n' ∷ []
    by_spaces zero h = refl
    by_spaces (suc zero) h = refl
    by_spaces (suc (suc zero)) h = refl
    by_spaces (suc (suc (suc zero))) h = refl
    by_spaces (suc (suc (suc (suc zero)))) h = refl
    by_spaces (suc (suc (suc (suc (suc n))))) h = absurd (omega arith)
