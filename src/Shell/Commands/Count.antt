-- ===== src/Shell/Commands/Count.antt =====
-- The command `count` of the user shell, and the numbers that it prints (user/src/main.rs).
use package.solaros.Prelude.{
  ℕ, ◌+◌, ◌-◌, ◌*◌, ◌≤◌, ◌≡◌, refl, ◌∙◌, ap, true, ◌&&◌, ◌||◌, some, List, [], ◌∷◌, All, arith,
  if◌then◌else◌, ltb, leb, ◌==◌, min, Bool-cases, inl, inr,
}
use solaros.Shell.{puts}
use solaros.Shell.Commands.{count_value, count_answer, count_lines, cmd_count, u64_max}

abbrev pub IsDigit : ℕ → Type 0
IsDigit c = (b'0' ≤ c) × (c ≤ b'9')

-- The number that a numeral stands for, behind the digits that make `v`.
abbrev pub decimal : ℕ → List ℕ → ℕ
decimal v [] = v
decimal v (c ∷ cs) = decimal (v * 10 + (c - b'0')) cs

-- The saturated value of the digits so far is that of their number.
saturates :
    (v d : ℕ) → min (min (min v u64_max * 10) u64_max + d) u64_max ≡ min (v * 10 + d) u64_max
saturates v d = omega arith

count_value-decimal :
    (v : ℕ) (cs : List ℕ)
    → All IsDigit cs
    → count_value (min v u64_max) cs ≡ some (min (decimal v cs) u64_max)
unfolding count_value
count_value-decimal v [] all = refl
count_value-decimal v (c ∷ cs) all =
    let digit : (leb b'0' c && leb c b'9') ≡ true = ground (arith, all.0) in
    rw digit (
      ap (λ n. count_value n cs) (saturates v (c - b'0'))
      ∙ count_value-decimal (v * 10 + (c - b'0')) cs all.1)

-- In range the saturated number is the number itself, and out of range both are.
answer_saturated :
    (v : ℕ)
    → count_answer (some (min v u64_max)) ≡ (
        if (v == 0) || ltb 100 v
        then puts "Counting to that is too long! (try 1-100)\n"
        else count_lines v 1)
answer_saturated v =
    let same : ((min v u64_max == 0) || ltb 100 (min v u64_max)) ≡ ((v == 0) || ltb 100 v) =
      ground arith in
    elim (Bool-cases ((v == 0) || ltb 100 v)) [
      | inl out ↦ rw same (rw out)
      | inr inside ↦
          let small : min v u64_max ≡ v = ground arith in
          rw same (rw inside (ap (λ n. count_lines n 1) small))
    ]

-- For a numeral of any length, also one far above 2^64: `count` prints the numbers from 1 to its value when
-- that is from 1 to 100, and refuses it otherwise.
pub cmd_count-decimal :
    (c : ℕ) (cs : List ℕ)
    → All IsDigit (c ∷ cs)
    → cmd_count (c ∷ cs) ≡ (
        if (decimal 0 (c ∷ cs) == 0) || ltb 100 (decimal 0 (c ∷ cs))
        then puts "Counting to that is too long! (try 1-100)\n"
        else count_lines (decimal 0 (c ∷ cs)) 1)
unfolding cmd_count
cmd_count-decimal c cs all =
    ap count_answer (count_value-decimal 0 (c ∷ cs) all) ∙ answer_saturated (decimal 0 (c ∷ cs))
