-- ===== src/Prelude/Xor.antt =====
-- Laws of exclusive or on machine words, from its digit recursion.
use Prim.Native.Nat.{
  ℕ, zero, suc, ◌+◌, ◌-◌, ◌*◌, ◌/◌, ◌%◌, ◌^◌, ◌≤◌, ◌<◌, bit_and, bit_xor, digits, differ,
  bit_xor-bitwise,
}
use mathlib.Core.Path.{◌≡◌, refl, ap, ◌∙◌}
use native.Mathlib.Nat.{pow-suc}
use native.Mathlib.Omega.{arith}
use package.solaros.Prelude.Bits.{bit_and_halves}

-- `bit_xor x y` is this at fuel `x`.
abbrev xored : ℕ → ℕ → ℕ → ℕ
xored fuel x y = digits (λ y. y) differ fuel x y

xored_settled : (fuel x y : ℕ) → x ≤ fuel → xored (suc fuel) x y ≡ xored fuel x y
xored_settled zero zero y low = refl
xored_settled (suc fuel) zero y low = refl
xored_settled zero (suc x) y low = absurd (omega arith)
xored_settled (suc fuel) (suc x) y low =
    omega (arith, xored_settled fuel (suc x / 2) (y / 2) (omega arith))

xored_more :
    (extra fuel more x y : ℕ) → more ≡ fuel + extra → x ≤ fuel → xored more x y ≡ xored fuel x y
xored_more zero fuel more x y sum low = ap (λ f. xored f x y) (omega arith)
xored_more (suc extra) fuel zero x y sum low = absurd (omega arith)
xored_more (suc extra) fuel (suc more) x y sum low =
    xored_settled more x y (omega arith) ∙ xored_more extra fuel more x y (omega arith) low

zero-bit_xor : (y : ℕ) → bit_xor 0 y ≡ y
zero-bit_xor = bit_xor-bitwise 0

differ_zero : (y : ℕ) → differ 0 y ≡ y
differ_zero y = refl

-- The lowest digit, and the rest.
pub bit_xor_halves : (x y : ℕ) → bit_xor x y ≡ 2 * bit_xor (x / 2) (y / 2) + differ (x % 2) (y % 2)
bit_xor_halves zero y = omega (arith, zero-bit_xor y, zero-bit_xor (y / 2))
bit_xor_halves (suc x) y =
    let half = suc x / 2 in
    let same = xored_more (x - half) half x half (y / 2) (omega arith) (omega arith) in
    omega (arith, bit_xor-bitwise half (y / 2), same, bit_xor-bitwise (suc x) y)

differ_small : (a b : ℕ) → a < 2 → b < 2 → differ a b < 2
differ_small zero b ha hb = hb
differ_small (suc zero) zero ha hb = omega arith
differ_small (suc zero) (suc zero) ha hb = omega arith
differ_small (suc zero) (suc (suc b)) ha hb = absurd (omega arith)
differ_small (suc (suc a)) b ha hb = absurd (omega arith)

differ_again : (a b : ℕ) → a < 2 → b < 2 → differ (differ a b) b ≡ a
differ_again zero zero ha hb = refl
differ_again zero (suc zero) ha hb = refl
differ_again zero (suc (suc b)) ha hb = absurd (omega arith)
differ_again (suc zero) zero ha hb = refl
differ_again (suc zero) (suc zero) ha hb = refl
differ_again (suc zero) (suc (suc b)) ha hb = absurd (omega arith)
differ_again (suc (suc a)) b ha hb = absurd (omega arith)

differ_comm : (a b : ℕ) → differ a b ≡ differ b a
differ_comm zero zero = refl
differ_comm zero (suc b) = refl
differ_comm (suc a) zero = refl
differ_comm (suc a) (suc b) = differ_comm a b

halved : (h e : ℕ) → e < 2 → (2 * h + e) / 2 ≡ h
halved h e small = omega arith

lowest : (h e : ℕ) → e < 2 → (2 * h + e) % 2 ≡ e
lowest h e small = omega arith

pub bit_xor_below : (w x y : ℕ) → x < 2 ^ w → y < 2 ^ w → bit_xor x y < 2 ^ w
bit_xor_below zero zero y hx hy = omega (arith, zero-bit_xor y)
bit_xor_below zero (suc x) y hx hy = absurd (omega arith)
bit_xor_below (suc w) x y hx hy =
    let size = pow-suc 2 w in
    omega (
      arith,
      size,
      bit_xor_halves x y,
      differ_small (x % 2) (y % 2) (omega arith) (omega arith),
      bit_xor_below w (x / 2) (y / 2) (omega (arith, size)) (omega (arith, size)),
    )

-- A word that is put in twice cancels.
pub bit_xor_again : (w x y : ℕ) → x < 2 ^ w → y < 2 ^ w → bit_xor (bit_xor x y) y ≡ x
bit_xor_again zero zero y hx hy =
    let none : y ≡ 0 = omega arith in
    ap (λ n. bit_xor n y) (zero-bit_xor y) ∙ ap (λ n. bit_xor n y) none ∙ zero-bit_xor y ∙ none
bit_xor_again zero (suc x) y hx hy = absurd (omega arith)
bit_xor_again (suc w) x y hx hy =
    let size = pow-suc 2 w in
    let h = bit_xor (x / 2) (y / 2) in
    let e = differ (x % 2) (y % 2) in
    let small = differ_small (x % 2) (y % 2) (omega arith) (omega arith) in
    let rest = bit_xor_again w (x / 2) (y / 2) (omega (arith, size)) (omega (arith, size)) in
    let digit = differ_again (x % 2) (y % 2) (omega arith) (omega arith) in
    let above =
      ap (λ n. bit_xor n (y / 2)) (ap (λ n. n / 2) (bit_xor_halves x y) ∙ halved h e small) in
    let low =
      ap (λ n. differ n (y % 2)) (ap (λ n. n % 2) (bit_xor_halves x y) ∙ lowest h e small) in
    omega (arith, bit_xor_halves (bit_xor x y) y, above, low, rest, digit)

pub bit_xor_comm : (w x y : ℕ) → x < 2 ^ w → y < 2 ^ w → bit_xor x y ≡ bit_xor y x
bit_xor_comm zero zero zero hx hy = refl
bit_xor_comm zero zero (suc y) hx hy = absurd (omega arith)
bit_xor_comm zero (suc x) y hx hy = absurd (omega arith)
bit_xor_comm (suc w) x y hx hy =
    let size = pow-suc 2 w in
    omega (
      arith,
      bit_xor_halves x y,
      bit_xor_halves y x,
      differ_comm (x % 2) (y % 2),
      bit_xor_comm w (x / 2) (y / 2) (omega (arith, size)) (omega (arith, size)),
    )

-- The highest digit of one word stays where the other has none.
pub bit_xor_top : (w x y : ℕ) → x < 2 ^ w → 2 ^ w ≤ y → y < 2 ^ suc w → 2 ^ w ≤ bit_xor x y
bit_xor_top zero zero y hx low high = omega (arith, zero-bit_xor y)
bit_xor_top zero (suc x) y hx low high = absurd (omega arith)
bit_xor_top (suc w) x y hx low high =
    let size = pow-suc 2 w in
    let next = pow-suc 2 (suc w) in
    omega (
      arith,
      size,
      next,
      bit_xor_halves x y,
      bit_xor_top w (x / 2) (y / 2) (omega (arith, size)) (omega (arith, size))
          (omega (arith, size, next)),
    )

bit_and_zero : (fuel x : ℕ) → x ≤ fuel → bit_and x 0 ≡ 0
bit_and_zero zero x low =
    omega (arith, bit_and_halves x 0, ap (λ n. bit_and n 0) {x = x} {y = x / 2} (omega arith))
bit_and_zero (suc fuel) x low =
    omega (arith, bit_and_halves x 0, bit_and_zero fuel (x / 2) (omega arith))

-- The lowest bit.
pub bit_and_one : (x : ℕ) → bit_and x 1 ≡ x % 2
bit_and_one x = omega (arith, bit_and_halves x 1, bit_and_zero x (x / 2) (omega arith))
