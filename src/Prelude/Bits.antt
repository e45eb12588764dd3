-- ===== src/Prelude/Bits.antt =====
-- Laws of the native bit operations at variables, from their digit recursion.
use Prim.Native.Nat.{
  ℕ, zero, suc, ◌+◌, ◌-◌, ◌*◌, ◌/◌, ◌%◌, ◌^◌, ◌≤◌, ◌<◌, min, bit_and, digits, bit_and-bitwise,
}
use mathlib.Core.Path.{◌≡◌, refl, ap, ◌∙◌}
use native.Mathlib.Nat.{pow-suc}
use native.Mathlib.Omega.{arith}

-- `bit_and x y` is this at fuel `x`.
abbrev conj : ℕ → ℕ → ℕ → ℕ
conj fuel x y = digits (λ y. zero) min fuel x y

-- One more round changes nothing, once there are as many rounds as the first number.
conj_settled : (fuel x y : ℕ) → x ≤ fuel → conj (suc fuel) x y ≡ conj fuel x y
conj_settled fuel zero y low = conj_zero fuel y
  where
    conj_zero : (f y : ℕ) → conj (suc f) 0 y ≡ conj f 0 y
    conj_zero zero y = refl
    conj_zero (suc f) y = refl
conj_settled zero (suc x) y low = absurd (omega arith)
conj_settled (suc fuel) (suc x) y low =
    omega (arith, conj_settled fuel (suc x / 2) (y / 2) (omega arith))

conj_more :
    (extra fuel more x y : ℕ) → more ≡ fuel + extra → x ≤ fuel → conj more x y ≡ conj fuel x y
conj_more zero fuel more x y sum low = ap (λ f. conj f x y) (omega arith)
conj_more (suc extra) fuel zero x y sum low = absurd (omega arith)
conj_more (suc extra) fuel (suc more) x y sum low =
    conj_settled more x y (omega arith) ∙ conj_more extra fuel more x y (omega arith) low

pub one_le_pow : (k : ℕ) → 1 ≤ 2 ^ k
one_le_pow zero = omega arith
one_le_pow (suc k) = omega (arith, pow-suc 2 k, one_le_pow k)

zero-bit_and : (y : ℕ) → bit_and 0 y ≡ 0
zero-bit_and = bit_and-bitwise 0

-- The lowest digit, and the rest.
pub bit_and_halves : (x y : ℕ) → bit_and x y ≡ 2 * bit_and (x / 2) (y / 2) + min (x % 2) (y % 2)
bit_and_halves zero y = omega (arith, zero-bit_and y, zero-bit_and (y / 2))
bit_and_halves (suc x) y =
    let half = suc x / 2 in
    let same = conj_more (x - half) half x half (y / 2) (omega arith) (omega arith) in
    omega (arith, bit_and-bitwise half (y / 2), same, bit_and-bitwise (suc x) y)

double : (q k : ℕ) → q * 2 ^ suc k ≡ q * 2 ^ k * 2
double q k = omega (arith, ap (λ (t : ℕ). q * t) (pow-suc 2 k))

bit_and_zero : (x m : ℕ) → x ≡ 0 → bit_and x m ≡ 0
bit_and_zero x m e = rw (e, zero-bit_and)

-- A mask that clears the low `k` bits of a `w`-bit word rounds down to a multiple of `2 ^ k`.
pub bit_and_mask :
    (w k m x q r : ℕ)
    → m + 2 ^ k ≡ 2 ^ w
    → x < 2 ^ w
    → x ≡ q * 2 ^ k + r
    → r < 2 ^ k
    → bit_and x m ≡ q * 2 ^ k
bit_and_mask zero zero m x q r hm hx e hr =
    omega (arith, bit_and_halves x m, zero-bit_and (m / 2), bit_and_zero x m (omega arith))
bit_and_mask zero (suc k) m x q r hm hx e hr = absurd (omega (arith, pow-suc 2 k, one_le_pow k))
bit_and_mask (suc w) zero m x q r hm hx e hr = omega (
  arith,
  pow-suc 2 w,
  bit_and_halves x m,
  bit_and_mask w 0 (m / 2) (x / 2) (x / 2) 0 (omega (arith, pow-suc 2 w, one_le_pow w))
      (omega (arith, pow-suc 2 w)) (omega arith) (omega arith),
  one_le_pow w,
)
bit_and_mask (suc w) (suc k) m x q r hm hx e hr = omega (
  arith,
  pow-suc 2 w,
  double q k,
  pow-suc 2 k,
  bit_and_halves x m,
  bit_and_mask w k (m / 2) (x / 2) q (r / 2) (omega (arith, pow-suc 2 w, pow-suc 2 k))
      (omega (arith, pow-suc 2 w)) (omega (arith, double q k)) (omega (arith, pow-suc 2 k)),
)

pub bit_and_le : (fuel x m : ℕ) → x ≤ fuel → bit_and x m ≤ x
bit_and_le zero x m h = omega (arith, bit_and_zero x m (omega arith))
bit_and_le (suc fuel) zero m h = omega (arith, bit_and_zero 0 m refl)
bit_and_le (suc fuel) (suc x) m h =
    omega (arith, bit_and_halves (suc x) m, bit_and_le fuel (suc x / 2) (m / 2) (omega arith))
