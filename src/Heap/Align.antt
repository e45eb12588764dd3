-- ===== src/Heap/Align.antt =====
-- What `align_up` computes (kernel/src/heap.rs).
use package.solaros.Prelude.{
  bit_and, ℕ, zero, suc, ◌+◌, ◌-◌, ◌*◌, ◌/◌, ◌%◌, ◌^◌, ◌≤◌, ◌<◌, ◌≡◌, ap, ◌∙◌, arith,
}
use package.solaros.Prelude.Bits.{bit_and_mask, one_le_pow}
use native.Mathlib.Nat.{pow-suc, div-add-mod', mod-lt}
use mathlib.Core.Path.{sym}
use solaros.Heap.{align_up, block_header}

pow_le : (k w : ℕ) → k ≤ w → 2 ^ k ≤ 2 ^ w
pow_le zero w h = omega (arith, one_le_pow w)
pow_le (suc k) zero h = elim h [ ]
pow_le (suc k) (suc w) h = omega (arith, pow-suc 2 k, pow-suc 2 w, pow_le k w (omega arith))

-- The least multiple of `2 ^ k` that is not below `v`.
pub record RoundsUp (k v r : ℕ) : Type 0 where
  pub count : ℕ
  pub multiple : r ≡ count * 2 ^ k
  pub above : v ≤ r
  pub near : r < v + 2 ^ k

-- The mask rounds down what is `2 ^ k - 1` above `v`.
align_up-eq :
    (k v x : ℕ)
    → k ≤ 63
    → v + 2 ^ k ≤ 2 ^ 64
    → x + 1 ≡ v + 2 ^ k
    → align_up v (2 ^ k) ≡ x / 2 ^ k * 2 ^ k
unfolding align_up
align_up-eq k v x small fits ex =
    ap (λ y. bit_and y (2 ^ 64 - 1 - (2 ^ k - 1))) {y = x} (omega (arith, one_le_pow k))
    ∙ bit_and_mask 64 k (2 ^ 64 - 1 - (2 ^ k - 1)) x (x / 2 ^ k) (x % 2 ^ k)
        (omega (arith, one_le_pow k)) (omega (arith, one_le_pow k)) (sym (div-add-mod' x (2 ^ k)))
        (mod-lt x (one_le_pow k))

pub align_up-RoundsUp : (k v : ℕ) → k ≤ 63 → v + 2 ^ k ≤ 2 ^ 64 → RoundsUp k v (align_up v (2 ^ k))
align_up-RoundsUp k v small fits =
    let x = v + 2 ^ k - 1 in
    let e = align_up-eq k v x small fits (omega (arith, one_le_pow k)) in
    let split = div-add-mod' x (2 ^ k) in
    let low = mod-lt x (one_le_pow k) in
    record {
      count = x / 2 ^ k;
      multiple = e;
      above = omega (arith, e, split, low, one_le_pow k);
      near = omega (arith, e, split, low, one_le_pow k);
    }

-- To a multiple of 16.
pub align_up_16 :
    (v : ℕ)
    → v + 16 ≤ 2 ^ 64
    → (align_up v 16 % 16 ≡ 0) × (v ≤ align_up v 16) × (align_up v 16 < v + 16)
align_up_16 v fits =
    let r = align_up-RoundsUp 4 v (omega arith) fits in (omega (arith, r.multiple), r.above, r.near)

-- The place of the payload behind its header, for an alignment of `2 ^ k`.
pub record IsPayload (k off : ℕ) : Type 0 where
  pub holds : block_header ≤ off
  pub aligned : off % 16 ≡ 0
  pub near : off < block_header + 2 ^ k
  pub count : ℕ
  pub multiple : off ≡ count * 2 ^ k

pow_add_four : (j : ℕ) → 2 ^ suc (suc (suc (suc j))) ≡ 2 ^ j * 16
pow_add_four j =
    omega (
      arith,
      pow-suc 2 j,
      pow-suc 2 (suc j),
      pow-suc 2 (suc (suc j)),
      pow-suc 2 (suc (suc (suc j))),
    )

-- A multiple of a power of two in this range is one of 16, as the power is small or large.
header_aligned : (k r c : ℕ) → r ≡ c * 2 ^ k → 16 ≤ r → r < 16 + 2 ^ k → r % 16 ≡ 0
header_aligned zero r c e low high = omega arith
header_aligned (suc zero) r c e low high = omega arith
header_aligned (suc (suc zero)) r c e low high = omega arith
header_aligned (suc (suc (suc zero))) r c e low high = omega arith
header_aligned (suc (suc (suc (suc j)))) r c e low high =
    let sixteen : r ≡ c * 2 ^ j * 16 = omega (arith, ap (λ (t : ℕ). c * t) (pow_add_four j)) in
    omega arith

pub header-IsPayload : (k : ℕ) → k ≤ 62 → IsPayload k (align_up block_header (2 ^ k))
header-IsPayload k small =
    let r = align_up-RoundsUp k block_header (omega arith) (omega (arith, pow_le k 62 small)) in
    record {
      holds = r.above;
      aligned = header_aligned k (align_up block_header (2 ^ k)) r.count r.multiple r.above r.near;
      near = r.near;
      count = r.count;
      multiple = r.multiple;
    }
