-- ===== src/Crc/Detects.antt =====
-- The checksum stays in 32 bits, and a changed byte changes it (kernel/src/crc.rs).
use package.solaros.Prelude.{
  ℕ, zero, suc, ◌/◌, ◌%◌, ◌^◌, ◌≤◌, ◌<◌, ◌≡◌, ◌≢◌, ◌⊎◌, inl, inr, refl, sym, ◌∙◌, ap, true, false,
  List, [], ◌∷◌, ◌++◌, bit_and, bit_xor, ◌==◌, arith, All, All-append, Bool-cases,
}
use package.solaros.Prelude.Xor.{
  bit_xor_below, bit_xor_again, bit_xor_comm, bit_xor_top, bit_and_one,
}
use solaros.Crc.{poly, crc_bit, crc_bits, crc32c}

-- The two cases of a round, by the lowest bit.
crc_bit-odd : (c : ℕ) → c % 2 ≡ 1 → crc_bit c ≡ bit_xor (c / 2) poly
unfolding crc_bit
crc_bit-odd c h =
    let test : (bit_and c 1 == 0) ≡ false = ground (arith, bit_and_one c) in rw (test, crc_bit)

crc_bit-even : (c : ℕ) → c % 2 ≡ 0 → crc_bit c ≡ c / 2
unfolding crc_bit
crc_bit-even c h =
    let test : (bit_and c 1 == 0) ≡ true = ground (arith, bit_and_one c) in rw (test, crc_bit)

xor_inj : (x x' y : ℕ) → x < 2 ^ 32 → x' < 2 ^ 32 → y < 2 ^ 32 → bit_xor x y ≡ bit_xor x' y → x ≡ x'
xor_inj x x' y hx hx' hy e =
    sym (bit_xor_again 32 x y hx hy) ∙ ap (λ n. bit_xor n y) e ∙ bit_xor_again 32 x' y hx' hy

-- An odd word gets the highest bit of the polynomial, an even one does not.
odd_top : (c : ℕ) → c < 2 ^ 32 → c % 2 ≡ 1 → 2 ^ 31 ≤ crc_bit c
odd_top c h odd = omega (
  arith,
  crc_bit-odd c odd,
  bit_xor_top 31 (c / 2) poly (omega arith) (omega arith) (omega arith),
)

even_top : (c : ℕ) → c < 2 ^ 32 → c % 2 ≡ 0 → crc_bit c < 2 ^ 31
even_top c h even = omega (arith, crc_bit-even c even)

parity : (c : ℕ) → (c % 2 ≡ 0) ⊎ (c % 2 ≡ 1)
parity c = elim (Bool-cases (c % 2 == 0)) [
  | inl e ↦ inl (ground arith)
  | inr e ↦ inr (ground arith)
]

crc_bit_below : (c : ℕ) → c < 2 ^ 32 → crc_bit c < 2 ^ 32
crc_bit_below c h = elim (parity c) [
  | inl even ↦ omega (arith, crc_bit-even c even)
  | inr odd ↦
      omega (arith, crc_bit-odd c odd, bit_xor_below 32 (c / 2) poly (omega arith) (omega arith))
]

crc_bit_inj : (c c' : ℕ) → c < 2 ^ 32 → c' < 2 ^ 32 → crc_bit c ≡ crc_bit c' → c ≡ c'
crc_bit_inj c c' h h' e = elim (parity c) [
  | inl p ↦ elim (parity c') [
    | inl q ↦ omega (arith, p, q, e, crc_bit-even c p, crc_bit-even c' q)
    | inr q ↦ absurd (omega (arith, e, even_top c h p, odd_top c' h' q))
  ]
  | inr p ↦ elim (parity c') [
    | inl q ↦ absurd (omega (arith, e, odd_top c h p, even_top c' h' q))
    | inr q ↦
        let same =
          xor_inj (c / 2) (c' / 2) poly (omega arith) (omega arith) (omega arith)
            (sym (crc_bit-odd c p) ∙ e ∙ crc_bit-odd c' q) in
        omega (arith, p, q, same)
  ]
]

crc_bits_below : (n c : ℕ) → c < 2 ^ 32 → crc_bits n c < 2 ^ 32
unfolding crc_bits
crc_bits_below zero c h = h
crc_bits_below (suc n) c h = crc_bits_below n (crc_bit c) (crc_bit_below c h)

crc_bits_inj : (n c c' : ℕ) → c < 2 ^ 32 → c' < 2 ^ 32 → crc_bits n c ≡ crc_bits n c' → c ≡ c'
unfolding crc_bits
crc_bits_inj zero c c' h h' e = e
crc_bits_inj (suc n) c c' h h' e =
    crc_bit_inj c c' h h'
      (crc_bits_inj n (crc_bit c) (crc_bit c') (crc_bit_below c h) (crc_bit_below c' h') e)

abbrev pub IsByte : ℕ → Type 0
IsByte b = b < 256

-- One byte of the outer loop.
byte_below : (init b : ℕ) → init < 2 ^ 32 → IsByte b → crc_bits 8 (bit_xor init b) < 2 ^ 32
byte_below init b h hb = crc_bits_below 8 (bit_xor init b) (bit_xor_below 32 init b h (omega arith))

pub crc32c_below :
    (init : ℕ) (bytes : List ℕ) → init < 2 ^ 32 → All IsByte bytes → crc32c init bytes < 2 ^ 32
unfolding crc32c
crc32c_below init [] h all = h
crc32c_below init (b ∷ bytes) h all =
    crc32c_below (crc_bits 8 (bit_xor init b)) bytes (byte_below init b h all.0) all.1

-- The checksum goes on from that of the first part.
pub crc32c-append :
    (init : ℕ) (xs ys : List ℕ) → crc32c init (xs ++ ys) ≡ crc32c (crc32c init xs) ys
unfolding crc32c
crc32c-append init [] ys = refl
crc32c-append init (x ∷ xs) ys = crc32c-append (crc_bits 8 (bit_xor init x)) xs ys

crc32c_inj :
    (init init' : ℕ) (bytes : List ℕ)
    → init < 2 ^ 32
    → init' < 2 ^ 32
    → All IsByte bytes
    → crc32c init bytes ≡ crc32c init' bytes
    → init ≡ init'
unfolding crc32c
crc32c_inj init init' [] h h' all e = e
crc32c_inj init init' (b ∷ bytes) h h' all e =
    let below : b < 2 ^ 32 = omega (arith, all.0) in
    let same =
      crc32c_inj (crc_bits 8 (bit_xor init b)) (crc_bits 8 (bit_xor init' b)) bytes
        (byte_below init b h all.0) (byte_below init' b h' all.0) all.1 e in
    xor_inj init init' b h h' below (
      crc_bits_inj 8 (bit_xor init b) (bit_xor init' b) (bit_xor_below 32 init b h below)
        (bit_xor_below 32 init' b h' below) same)

-- For any initial value of 32 bits and any bytes: the checksum has 32 bits, and when one byte is changed, wherever
-- it stands, the checksum is another one.
pub crc32c-detects :
    (init : ℕ) (xs ys : List ℕ) (b b' : ℕ)
    → init < 2 ^ 32
    → All IsByte xs
    → All IsByte ys
    → IsByte b
    → IsByte b'
    → b ≢ b'
    → (crc32c init (xs ++ b ∷ ys) < 2 ^ 32)
      × (crc32c init (xs ++ b ∷ ys) ≢ crc32c init (xs ++ b' ∷ ys))
unfolding crc32c
crc32c-detects init xs ys b b' h hxs hys hb hb' ne =
    let c = crc32c init xs in
    let below = crc32c_below init xs h hxs in
    let comm = λ (x : ℕ) (hx : IsByte x). bit_xor_comm 32 x c (omega arith) below in
    let same = λ (e : crc32c init (xs ++ b ∷ ys) ≡ crc32c init (xs ++ b' ∷ ys)).
      crc_bits_inj 8 (bit_xor c b) (bit_xor c b') (bit_xor_below 32 c b below (omega arith))
        (bit_xor_below 32 c b' below (omega arith))
        (crc32c_inj (crc_bits 8 (bit_xor c b)) (crc_bits 8 (bit_xor c b')) ys
          (byte_below c b below hb) (byte_below c b' below hb') hys
          (sym (crc32c-append init xs (b ∷ ys)) ∙ e ∙ crc32c-append init xs (b' ∷ ys))) in
    (
      crc32c_below init (xs ++ b ∷ ys) h (All-append IsByte xs (b ∷ ys) hxs (hb, hys)),
      λ e. ne (
          xor_inj b b' c (omega arith) (omega arith) below
            (comm b hb ∙ same e ∙ sym (comm b' hb'))),
    )
