-- ===== src/Crc.antt =====
-- CRC32C, kernel/src/crc.rs: the checksum of the metadata of ext4.
pub mod Detects
mod Tests
use package.solaros.Prelude.{
  ℕ, zero, suc, ◌/◌, ◌==◌, not, List, [], ◌∷◌, bit_and, bit_xor, if◌then◌else◌,
}

-- `POLY`
abbrev pub poly : ℕ
poly = 0x82F6_3B78

-- One round of the inner loop.
pub crc_bit : ℕ → ℕ
crc_bit c = if not (bit_and c 1 == 0) then bit_xor (c / 2) poly else c / 2

-- The inner loop.
pub crc_bits : ℕ → ℕ → ℕ
unfolding crc_bit
crc_bits zero c = c
crc_bits (suc n) c = crc_bits n (crc_bit c)

unfoldable pub crc32c : ℕ → List ℕ → ℕ
unfolding crc_bits
crc32c init [] = init
crc32c init (b ∷ bytes) = crc32c (crc_bits 8 (bit_xor init b)) bytes
