-- ===== src/Crc/Tests.antt =====
-- The checksum of the standard test string, and its theorem at a changed byte (kernel/src/crc.rs).
use package.solaros.Prelude.{◌^◌, ◌<◌, ◌≡◌, ◌≢◌, refl, [], ◌∷◌, ◌++◌, arith, bit_xor}
use solaros.Shell.{codes}
use solaros.Crc.{crc32c}
use solaros.Crc.Detects.{crc32c-detects}

-- The check value of CRC-32C is 0xE3069283, which has the final exclusive or.
digits_run : bit_xor (crc32c 0xFFFF_FFFF (codes "123456789")) 0xFFFF_FFFF ≡ 0xE306_9283
unfolding crc32c
digits_run = refl

crc32c-detects_example :
    (crc32c 0xFFFF_FFFF ((b'a' ∷ []) ++ b'b' ∷ b'c' ∷ []) < 2 ^ 32)
    × (crc32c 0xFFFF_FFFF ((b'a' ∷ []) ++ b'b' ∷ b'c' ∷ [])
        ≢ crc32c 0xFFFF_FFFF ((b'a' ∷ []) ++ b'd' ∷ b'c' ∷ []))
crc32c-detects_example =
    crc32c-detects 0xFFFF_FFFF (b'a' ∷ []) (b'c' ∷ []) b'b' b'd' (omega arith) (omega arith, tt)
      (omega arith, tt) (omega arith) (omega arith) (λ e. absurd (omega arith))
