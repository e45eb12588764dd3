-- ===== src/Input/Tests.antt =====
-- Runs of the serial ring, and its theorems at these (kernel/src/input.rs).
use package.solaros.Prelude.{ℕ, ◌≡◌, refl, [], ◌∷◌, none, some, replicate, arith}
use solaros.Input.{Ring, drain_receiver, serial_cap, read_round}
use solaros.Input.Queue.{IsRing}
use solaros.Input.Serial.{Drained, drain_receiver-Drained}

-- A ring of four places in which the byte 7 stands at the end of the buffer.
abbrev four : Ring
four = record { buf = 0 ∷ 0 ∷ 0 ∷ 7 ∷ []; w = 0; r = 3 }

four-IsRing : IsRing 4 four (7 ∷ [])
four-IsRing = record {
  places = refl;
  reads = omega arith;
  writes = refl;
  room = omega arith;
  holds = (refl, tt);
}

-- The ring as the kernel starts with it.
abbrev fresh : Ring
fresh = record { buf = replicate serial_cap 0; w = 0; r = 0 }

fresh-IsRing : IsRing serial_cap fresh []
fresh-IsRing = record {
  places = refl;
  reads = omega arith;
  writes = refl;
  room = omega arith;
  holds = tt;
}

drain_receiver-Drained_example :
    Drained []
      (65 ∷ 66 ∷ [])
      (drain_receiver (65 ∷ 66 ∷ []) fresh).0
      (drain_receiver (65 ∷ 66 ∷ []) fresh).1
drain_receiver-Drained_example = drain_receiver-Drained (65 ∷ 66 ∷ []) [] fresh fresh-IsRing

-- The first byte is no character, and the round goes on to the second.
read_run :
    (read_round {K = ℕ}
      (λ k. (none, k))
      (record { ring = fresh; receiver = 65 ∷ []; keyboard = 0 })).0
    ≡ some 65
unfolding read_round
read_run = refl
