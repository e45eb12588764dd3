-- ===== src/Keyboard/Tests.antt =====
-- Runs of the layout and the decoder, and the theorems at these (kernel/src/keyboard.rs).
use package.solaros.Prelude.{
  ℕ, ◌+◌, ◌≡◌, ◌≢◌, refl, true, false, List, [], ◌∷◌, Option, none, some, replicate, arith,
  if◌then◌else◌, ltb,
}
use package.solaros.Input.Queue.{IsRing}
use package.solaros.Keyboard.{
  Modifiers, unicode, letter_i, letter_q, map_keycode, Decoders, DecodedKey, ActiveKeyboard,
  switch_layout_if_needed, drain, turkish_q, Raw, raw_cap, us,
}
use package.solaros.Keyboard.Layout.{map_keycode_no_capital_i}
use package.solaros.Keyboard.Drain.{Drained, drain-Drained}

abbrev caps : Modifiers
caps = record { is_shifted = false; is_caps = true; is_ctrl = false }

abbrev plain : Modifiers
plain = record { is_shifted = false; is_caps = false; is_ctrl = false }

map_keycode_no_capital_i_example : map_keycode letter_i caps ≢ unicode b'I'
map_keycode_no_capital_i_example = map_keycode_no_capital_i letter_i caps

dotted_capital : map_keycode letter_i caps ≡ unicode 0x130
unfolding map_keycode
dotted_capital = refl

plain_q : map_keycode letter_q plain ≡ unicode b'q'
unfolding map_keycode
plain_q = refl

-- A decoder for which a byte below 128 is a key, and any other begins a sequence.
abbrev key_below : ℕ → ℕ → Option DecodedKey × ℕ
key_below sc k = (if ltb sc 128 then some (unicode sc) else none, k + 1)

abbrev toy : Decoders
toy = record { Tr = ℕ; Us = ℕ; new_tr = 0; new_us = 0; step_tr = key_below; step_us = key_below }

abbrev three : Raw
three = record {
  ring = record { buf = 65 ∷ 200 ∷ 66 ∷ replicate 509 0; w = 3; r = 0 };
  isr_pushed = 3;
}

three-IsRing : IsRing raw_cap three.ring (65 ∷ 200 ∷ 66 ∷ [])
three-IsRing = record {
  places = refl;
  reads = omega arith;
  writes = refl;
  room = omega arith;
  holds = (refl, (refl, (refl, tt)));
}

drain-Drained_example :
    (keys : List DecodedKey) × (kb' : ActiveKeyboard toy) × (raw' : Raw) × (rest : List ℕ) × (drain
        toy 4 turkish_q
        (us 7)
        three
      ≡ some (keys, kb', raw'))
    × Drained toy (switch_layout_if_needed toy turkish_q (us 7)) (65 ∷ 200 ∷ 66 ∷ []) keys kb' rest
    × IsRing raw_cap raw'.ring rest
drain-Drained_example =
    drain-Drained toy turkish_q 4 (us 7) three (65 ∷ 200 ∷ 66 ∷ []) (omega arith) three-IsRing
