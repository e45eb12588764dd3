-- ===== src/Keyboard/Layout.antt =====
-- What the Turkish layout makes of a key (kernel/src/keyboard.rs).
use package.solaros.Prelude.{ℕ, ◌-◌, ◌≤◌, ◌≡◌, ◌≢◌, true, false, arith}
use package.solaros.Keyboard.{KeyCode, Modifiers, unicode, map_keycode}
use package.solaros.Keyboard.{escape}

-- No key gives the capital letter I, whatever the modifiers.
pub map_keycode_no_capital_i : (k : KeyCode) (m : Modifiers) → map_keycode k m ≢ unicode b'I'
unfolding map_keycode
map_keycode_no_capital_i escape m = ground arith
map_keycode_no_capital_i _ m = ground arith

-- A key that gives an English small letter other than i gives its capital under caps.
pub map_keycode_caps :
    (k : KeyCode) (m : Modifiers) (c : ℕ)
    → m.is_ctrl ≡ false
    → m.is_caps ≡ false
    → map_keycode k m ≡ unicode c
    → b'a' ≤ c
    → c ≤ b'z'
    → c ≢ b'i'
    → map_keycode k (record m { is_caps = true }) ≡ unicode (c - 32)
unfolding map_keycode
map_keycode_caps escape m c = ground arith
map_keycode_caps _ m c = ground arith
