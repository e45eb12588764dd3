-- ===== src/Keyboard.antt =====
-- The Turkish layout, the ring of scancodes and the decoder that reads it (kernel/src/keyboard.rs). A
-- char is its code point.
pub mod Layout
pub mod Decode
pub mod Drain
mod Tests
use package.solaros.Prelude.{
  ℕ, zero, suc, ◌+◌, Bool, true, false, List, [], ◌∷◌, Option, none, some, if◌then◌else◌,
}
use package.solaros.Input.{Ring, push, pop}

-- The codes of the pc_keyboard crate that the layout names; `other` stands for the rest.
pub data KeyCode : Type 0 where
  escape key_1 key_2 key_3 key_4 key_5 key_6 key_7 key_8 key_9 key_0 oem_minus oem_plus oem_8 :
      KeyCode
  backspace tab letter_q letter_w letter_e letter_r letter_t letter_y letter_u letter_i : KeyCode
  letter_o letter_p oem_4 oem_6 letter_a letter_s letter_d letter_f letter_g letter_h letter_j :
      KeyCode
  letter_k letter_l oem_1 oem_3 return letter_z letter_x letter_c letter_v letter_b letter_n :
      KeyCode
  letter_m oem_comma oem_period oem_2 oem_7 oem_5 spacebar delete numpad_divide numpad_multiply :
      KeyCode
  numpad_subtract numpad_add numpad_enter : KeyCode
  other : ℕ → KeyCode

-- What the layout asks of the crate's `Modifiers`.
pub record Modifiers : Type 0 where
  pub is_shifted : Bool
  pub is_caps : Bool
  pub is_ctrl : Bool

pub data DecodedKey : Type 0 where
  unicode : ℕ → DecodedKey
  raw_key : KeyCode → DecodedKey

abbrev map2 : ℕ → ℕ → Modifiers → DecodedKey
map2 plain shifted m = if m.is_shifted then unicode shifted else unicode plain

abbrev letter : ℕ → ℕ → Modifiers → DecodedKey
letter lower upper m = if m.is_caps then unicode upper else unicode lower

abbrev tr_i : ℕ → Modifiers → DecodedKey
tr_i plain m = if m.is_caps then unicode 0x130 else unicode plain

pub map_keycode : KeyCode → Modifiers → DecodedKey
map_keycode escape m = unicode 0x1b
map_keycode key_1 m = map2 b'1' b'!' m
map_keycode key_2 m = map2 b'2' 0x27 m
map_keycode key_3 m = map2 b'3' b'^' m
map_keycode key_4 m = map2 b'4' b'+' m
map_keycode key_5 m = map2 b'5' b'%' m
map_keycode key_6 m = map2 b'6' b'&' m
map_keycode key_7 m = map2 b'7' b'/' m
map_keycode key_8 m = map2 b'8' b'(' m
map_keycode key_9 m = map2 b'9' b')' m
map_keycode key_0 m = map2 b'0' b'=' m
map_keycode oem_minus m = map2 b'*' b'?' m
map_keycode oem_plus m = map2 b'-' b'_' m
map_keycode oem_8 m = map2 b'"' 0xe9 m
map_keycode backspace m = unicode 0x8
map_keycode tab m = unicode 0x9
map_keycode letter_q m = letter b'q' b'Q' m
map_keycode letter_w m = letter b'w' b'W' m
map_keycode letter_e m = letter b'e' b'E' m
map_keycode letter_r m = letter b'r' b'R' m
map_keycode letter_t m = letter b't' b'T' m
map_keycode letter_y m = letter b'y' b'Y' m
map_keycode letter_u m = letter b'u' b'U' m
map_keycode letter_i m = tr_i 0x131 m
map_keycode letter_o m = letter b'o' b'O' m
map_keycode letter_p m = letter b'p' b'P' m
map_keycode oem_4 m = map2 0x11f 0x11e m
map_keycode oem_6 m = map2 0xfc 0xdc m
map_keycode letter_a m = letter b'a' b'A' m
map_keycode letter_s m = letter b's' b'S' m
map_keycode letter_d m = letter b'd' b'D' m
map_keycode letter_f m = letter b'f' b'F' m
map_keycode letter_g m = letter b'g' b'G' m
map_keycode letter_h m = letter b'h' b'H' m
map_keycode letter_j m = letter b'j' b'J' m
map_keycode letter_k m = letter b'k' b'K' m
map_keycode letter_l m = letter b'l' b'L' m
map_keycode oem_1 m = map2 0x15f 0x15e m
map_keycode oem_3 m = tr_i b'i' m
map_keycode return m = unicode 0xa
map_keycode letter_z m = letter b'z' b'Z' m
map_keycode letter_x m = letter b'x' b'X' m
map_keycode letter_c m = if m.is_ctrl then unicode 0x3 else letter b'c' b'C' m
map_keycode letter_v m = letter b'v' b'V' m
map_keycode letter_b m = letter b'b' b'B' m
map_keycode letter_n m = letter b'n' b'N' m
map_keycode letter_m m = letter b'm' b'M' m
map_keycode oem_comma m = map2 0xf6 0xd6 m
map_keycode oem_period m = map2 0xe7 0xc7 m
map_keycode oem_2 m = map2 b'.' b':' m
map_keycode oem_7 m = map2 b',' b';' m
map_keycode oem_5 m = map2 b'<' b'>' m
map_keycode spacebar m = unicode 0x20
map_keycode delete m = unicode 0x7f
map_keycode numpad_divide m = unicode b'/'
map_keycode numpad_multiply m = unicode b'*'
map_keycode numpad_subtract m = unicode b'-'
map_keycode numpad_add m = unicode b'+'
map_keycode numpad_enter m = unicode 0xa
map_keycode (other k) m = raw_key (other k)

pub data KbdLayout : Type 0 where
  turkish_q us : KbdLayout

-- The two decoders of the crate, `PS2Keyboard<TurkishQ, ScancodeSet1>` and
-- `PS2Keyboard<Us104Key, ScancodeSet1>`: as they are made, and what one byte makes of them by
-- `add_byte` and `process_keyevent`.
pub record Decoders : Type 1 where
  pub Tr : Type 0
  pub Us : Type 0
  pub new_tr : Tr
  pub new_us : Us
  pub step_tr : ℕ → Tr → Option DecodedKey × Tr
  pub step_us : ℕ → Us → Option DecodedKey × Us

abbrev pub raw_cap : ℕ
raw_cap = 512

-- `RAW_BUF`, `RAW_W`, `RAW_R` and `ISR_PUSHED`.
pub record Raw : Type 0 where
  pub ring : Ring
  pub isr_pushed : ℕ

-- `push_byte`, and `process_scancode`, which calls it.
pub push_byte : ℕ → Raw → Raw
unfolding push
push_byte sc raw = elim (push raw_cap sc raw.ring) [
  | none ↦ raw
  | some ring ↦ record { ring = ring; isr_pushed = raw.isr_pushed + 1 }
]

module _ (d : Decoders) where
  pub data ActiveKeyboard : Type 0 where
    tr : d.Tr → ActiveKeyboard
    us : d.Us → ActiveKeyboard

  pub switch_layout_if_needed : KbdLayout → ActiveKeyboard → ActiveKeyboard
  switch_layout_if_needed turkish_q (us k) = tr d.new_tr
  switch_layout_if_needed turkish_q (tr k) = tr k
  switch_layout_if_needed KbdLayout.us (tr k) = us d.new_us
  switch_layout_if_needed KbdLayout.us (us k) = us k

  abbrev pub step_keyboard : ℕ → ActiveKeyboard → Option DecodedKey × ActiveKeyboard
  step_keyboard sc (tr k) = ((d.step_tr sc k).0, tr (d.step_tr sc k).1)
  step_keyboard sc (us k) = ((d.step_us sc k).0, us (d.step_us sc k).1)

  -- `decode_one`, given `settings::layout()`.
  pub decode_one : KbdLayout → ActiveKeyboard → Raw → Option DecodedKey × ActiveKeyboard × Raw
  unfolding pop
  decode_one want kb raw =
      let kb' = switch_layout_if_needed want kb in
      elim (pop raw_cap raw.ring) [
        | none ↦ (none, kb', raw)
        | some (sc, ring) ↦
            ((step_keyboard sc kb').0, (step_keyboard sc kb').1, record raw { ring = ring })
      ]

  -- The match of `drain` on what was decoded, with the rounds that follow.
  pub drain_match :
      (ActiveKeyboard → Raw → Option (List DecodedKey × ActiveKeyboard × Raw))
      → Option DecodedKey × ActiveKeyboard × Raw
      → Option (List DecodedKey × ActiveKeyboard × Raw)
  drain_match more (none, kb, raw) = some ([], kb, raw)
  drain_match more (some key, kb, raw) = elim (more kb raw) [
    | none ↦ none
    | some (keys, kb', raw') ↦ some (key ∷ keys, kb', raw')
  ]

  -- `drain` on fuel: the keys that it hands to `f`, and the state it leaves.
  pub drain : ℕ → KbdLayout → ActiveKeyboard → Raw → Option (List DecodedKey × ActiveKeyboard × Raw)
  unfolding decode_one drain_match
  drain zero want kb raw = none
  drain (suc fuel) want kb raw =
      drain_match (λ kb' raw'. drain fuel want kb' raw') (decode_one want kb raw)
