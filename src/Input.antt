-- ===== src/Input.antt =====
-- The byte rings that interrupt handlers fill and the console reads: `SBUF`, `SW`, `SR` of
-- kernel/src/input.rs and `RAW_BUF`, `RAW_W`, `RAW_R` of kernel/src/keyboard.rs.
pub mod Queue
pub mod Serial
mod Tests
use package.solaros.Prelude.{
  ℕ, zero, suc, ◌+◌, ◌%◌, ◌≡◌, List, [], ◌∷◌, Option, none, some, length, get_elem?, get_or, set,
  replicate, ◌==◌, if◌then◌else◌, leb, ◌&&◌, ◌||◌,
}

pub record Ring : Type 0 where
  pub buf : List ℕ
  pub w : ℕ
  pub r : ℕ

-- The body of the loops of `serial_irq` and `drain_receiver`, and `push_byte` but for its counter: the
-- ring after it, or `none` when it is full.
unfoldable pub push : ℕ → ℕ → Ring → Option Ring
push size b ring =
    let nw = (ring.w + 1) % size in
    if nw == ring.r then none else some (record ring { buf = set ring.buf ring.w b; w = nw })

-- `serial_pop` and `pop_byte`.
unfoldable pub pop : ℕ → Ring → Option (ℕ × Ring)
pop size ring =
    if ring.r == ring.w
    then none
    else some (get_or ring.buf ring.r 0, record ring { r = (ring.r + 1) % size })

abbrev pub serial_cap : ℕ
serial_cap = 256

-- The loop of `serial_irq` and of `drain_receiver`: what stays in the receiver, and the ring. The byte
-- that finds the ring full has left the receiver.
pub drain_receiver : List ℕ → Ring → List ℕ × Ring
unfolding push
drain_receiver [] ring = ([], ring)
drain_receiver (b ∷ bs) ring = elim (push serial_cap b ring) [
  | none ↦ (bs, ring)
  | some ring' ↦ drain_receiver bs ring'
]

-- The match of `poll_serial_char`.
pub serial_char : ℕ → Option ℕ
serial_char b =
    if b == 0x0D || b == 0x0A
    then some 0x0A
    else if b == 0x08
    then some 0x08
    else if b == 0x03
    then some 0x03
    else if leb 0x20 b && leb b 0x7E
    then some b
    else none

pub poll_serial_char : Ring → Option ℕ × Ring
unfolding pop serial_char
poll_serial_char ring = elim (pop serial_cap ring) [
  | none ↦ (none, ring)
  | some (b, ring') ↦ (serial_char b, ring')
]

-- The console: the ring, the bytes that wait in the receiver, and the keyboard.
pub record Console {ℓ} (K : Type ℓ) : Type ℓ where
  pub ring : Ring
  pub receiver : List ℕ
  pub keyboard : K

module _ {ℓ} {K : Type ℓ} (poll_keyboard_char : K → Option ℕ × K) where
  -- One round of the loop of `read_char`, up to the halt.
  pub read_round : Console K → Option ℕ × Console K
  unfolding poll_serial_char drain_receiver
  read_round c =
      let (first, ring₁) = poll_serial_char c.ring in
      elim first [
        | some ch ↦ (some ch, record c { ring = ring₁ })
        | none ↦
            let (left, ring₂) = drain_receiver c.receiver ring₁ in
            let (second, ring₃) = poll_serial_char ring₂ in
            elim second [
              | some ch ↦ (some ch, record c { ring = ring₃; receiver = left })
              | none ↦
                  let (key, k) = poll_keyboard_char c.keyboard in
                  (key, record { ring = ring₃; receiver = left; keyboard = k })
            ]
      ]

  -- `read_char`: each halt ends with an interrupt, which changes the console. `none` while it waits.
  pub read_char : List (Console K → Console K) → Console K → Option (ℕ × Console K)
  unfolding read_round
  read_char [] c =
      let (key, c') = read_round c in elim key [ some ch ↦ some (ch, c') | none ↦ none ]
  read_char (irq ∷ halts) c =
      let (key, c') = read_round c in
      elim key [ some ch ↦ some (ch, c') | none ↦ read_char halts (irq c') ]
