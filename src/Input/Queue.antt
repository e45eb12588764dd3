-- ===== src/Input/Queue.antt =====
-- A ring of `size` places is a queue of at most `size - 1` bytes (kernel/src/input.rs,
-- kernel/src/keyboard.rs).
use native.Mathlib.Nat.{mod-add-mod, mod-lt, mod-eq_of_lt, add-zero, add-mod_right}
use package.solaros.Prelude.{
  dec_lt, ==_iff, ℕ, zero, suc, ◌+◌, ◌%◌, ◌<◌, ◌≡◌, ◌≢◌, sym, ◌∙◌, ap, List, [], ◌∷◌, ◌++◌, Option,
  none, some, length, length-append, length-set, get_elem?, get_or, set, get_elem?-set_self,
  get_elem?-set_ne, ◌==◌, arith, true, false,
}
use solaros.Input.{Ring, push, pop}

ne→==_false : {a b : ℕ} → a ≢ b → (a == b) ≡ false
ne→==_false h = ground arith

get_or-get_elem? : (xs : List ℕ) (i : ℕ) {a : ℕ} → get_elem? xs i ≡ some a → get_or xs i 0 ≡ a
get_or-get_elem? [] i e = cc
get_or-get_elem? (x ∷ xs) zero e = cc
get_or-get_elem? (x ∷ xs) (suc i) e = get_or-get_elem? xs i e

-- From place `i` on, round the end, the buffer holds the bytes of `q`.
abbrev pub Holds : ℕ → List ℕ → ℕ → List ℕ → Type 0
Holds size buf i [] = Unit
Holds size buf i (b ∷ q) = (get_elem? buf i ≡ some b) × Holds size buf ((i + 1) % size) q

pub record IsRing (size : ℕ) (ring : Ring) (q : List ℕ) : Type 0 where
  pub places : length ring.buf ≡ size
  pub reads : ring.r < size
  pub writes : ring.w ≡ (ring.r + length q) % size
  pub room : length q < size
  pub holds : Holds size ring.buf ring.r q

-- A place behind the bytes is none of theirs.
shift : (size i n : ℕ) → i < size → suc n < size → ((i + 1) % size + n) % size ≡ (i + suc n) % size
shift size i n h k = mod-add-mod (i + 1) size n ∙ ap (λ t. t % size) (omega arith)

behind : (size i n : ℕ) → i < size → 0 < n → n < size → (i + n) % size ≢ i
behind size i n h p k e = grind arith

start : (size i : ℕ) → i < size → (i + 0) % size ≡ i
start size i h = ap (λ n. n % size) (add-zero i) ∙ mod-eq_of_lt h

-- A byte stored at the place behind the others is the last one.
Holds-push :
    (size : ℕ) (buf : List ℕ) (w i : ℕ) (q : List ℕ) (b : ℕ)
    → length buf ≡ size
    → i < size
    → suc (length q) < size
    → w ≡ (i + length q) % size
    → Holds size buf i q
    → Holds size (set buf w b) i (q ++ b ∷ [])
Holds-push size buf w i [] b places inside room e h =
    let at : w ≡ i = e ∙ start size i inside in
    (rw at (get_elem?-set_self buf i b (omega arith)), tt)
Holds-push size buf w i (x ∷ q) b places inside room e h = (
  get_elem?-set_ne buf w i b
        (λ f. behind size i (suc (length q)) inside (omega arith) (omega arith) (sym e ∙ f))
      ∙ h.0,
  Holds-push size buf w ((i + 1) % size) q b places (mod-lt (i + 1) (omega arith)) (omega arith)
      (e ∙ sym (shift size i (length q) inside (omega arith))) h.1,
)

-- `push` puts the byte behind the others, and refuses it exactly when `size - 1` bytes are held.
pub data Pushed (size b : ℕ) (q : List ℕ) : Option Ring → Type 0 where
  full : suc (length q) ≡ size → Pushed size b q none
  stored :
      {ring : Ring}
      → suc (length q) < size
      → IsRing size ring (q ++ b ∷ [])
      → Pushed size b q (some ring)

module _ (size b : ℕ) (ring : Ring) (q : List ℕ) (is : IsRing size ring q) where
  next_write : (ring.w + 1) % size ≡ (ring.r + suc (length q)) % size
  next_write =
      ap (λ n. (n + 1) % size) is.writes
      ∙ mod-add-mod (ring.r + length q) size 1
      ∙ ap (λ n. n % size) (omega arith)

  abbrev after : Ring
  after = record ring { buf = set ring.buf ring.w b; w = (ring.w + 1) % size }

  stored-IsRing : suc (length q) < size → IsRing size after (q ++ b ∷ [])
  stored-IsRing room = record {
    places = length-set ring.buf ring.w b ∙ is.places;
    reads = is.reads;
    writes = next_write ∙ ap (λ n. (ring.r + n) % size) (omega (arith, length-append q (b ∷ [])));
    room = omega (arith, length-append q (b ∷ []));
    holds = Holds-push size ring.buf ring.w ring.r q b is.places is.reads room is.writes is.holds;
  }

  pub push-Pushed : Pushed size b q (push size b ring)
  unfolding push
  push-Pushed = elim (dec_lt (suc (length q)) size) [
    | yes room ↦
        let free : ((ring.w + 1) % size == ring.r) ≡ false = ne→==_false (λ e.
          behind size ring.r (suc (length q)) is.reads (omega arith) room (sym next_write ∙ e)) in
        rw (free, push) (stored room (stored-IsRing room))
    | no last ↦
        let whole : suc (length q) ≡ size = omega (arith, is.room) in
        let round : ((ring.w + 1) % size == ring.r) ≡ true =
          (==_iff ((ring.w + 1) % size) ring.r).1 (
            next_write
            ∙ ap (λ n. (ring.r + n) % size) whole
            ∙ add-mod_right ring.r size
            ∙ mod-eq_of_lt is.reads) in
        rw (round, push) (full whole)
  ]

-- `pop` takes the first byte, and nothing exactly when none is held.
pub data Popped (size : ℕ) : List ℕ → Option (ℕ × Ring) → Type 0 where
  empty : Popped size [] none
  taken :
      {b : ℕ} {q : List ℕ} {ring : Ring} → IsRing size ring q → Popped size (b ∷ q) (some (b, ring))

pub pop-Popped :
    (size : ℕ) (ring : Ring) (q : List ℕ) → IsRing size ring q → Popped size q (pop size ring)
unfolding pop
pop-Popped size ring [] is =
    let same : (ring.r == ring.w) ≡ true =
      (==_iff ring.r ring.w).1 (sym (is.writes ∙ start size ring.r is.reads)) in
    rw (same, pop) empty
pop-Popped size ring (b ∷ q) is =
    let more : (ring.r == ring.w) ≡ false = ne→==_false (λ e.
      behind size ring.r (suc (length q)) is.reads (omega arith) is.room (sym is.writes ∙ sym e)) in
    let first : get_or ring.buf ring.r 0 ≡ b = get_or-get_elem? ring.buf ring.r is.holds.0 in
    rw (more, pop)
      (rw first (
        taken (record {
          places = is.places;
          reads = mod-lt (ring.r + 1) (omega (arith, is.reads));
          writes = is.writes ∙ sym (shift size ring.r (length q) is.reads is.room);
          room = omega (arith, is.room);
          holds = is.holds.1;
        })))
