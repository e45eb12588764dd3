-- ===== src/Heap/Inv.antt =====
-- What holds of the heap between two calls (kernel/src/heap.rs), and the blocks that a walk meets.
use package.solaros.Prelude.{ℕ, ◌+◌, ◌<◌, ◌≡◌, ◌≢◌, sym, List, [], ◌∷◌, ◌++◌, All, All-map, arith}
use mathlib.Core.List.{tail}
use solaros.Heap.{Heap}
use solaros.Heap.Blocks.{Block, Sound, Sound-pos, Elsewhere-of_Apart, onto}
use solaros.Heap.Chain.{Chain, last_addr}

-- The free list holds the blocks `free`; no two of those and the live ones overlap; the header of
-- each live block holds its size.
pub record IsHeap (h : Heap) (free live : List Block) : Type 0 where
  pub chain : Chain h.headers h.free free
  pub sound : Sound (free ++ live)
  pub sizes : All (λ b. (h.headers b.addr).size ≡ b.size) live

abbrev pub bytes : List Block → ℕ
bytes [] = 0
bytes (b ∷ bs) = b.size + bytes bs

pub bytes-append : (xs ys : List Block) → bytes (xs ++ ys) ≡ bytes xs + bytes ys
bytes-append [] ys = omega arith
bytes-append (x ∷ xs) ys = omega (arith, bytes-append xs ys)

pub bytes-onto : (past rest : List Block) → bytes (onto past rest) ≡ bytes past + bytes rest
bytes-onto [] rest = omega arith
bytes-onto (b ∷ past) rest = omega (arith, bytes-onto past (b ∷ rest))

pub All-parts {ℓ κ} :
    {A : Type ℓ} (P : A → Type κ) (xs ys : List A) → All P (xs ++ ys) → All P xs × All P ys
All-parts P [] ys h = (tt, h)
All-parts P (x ∷ xs) ys h = let r = All-parts P xs ys h.1 in ((h.0, r.0), r.1)

pub Sound-low : (bs : List Block) → Sound bs → All (λ b. 0 < b.addr) bs
Sound-low [] h = tt
Sound-low (b ∷ bs) h = (omega arith, Sound-low bs h.2)

-- The block last walked over is none of the others.
pub last_elsewhere :
    (past rest : List Block)
    → Sound (past ++ rest)
    → All (λ b. b.addr ≢ last_addr past) (tail past) × All (λ b. b.addr ≢ last_addr past) rest
last_elsewhere [] rest s =
    (tt, All-map {P = λ b. 0 < b.addr} (λ b low. omega arith) rest (Sound-low rest s))
last_elsewhere (p ∷ past) rest s =
    All-parts (λ b. b.addr ≢ p.addr) past rest
      (Elsewhere-of_Apart p p.addr (past ++ rest) (omega arith) (omega arith)
        (Sound-pos (past ++ rest) s.2) s.1)

pub last_addr-ne :
    (past : List Block) (a : ℕ) → 0 < a → All (λ b. b.addr ≢ a) past → a ≢ last_addr past
last_addr-ne [] a pos h = omega arith
last_addr-ne (b ∷ past) a pos h = λ e. h.0 (sym e)
