-- ===== src/Heap/Blocks.antt =====
-- The stretches of memory that the blocks of the heap take (kernel/src/heap.rs).
use package.solaros.Prelude.{
  ℕ, ◌+◌, ◌%◌, ◌^◌, ◌≤◌, ◌<◌, ◌≡◌, ◌≢◌, ◌⊎◌, inl, inr, List, [], ◌∷◌, ◌++◌, All, All-map, arith,
}
use solaros.Heap.{block_header}

-- A block with its header, from `addr` on.
pub record Block : Type 0 where
  pub addr : ℕ
  pub size : ℕ

-- A block is aligned, holds its header, and lies below 2^64.
abbrev pub IsBlock : Block → Type 0
IsBlock b =
    (block_header ≤ b.addr)
    × (b.addr % 16 ≡ 0)
    × (block_header ≤ b.size)
    × (b.addr + b.size + 16 ≤ 2 ^ 64)

abbrev pub Apart : Block → Block → Type 0
Apart b c = (b.addr + b.size ≤ c.addr) ⊎ (c.addr + c.size ≤ b.addr)

-- Blocks of which no two overlap.
abbrev pub Sound : List Block → Type 0
Sound [] = Unit
Sound (b ∷ bs) = IsBlock b × All (Apart b) bs × Sound bs

Apart-sym : (b c : Block) → Apart b c → Apart c b
Apart-sym b c (inl h) = inr h
Apart-sym b c (inr h) = inl h

All-pull {ℓ κ} :
    {A : Type ℓ} (P : A → Type κ) (xs ys : List A) (b : A)
    → All P (xs ++ b ∷ ys)
    → P b × All P (xs ++ ys)
All-pull P [] ys b h = h
All-pull P (x ∷ xs) ys b h = let r = All-pull P xs ys b h.1 in (r.0, (h.0, r.1))

pub All-insert {ℓ κ} :
    {A : Type ℓ} (P : A → Type κ) (xs ys : List A) (b : A)
    → P b
    → All P (xs ++ ys)
    → All P (xs ++ b ∷ ys)
All-insert P [] ys b p h = (p, h)
All-insert P (x ∷ xs) ys b p h = (h.0, All-insert P xs ys b p h.1)

-- The order of the blocks does not matter: one is taken to the front, or put back.
pub Sound-pull : (xs ys : List Block) (b : Block) → Sound (xs ++ b ∷ ys) → Sound (b ∷ xs ++ ys)
Sound-pull [] ys b h = h
Sound-pull (x ∷ xs) ys b h =
    let r = Sound-pull xs ys b h.2 in
    let a = All-pull (Apart x) xs ys b h.1 in (r.0, (Apart-sym x b a.0, r.1), (h.0, a.1, r.2))

pub Sound-insert : (xs ys : List Block) (b : Block) → Sound (b ∷ xs ++ ys) → Sound (xs ++ b ∷ ys)
Sound-insert [] ys b h = h
Sound-insert (x ∷ xs) ys b h = (
  h.2.0,
  All-insert (Apart x) xs ys b (Apart-sym b x h.1.0) h.2.1,
  Sound-insert xs ys b (h.0, h.1.1, h.2.2),
)

pub Sound-tail : (xs ys : List Block) → Sound (xs ++ ys) → Sound ys
Sound-tail [] ys h = h
Sound-tail (x ∷ xs) ys h = Sound-tail xs ys h.2

-- What lies in a block is apart from what the block is apart from.
pub Apart-within :
    (b c e : Block) → b.addr ≤ c.addr → c.addr + c.size ≤ b.addr + b.size → Apart b e → Apart c e
Apart-within b c e low high (inl h) = inl (omega arith)
Apart-within b c e low high (inr h) = inr (omega arith)

-- A block cut into two that lie in it, apart from each other.
pub Sound-cut :
    (b c d : Block) (bs : List Block)
    → IsBlock c
    → IsBlock d
    → b.addr ≡ c.addr
    → c.addr + c.size ≤ d.addr
    → d.addr + d.size ≤ b.addr + b.size
    → Sound (b ∷ bs)
    → Sound (c ∷ d ∷ bs)
Sound-cut b c d bs ic id same after inside h = (
  ic,
  (
    inl after,
    All-map {P = Apart b} {Q = Apart c} (λ e a. Apart-within b c e (omega arith) (omega arith) a) bs
        h.1,
  ),
  (
    id,
    All-map {P = Apart b} {Q = Apart d} (λ e a. Apart-within b d e (omega arith) (omega arith) a) bs
        h.1,
    h.2,
  ),
)

-- Blocks walked over, in reverse, put back before the rest.
abbrev pub onto : List Block → List Block → List Block
onto [] rest = rest
onto (b ∷ past) rest = onto past (b ∷ rest)

pub onto-All {ℓ} :
    (P : Block → Type ℓ) (past rest live : List Block)
    → All P (past ++ (rest ++ live))
    → All P (onto past rest ++ live)
onto-All P [] rest live h = h
onto-All P (b ∷ past) rest live h =
    onto-All P past (b ∷ rest) live (All-insert P past (rest ++ live) b h.0 h.1)

pub onto-Sound :
    (past rest live : List Block) → Sound (past ++ (rest ++ live)) → Sound (onto past rest ++ live)
onto-Sound [] rest live h = h
onto-Sound (b ∷ past) rest live h =
    onto-Sound past (b ∷ rest) live (Sound-insert past (rest ++ live) b h)

-- An address in a block is where no block apart from it begins.
pub Elsewhere-of_Apart :
    (b : Block) (a : ℕ) (bs : List Block)
    → b.addr ≤ a
    → a < b.addr + b.size
    → All (λ c. 0 < c.size) bs
    → All (Apart b) bs
    → All (λ c. c.addr ≢ a) bs
Elsewhere-of_Apart b a [] low high pos h = tt
Elsewhere-of_Apart b a (c ∷ bs) low high pos h =
    (λ e. differ h.0 e, Elsewhere-of_Apart b a bs low high pos.1 h.1)
  where
    differ : Apart b c → c.addr ≢ a
    differ (inl x) e = omega arith
    differ (inr x) e = omega (arith, pos.0)

pub Sound-pos : (bs : List Block) → Sound bs → All (λ b. 0 < b.size) bs
Sound-pos [] h = tt
Sound-pos (b ∷ bs) h = (omega arith, Sound-pos bs h.2)
