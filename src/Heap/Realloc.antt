-- ===== src/Heap/Realloc.antt =====
-- `init` and `realloc` (kernel/src/heap.rs).
use package.solaros.Prelude.{
  ℕ, ◌+◌, ◌-◌, ◌^◌, ◌≤◌, ◌<◌, ◌≡◌, sym, ◌∙◌, ap, List, [], ◌∷◌, ◌++◌, All, arith, length, add_u64,
  sub_u64, some, min, ◌==◌, true, false, leb, ltb, ◌&&◌, ◌⊎◌, inl, inr,
}
use solaros.Mem.{pmo}
use solaros.Heap.{
  Heap, FreeBlock, Layout, align_up, alloc, dealloc, init, realloc, copy_bytes, block_header,
  set_next, set_size,
}
use solaros.Heap.Align.{align_up_16}
use solaros.Heap.Blocks.{Block}
use solaros.Heap.Chain.{update_self}
use solaros.Heap.Inv.{IsHeap}
use solaros.Heap.Alloc.{
  IsLayout, payload, Allocated, AllocResult, refused, granted, alloc-AllocResult, dealloc-IsHeap,
}

-- The one block that `init` makes of `size` bytes from `base_phys` on.
abbrev pub whole : ℕ → ℕ → Block
whole base_phys size = record {
  addr = align_up base_phys 16 + pmo;
  size = size - (align_up base_phys 16 - base_phys) - block_header;
}

-- A heap of at least 64 bytes in the mapped physical memory starts with one free block.
pub init-IsHeap :
    (base_phys size : ℕ) (h : Heap)
    → 64 ≤ size
    → base_phys + size ≤ 2 ^ 47
    → IsHeap (init base_phys size h) (whole base_phys size ∷ []) []
unfolding init
init-IsHeap base_phys size h large mapped =
    let up = align_up_16 base_phys (omega arith) in
    let base = add_u64 (align_up base_phys 16) pmo in
    let at : base ≡ align_up base_phys 16 + pmo = omega arith in
    let n = sub_u64 (sub_u64 size (sub_u64 base (add_u64 base_phys pmo))) block_header in
    let filled = set_size base n h.headers in
    let size_at : (set_next base 0 filled base).size ≡ n =
      ap FreeBlock.size (update_self base (record (filled base) { next = 0 }) filled)
      ∙ ap FreeBlock.size (update_self base (record (h.headers base) { size = n }) h.headers) in
    record {
      chain = (
        at,
        ap (λ a. (set_next base 0 filled a).size) (sym at) ∙ size_at ∙ omega arith,
        ap (λ a. (set_next base 0 filled a).next) (sym at)
            ∙ ap FreeBlock.next (update_self base (record (filled base) { next = 0 }) filled),
      );
      sound = (omega arith, tt, tt);
      sizes = tt;
    }

-- The call for the new block, with the alignment of the old one.
abbrev pub resized : Layout → ℕ → Layout
resized l n = record { size = n; align = l.align }

-- `realloc` returns null and changes nothing, or a new block of `n` bytes that begins with the old
-- block's bytes, and the old block is free.
pub data Resized (l : Layout) (n ptr : ℕ) (h : Heap) (bytes : ℕ → ℕ) (free before : List Block)
    (b : Block) (after : List Block) : ℕ → Heap → (ℕ → ℕ) → Type 0 where
  kept :
      All (λ c. c.size < payload l + n) free → Resized l n ptr h bytes free before b after 0 h bytes
  moved :
      {p : ℕ} {h' h'' : Heap} {bytes' : ℕ → ℕ}
      → (got : Allocated (resized l n) h free (before ++ b ∷ after) p h')
      → IsHeap h'' (b ∷ got.free') (got.block ∷ before ++ after)
      → ((i : ℕ) → i < min l.size n → bytes' (p + i) ≡ bytes (ptr + i))
      → ((x : ℕ) → (x < p) ⊎ (p + n ≤ x) → bytes' x ≡ bytes x)
      → Resized l n ptr h bytes free before b after p h'' bytes'

copy_inside :
    (src dst n i : ℕ) (bytes : ℕ → ℕ)
    → i < n
    → copy_bytes src dst n bytes (dst + i) ≡ bytes (src + i)
copy_inside src dst n i bytes inside =
    let test : (leb dst (dst + i) && ltb (dst + i) (dst + n)) ≡ true = ground arith in
    rw test (ap (λ k. bytes (src + k)) (omega arith))

copy_outside :
    (src dst n x : ℕ) (bytes : ℕ → ℕ)
    → (x < dst) ⊎ (dst + n ≤ x)
    → copy_bytes src dst n bytes x ≡ bytes x
copy_outside src dst n x bytes out =
    let test : (leb dst x && ltb x (dst + n)) ≡ false = ground arith in rw test

narrower : (p n m x : ℕ) → (x < p) ⊎ (p + n ≤ x) → (x < p) ⊎ (p + min m n ≤ x)
narrower p n m x (inl a) = inl a
narrower p n m x (inr a) = inr (omega arith)

module _ (l : Layout) (il : IsLayout l) (n : ℕ) (fits : n + 2 ^ il.power ≤ 2 ^ 63) (h : Heap)
    (free : List Block) (before : List Block) (b : Block) (after : List Block)
    (ih : IsHeap h free (before ++ b ∷ after)) (ptr : ℕ) (live : ptr ≡ b.addr + payload l)
    (bytes : ℕ → ℕ) where
  resized-IsLayout : IsLayout (resized l n)
  resized-IsLayout = record { power = il.power; small = il.small; align = il.align; fits = fits }

  abbrev Result : ℕ → Type 0
  Result fuel =
      (p : ℕ) × (h'' : Heap) × (bytes' : ℕ → ℕ) × (realloc fuel ptr l n h bytes
        ≡ some (p, h'', bytes'))
      × Resized l n ptr h bytes free before b after p h'' bytes'

  realloc_moved :
      (fuel p : ℕ) (h' : Heap)
      → alloc fuel (resized l n) h ≡ some (p, h')
      → Allocated (resized l n) h free (before ++ b ∷ after) p h'
      → Result fuel
  unfolding realloc
  realloc_moved fuel p h' e got =
      let pos : 0 < p = omega (arith, got.header) in
      let there : (p == 0) ≡ false = ground arith in
      (
        p,
        dealloc ptr l h',
        copy_bytes ptr p (min l.size n) bytes,
        rw (e, realloc) (rw (there, realloc)),
        moved got (dealloc-IsHeap l h' got.free' (got.block ∷ before) b after got.heap ptr live).0
            (λ i inside. copy_inside ptr p (min l.size n) i bytes inside)
            (λ x out. copy_outside ptr p (min l.size n) x bytes (narrower p n l.size x out)),
      )

  pub realloc-Resized : (fuel : ℕ) → length free ≤ fuel → Result fuel
  unfolding realloc
  realloc-Resized fuel enough =
      finish (
        alloc-AllocResult (resized l n) resized-IsLayout h free (before ++ b ∷ after) ih fuel
          enough)
    where
      finish :
          ((p : ℕ) × (h' : Heap) × (alloc fuel (resized l n) h ≡ some (p, h'))
            × AllocResult (resized l n) h free (before ++ b ∷ after) p h')
          → Result fuel
      finish (p, h', e, refused short) = (0, h, bytes, rw (e, realloc), kept short)
      finish (p, h', e, granted got) = realloc_moved fuel p h' e got
