-- ===== src/Heap/Alloc.antt =====
-- `alloc` and `dealloc` as a client sees them (kernel/src/heap.rs).
use package.solaros.Prelude.{
  ℕ, ◌+◌, ◌-◌, ◌*◌, ◌%◌, ◌^◌, ◌≤◌, ◌<◌, ◌≡◌, ◌≢◌, refl, sym, ◌∙◌, ap, subst, inl, inr, List, [],
  ◌∷◌, ◌++◌, All, arith, length, add_u64, sub_u64, some, append_assoc, All-append, ◌==◌, false,
}
use mathlib.Core.Path.{subst₂}
use native.Mathlib.Nat.{add-mul-mod_self_right, zero-add}
use solaros.Heap.{
  Heap, FreeBlock, Layout, align_up, alloc, alloc_from, count_alloc, dealloc, block_header,
  set_next,
}
use solaros.Heap.Align.{IsPayload, header-IsPayload}
use solaros.Heap.Blocks.{Block, Sound, Sound-pull, Sound-pos, Elsewhere-of_Apart}
use solaros.Heap.Chain.{Chain, Chain-Agree, update-Agree, update_self}
use solaros.Heap.Inv.{IsHeap, bytes, All-parts}
use solaros.Heap.Place.{sizes-Agree}
use solaros.Heap.Walk.{FirstFit, Taken, Walked, alloc_from-Walked}

-- What `Layout` promises: the alignment is a power of two, and the size rounded up to it does not
-- pass `isize::MAX`.
pub record IsLayout (l : Layout) : Type 0 where
  pub power : ℕ
  pub small : power ≤ 62
  pub align : l.align ≡ 2 ^ power
  pub fits : l.size + 2 ^ power ≤ 2 ^ 63

-- The distance of the payload from the header.
abbrev pub payload : Layout → ℕ
payload l = align_up block_header l.align

pub payload-IsPayload : (l : Layout) (il : IsLayout l) → IsPayload il.power (payload l)
payload-IsPayload l il =
    subst (λ a. IsPayload il.power (align_up block_header a)) (sym il.align)
      (header-IsPayload il.power il.small)

-- The pointer `p` leads to `l.size` bytes behind the header of the first block of the free list with room.
pub record Allocated (l : Layout) (h : Heap) (free live : List Block) (p : ℕ) (h' : Heap)
    : Type 0 where
  pub block : Block
  pub free' : List Block
  pub place : p ≡ block.addr + payload l
  pub header : block.addr + block_header ≤ p
  pub inside : p + l.size ≤ block.addr + block.size
  pub aligned : p % 16 ≡ 0
  pub congruent : p % l.align ≡ block.addr % l.align
  pub heap : IsHeap h' free' (block ∷ live)
  pub first : FirstFit (payload l + l.size) block free free'
  pub conserved : bytes free' + block.size ≡ bytes free
  pub used : h'.used ≡ add_u64 h.used (payload l + l.size)
  pub allocs : h'.allocs ≡ add_u64 h.allocs 1

pub data AllocResult (l : Layout) (h : Heap) (free live : List Block) : ℕ → Heap → Type 0 where
  refused : All (λ b. b.size < payload l + l.size) free → AllocResult l h free live 0 h
  granted : {p : ℕ} {h' : Heap} → Allocated l h free live p h' → AllocResult l h free live p h'

multiple_mod : (a off c m : ℕ) → off ≡ c * m → (a + off) % m ≡ a % m
multiple_mod a off c m e = rw e (add-mul-mod_self_right a c m)

module _ (l : Layout) (il : IsLayout l) (h : Heap) (free live : List Block)
    (ih : IsHeap h free live) where
  total_eq : add_u64 (payload l) l.size ≡ payload l + l.size
  total_eq = let ip = payload-IsPayload l il in omega (arith, ip.near, il.fits)

  counted-Allocated :
      (g : Heap) (addr : ℕ)
      → g.used ≡ h.used
      → g.allocs ≡ h.allocs
      → Taken addr (payload l + l.size) (bytes free) free g live
      → Allocated l h free live (add_u64 addr (payload l)) (count_alloc (payload l + l.size) g)
  counted-Allocated g addr used allocs t =
      let ip = payload-IsPayload l il in
      let s = Sound-pull t.free live t.block t.heap.sound in
      let p_eq : add_u64 addr (payload l) ≡ t.block.addr + payload l =
        omega (arith, t.begins, t.enough, s.0) in
      record {
        block = t.block;
        free' = t.free;
        place = p_eq;
        header = omega (arith, p_eq, ip.holds);
        inside = omega (arith, p_eq, t.enough);
        aligned = omega (arith, p_eq, s.0, ip.aligned);
        congruent =
            ap (λ n. n % l.align) p_eq
            ∙ subst (λ m. (t.block.addr + payload l) % m ≡ t.block.addr % m) (sym il.align)
                (multiple_mod t.block.addr (payload l) ip.count (2 ^ il.power) ip.multiple);
        heap = record { chain = t.heap.chain; sound = t.heap.sound; sizes = t.heap.sizes };
        first = t.first;
        conserved = t.conserved;
        used = ap (λ n. add_u64 n (payload l + l.size)) used;
        allocs = ap (λ n. add_u64 n 1) allocs;
      }

  -- For a layout as `Layout` promises, a well-formed heap and a round for each free block, `alloc` ends. When no
  -- free block has room for the payload behind its header, it returns null and the heap as it was. Else the
  -- first block with room leaves the free list, whole or but for its rest, and becomes live, the other blocks
  -- stay; the pointer is aligned to 16, is the block's address modulo the alignment, and leads to `size` bytes
  -- inside this block, `used` and `allocs` count it, and the heap is well formed.
  pub alloc-AllocResult :
      (fuel : ℕ)
      → length free ≤ fuel
      → (p : ℕ) × (h' : Heap) × (alloc fuel l h ≡ some (p, h')) × AllocResult l h free live p h'
  unfolding alloc
  alloc-AllocResult fuel enough =
      let ip = payload-IsPayload l il in
      finish (
        alloc_from-Walked (fuel + 1) (payload l) (payload l + l.size) h [] free live h.free
          (omega arith) tt (omega (arith, ip.holds)) refl ih.chain ih.sizes ih.sound)
    where
      finish :
          ((p : ℕ) × (h' : Heap) × (alloc_from
                (fuel + 1)
                (payload l)
                (payload l + l.size)
                0
                h.free
                h
              ≡ some (p, h'))
            × Walked (payload l) (payload l + l.size) [] free h live p h')
          → (p : ℕ) × (h' : Heap) × (alloc fuel l h ≡ some (p, h')) × AllocResult l h free live p h'
      finish (p, h', e, inl (null, same, short)) = (
        p,
        h',
        rw total_eq e,
        subst₂ (AllocResult l h free live) (sym null) (sym same) (refused short),
      )
      finish (p, h', e, inr (g, addr, at_addr, counted, used, allocs, taken)) = (
        p,
        h',
        rw total_eq e,
        subst₂ (AllocResult l h free live) (sym at_addr) (sym counted) (
            granted (
              counted-Allocated g addr used allocs (
                subst (λ n. Taken addr (payload l + l.size) n free g live) (zero-add (bytes free))
                  taken))),
      )

-- The heap once the block at `a` is at the head of the free list.
abbrev freed_heap : ℕ → Heap → Heap
freed_heap a h = record h {
  headers = set_next a h.free h.headers;
  free = a;
  used = h.used - (h.headers a).size;
  frees = add_u64 h.frees 1;
}

dealloc-eq :
    (p a : ℕ) (l : Layout) (h : Heap)
    → 0 < p
    → sub_u64 p (payload l) ≡ a
    → dealloc p l h ≡ freed_heap a h
unfolding dealloc
dealloc-eq p a l h pos e =
    let there : (p == 0) ≡ false = ground arith in rw (there, dealloc) (ap (λ n. freed_heap n h) e)

-- Freeing the payload `p` of a live block puts that block at the head of the free list.
module _ (l : Layout) (h : Heap) (free : List Block) (before : List Block) (b : Block)
    (after : List Block) (ih : IsHeap h free (before ++ b ∷ after)) where
  freed : Sound (b ∷ free ++ (before ++ after))
  freed =
      subst (λ bs. Sound (b ∷ bs)) (append_assoc free before after)
        (Sound-pull (free ++ before) after b
          (subst Sound (sym (append_assoc free before (b ∷ after))) ih.sound))

  framed : All (λ c. c.addr ≢ b.addr) free × All (λ c. c.addr ≢ b.addr) (before ++ after)
  framed =
      All-parts (λ (c : Block). c.addr ≢ b.addr) free (before ++ after)
        (Elsewhere-of_Apart b b.addr (free ++ (before ++ after)) (omega arith)
          (omega (arith, freed.0)) (Sound-pos (free ++ (before ++ after)) freed.2) freed.1)

  pub size_known : (h.headers b.addr).size ≡ b.size
  size_known =
      (All-parts (λ (c : Block). (h.headers c.addr).size ≡ c.size) before (b ∷ after) ih.sizes).1.0

  sizes_left : All (λ c. (h.headers c.addr).size ≡ c.size) (before ++ after)
  sizes_left =
      let r =
        All-parts (λ (c : Block). (h.headers c.addr).size ≡ c.size) before (b ∷ after) ih.sizes in
      All-append (λ c. (h.headers c.addr).size ≡ c.size) before after r.0 r.1.1

  freed_heap-IsHeap : IsHeap (freed_heap b.addr h) (b ∷ free) (before ++ after)
  freed_heap-IsHeap =
      let hs = set_next b.addr h.free h.headers in
      let cut : FreeBlock = record (h.headers b.addr) { next = h.free } in
      let self : hs b.addr ≡ cut = update_self b.addr cut h.headers in
      record {
        chain = (
          refl,
          ap FreeBlock.size self ∙ size_known,
          subst (λ n. Chain hs n free) (sym (ap FreeBlock.next self))
              (Chain-Agree h.headers hs h.free free
                (update-Agree b.addr cut h.headers free framed.0) ih.chain),
        );
        sound = freed;
        sizes =
            sizes-Agree h.headers hs (before ++ after)
              (update-Agree b.addr cut h.headers (before ++ after) framed.1) sizes_left;
      }

  -- Freeing the payload of a live block puts that block at the head of the free list.
  pub dealloc-IsHeap :
      (p : ℕ)
      → p ≡ b.addr + payload l
      → IsHeap (dealloc p l h) (b ∷ free) (before ++ after)
        × ((dealloc p l h).used ≡ h.used - b.size)
        × ((dealloc p l h).frees ≡ add_u64 h.frees 1)
  dealloc-IsHeap p e =
      subst
        (λ g.
          IsHeap g (b ∷ free) (before ++ after)
          × (g.used ≡ h.used - b.size)
          × (g.frees ≡ add_u64 h.frees 1))
        (sym (dealloc-eq p b.addr l h (omega (arith, freed.0)) (omega (arith, freed.0))))
        (freed_heap-IsHeap, ap (λ n. h.used - n) size_known, refl)
