-- ===== src/Heap/Walk.antt =====
-- The first-fit walk of `alloc_locked` over the free list (kernel/src/heap.rs).
use native.Mathlib.Nat.{add_assoc}
use package.solaros.Prelude.{
  dec_le, ◌==◌, ℕ, zero, suc, ◌+◌, ◌-◌, ◌≤◌, ◌<◌, ◌≡◌, refl, sym, ◌∙◌, subst, ◌⊎◌, inl, inr, List,
  [], ◌∷◌, ◌++◌, All, arith, length, add_u64, sub_u64, Bool-cases, ltb, leb, ◌&&◌, true, false,
  some,
}
use solaros.Heap.{Heap, place, align_up, alloc_from, count_alloc, min_block}
use solaros.Heap.Align.{align_up_16}
use solaros.Heap.Blocks.{Block, Sound, onto}
use solaros.Heap.Chain.{Chain, Back, last_addr}
use solaros.Heap.Inv.{IsHeap, bytes, bytes-onto}
use solaros.Heap.Place.{At, pulled, take_block-IsHeap, split_block-IsHeap}

-- The first block with room for `total` bytes leaves the list, whole or with its rest put in its place;
-- all blocks before it are too small.
pub data FirstFit (total : ℕ) (block : Block) : List Block → List Block → Type 0 where
  entire : {rest : List Block} → total ≤ block.size → FirstFit total block (block ∷ rest) rest
  cut :
      {b left : Block} {rest : List Block}
      → total ≤ block.size
      → block.addr ≡ b.addr
      → left.addr ≡ b.addr + block.size
      → block.size + left.size ≡ b.size
      → FirstFit total block (b ∷ rest) (left ∷ rest)
  later :
      {b : Block} {free free' : List Block}
      → b.size < total
      → FirstFit total block free free'
      → FirstFit total block (b ∷ free) (b ∷ free')

FirstFit-onto :
    {total : ℕ} {block : Block} {free free' : List Block} (past : List Block)
    → All (λ b. b.size < total) past
    → FirstFit total block free free'
    → FirstFit total block (onto past free) (onto past free')
FirstFit-onto [] short fit = fit
FirstFit-onto (b ∷ past) short fit = FirstFit-onto past short.1 (later short.0 fit)

-- A block of at least `total` bytes left the free list, and nothing else did.
pub record Taken (addr total size : ℕ) (all : List Block) (h : Heap) (live : List Block)
    : Type 0 where
  pub block : Block
  pub free : List Block
  pub begins : block.addr ≡ addr
  pub enough : total ≤ block.size
  pub heap : IsHeap h free (block ∷ live)
  pub conserved : bytes free + block.size ≡ size
  pub first : FirstFit total block all free

module _ (h : Heap) (past : List Block) (b : Block) (rest live : List Block)
    (at : At h past b rest live) where
  pub place-Taken :
      (total : ℕ)
      → 16 ≤ total
      → total ≤ b.size
      → All (λ c. c.size < total) past
      → Taken b.addr total
          (bytes past + b.size + bytes rest)
          (onto past (b ∷ rest))
          (place total (last_addr past) b.addr h)
          live
  unfolding place
  place-Taken total low fits short =
      let ib = (pulled h past b rest live at).0 in
      let end = add_u64 b.addr (h.headers b.addr).size in
      let ends : end ≡ b.addr + b.size = omega (arith, at.size) in
      let r = align_up (add_u64 b.addr total) 16 in
      let up = align_up_16 (add_u64 b.addr total) (omega arith) in
      let from : add_u64 b.addr total ≡ b.addr + total = omega arith in
      elim (Bool-cases (ltb r end && leb min_block (sub_u64 end r))) [
        | inl fit ↦
            let left : r + 32 ≤ end = ground arith in
            let lowr : b.addr + 16 ≤ r = omega arith in
            rw (fit, place)
              (record {
                block = record { addr = b.addr; size = r - b.addr };
                free = onto past (record { addr = r; size = end - r } ∷ rest);
                begins = refl;
                enough = omega arith;
                heap = split_block-IsHeap h past b rest live at r end lowr up.0 left ends;
                conserved =
                    omega (arith, bytes-onto past (record { addr = r; size = end - r } ∷ rest));
                first =
                    FirstFit-onto past short (cut (omega arith) refl (omega arith) (omega arith));
              })
        | inr whole ↦
            rw (whole, place)
              (record {
                block = b;
                free = onto past rest;
                begins = refl;
                enough = fits;
                heap = take_block-IsHeap h past b rest live at;
                conserved = omega (arith, bytes-onto past rest);
                first = FirstFit-onto past short (entire fits);
              })
      ]

-- What the walk returns: the null pointer and the heap as it was, when no block fits, or the payload
-- of a block that fits.
abbrev pub Walked : ℕ → ℕ → List Block → List Block → Heap → List Block → ℕ → Heap → Type 0
Walked off total past rest h live p h' =
    ((p ≡ 0) × (h' ≡ h) × All (λ b. b.size < total) rest)
    ⊎ ((g : Heap) × (addr : ℕ) × (p ≡ add_u64 addr off)
        × (h' ≡ count_alloc total g)
        × (g.used ≡ h.used)
        × (g.allocs ≡ h.allocs)
        × Taken addr total (bytes past + bytes rest) (onto past rest) g live)

place_counters :
    (total prev cur : ℕ) (h : Heap)
    → ((place total prev cur h).used ≡ h.used) × ((place total prev cur h).allocs ≡ h.allocs)
unfolding place
place_counters total prev cur h = ground arith

sum : (x y z : ℕ) → x + (y + z) ≡ y + x + z
sum x y z = omega arith

alloc_from_ends :
    (fuel off total prev : ℕ) (h : Heap) → alloc_from (suc fuel) off total prev 0 h ≡ some (0, h)
unfolding alloc_from
alloc_from_ends fuel off total prev h = refl

module _ (fuel off total prev cur : ℕ) (h : Heap) (there : 0 < cur) where
  alloc_from_fits :
      total ≤ (h.headers cur).size
      → alloc_from (suc fuel) off total prev cur h
        ≡ some (add_u64 cur off, count_alloc total (place total prev cur h))
  unfolding alloc_from
  alloc_from_fits fits =
      let found : (cur == 0) ≡ false = ground arith in
      let test : leb total (h.headers cur).size ≡ true = ground arith in
      rw (found, alloc_from) (rw (test, alloc_from))

  alloc_from_skips :
      (h.headers cur).size < total
      → alloc_from (suc fuel) off total prev cur h
        ≡ alloc_from fuel off total cur (h.headers cur).next h
  unfolding alloc_from
  alloc_from_skips short =
      let found : (cur == 0) ≡ false = ground arith in
      let test : leb total (h.headers cur).size ≡ false = ground arith in
      rw (found, alloc_from) (rw (test, alloc_from))

abbrev Outcome : ℕ → ℕ → ℕ → Heap → List Block → List Block → List Block → ℕ → Type 0
Outcome fuel off total h past rest live cur =
    (p : ℕ) × (h' : Heap) × (alloc_from fuel off total (last_addr past) cur h ≡ some (p, h'))
    × Walked off total past rest h live p h'

-- The walk as a whole, with a round for each block left and one more.
pub alloc_from-Walked :
    (fuel off total : ℕ) (h : Heap) (past rest live : List Block) (cur : ℕ)
    → length rest < fuel
    → All (λ b. b.size < total) past
    → 16 ≤ total
    → Back h past cur
    → Chain h.headers cur rest
    → All (λ b. (h.headers b.addr).size ≡ b.size) live
    → Sound (past ++ (rest ++ live))
    → Outcome fuel off total h past rest live cur
alloc_from-Walked zero off total h past rest live cur enough small low back chain sizes sound =
    elim enough [ ]
alloc_from-Walked (suc fuel) off total h past [] live cur enough small low back chain sizes sound =
    rw chain (0, h, alloc_from_ends fuel off total (last_addr past) h, inl (refl, refl, tt))
alloc_from-Walked (suc fuel) off total h past (b ∷ rest) live cur enough small low back chain sizes
      sound =
    let at : At h past b rest live = record {
      back = subst (Back h past) chain.0 back;
      size = chain.1;
      chain = chain.2;
      sizes = sizes;
      sound = sound;
    } in
    let ib = (pulled h past b rest live at).0 in
    let there : 0 < b.addr = omega (arith, ib) in
    subst (Outcome (suc fuel) off total h past (b ∷ rest) live) (sym chain.0)
      (elim (dec_le total b.size) [
        | yes fits ↦ (
          add_u64 b.addr off,
          count_alloc total (place total (last_addr past) b.addr h),
          alloc_from_fits fuel off total (last_addr past) b.addr h there (omega (arith, chain.1)),
          inr (
            place total (last_addr past) b.addr h,
            b.addr,
            refl,
            refl,
            (place_counters total (last_addr past) b.addr h).0,
            (place_counters total (last_addr past) b.addr h).1,
            rw (← add_assoc) (place-Taken h past b rest live at total low fits small),
          ),
        )
        | no short ↦
            skip
              (alloc_from-Walked fuel off total h (b ∷ past) rest live (h.headers b.addr).next
                (omega arith) (omega arith, small) low (chain.1, refl, at.back) chain.2 sizes
                (pulled h past b rest live at))
              (alloc_from_skips fuel off total (last_addr past) b.addr h there
                (omega (arith, chain.1)))
              (omega arith)
      ])
  where
    skip :
        Outcome fuel off total h (b ∷ past) rest live (h.headers b.addr).next
        → alloc_from (suc fuel) off total (last_addr past) b.addr h
          ≡ alloc_from fuel off total b.addr (h.headers b.addr).next h
        → b.size < total
        → Outcome (suc fuel) off total h past (b ∷ rest) live b.addr
    skip (p, h', e, inl (z, same, none_fits)) step short =
        (p, h', step ∙ e, inl (z, same, (short, none_fits)))
    skip (p, h', e, inr (g, addr, at_addr, counted, used, allocs, taken)) step short = (
      p,
      h',
      step ∙ e,
      inr (
        g,
        addr,
        at_addr,
        counted,
        used,
        allocs,
        rw (sum (bytes past) b.size (bytes rest)) taken,
      ),
    )
