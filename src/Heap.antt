-- ===== src/Heap.antt =====
-- The kernel's allocator, kernel/src/heap.rs: a first-fit free list of blocks whose headers stand in
-- the heap itself. A pointer is its address, the null pointer 0.
pub mod Align
pub mod Blocks
pub mod Chain
pub mod Inv
pub mod Walk
pub mod Place
pub mod Alloc
pub mod Realloc
pub mod Boot
mod Tests
use package.solaros.Prelude.{
  ℕ, zero, suc, ◌+◌, ◌-◌, ◌^◌, min, Bool, true, false, ◌&&◌, Option, none, some, if◌then◌else◌, ltb,
  leb, ◌==◌, bit_and, add_u64, sub_u64,
}
use solaros.Mem.{pmo}

-- `size_of::<FreeBlock>()`, a usize and a pointer.
abbrev pub block_header : ℕ
block_header = 16

abbrev pub min_block : ℕ
min_block = 32

pub record FreeBlock : Type 0 where
  pub size : ℕ
  pub next : ℕ

-- `HeapInner`, and the headers in memory by their address.
pub record Heap : Type 0 where
  pub headers : ℕ → FreeBlock
  pub free : ℕ
  pub total : ℕ
  pub used : ℕ
  pub allocs : ℕ
  pub frees : ℕ

-- `core::alloc::Layout`.
pub record Layout : Type 0 where
  pub size : ℕ
  pub align : ℕ

-- `(v + a - 1) & !(a - 1)`
pub align_up : ℕ → ℕ → ℕ
align_up v a = bit_and (sub_u64 (add_u64 v a) 1) (2 ^ 64 - 1 - (a - 1))

abbrev pub update : ℕ → FreeBlock → (ℕ → FreeBlock) → ℕ → FreeBlock
update a b headers x = if x == a then b else headers x

-- `(*a).size = n` and `(*a).next = n`
abbrev pub set_size : ℕ → ℕ → (ℕ → FreeBlock) → ℕ → FreeBlock
set_size a n headers = update a (record (headers a) { size = n }) headers

abbrev pub set_next : ℕ → ℕ → (ℕ → FreeBlock) → ℕ → FreeBlock
set_next a n headers = update a (record (headers a) { next = n }) headers

-- The link that leads on from `prev`, or the head of the list.
pub set_link : ℕ → ℕ → Heap → Heap
set_link prev v h = elim (prev == 0) [
  | true ↦ record h { free = v }
  | false ↦ record h { headers = set_next prev v h.headers }
]

-- `init`.
pub init : ℕ → ℕ → Heap → Heap
init base_phys size h =
    let base = add_u64 (align_up base_phys 16) pmo in
    let usable = sub_u64 size (sub_u64 base (add_u64 base_phys pmo)) in
    record {
      headers = set_next base 0 (set_size base (sub_u64 usable block_header) h.headers);
      free = base;
      total = usable;
      used = 0;
      allocs = 0;
      frees = 0;
    }

-- The first branch of the fit in `alloc_locked`: the block at `cur` is cut at `rest`.
pub split_block : ℕ → ℕ → ℕ → ℕ → Heap → Heap
unfolding set_link
split_block prev cur rest end h =
    let filled = set_next rest (h.headers cur).next (set_size rest (sub_u64 end rest) h.headers) in
    let cut = set_next cur 0 (set_size cur (sub_u64 rest cur) filled) in
    set_link prev rest (record h { headers = cut })

-- The other branch: the whole block leaves the list.
pub take_block : ℕ → ℕ → Heap → Heap
unfolding set_link
take_block prev cur h =
    let out = set_link prev (h.headers cur).next h in
    record out { headers = set_next cur 0 out.headers }

-- The body of `if b.size >= total`, up to the counters.
pub place : ℕ → ℕ → ℕ → Heap → Heap
unfolding split_block take_block align_up
place total prev cur h =
    let end = add_u64 cur (h.headers cur).size in
    let rest = align_up (add_u64 cur total) 16 in
    elim (ltb rest end && leb min_block (sub_u64 end rest)) [
      | true ↦ split_block prev cur rest end h
      | false ↦ take_block prev cur h
    ]

abbrev pub count_alloc : ℕ → Heap → Heap
count_alloc total h = record h { used = add_u64 h.used total; allocs = add_u64 h.allocs 1 }

-- The loop of `alloc_locked`, on fuel: the pointer returned, and the heap after it.
pub alloc_from : ℕ → ℕ → ℕ → ℕ → ℕ → Heap → Option (ℕ × Heap)
unfolding place
alloc_from zero off total prev cur h = none
alloc_from (suc fuel) off total prev cur h = elim (cur == 0) [
  | true ↦ some (0, h)
  | false ↦ elim (leb total (h.headers cur).size) [
    | true ↦ some (add_u64 cur off, count_alloc total (place total prev cur h))
    | false ↦ alloc_from fuel off total cur (h.headers cur).next h
  ]
]

-- `alloc_locked`, with fuel for as many blocks.
pub alloc : ℕ → Layout → Heap → Option (ℕ × Heap)
unfolding alloc_from align_up
alloc fuel layout h =
    let off = align_up block_header layout.align in
    alloc_from (fuel + 1) off (add_u64 off layout.size) 0 h.free h

-- `dealloc`.
pub dealloc : ℕ → Layout → Heap → Heap
unfolding align_up
dealloc ptr layout h = elim (ptr == 0) [
  | true ↦ h
  | false ↦
      let block = sub_u64 ptr (align_up block_header layout.align) in
      record h {
        headers = set_next block h.free h.headers;
        free = block;
        used = h.used - (h.headers block).size;
        frees = add_u64 h.frees 1;
      }
]

-- `copy_nonoverlapping(src, dst, n)` on the bytes of the memory.
abbrev pub copy_bytes : ℕ → ℕ → ℕ → (ℕ → ℕ) → ℕ → ℕ
copy_bytes src dst n bytes x =
    if leb dst x && ltb x (dst + n) then bytes (src + (x - dst)) else bytes x

-- `realloc`: the pointer, the heap and the bytes outside the headers.
pub realloc : ℕ → ℕ → Layout → ℕ → Heap → (ℕ → ℕ) → Option (ℕ × Heap × (ℕ → ℕ))
unfolding alloc dealloc
realloc fuel ptr layout new_size h bytes =
    elim (alloc fuel (record { size = new_size; align = layout.align }) h) [
      | none ↦ none
      | some (new_ptr, h') ↦ elim (new_ptr == 0) [
        | true ↦ some (0, h', bytes)
        | false ↦ some (
          new_ptr,
          dealloc ptr layout h',
          copy_bytes ptr new_ptr (min layout.size new_size) bytes,
        )
      ]
    ]
