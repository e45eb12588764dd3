-- ===== src/Elf/Span.antt =====
-- The addresses that the segments of an image span (kernel/src/elf.rs).
use package.solaros.Prelude.{
  ℕ, ◌+◌, ◌-◌, ◌/◌, ◌%◌, ◌^◌, ◌≤◌, ◌<◌, refl, List, [], ◌∷◌, length, min, max, arith, All, add_u64,
}
use package.solaros.Prelude.Bits.{bit_and_le, bit_and_mask}
use solaros.Elf.{Phdr, page_start, end_of, span, size_of_image}

-- A header that keeps to the file and to 64 bits.
pub record IsSegment (blob : List ℕ) (h : Phdr) : Type 0 where
  pub in_memory : h.p_filesz ≤ h.p_memsz
  pub in_range : h.p_vaddr + h.p_memsz < 2 ^ 64
  pub in_file : h.p_offset + h.p_filesz ≤ length blob

-- The segment lies between two addresses.
abbrev pub Between : ℕ → ℕ → Phdr → Type 0
Between lo hi h = (lo ≤ h.p_vaddr) × (h.p_vaddr + h.p_memsz ≤ hi)

span_grows : (hs : List Phdr) (lo hi : ℕ) → ((span hs lo hi).0 ≤ lo) × (hi ≤ (span hs lo hi).1)
unfolding span
span_grows [] lo hi = (omega arith, omega arith)
span_grows (h ∷ hs) lo hi =
    let rest = span_grows hs (min lo (page_start h.p_vaddr)) (max hi (end_of h)) in
    (omega (arith, rest.0), omega (arith, rest.1))

pub span-Between :
    (blob : List ℕ) (hs : List Phdr) (lo hi : ℕ)
    → All (IsSegment blob) hs
    → All (Between (span hs lo hi).0 (span hs lo hi).1) hs
unfolding span
span-Between blob [] lo hi all = tt
span-Between blob (h ∷ hs) lo hi all =
    let lo' = min lo (page_start h.p_vaddr) in
    let hi' = max hi (end_of h) in
    let rest = span_grows hs lo' hi' in
    let floor = bit_and_le h.p_vaddr h.p_vaddr (2 ^ 64 - 0x1000) (omega arith) in
    (
      (omega (arith, rest.0, floor), omega (arith, rest.1, all.0.in_range)),
      span-Between blob hs lo' hi' all.1,
    )

pub span_below : (hs : List Phdr) (lo hi : ℕ) → hi < 2 ^ 64 → (span hs lo hi).1 < 2 ^ 64
unfolding span
span_below [] lo hi h = h
span_below (g ∷ hs) lo hi h =
    span_below hs (min lo (page_start g.p_vaddr)) (max hi (end_of g)) (omega arith)

-- The size is rounded up to whole pages.
pub size_of_image_room : (lo hi : ℕ) → hi - lo + 0x1000 ≤ 2 ^ 64 → hi - lo ≤ size_of_image lo hi
size_of_image_room lo hi small =
    let x = add_u64 (hi - lo) 0xFFF in
    omega (
      arith,
      bit_and_mask 64 12 (2 ^ 64 - 0x1000) x (x / 0x1000) (x % 0x1000) refl (omega arith)
          (omega arith) (omega arith),
    )
