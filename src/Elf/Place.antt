-- ===== src/Elf/Place.antt =====
-- Where the segments of an image come to lie in memory (kernel/src/elf.rs).
use package.solaros.Prelude.{
  ℕ, zero, suc, ◌+◌, ◌-◌, ◌^◌, ◌≤◌, ◌<◌, ◌≡◌, ◌⊎◌, inl, inr, refl, sym, ◌∙◌, ap, false, some, List,
  [], ◌∷◌, length, get_or, take, drop, replicate, ltb, arith, All, Bool-cases, length-take,
  length-drop, length-replicate, add_u64, sub_u64,
}
use solaros.Syscall.{copy_in}
use solaros.Syscall.Copy.{copy_in-outside, copy_in-inside}
use solaros.Elf.{Phdr, Memory, min_vaddr, max_end, image_size, load_segment, load_segments}
use solaros.Elf.Span.{IsSegment, Between, span-Between, span_below, size_of_image_room}

get_or-replicate : (n k : ℕ) → get_or {A = ℕ} (replicate n 0) k 0 ≡ 0
get_or-replicate zero k = refl
get_or-replicate (suc n) zero = refl
get_or-replicate (suc n) (suc k) = get_or-replicate n k

get_or-behind : (bs : List ℕ) (k : ℕ) → length bs ≤ k → get_or bs k 0 ≡ 0
get_or-behind [] k h = refl
get_or-behind (b ∷ bs) zero h = absurd (omega arith)
get_or-behind (b ∷ bs) (suc k) h = get_or-behind bs k (omega arith)

-- No two of the segments share an address.
abbrev pub Apart : List Phdr → Type 0
Apart [] = Unit
Apart (h ∷ hs) =
    All (λ g. (h.p_vaddr + h.p_memsz ≤ g.p_vaddr) ⊎ (g.p_vaddr + g.p_memsz ≤ h.p_vaddr)) hs
    × Apart hs

module _ (blob : List ℕ) (lo hi block : ℕ) (room : block + (hi - lo) < 2 ^ 64)
    (below : hi < 2 ^ 64) where
  abbrev place_of : Phdr → ℕ
  place_of h = block + (h.p_vaddr - lo)

  abbrev contents : Phdr → List ℕ
  contents h = take h.p_filesz (drop h.p_offset blob)

  length-contents : (h : Phdr) → IsSegment blob h → length (contents h) ≡ h.p_filesz
  length-contents h is = omega (
    arith,
    is.in_file,
    length-take h.p_filesz (drop h.p_offset blob),
    length-drop h.p_offset blob,
  )

  -- The segment's memory holds its bytes of the file, and zeros behind them.
  abbrev Holds : Memory → Phdr → Type 0
  Holds mem h = (k : ℕ) → k < h.p_memsz → mem (place_of h + k) ≡ get_or (contents h) k 0

  abbrev Away : ℕ → Phdr → Type 0
  Away a h = (a < place_of h) ⊎ (place_of h + h.p_memsz ≤ a)

  -- Loading one segment.
  record Filled (h : Phdr) (mem mem' : Memory) : Type 0 where
    holds : Holds mem' h
    others : (a : ℕ) → Away a h → mem' a ≡ mem a

  base_place :
      (h : Phdr)
      → IsSegment blob h
      → Between lo hi h
      → add_u64 (sub_u64 block lo) h.p_vaddr ≡ place_of h
  base_place h is b = omega (arith, room, below, b.0, b.1)

  load_segment-Filled :
      (h : Phdr) (mem : Memory)
      → IsSegment blob h
      → Between lo hi h
      → (mem' : Memory) × (load_segment blob (sub_u64 block lo) h mem ≡ some mem')
        × Filled h mem mem'
  unfolding load_segment
  load_segment-Filled h mem is b =
      let at = base_place h is b in
      let data_len = length-contents h is in
      let fits : ltb (length blob) (h.p_offset + h.p_filesz) ≡ false = ground (arith, is.in_file) in
      let copied = copy_in (contents h) (place_of h) mem in
      let zeros : List ℕ = replicate (h.p_memsz - h.p_filesz) 0 in
      let zeros_len = length-replicate {A = ℕ} (h.p_memsz - h.p_filesz) 0 in
      elim (Bool-cases (ltb h.p_filesz h.p_memsz)) [
        | inl more ↦ (
          copy_in zeros (place_of h + h.p_filesz) copied,
          rw (fits, load_segment) (rw more (rw at)),
          record {
            holds = λ k small. elim (Bool-cases (ltb k h.p_filesz)) [
              | inl data_byte ↦
                  copy_in-outside zeros (place_of h + h.p_filesz) copied (place_of h + k)
                    (inl (ground arith))
                  ∙ copy_in-inside (contents h) (place_of h) mem k (ground (arith, data_len))
              | inr zero_byte ↦
                  ap (copy_in zeros (place_of h + h.p_filesz) copied) (ground arith)
                  ∙ copy_in-inside zeros (place_of h + h.p_filesz) copied (k - h.p_filesz)
                      (ground (arith, zeros_len))
                  ∙ get_or-replicate (h.p_memsz - h.p_filesz) (k - h.p_filesz)
                  ∙ sym (get_or-behind (contents h) k (ground (arith, data_len)))
            ];
            others = λ a out.
                copy_in-outside zeros (place_of h + h.p_filesz) copied a
                  (ground (arith, zeros_len, is.in_memory))
                ∙ copy_in-outside (contents h) (place_of h) mem a
                    (ground (arith, data_len, is.in_memory));
          },
        )
        | inr equal ↦ (
          copied,
          rw (fits, load_segment) (rw equal (rw at)),
          record {
            holds = λ k small.
                copy_in-inside (contents h) (place_of h) mem k (ground (arith, data_len));
            others = λ a out.
                copy_in-outside (contents h) (place_of h) mem a
                  (ground (arith, data_len, is.in_memory));
          },
        )
      ]

  -- A segment stays while others are loaded that share no address with it.
  Away-others :
      (h : Phdr) (hs : List Phdr) (k : ℕ)
      → k < h.p_memsz
      → Between lo hi h
      → All (Between lo hi) hs
      → All (λ g. (h.p_vaddr + h.p_memsz ≤ g.p_vaddr) ⊎ (g.p_vaddr + g.p_memsz ≤ h.p_vaddr)) hs
      → All (Away (place_of h + k)) hs
  Away-others h [] k small b all apart = tt
  Away-others h (g ∷ gs) k small b all apart = (
    elim apart.0 [
      | inl before ↦ inl (omega (arith, b.0, all.0.0))
      | inr behind ↦ inr (omega (arith, b.0, all.0.0))
    ],
    Away-others h gs k small b all.1 apart.1,
  )

  abbrev AllHold : (hs : List Phdr) (mem : Memory) → Memory → Type 0
  AllHold hs mem mem' = All (Holds mem') hs × ((a : ℕ) → All (Away a) hs → mem' a ≡ mem a)

  load_segments-Filled :
      (hs : List Phdr) (mem : Memory)
      → All (IsSegment blob) hs
      → All (Between lo hi) hs
      → Apart hs
      → (mem' : Memory) × (load_segments blob (sub_u64 block lo) hs mem ≡ some mem')
        × AllHold hs mem mem'
  unfolding load_segments
  load_segments-Filled [] mem is between apart = (mem, refl, (tt, λ a out. refl))
  load_segments-Filled (h ∷ hs) mem is between apart =
      let (mem1, eq1, one) = load_segment-Filled h mem is.0 between.0 in
      let (mem', eq, rest) = load_segments-Filled hs mem1 is.1 between.1 apart.1 in
      (
        mem',
        rw (eq1, load_segments) eq,
        (
          (
            λ k small.
                rest.1 (place_of h + k) (Away-others h hs k small between.0 between.1 apart.0)
                ∙ one.holds k small,
            rest.0,
          ),
          λ a out. rest.1 a out.1 ∙ one.others a out.0,
        ),
      )

Away-outside :
    (blob : List ℕ) (lo hi block : ℕ) (room : block + (hi - lo) < 2 ^ 64) (below : hi < 2 ^ 64)
    (a : ℕ) (hs : List Phdr)
    → (a < block) ⊎ (block + (hi - lo) ≤ a)
    → All (Between lo hi) hs
    → All (Away blob lo hi block room below a) hs
Away-outside blob lo hi block room below a [] out all = tt
Away-outside blob lo hi block room below a (h ∷ hs) out all = (
  elim out [ inl before ↦ inl (omega arith) | inr behind ↦ inr (omega (arith, all.0.0, all.0.1)) ],
  Away-outside blob lo hi block room below a hs out all.1,
)

-- The memory after the segments are loaded into a block: each address of a segment has its byte of the file, or 0
-- behind these, and nothing outside the block changes.
pub record Placed (blob : List ℕ) (hs : List Phdr) (block : ℕ) (mem mem' : Memory) : Type 0 where
  pub segments :
      All
        (λ h.
          (k : ℕ)
          → k < h.p_memsz
          → mem' (block + (h.p_vaddr - min_vaddr hs) + k)
            ≡ get_or (take h.p_filesz (drop h.p_offset blob)) k 0)
        hs
  pub others : (a : ℕ) → (a < block) ⊎ (block + image_size hs ≤ a) → mem' a ≡ mem a

-- For segments that keep to the file and to 64 bits, have at least as much memory as bytes of the file and share no
-- address, and a block of the size that the loader asks for, below 2^64: loading them succeeds, each address of a
-- segment then has its byte of the file, or 0 behind these, and nothing outside the block changes.
pub load_segments-Placed :
    (blob : List ℕ) (hs : List Phdr) (block : ℕ) (mem : Memory)
    → All (IsSegment blob) hs
    → Apart hs
    → max_end hs - min_vaddr hs + 0x1000 ≤ 2 ^ 64
    → block + image_size hs < 2 ^ 64
    → (mem' : Memory) × (load_segments blob (sub_u64 block (min_vaddr hs)) hs mem ≡ some mem')
      × Placed blob hs block mem mem'
load_segments-Placed blob hs block mem is apart small fits =
    let lo = min_vaddr hs in
    let hi = max_end hs in
    let sized = size_of_image_room lo hi small in
    let below = span_below hs (2 ^ 64 - 1) 0 (omega arith) in
    let room : block + (hi - lo) < 2 ^ 64 = omega (arith, sized, fits) in
    let between = span-Between blob hs (2 ^ 64 - 1) 0 is in
    let (mem', eq, filled) =
      load_segments-Filled blob lo hi block room below hs mem is between apart in
    (
      mem',
      eq,
      record {
        segments = filled.0;
        others = λ a out. filled.1 a (
            Away-outside blob lo hi block room below a hs
              (elim out [ inl before ↦ inl before | inr behind ↦ inr (omega (arith, sized)) ])
              between);
      },
    )
