-- ===== src/Elf.antt =====
-- The loader of the user program, kernel/src/elf.rs: a position-independent ELF64 image, copied into a block of
-- the heap and relocated there. Memory is a function of addresses; the allocator and the marking of pages are
-- arguments. Where the source returns None or panics, the result is `none`.
pub mod Span
pub mod Place
mod Tests
use package.solaros.Prelude.{
  ℕ, zero, suc, ◌+◌, ◌-◌, ◌*◌, ◌/◌, ◌%◌, ◌^◌, Bool, true, false, ◌&&◌, ◌||◌, not, Option, none,
  some, List, [], ◌∷◌, length, get_or, take, drop, replicate, min, max, bit_and, if◌then◌else◌, ltb,
  leb, ◌==◌, add_u64, sub_u64,
}
use solaros.Fat.{get16, get32}
use solaros.Syscall.{copy_in}

pub record Phdr : Type 0 where
  pub p_type : ℕ
  pub p_offset : ℕ
  pub p_vaddr : ℕ
  pub p_filesz : ℕ
  pub p_memsz : ℕ

abbrev pub get64 : List ℕ → ℕ → ℕ
get64 b o = get32 b o + 2 ^ 32 * get32 b (o + 4)

abbrev pub page : ℕ
page = 0x1000

-- `x & !(PAGE - 1)`
abbrev pub page_start : ℕ → ℕ
page_start x = bit_and x (2 ^ 64 - page)

abbrev pub phdr_at : List ℕ → ℕ → Phdr
phdr_at b o = record {
  p_type = get32 b o;
  p_offset = get64 b (o + 8);
  p_vaddr = get64 b (o + 0x10);
  p_filesz = get64 b (o + 0x20);
  p_memsz = get64 b (o + 0x28);
}

-- The loop over the program headers from `i` on.
pub read_phdrs : List ℕ → ℕ → ℕ → ℕ → ℕ → Option (List Phdr)
read_phdrs blob phoff entsize zero i = some []
read_phdrs blob phoff entsize (suc left) i =
    let off = (phoff + i * entsize) % 2 ^ 64 in
    if ltb (length blob) (off + 56)
    then none
    else elim (read_phdrs blob phoff entsize left (i + 1)) [
      | none ↦ none
      | some hs ↦ some (phdr_at blob off ∷ hs)
    ]

-- The headers of one type, which the loops do not pass over.
pub of_type : ℕ → List Phdr → List Phdr
of_type t [] = []
of_type t (h ∷ hs) = let rest = of_type t hs in if h.p_type == t then h ∷ rest else rest

abbrev pub end_of : Phdr → ℕ
end_of h = min (h.p_vaddr + h.p_memsz) (2 ^ 64 - 1)

-- The loop for `min_vaddr` and `max_end`.
unfoldable pub span : List Phdr → ℕ → ℕ → ℕ × ℕ
span [] lo hi = (lo, hi)
span (h ∷ hs) lo hi = span hs (min lo (page_start h.p_vaddr)) (max hi (end_of h))

abbrev pub size_of_image : ℕ → ℕ → ℕ
size_of_image lo hi = page_start (add_u64 (hi - lo) (page - 1))

-- `min_vaddr`, `max_end` and `image_size` for the loadable segments.
abbrev pub min_vaddr : List Phdr → ℕ
min_vaddr hs = (span hs (2 ^ 64 - 1) 0).0

abbrev pub max_end : List Phdr → ℕ
max_end hs = (span hs (2 ^ 64 - 1) 0).1

abbrev pub image_size : List Phdr → ℕ
image_size hs = size_of_image (min_vaddr hs) (max_end hs)

abbrev pub Memory : Type 0
Memory = ℕ → ℕ

-- One segment: its bytes of the file, and zeros behind them.
pub load_segment : List ℕ → ℕ → Phdr → Memory → Option Memory
load_segment blob base h mem =
    let dst = add_u64 base h.p_vaddr in
    let copied = copy_in (take h.p_filesz (drop h.p_offset blob)) dst mem in
    if ltb (length blob) (h.p_offset + h.p_filesz)
    then none
    else some (
        if ltb h.p_filesz h.p_memsz
        then copy_in (replicate (h.p_memsz - h.p_filesz) 0) (dst + h.p_filesz) copied
        else copied)

pub load_segments : List ℕ → ℕ → List Phdr → Memory → Option Memory
load_segments blob base [] mem = some mem
load_segments blob base (h ∷ hs) mem = elim (load_segment blob base h mem) [
  | none ↦ none
  | some mem' ↦ load_segments blob base hs mem'
]

-- Reads and writes of a `u64` in memory.
abbrev pub read64 : Memory → ℕ → ℕ
read64 mem a =
    mem a
    + 256
      * (mem (a + 1)
          + 256
            * (mem (a + 2)
                + 256
                  * (mem (a + 3)
                      + 256
                        * (mem (a + 4)
                            + 256 * (mem (a + 5) + 256 * (mem (a + 6) + 256 * mem (a + 7)))))))

pub bytes_of : ℕ → ℕ → List ℕ
bytes_of zero v = []
bytes_of (suc n) v = v % 256 ∷ bytes_of n (v / 256)

pub record Rela : Type 0 where
  pub addr : ℕ
  pub size : ℕ
  pub ent : ℕ

abbrev pub note_tag : ℕ → ℕ → Rela → Rela
note_tag tag val r =
    if tag == 7
    then record r { addr = val }
    else if tag == 8
    then record r { size = val }
    else if tag == 9
    then record r { ent = val }
    else r

-- The loop over the dynamic table, up to its end mark.
pub scan_dynamic : ℕ → ℕ → Memory → Rela → Rela
scan_dynamic zero at mem r = r
scan_dynamic (suc left) at mem r =
    let tag = read64 mem at in
    elim (tag == 0) [
      | true ↦ r
      | false ↦ scan_dynamic left (at + 16) mem (note_tag tag (read64 mem (at + 8)) r)
    ]

-- The loop over the relocations: each of type 8 writes the base and its addend.
pub relocate : ℕ → ℕ → Rela → ℕ → Memory → Memory
relocate zero base r off mem = mem
relocate (suc rounds) base r off mem = elim (leb (off + 24) r.size) [
  | false ↦ mem
  | true ↦
      let at = add_u64 (add_u64 base r.addr) off in
      let patched =
        copy_in (bytes_of 8 (add_u64 base (read64 mem (at + 16)))) (add_u64 base (read64 mem at))
          mem in
      relocate rounds base r (off + r.ent)
        (if read64 mem (at + 8) % 2 ^ 32 == 8 then patched else mem)
]

pub apply_relocations : ℕ → Phdr → Memory → Memory
apply_relocations base h mem =
    let r =
      scan_dynamic (h.p_memsz / 16) (add_u64 base h.p_vaddr) mem
        (record { addr = 0; size = 0; ent = 24 }) in
    if (r.size == 0) || ltb r.ent 24 then mem else relocate (r.size / 24) base r 0 mem

pub relocate_all : ℕ → List Phdr → Memory → Memory
relocate_all base [] mem = mem
relocate_all base (h ∷ hs) mem = relocate_all base hs (apply_relocations base h mem)

abbrev pub has_magic : List ℕ → Bool
has_magic b =
    (get_or b 0 0 == 0x7F)
    && (get_or b 1 0 == b'E')
    && (get_or b 2 0 == b'L')
    && (get_or b 3 0 == b'F')

pub record Loaded : Type 0 where
  pub entry : ℕ
  pub stack_top : ℕ
  pub memory : Memory

abbrev pub user_stack_bytes : ℕ
user_stack_bytes = 64 * 1024

-- The blocks that the allocator gives for the image and the stack (0 is null), and whether the pages of the image
-- are marked.
module _ (block_for : ℕ → ℕ) (stack : ℕ) (marks : ℕ → ℕ → Bool) where
  abbrev pub load_image : List ℕ → List Phdr → Memory → Option Loaded
  load_image blob hs mem =
      let segments = of_type 1 hs in
      let lo = min_vaddr segments in
      let size = image_size segments in
      let block = block_for size in
      let base = sub_u64 block lo in
      if (lo == 2 ^ 64 - 1) || (block == 0)
      then none
      else elim (load_segments blob base segments mem) [
        | none ↦ none
        | some placed ↦
            if not (marks block size) || (stack == 0)
            then none
            else some (record {
              entry = add_u64 base (get64 blob 0x18);
              stack_top = stack + user_stack_bytes;
              memory = relocate_all base (of_type 2 hs) placed;
            })
      ]

  pub load_user_elf : List ℕ → Memory → Option Loaded
  unfolding read_phdrs of_type span load_segments relocate_all
  load_user_elf blob mem =
      if ltb (length blob) 64 || not (has_magic blob) || not (get16 blob 0x10 == 3)
      then none
      else elim (read_phdrs blob (get64 blob 0x20) (get16 blob 0x36) (get16 blob 0x38) 0) [
        | none ↦ none
        | some hs ↦ load_image blob hs mem
      ]
