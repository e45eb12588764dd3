-- ===== src/Elf/Tests.antt =====
-- An image of two segments, and the theorem of the loader at it (kernel/src/elf.rs).
use package.solaros.Prelude.{ℕ, ◌≡◌, inl, some, List, [], ◌∷◌, arith, sub_u64}
use solaros.Shell.{codes}
use solaros.Elf.{Phdr, Memory, span, min_vaddr, load_segments}
use solaros.Elf.Place.{Placed, load_segments-Placed}

abbrev blob : List ℕ
blob = codes "codedata"

-- Four bytes with four zeros behind, and four bytes on the next page.
abbrev code_segment : Phdr
code_segment = record { p_type = 1; p_offset = 0; p_vaddr = 0x10010; p_filesz = 4; p_memsz = 8 }

abbrev data_segment : Phdr
data_segment = record { p_type = 1; p_offset = 4; p_vaddr = 0x11000; p_filesz = 4; p_memsz = 4 }

abbrev segments : List Phdr
segments = code_segment ∷ data_segment ∷ []

abbrev empty_memory : Memory
empty_memory a = 0

load_segments-Placed_example :
    (mem : Memory) × (load_segments blob (sub_u64 0x5000 (min_vaddr segments)) segments empty_memory
      ≡ some mem)
    × Placed blob segments 0x5000 empty_memory mem
unfolding span
load_segments-Placed_example =
    load_segments-Placed blob segments 0x5000 empty_memory
      (
        record { in_memory = omega arith; in_range = omega arith; in_file = omega arith },
        (record { in_memory = omega arith; in_range = omega arith; in_file = omega arith }, tt),
      )
      ((inl (omega arith), tt), (tt, tt)) (omega arith) (omega arith)
