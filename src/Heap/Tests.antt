-- ===== src/Heap/Tests.antt =====
-- Runs of the allocator on small heaps, and its theorems there (kernel/src/heap.rs).
use mathlib.Core.Option
use package.solaros.Prelude.{
  true, false, ℕ, ◌+◌, ◌-◌, ◌≡◌, refl, List, [], ◌∷◌, arith, some, if◌then◌else◌, ◌==◌,
}
use solaros.Heap.{Heap, FreeBlock, Layout, align_up, alloc, dealloc, realloc}
use solaros.Heap.Blocks.{Block}
use solaros.Heap.Inv.{IsHeap}
use solaros.Heap.Alloc.{IsLayout, payload, AllocResult, alloc-AllocResult, dealloc-IsHeap}
use solaros.Heap.Boot.{Region, Booted, boot, boot-Booted}
use solaros.Heap.Realloc.{Resized, realloc-Resized}

abbrev no_headers : ℕ → FreeBlock
no_headers a = record { size = 0; next = 0 }

abbrev no_heap : Heap
no_heap = record { headers = no_headers; free = 0; total = 0; used = 0; allocs = 0; frees = 0 }

-- A free block of 256 bytes at 4096, one of 8192 bytes at 8192, and a live one of 128 bytes at 1024.
abbrev live_block : Block
live_block = record { addr = 1024; size = 128 }

abbrev free_blocks : List Block
free_blocks = record { addr = 4096; size = 256 } ∷ record { addr = 8192; size = 8192 } ∷ []

abbrev small_headers : ℕ → FreeBlock
small_headers a =
    if a == 4096
    then record { size = 256; next = 8192 }
    else if a == 8192
    then record { size = 8192; next = 0 }
    else if a == 1024
    then record { size = 128; next = 0 }
    else record { size = 0; next = 0 }

abbrev small_heap : Heap
small_heap = record {
  headers = small_headers;
  free = 4096;
  total = 16384;
  used = 80;
  allocs = 1;
  frees = 0;
}

small_heap-IsHeap : IsHeap small_heap free_blocks (live_block ∷ [])
small_heap-IsHeap = record {
  chain = (refl, refl, (refl, refl, refl));
  sound = omega arith;
  sizes = (refl, tt);
}

abbrev words : Layout
words = record { size = 64; align = 8 }

abbrev words-IsLayout : IsLayout words
words-IsLayout = record { power = 3; small = omega arith; align = refl; fits = omega arith }

abbrev page : Layout
page = record { size = 4096; align = 4096 }

page-IsLayout : IsLayout page
page-IsLayout = record { power = 12; small = omega arith; align = refl; fits = omega arith }

alloc-AllocResult_example :
    (p : ℕ) × (h' : Heap) × (alloc 2 page small_heap ≡ some (p, h'))
    × AllocResult page small_heap free_blocks (live_block ∷ []) p h'
alloc-AllocResult_example =
    alloc-AllocResult page page-IsLayout small_heap free_blocks (live_block ∷ []) small_heap-IsHeap
      2 (omega arith)

-- The walk skips the first block, and the second one is cut.
alloc_run :
    Option.map {B = ℕ × ℕ} (λ r. (r.0, r.1.used)) (alloc 2 page small_heap) ≡ some (12288, 8272)
unfolding alloc
alloc_run = refl

-- Nothing fits.
alloc_run_null : Option.map (λ r. r.0) (alloc 2 (record page { size = 16384 }) small_heap) ≡ some 0
unfolding alloc
alloc_run_null = refl

payload-words : 1040 ≡ 1024 + payload words
unfolding align_up
payload-words = refl

dealloc-IsHeap_example :
    IsHeap (dealloc 1040 words small_heap) (live_block ∷ free_blocks) []
    × ((dealloc 1040 words small_heap).used ≡ 80 - 128)
    × ((dealloc 1040 words small_heap).frees ≡ 0 + 1)
dealloc-IsHeap_example =
    dealloc-IsHeap words small_heap free_blocks [] live_block [] small_heap-IsHeap 1040
      payload-words

realloc-Resized_example :
    (p : ℕ) × (h'' : Heap) × (bytes' : ℕ → ℕ) × (realloc 2 1040 words 200 small_heap (λ x. x)
      ≡ some (p, h'', bytes'))
    × Resized words 200 1040 small_heap (λ x. x) free_blocks [] live_block [] p h'' bytes'
realloc-Resized_example =
    realloc-Resized words words-IsLayout 200 (omega arith) small_heap free_blocks [] live_block []
      small_heap-IsHeap 1040 payload-words (λ x. x) 2 (omega arith)

realloc_run : Option.map (λ r. r.0) (realloc 2 1040 words 200 small_heap (λ x. x)) ≡ some 4112
unfolding realloc
realloc_run = refl

-- The second region is the longest one that is usable.
abbrev regions : List Region
regions =
    record { start = 0; end = 0x9_f000; usable = true }
    ∷ record { start = 0x10_0000; end = 0x210_0000; usable = true }
    ∷ record { start = 0x210_0000; end = 0x1000_0000; usable = false }
    ∷ []

boot-Booted_example : Booted regions no_heap (boot regions no_heap)
boot-Booted_example = boot-Booted regions no_heap
