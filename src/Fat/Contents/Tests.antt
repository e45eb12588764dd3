-- ===== src/Fat/Contents/Tests.antt =====
-- The contents of files on the volume in memory, and their theorems at it (kernel/src/fat.rs).
use package.solaros.Prelude.{ℕ, ◌≡◌, refl, some, List, [], ◌∷◌, replicate, arith}
use package.solaros.Fs.{Result, ok}
use solaros.Fat.Tests.{ram, volume, disk, volume-HasEntries, ram_works, chain_on_disk}
use solaros.Fat.Contents.{read_data, write_data, alloc_chain}
use solaros.Fat.Contents.Layout.{IsVolume, Outside}
use solaros.Fat.Contents.Chain.{Chained, alloc_chain-Chained}
use solaros.Fat.Contents.Roundtrip.{read_data-write_data}

volume-IsVolume : IsVolume volume
volume-IsVolume = record {
  entries = volume-HasEntries;
  some_sector = omega arith;
  tables = omega arith;
  fits = omega arith;
}

-- A file of one sector and 88 bytes.
abbrev letters : List ℕ
letters = replicate 600 b'A'

alloc_chain-Chained_example : Chained ram volume 2 disk (alloc_chain ram volume 2 disk)
alloc_chain-Chained_example =
    alloc_chain-Chained ram volume volume-HasEntries ram_works (omega arith) 1 disk

abbrev clusters_taken : Result (List ℕ) → List ℕ
clusters_taken (ok cs) = cs
clusters_taken _ = []

alloc_run : clusters_taken (alloc_chain ram volume 2 disk).0 ≡ 5 ∷ 6 ∷ []
unfolding alloc_chain solaros.Fat.alloc_cluster
alloc_run = refl

read_data-write_data_example :
    (s' : ram.State) × (write_data ram volume (3 ∷ 4 ∷ []) letters disk ≡ some (ok tt, s'))
    × (read_data ram volume 8 3 600 s' ≡ ok letters)
    × ((lba : ℕ) → Outside volume lba (3 ∷ 4 ∷ []) → ram.read lba s' ≡ ram.read lba disk)
read_data-write_data_example =
    read_data-write_data ram volume volume-IsVolume (λ lba b s len. refl) 3 (4 ∷ []) letters disk
      ((omega arith, omega arith), ((omega arith, omega arith), tt)) ((omega arith, tt), (tt, tt))
      chain_on_disk (omega arith) (omega arith)
