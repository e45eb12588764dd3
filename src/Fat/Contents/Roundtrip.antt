-- ===== src/Fat/Contents/Roundtrip.antt =====
-- The contents of a file, written to its chain of clusters and read back (kernel/src/fat.rs).
use package.solaros.Prelude.{ℕ, ◌*◌, ◌≤◌, ◌≡◌, some, List, [], ◌∷◌, length, All}
use package.solaros.Fs.{ok}
use solaros.Fat.{FsInfo, Disk, read_fat}
use solaros.Fat.Free.{Links, Distinct, Links-kept}
use solaros.Fat.Contents.{cluster_size, read_data, write_data}
use solaros.Fat.Contents.Chunk.{Works}
use solaros.Fat.Contents.Layout.{IsVolume, IsCluster, Outside}
use solaros.Fat.Contents.Stored.{write_data-Stored, read_fat-kept}

all_kept :
    (d : Disk) (i : FsInfo) (es : List ℕ) (s s' : d.State)
    → ((e : ℕ) → IsCluster i e → read_fat d i e s' ≡ read_fat d i e s)
    → All (IsCluster i) es
    → All (λ e. read_fat d i e s' ≡ read_fat d i e s) es
all_kept d i [] s s' same all = tt
all_kept d i (e ∷ es) s s' same all = (same e all.0, all_kept d i es s s' same all.1)

-- On a volume whose tables stand before its clusters and end below sector 2^32, with writes that succeed: when
-- the table links different clusters of it, at most as many as there are, that have room for the data, then
-- `write_data` to them succeeds and changes no sector outside them, and `read_data` from the first one gives
-- exactly the data.
pub read_data-write_data :
    (d : Disk) (i : FsInfo)
    → IsVolume i
    → Works d
    → (c : ℕ) (cs bytes : List ℕ) (s : d.State) → All (IsCluster i) (c ∷ cs)
    → Distinct (c ∷ cs)
    → Links d i s c cs
    → length (c ∷ cs) ≤ i.cluster_count
    → length bytes ≤ length (c ∷ cs) * cluster_size i
    → (s' : d.State) × (write_data d i (c ∷ cs) bytes s ≡ some (ok tt, s'))
      × (read_data d i i.cluster_count c (length bytes) s' ≡ ok bytes)
      × ((lba : ℕ) → Outside i lba (c ∷ cs) → d.read lba s' ≡ d.read lba s)
read_data-write_data d i v works c cs bytes s all apart l enough room =
    let (s', eq, stored) = write_data-Stored i v d works c cs bytes s all apart room in
    let same = λ (e : ℕ) (he : IsCluster i e).
      read_fat-kept i v d e (c ∷ cs) s s' he (λ lba out. stored.others lba out) in
    let links = Links-kept d i s s' c cs (same c all.0) (all_kept d i cs s s' same all.1) l in
    (s', eq, stored.held i.cluster_count enough links, λ lba out. stored.others lba out)
