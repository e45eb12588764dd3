-- ===== src/Fat/Contents/Stored.antt =====
-- A file's clusters: what write_file puts into a chain of clusters, read_file reads by following it
-- (kernel/src/fat.rs).
use package.solaros.Prelude.{
  ℕ, zero, suc, ◌+◌, ◌-◌, ◌*◌, ◌≤◌, ◌<◌, ◌≡◌, ◌≢◌, ◌⊎◌, inl, inr, refl, sym, subst, ◌∙◌, ap, true,
  false, Option, some, List, [], ◌∷◌, length, take, drop, min, ◌==◌, arith, All, length-take,
  length-drop,
}
use package.solaros.Fs.{Result, ok}
use solaros.Fat.{FsInfo, Disk, u32, first_sector, read_fat, fat_sector}
use solaros.Fat.Free.{Links, Distinct, is_last}
use solaros.Fat.Contents.{cluster_size, then_reads, read_chunk, write_chunk, read_data, write_data}
use solaros.Fat.Contents.Chunk.{Works, Kept, write_chunk-Kept, read_chunk-agree, take-drop}
use solaros.Fat.Contents.Layout.{
  IsVolume, IsCluster, start_of, Outside, cluster_ends, first_sector-start_of, Outside-others,
  table-Outside,
}

take-all : (bs : List ℕ) → take (length bs) bs ≡ bs
take-all [] = refl
take-all (b ∷ bs) = ap (λ xs. b ∷ xs) (take-all bs)

drop-all : (bs : List ℕ) → drop (length bs) bs ≡ []
drop-all [] = refl
drop-all (b ∷ bs) = drop-all bs

module _ (i : FsInfo) (v : IsVolume i) where
  module _ (d : Disk) where
    read_last :
        (rounds c left : ℕ) (s : d.State) (bs : List ℕ)
        → 0 < left
        → read_chunk d i.sec_per_clus (first_sector i c) 0 (min left (cluster_size i)) s ≡ ok bs
        → is_last (read_fat d i c s) ≡ true
        → read_data d i (suc rounds) c left s ≡ ok bs
    unfolding read_data
    read_last rounds c left s bs more chunk last =
        let test : (left == 0) ≡ false = ground arith in rw (test, read_data) (rw chunk (rw last))

    read_more :
        (rounds c e left : ℕ) (s : d.State) (bs : List ℕ)
        → 0 < left
        → read_chunk d i.sec_per_clus (first_sector i c) 0 (min left (cluster_size i)) s ≡ ok bs
        → read_fat d i c s ≡ e
        → is_last e ≡ false
        → read_data d i (suc rounds) c left s
          ≡ then_reads bs (read_data d i rounds e (left - min left (cluster_size i)) s)
    unfolding read_data
    read_more rounds c e left s bs more chunk at goes =
        let test : (left == 0) ≡ false = ground arith in
        let goes_on : is_last (read_fat d i c s) ≡ false = ap is_last at ∙ goes in
        rw (test, read_data)
          (rw chunk (
            rw goes_on (
              ap (λ n. then_reads bs (read_data d i rounds n (left - min left (cluster_size i)) s))
                at)))

    read_nothing : (rounds c : ℕ) (s : d.State) → read_data d i rounds c 0 s ≡ ok []
    unfolding read_data
    read_nothing zero c s = refl
    read_nothing (suc rounds) c s = refl

    -- What writing data to a chain leaves: sectors outside the chain are as before, and where the table links the
    -- chain, reading it from its first cluster on gives the data.
    pub record Stored (c : ℕ) (cs bytes : List ℕ) (s s' : d.State) : Type 0 where
      pub others : (lba : ℕ) → Outside i lba (c ∷ cs) → d.read lba s' ≡ d.read lba s
      pub held :
          (rounds : ℕ)
          → length (c ∷ cs) ≤ rounds
          → Links d i s' c cs
          → read_data d i rounds c (length bytes) s' ≡ ok bytes

    abbrev Writes : ℕ → List ℕ → List ℕ → d.State → Option (Result (Unit {0}) × d.State) → Type 0
    Writes c cs bytes s o = (s' : d.State) × (o ≡ some (ok tt, s')) × Stored c cs bytes s s'

    -- The first chunk is kept in the cluster.
    chunk_Kept :
        Works d
        → (c : ℕ) (bytes : List ℕ) (s : d.State) → IsCluster i c
        → let chunk = min (length bytes) (cluster_size i) in
          Kept d i.sec_per_clus
            (first_sector i c)
            0
            0
            (take chunk bytes)
            s
            (write_chunk d i.sec_per_clus (first_sector i c) 0 (take chunk bytes) s)
    chunk_Kept works c bytes s h =
        let chunk = min (length bytes) (cluster_size i) in
        write_chunk-Kept d works i.sec_per_clus (first_sector i c) 0 (take chunk bytes) s
          (omega (arith, first_sector-start_of i v c h, cluster_ends i v c h))
          (omega (arith, length-take chunk bytes))

    write_next :
        (c : ℕ) (cs bytes : List ℕ) (s : d.State)
        → 0 < length bytes
        → let chunk = min (length bytes) (cluster_size i) in
          let r = write_chunk d i.sec_per_clus (first_sector i c) 0 (take chunk bytes) s in
          r.0 ≡ ok tt → write_data d i (c ∷ cs) bytes s ≡ write_data d i cs (drop chunk bytes) r.1
    unfolding write_data
    write_next c cs bytes s more went =
        let test : (length bytes == 0) ≡ false = ground arith in rw (test, write_data) (rw went)

    write_end : (cs : List ℕ) (s : d.State) → write_data d i cs [] s ≡ some (ok tt, s)
    unfolding write_data
    write_end [] s = refl
    write_end (c ∷ cs) s = refl

    -- The chunk is still there after writes to other clusters.
    chunk_stays :
        (c : ℕ) (cs bs : List ℕ) (s s' : d.State) (r : Result (Unit {0}) × d.State)
        → IsCluster i c
        → All (IsCluster i) cs
        → All (λ e. e ≢ c) cs
        → Kept d i.sec_per_clus (first_sector i c) 0 0 bs s r
        → ((lba : ℕ) → Outside i lba cs → d.read lba s' ≡ d.read lba r.1)
        → read_chunk d i.sec_per_clus (first_sector i c) 0 (length bs) s' ≡ ok bs
    chunk_stays c cs bs s s' r h all ne k same =
        let first = first_sector-start_of i v c h in
        let end = cluster_ends i v c h in
        read_chunk-agree d i.sec_per_clus (first_sector i c) 0 (length bs) r.1 s' (λ n low high.
          let here : u32 (first_sector i c + n) ≡ start_of i c + n = omega (arith, first, end) in
          rw here (same (start_of i c + n) (Outside-others i v c n cs h (omega arith) all ne)))
        ∙ k.held

    chunk_others :
        (c : ℕ) (bs : List ℕ) (s : d.State) (r : Result (Unit {0}) × d.State)
        → IsCluster i c
        → Kept d i.sec_per_clus (first_sector i c) 0 0 bs s r
        → (lba : ℕ) → (lba < start_of i c) ⊎ (start_of i c + i.sec_per_clus ≤ lba)
        → d.read lba r.1 ≡ d.read lba s
    chunk_others c bs s r h k lba (inl before) =
        k.others lba (inl (omega (arith, first_sector-start_of i v c h)))
    chunk_others c bs s r h k lba (inr behind) =
        k.others lba (inr (omega (arith, first_sector-start_of i v c h)))

    -- The chunk that stays is all that a round of the reading wants.
    chunk_read :
        (c : ℕ) (cs bytes : List ℕ) (s s' : d.State) (r : Result (Unit {0}) × d.State)
        → IsCluster i c
        → All (IsCluster i) cs
        → All (λ e. e ≢ c) cs
        → let chunk = min (length bytes) (cluster_size i) in
          Kept d i.sec_per_clus (first_sector i c) 0 0 (take chunk bytes) s r
          → ((lba : ℕ) → Outside i lba cs → d.read lba s' ≡ d.read lba r.1)
          → read_chunk d i.sec_per_clus (first_sector i c) 0 chunk s' ≡ ok (take chunk bytes)
    chunk_read c cs bytes s s' r h all ne k same =
        let chunk = min (length bytes) (cluster_size i) in
        let len : length (take chunk bytes) ≡ chunk = omega (arith, length-take chunk bytes) in
        subst (λ n. read_chunk d i.sec_per_clus (first_sector i c) 0 n s' ≡ ok (take chunk bytes))
          len (chunk_stays c cs (take chunk bytes) s s' r h all ne k same)

    held_at_end :
        (rounds c : ℕ) (bytes : List ℕ) (s : d.State)
        → 0 < length bytes
        → 1 ≤ rounds
        → read_chunk d i.sec_per_clus (first_sector i c) 0 (min (length bytes) (cluster_size i)) s
          ≡ ok bytes
        → is_last (read_fat d i c s) ≡ true
        → read_data d i rounds c (length bytes) s ≡ ok bytes
    held_at_end zero c bytes s more enough chunk last = absurd (omega arith)
    held_at_end (suc rounds) c bytes s more enough chunk last =
        read_last rounds c (length bytes) s bytes more chunk last

    held_before :
        (rounds c e : ℕ) (cs bytes : List ℕ) (s0 s : d.State)
        → 0 < length bytes
        → length (c ∷ e ∷ cs) ≤ rounds
        → Links d i s c (e ∷ cs)
        → let chunk = min (length bytes) (cluster_size i) in
          read_chunk d i.sec_per_clus (first_sector i c) 0 chunk s ≡ ok (take chunk bytes)
          → Stored e cs (drop chunk bytes) s0 s
          → read_data d i rounds c (length bytes) s ≡ ok bytes
    held_before zero c e cs bytes s0 s more enough l chunk later = absurd (omega arith)
    held_before (suc rounds) c e cs bytes s0 s more enough l chunk later =
        let n = min (length bytes) (cluster_size i) in
        read_more rounds c e (length bytes) s (take n bytes) more chunk l.0 l.1
        ∙ ap (then_reads (take n bytes)) (
            ap (λ m. read_data d i rounds e m s) (sym (length-drop n bytes))
            ∙ later.held rounds (omega arith) l.2)
        ∙ ap ok (take-drop n bytes)

    -- For the clusters of a chain that are apart and have the room: the data is written, and stored.
    pub write_data-Stored :
        Works d
        → (c : ℕ) (cs bytes : List ℕ) (s : d.State) → All (IsCluster i) (c ∷ cs)
        → Distinct (c ∷ cs)
        → length bytes ≤ length (c ∷ cs) * cluster_size i
        → Writes c cs bytes s (write_data d i (c ∷ cs) bytes s)
    write_data-Stored works c cs [] s all apart_all room = (
      s,
      write_end (c ∷ cs) s,
      record { others = λ lba out. refl; held = λ rounds h l. read_nothing rounds c s },
    )
    write_data-Stored works c [] (b ∷ bytes) s all apart_all room =
        let full = b ∷ bytes in
        let chunk = min (length full) (cluster_size i) in
        let whole : chunk ≡ length full = omega (arith, room) in
        let k = chunk_Kept works c full s all.0 in
        let r = write_chunk d i.sec_per_clus (first_sector i c) 0 (take chunk full) s in
        let none_left : drop chunk full ≡ [] = ap (λ n. drop n full) whole ∙ drop-all full in
        let same : take chunk full ≡ full = ap (λ n. take n full) whole ∙ take-all full in
        (
          r.1,
          write_next c [] full s (omega arith) k.went
              ∙ ap (λ x. write_data d i [] x r.1) none_left
              ∙ write_end [] r.1,
          record {
            others = λ lba out. chunk_others c (take chunk full) s r all.0 k lba out.0;
            held = λ rounds enough l.
                held_at_end rounds c full r.1 (omega arith) (omega arith)
                  (chunk_read c [] full s r.1 r all.0 tt tt k (λ lba out. refl) ∙ ap ok same) l;
          },
        )
    write_data-Stored works c (e ∷ cs) (b ∷ bytes) s all apart_all room =
        let full = b ∷ bytes in
        let chunk = min (length full) (cluster_size i) in
        let k = chunk_Kept works c full s all.0 in
        let r = write_chunk d i.sec_per_clus (first_sector i c) 0 (take chunk full) s in
        let (s', eq, later) =
          write_data-Stored works e cs (drop chunk full) r.1 all.1 apart_all.1
            (omega (arith, room, length-drop chunk full)) in
        (
          s',
          write_next c (e ∷ cs) full s (omega arith) k.went ∙ eq,
          record {
            others = λ lba out.
                later.others lba out.1 ∙ chunk_others c (take chunk full) s r all.0 k lba out.0;
            held = λ rounds enough l.
                held_before rounds c e cs full r.1 s' (omega arith) enough l
                  (chunk_read c (e ∷ cs) full s s' r all.0 all.1 apart_all.0 k
                    (λ lba out. later.others lba out))
                  later;
          },
        )

    -- Writes to clusters leave the table as it was.
    pub read_fat-kept :
        (c : ℕ) (cs : List ℕ) (s s' : d.State)
        → IsCluster i c
        → ((lba : ℕ) → Outside i lba cs → d.read lba s' ≡ d.read lba s)
        → read_fat d i c s' ≡ read_fat d i c s
    unfolding read_fat
    read_fat-kept c cs s s' h same = rw (same (fat_sector i c) (table-Outside i v c cs h), read_fat)
