-- ===== src/Fat/Table.antt =====
-- Writes of the file allocation table are read back (kernel/src/fat.rs).
use package.solaros.Prelude.{
  ℕ, zero, suc, ◌+◌, ◌-◌, ◌*◌, ◌/◌, ◌%◌, ◌^◌, ◌≤◌, ◌<◌, ◌≡◌, ◌≢◌, refl, sym, ◌∙◌, ap, Bool, true,
  false, Option, none, some, List, length, arith,
}
use mathlib.Core.Bool.{false≢true}
use native.Mathlib.Decide.{ℕ_discrete}
use solaros.Fat.{
  fat_eoc_mask, FsInfo, Disk, u32, fat_sector, get32, put32, read_fat, write_copies, write_fat,
  sector_size,
}
use solaros.Fat.Sector.{length-put32, get32-put32, get32-put32_ne}

-- The tables fit below sector 2^32, and there is one.
pub record IsTable (i : FsInfo) : Type 0 where
  pub some_fat : 0 < i.num_fats
  pub fits : i.rsvc + i.num_fats * i.fat_size ≤ 2 ^ 32

-- The table has an entry for the cluster.
abbrev pub InTable : FsInfo → ℕ → Type 0
InTable i c = c * 4 / 512 < i.fat_size

mul_mono : (f n m : ℕ) → f < n → f * m + m ≤ n * m
mul_mono f n m h = grind arith

module _ (i : FsInfo) (it : IsTable i) where
  fat_sector-eq : (c : ℕ) → InTable i c → fat_sector i c ≡ i.rsvc + c * 4 / 512
  fat_sector-eq c inside =
      omega (arith, it.fits, it.some_fat, mul_mono 0 i.num_fats i.fat_size it.some_fat)

  copy-eq :
      (base f : ℕ)
      → base < i.rsvc + i.fat_size
      → f < i.num_fats
      → u32 (base + u32 (f * i.fat_size)) ≡ base + f * i.fat_size
  copy-eq base f low less = omega (arith, it.fits, mul_mono f i.num_fats i.fat_size less)

  module _ (d : Disk) where
    abbrev copy_at : ℕ → ℕ → ℕ
    copy_at base f = u32 (base + u32 (f * i.fat_size))

    copies_go :
        (base f left : ℕ) (b : List ℕ) (s : d.State)
        → (d.write (copy_at base f) b s).0 ≡ true
        → write_copies d i base f (suc left) b s
          ≡ write_copies d i base (f + 1) left b (d.write (copy_at base f) b s).1
    unfolding write_copies
    copies_go base f left b s went = rw (went, write_copies)

    -- Each copy was written, if all were.
    copies_went :
        (base f left : ℕ) (b : List ℕ) (s : d.State)
        → (write_copies d i base f (suc left) b s).0 ≡ true
        → (d.write (copy_at base f) b s).0 ≡ true
    unfolding write_copies
    copies_went base f left b s done = ground arith

    -- The copies but the first leave the sectors of the first one alone.
    later_copies :
        (left f base lba : ℕ) (b : List ℕ) (s : d.State)
        → 0 < f
        → f + left ≡ i.num_fats
        → i.rsvc ≤ base
        → base < i.rsvc + i.fat_size
        → lba < i.rsvc + i.fat_size
        → (write_copies d i base f left b s).0 ≡ true
        → d.read lba (write_copies d i base f left b s).1 ≡ d.read lba s
    unfolding write_copies
    later_copies zero f base lba b s pos count low high near done = refl
    later_copies (suc left) f base lba b s pos count low high near done =
        let went = copies_went base f left b s done in
        let step = copies_go base f left b s went in
        let here : copy_at base f ≡ base + f * i.fat_size = copy-eq base f high (omega arith) in
        let away : lba ≢ copy_at base f = λ e. omega (arith, here, mul_mono 0 f i.fat_size pos) in
        ap (λ (r : Bool × d.State). d.read lba r.1) step
        ∙ later_copies left (f + 1) base lba b (d.write (copy_at base f) b s).1 (omega arith)
            (omega arith) low high near (sym (ap (λ (r : Bool × d.State). r.0) step) ∙ done)
        ∙ d.read-write_ne (copy_at base f) lba b s away went

    -- All copies written: the first one holds the sector, and its other sectors are as before.
    all_copies :
        (n base lba : ℕ) (b : List ℕ) (s : d.State)
        → suc n ≡ i.num_fats
        → length b ≡ sector_size
        → i.rsvc ≤ base
        → base < i.rsvc + i.fat_size
        → lba < i.rsvc + i.fat_size
        → (write_copies d i base 0 (suc n) b s).0 ≡ true
        → (d.read base (write_copies d i base 0 (suc n) b s).1 ≡ some b)
          × (lba ≢ base → d.read lba (write_copies d i base 0 (suc n) b s).1 ≡ d.read lba s)
    all_copies n base lba b s count len low high near done =
        let went = copies_went base 0 n b s done in
        let step = copies_go base 0 n b s went in
        let here : copy_at base 0 ≡ base = omega (arith, copy-eq base 0 high it.some_fat) in
        let s' = (d.write (copy_at base 0) b s).1 in
        let rest = λ (x : ℕ) (x_near : x < i.rsvc + i.fat_size).
          ap (λ (r : Bool × d.State). d.read x r.1) step
          ∙ later_copies n 1 base x b s' (omega arith) (omega arith) low high x_near
              (sym (ap (λ (r : Bool × d.State). r.0) step) ∙ done) in
        (
          rest base high
              ∙ ap (λ x. d.read x s') (sym here)
              ∙ d.read-write (copy_at base 0) b s len went,
          λ ne. rest lba near ∙ d.read-write_ne (copy_at base 0) lba b s (λ e. ne (e ∙ here)) went,
        )

    -- The entry of a cluster in what was read.
    abbrev entry_in : ℕ → Option (List ℕ) → ℕ
    entry_in c none = fat_eoc_mask
    entry_in c (some b) = get32 b (c * 4 % 512)

    read_fat-entry_in :
        (c : ℕ) (s : d.State) (o : Option (List ℕ))
        → d.read (fat_sector i c) s ≡ o
        → read_fat d i c s ≡ entry_in c o
    unfolding read_fat
    read_fat-entry_in c s none e = rw (e, read_fat)
    read_fat-entry_in c s (some b) e = rw (e, read_fat)

    -- What `write_fat` did, when it succeeded: it had read the sector, and wrote it to all copies.
    write_fat-split :
        (c v : ℕ) (s : d.State)
        → (write_fat d i c v s).0 ≡ true
        → (b : List ℕ) × (d.read (fat_sector i c) s ≡ some b)
          × (write_fat d i c v s
              ≡ write_copies d i (fat_sector i c) 0 i.num_fats (put32 b (c * 4 % 512) v) s)
    unfolding write_fat
    write_fat-split c v s done = by_read (d.read (fat_sector i c) s) refl
      where
        by_read :
            (o : Option (List ℕ))
            → d.read (fat_sector i c) s ≡ o
            → (b : List ℕ) × (d.read (fat_sector i c) s ≡ some b)
              × (write_fat d i c v s
                  ≡ write_copies d i (fat_sector i c) 0 i.num_fats (put32 b (c * 4 % 512) v) s)
        by_read none e =
            let no : (write_fat d i c v s).0 ≡ false = rw (e, write_fat) in
            absurd (false≢true (sym no ∙ done))
        by_read (some b) e = (b, e, rw (e, write_fat))

    -- When there is a table and the copies end at sector 2^32 or before: after a `write_fat` that reports
    -- success, of a value below 2^32 to an entry inside the table, `read_fat` gives that value for the
    -- cluster and what it gave before for every other cluster of the table.
    pub write_fat-Written :
        (c v : ℕ) (s : d.State)
        → InTable i c
        → v < 2 ^ 32
        → (write_fat d i c v s).0 ≡ true
        → (read_fat d i c (write_fat d i c v s).1 ≡ v)
          × ((other : ℕ)
              → InTable i other
              → other ≢ c
              → read_fat d i other (write_fat d i c v s).1 ≡ read_fat d i other s)
    write_fat-Written c v s inside small done =
        let (b, e, same) = write_fat-split c v s done in
        let n = i.num_fats - 1 in
        let count : suc n ≡ i.num_fats = omega (arith, it.some_fat) in
        let sector = fat_sector i c in
        let new = put32 b (c * 4 % 512) v in
        let len = d.read-length sector s e in
        let at = fat_sector-eq c inside in
        let full : write_fat d i c v s ≡ write_copies d i sector 0 (suc n) new s =
          same ∙ ap (λ m. write_copies d i sector 0 m new s) (sym count) in
        let went : (write_copies d i sector 0 (suc n) new s).0 ≡ true =
          sym (ap (λ (r : Bool × d.State). r.0) full) ∙ done in
        let after = λ (lba : ℕ) (near : lba < i.rsvc + i.fat_size).
          all_copies n sector lba new s count (length-put32 b (c * 4 % 512) v ∙ len)
            (omega (arith, at)) (omega (arith, at)) near went in
        let s' = (write_fat d i c v s).1 in
        let s'_eq : s' ≡ (write_copies d i sector 0 (suc n) new s).1 =
          ap (λ (r : Bool × d.State). r.1) full in
        let stored : d.read sector s' ≡ some new =
          ap (d.read sector) s'_eq ∙ (after sector (omega (arith, at))).0 in
        (
          read_fat-entry_in c s' (some new) stored
              ∙ get32-put32 b (c * 4 % 512) v (omega (arith, len)) small,
          λ other in_other ne.
              let at' = fat_sector-eq other in_other in
              elim (ℕ_discrete (fat_sector i other) sector) [
                | yes p ↦
                    read_fat-entry_in other s' (some new) (ap (λ x. d.read x s') p ∙ stored)
                    ∙ get32-put32_ne b (c * 4 % 512) (other * 4 % 512) v (omega (arith, len))
                        (omega arith) (omega arith) (λ q. ne (omega (arith, at, at')))
                    ∙ sym (read_fat-entry_in other s (some b) (ap (λ x. d.read x s) p ∙ e))
                | no q ↦
                    read_fat-entry_in other s' (d.read (fat_sector i other) s) (
                      ap (d.read (fat_sector i other)) s'_eq
                      ∙ (after (fat_sector i other) (omega (arith, at'))).1 q)
                    ∙ sym (read_fat-entry_in other s (d.read (fat_sector i other) s) refl)
              ],
        )
