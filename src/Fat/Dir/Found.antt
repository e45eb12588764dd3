-- ===== src/Fat/Dir/Found.antt =====
-- The position that `find_pos` gives is that of the entry that `look_up` gives (kernel/src/fat.rs).
use package.solaros.Prelude.{
  ℕ, zero, suc, ◌+◌, ◌*◌, ◌^◌, ◌≤◌, ◌<◌, ◌≡◌, refl, sym, ap₂, subst, Bool, true, false, ◌&&◌, ◌||◌,
  Option, none, some, List, [], ◌∷◌, get_or, arith, Bool-cases, inl, inr, ltb, ◌==◌,
}
use package.solaros.Fs.{FsErr, Result, ok, err, io, not_found}
use solaros.Fat.{FsInfo, Disk, u32, first_sector, is_eoc, read_fat}
use solaros.Fat.Dir.{
  DirEntry, entry_at, cmp83, is_skipped, is_dots, Scan, stop, go, scan_slots, walk_slot, find_slot,
  scan_sectors, walk_clusters, walk_dir, look_up, find_pos_from, find_pos,
}

cmp83-eq : (a b : List ℕ) → cmp83 a b ≡ true → a ≡ b
cmp83-eq [] [] h = refl
cmp83-eq [] (y ∷ b) h = cc
cmp83-eq (x ∷ a) [] h = cc
cmp83-eq (x ∷ a) (y ∷ b) h = ap₂ ◌∷◌ {x = x} {y = y} (ground arith) (cmp83-eq a b (ground arith))

-- A name that is not one of a directory's own two entries.
abbrev pub IsProper : List ℕ → Type 0
IsProper name =
    ((get_or name 0 0 == b'.') && ((get_or name 1 0 == b' ') || (get_or name 1 0 == b'.'))) ≡ false

module _ (d : Disk) (i : FsInfo) (name : List ℕ) (proper : IsProper name) (s : d.State) where
  -- The two scans do the same at a place: a stop at the end, or at one entry.
  data Same : Scan (Option DirEntry) → Scan (Result (ℕ × ℕ)) → Type 0 where
    both_go : Same go go
    both_end : {e : FsErr} → Same (stop none) (stop (err e))
    both_at :
        {lba k : ℕ} {b : List ℕ} {e : DirEntry}
        → d.read lba s ≡ some b
        → entry_at b (k * 32) ≡ e
        → Same (stop (some e)) (stop (ok (lba, k)))

  abbrev or_else {ℓ} : {A : Type ℓ} → Scan A → Scan A → Scan A
  or_else x y = elim x [ stop a ↦ stop a | go ↦ y ]

  Same-or_else :
      {x x' : Scan (Option DirEntry)} {y y' : Scan (Result (ℕ × ℕ))}
      → Same x y
      → Same x' y'
      → Same (or_else x x') (or_else y y')
  Same-or_else both_go m = m
  Same-or_else both_end m = both_end
  Same-or_else (both_at at e) m = both_at at e

  abbrev matches : DirEntry → Bool
  matches e = cmp83 e.name name

  slot_agrees :
      (lba k : ℕ) (b : List ℕ)
      → d.read lba s ≡ some b
      → Same (walk_slot matches b k) (find_slot name lba b k)
  slot_agrees lba k b at = elim (Bool-cases (get_or b (k * 32) 0 == 0x00)) [
    | inl last ↦ rw last both_end
    | inr more ↦ rw more (elim (Bool-cases (is_skipped b (k * 32))) [
      | inl skip ↦ rw skip both_go
      | inr used ↦ rw used (elim (Bool-cases (matches (entry_at b (k * 32)))) [
        | inl hit ↦
            let plain : is_dots (entry_at b (k * 32)) ≡ false =
              subst IsProper (sym (cmp83-eq (entry_at b (k * 32)).name name hit)) proper in
            rw plain (rw hit (both_at at refl))
        | inr miss ↦ rw miss (elim (Bool-cases (is_dots (entry_at b (k * 32)))) [
          | inl dots ↦ rw dots both_go
          | inr plain ↦ rw plain both_go
        ])
      ])
    ])
  ]

  slots_agree :
      (lba left k : ℕ) (b : List ℕ)
      → d.read lba s ≡ some b
      → Same (scan_slots (walk_slot matches b) left k) (scan_slots (find_slot name lba b) left k)
  unfolding scan_slots
  slots_agree lba zero k b at = both_go
  slots_agree lba (suc left) k b at =
      Same-or_else (slot_agrees lba k b at) (slots_agree lba left (k + 1) b at)

  abbrev walk_body : ℕ → List ℕ → ℕ → Scan (Option DirEntry)
  walk_body lba b = walk_slot matches b

  sectors_agree :
      (left n clu : ℕ)
      → Same
          (scan_sectors d i none walk_body left n clu s)
          (scan_sectors d i (err io) (find_slot name) left n clu s)
  unfolding scan_sectors
  sectors_agree zero n clu = both_go
  sectors_agree (suc left) n clu =
      by_read (d.read (u32 (first_sector i clu + n)) s) refl (sectors_agree left (n + 1) clu)
    where
      by_read :
          (o : Option (List ℕ))
          → d.read (u32 (first_sector i clu + n)) s ≡ o
          → Same
              (scan_sectors d i none walk_body left (n + 1) clu s)
              (scan_sectors d i (err io) (find_slot name) left (n + 1) clu s)
          → Same
              (scan_sectors d i none walk_body (suc left) n clu s)
              (scan_sectors d i (err io) (find_slot name) (suc left) n clu s)
      by_read none e rest = rw (e, scan_sectors) both_end
      by_read (some b) e rest =
          rw (e, scan_sectors)
            (Same-or_else (slots_agree (u32 (first_sector i clu + n)) 16 0 b e) rest)

  module _ (guard clu : ℕ) where
    abbrev walked : Scan (Option DirEntry)
    walked = scan_sectors d i none walk_body i.sec_per_clus 0 clu s

    abbrev searched : Scan (Result (ℕ × ℕ))
    searched = scan_sectors d i (err io) (find_slot name) i.sec_per_clus 0 clu s

    abbrev ends_here : Bool
    ends_here = is_eoc (read_fat d i clu s) || ltb (read_fat d i clu s) 2

    walk_stop :
        (a : Option DirEntry) → walked ≡ stop a → walk_clusters d i matches (suc guard) clu s ≡ a
    unfolding walk_clusters
    walk_stop a e = rw (e, walk_clusters)

    walk_last : walked ≡ go → ends_here ≡ true → walk_clusters d i matches (suc guard) clu s ≡ none
    unfolding walk_clusters
    walk_last e last = rw (e, walk_clusters) (rw last)

    walk_next :
        walked ≡ go
        → ends_here ≡ false
        → walk_clusters d i matches (suc guard) clu s
          ≡ walk_clusters d i matches guard (read_fat d i clu s) s
    unfolding walk_clusters
    walk_next e next = rw (e, walk_clusters) (rw next)

    find_stop :
        (r : Result (ℕ × ℕ)) → searched ≡ stop r → find_pos_from d i name (suc guard) clu s ≡ r
    unfolding find_pos_from
    find_stop r e = rw (e, find_pos_from)

    find_next :
        searched ≡ go
        → ends_here ≡ false
        → find_pos_from d i name (suc guard) clu s
          ≡ find_pos_from d i name guard (read_fat d i clu s) s
    unfolding find_pos_from
    find_next e next = rw (e, find_pos_from) (rw next)

    find_last :
        searched ≡ go → ends_here ≡ true → find_pos_from d i name (suc guard) clu s ≡ err not_found
    unfolding find_pos_from
    find_last e last = rw (e, find_pos_from) (rw last)

  -- The result of `look_up` for what the walk gives.
  abbrev looked_up : Option DirEntry → Result DirEntry
  looked_up none = err not_found
  looked_up (some e) = ok e

  -- The entry that `look_up` gives, the position that the scan of `find_pos` gives in as many clusters, and the one
  -- that it gives in all its rounds: an entry and where it is held, or none in the clusters that both read.
  pub data Agreed : Result DirEntry → Result (ℕ × ℕ) → Result (ℕ × ℕ) → Type 0 where
    both_found :
        {lba k : ℕ} {b : List ℕ} {e : DirEntry}
        → d.read lba s ≡ some b
        → entry_at b (k * 32) ≡ e
        → Agreed (ok e) (ok (lba, k)) (ok (lba, k))
    both_missed : {f g : FsErr} {r : Result (ℕ × ℕ)} → Agreed (err f) (err g) r

  abbrev AgreedFrom : ℕ → ℕ → ℕ → Type 0
  AgreedFrom guard more clu =
      Agreed (looked_up (walk_clusters d i matches guard clu s))
        (find_pos_from d i name guard clu s) (find_pos_from d i name more clu s)

  agreed_from : (guard more clu : ℕ) → guard ≤ more → AgreedFrom guard more clu
  unfolding walk_clusters find_pos_from
  agreed_from zero more clu low = both_missed
  agreed_from (suc guard) zero clu low = absurd (omega arith)
  agreed_from (suc guard) (suc more) clu low =
      by_scan (walked guard clu) (searched guard clu) refl refl (sectors_agree i.sec_per_clus 0 clu)
        (agreed_from guard more (read_fat d i clu s) (omega arith))
    where
      by_scan :
          (x : Scan (Option DirEntry)) (y : Scan (Result (ℕ × ℕ)))
          → walked guard clu ≡ x
          → searched guard clu ≡ y
          → Same x y
          → AgreedFrom guard more (read_fat d i clu s)
          → AgreedFrom (suc guard) (suc more) clu
      by_scan x y ex ey both_go ih = elim (Bool-cases (ends_here guard clu)) [
        | inl last ↦ rw (walk_last guard clu ex last) (rw (find_last guard clu ey last) both_missed)
        | inr next ↦
            rw (walk_next guard clu ex next)
              (rw (find_next guard clu ey next) (rw (find_next more clu ey next) ih))
      ]
      by_scan x y ex ey (both_end {e = f}) ih =
          rw (walk_stop guard clu none ex) (rw (find_stop guard clu (err f) ey) both_missed)
      by_scan x y ex ey (both_at {lba = lba} {k = k} {b = b} {e = f} at same) ih =
          rw (walk_stop guard clu (some f) ex) (
            rw (find_stop guard clu (ok (lba, k)) ey)
              (rw (find_stop more clu (ok (lba, k)) ey) (both_found at same)))

  -- For a name that does not begin as the directory's own two entries do, and fewer than 2^32 - 2 clusters:
  -- when `look_up` returns an entry, the scan of `find_pos` returns the sector and the slot that hold this
  -- entry, in as many rounds as `look_up` has and in its own two more; and when `look_up` returns none, that
  -- scan finds none in as many rounds.
  pub find_pos-look_up :
      (dir : ℕ)
      → i.cluster_count + 2 < 2 ^ 32
      → Agreed
          (look_up d i dir name s)
          (find_pos_from d i name i.cluster_count dir s)
          (find_pos d i dir name s)
  unfolding find_pos look_up walk_dir
  find_pos-look_up dir small =
      let agreed = agreed_from i.cluster_count (u32 (i.cluster_count + 2)) dir (omega arith) in
      by_walk (walk_clusters d i matches i.cluster_count dir s) refl agreed
    where
      by_walk :
          (o : Option DirEntry)
          → walk_clusters d i matches i.cluster_count dir s ≡ o
          → AgreedFrom i.cluster_count (u32 (i.cluster_count + 2)) dir
          → Agreed
              (look_up d i dir name s)
              (find_pos_from d i name i.cluster_count dir s)
              (find_pos d i dir name s)
      by_walk none w agreed =
          rw (w, look_up)
            (subst
              (λ o.
                Agreed (looked_up o) (find_pos_from d i name i.cluster_count dir s)
                  (find_pos d i dir name s))
              w agreed)
      by_walk (some x) w agreed =
          rw (w, look_up)
            (subst
              (λ o.
                Agreed (looked_up o) (find_pos_from d i name i.cluster_count dir s)
                  (find_pos d i dir name s))
              w agreed)
