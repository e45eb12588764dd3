-- ===== src/Fat/Contents/Chunk.antt =====
-- The sectors of one cluster: what write_file puts there, read_file reads (kernel/src/fat.rs).
use package.solaros.Prelude.{
  ℕ, zero, suc, ◌+◌, ◌-◌, ◌*◌, ◌/◌, ◌^◌, ◌≤◌, ◌<◌, ◌≡◌, ◌≢◌, ◌⊎◌, inl, inr, refl, sym, subst, ◌∙◌,
  ap, ap₂, true, false, Option, none, some, List, [], ◌∷◌, ◌++◌, length, take, drop, replicate, min,
  leb, ◌==◌, arith, Bool-cases, length-take, length-append, length-replicate, length-drop,
}
use package.solaros.Fs.{Result, ok, err, io}
use solaros.Fat.{Disk, u32, sector_size}
use solaros.Fat.Contents.{sector_of, then_reads, read_chunk, write_chunk}

pub take-drop : (n : ℕ) (bs : List ℕ) → take n bs ++ drop n bs ≡ bs
take-drop zero bs = refl
take-drop (suc n) [] = refl
take-drop (suc n) (b ∷ bs) = ap (λ xs. b ∷ xs) (take-drop n bs)

take-take_append : (n : ℕ) (bs zs : List ℕ) → n ≤ length bs → take n (take n bs ++ zs) ≡ take n bs
take-take_append zero bs zs h = refl
take-take_append (suc n) [] zs h = absurd (omega arith)
take-take_append (suc n) (b ∷ bs) zs h = ap (λ xs. b ∷ xs) (take-take_append n bs zs (omega arith))

length-sector_of : (bs : List ℕ) → length (sector_of bs) ≡ sector_size
length-sector_of bs =
    let n = min (length bs) 512 in
    omega (
      arith,
      length-append (take n bs) (replicate (sector_size - n) 0),
      length-take n bs,
      length-replicate {A = ℕ} (sector_size - n) 0,
    )

module _ (d : Disk) where
  -- Writes of whole sectors succeed.
  abbrev pub Works : Type 0
  Works = (lba : ℕ) (b : List ℕ) (s : d.State) → length b ≡ sector_size → (d.write lba b s).0 ≡ true

  -- A round of the reading, after its test.
  abbrev after_read : ℕ → Option (List ℕ) → Result (List ℕ) → Result (List ℕ)
  after_read n none rest = err io
  after_read n (some b) rest = then_reads (take n b) rest

  read_next :
      (rounds first off left : ℕ) (s : d.State)
      → 0 < left
      → read_chunk d (suc rounds) first off left s
        ≡ after_read
            (min left 512)
            (d.read (u32 (first + off / 512)) s)
            (read_chunk d rounds first (off + min left 512) (left - min left 512) s)
  unfolding read_chunk
  read_next rounds first off left s more =
      let test : (left == 0) ≡ false = ground arith in
      rw (test, read_chunk) (by_read (d.read (u32 (first + off / 512)) s) _)
    where
      by_read :
          (o : Option (List ℕ)) (rest : Result (List ℕ))
          → (elim o as (λ x. Result (List ℕ)) [
            | none ↦ err io
            | some b ↦ then_reads (take (min left 512) b) rest
          ])
            ≡ after_read (min left 512) o rest
      by_read none rest = refl
      by_read (some b) rest = refl

  read_none : (rounds first off : ℕ) (s : d.State) → read_chunk d rounds first off 0 s ≡ ok []
  unfolding read_chunk
  read_none zero first off s = refl
  read_none (suc rounds) first off s = refl

  write_none : (rounds first co : ℕ) (s : d.State) → write_chunk d rounds first co [] s ≡ (ok tt, s)
  unfolding write_chunk
  write_none zero first co s = refl
  write_none (suc rounds) first co s = refl

  -- Only the sectors of the chunk matter to its reading.
  pub read_chunk-agree :
      (rounds first j left : ℕ) (s s' : d.State)
      → ((k : ℕ)
          → j ≤ k
          → k < j + rounds
          → d.read (u32 (first + k)) s' ≡ d.read (u32 (first + k)) s)
      → read_chunk d rounds first (j * 512) left s' ≡ read_chunk d rounds first (j * 512) left s
  unfolding read_chunk
  read_chunk-agree zero first j left s s' same = refl
  read_chunk-agree (suc rounds) first j zero s s' same = refl
  read_chunk-agree (suc rounds) first j (suc left) s s' same =
      let here : j * 512 / 512 ≡ j = omega arith in
      let read : d.read (u32 (first + j * 512 / 512)) s' ≡ d.read (u32 (first + j * 512 / 512)) s =
        rw here (same j (omega arith) (omega arith)) in
      read_next rounds first (j * 512) (suc left) s' (omega arith)
      ∙ ap₂ (after_read (min (suc left) 512)) read (elim (Bool-cases (leb (suc left) 512)) [
        | inl last ↦
            let none_left : suc left - min (suc left) 512 ≡ 0 = ground arith in
            rw none_left (
              read_none rounds first (j * 512 + min (suc left) 512) s'
              ∙ sym (read_none rounds first (j * 512 + min (suc left) 512) s))
        | inr more ↦
            let next : j * 512 + min (suc left) 512 ≡ (j + 1) * 512 = ground arith in
            rw next (
              read_chunk-agree rounds first (j + 1) (suc left - min (suc left) 512) s s'
                (λ k low high. same k (omega arith) (omega arith)))
      ])
      ∙ sym (read_next rounds first (j * 512) (suc left) s (omega arith))

  -- What writing a chunk leaves: its sectors from `j` on give it back, and no other sector changes.
  pub record Kept (rounds first off j : ℕ) (bs : List ℕ) (s : d.State)
      (r : Result (Unit {0}) × d.State) : Type 0 where
    pub went : r.0 ≡ ok tt
    pub held : read_chunk d rounds first off (length bs) r.1 ≡ ok bs
    pub others :
        (lba : ℕ) → (lba < first + j) ⊎ (first + j + rounds ≤ lba) → d.read lba r.1 ≡ d.read lba s

  none_Kept :
      (rounds first off j : ℕ) (bs : List ℕ) (s : d.State)
      → bs ≡ []
      → Kept rounds first off j bs s (write_chunk d rounds first off bs s)
  none_Kept rounds first off j bs s e = rw e (
      rw (write_none rounds first off s)
        (record { went = refl; held = read_none rounds first off s; others = λ lba out. refl }))

  -- One sector is written, and the rest is kept behind it.
  next_Kept :
      (rounds first j : ℕ) (bs : List ℕ) (s s1 : d.State) (r : Result (Unit {0}) × d.State)
      → 0 < length bs
      → first + j + suc rounds ≤ 2 ^ 32
      → d.read (first + j) s1 ≡ some (sector_of bs)
      → ((lba : ℕ) → lba ≢ first + j → d.read lba s1 ≡ d.read lba s)
      → Kept rounds first
          (j * 512 + min (length bs) 512)
          (j + 1)
          (drop (min (length bs) 512) bs)
          s1
          r
      → Kept (suc rounds) first (j * 512) j bs s r
  next_Kept rounds first j bs s s1 r more fits at same k =
      let n = min (length bs) 512 in
      let here : u32 (first + j * 512 / 512) ≡ first + j = omega arith in
      let rest : read_chunk d rounds first (j * 512 + n) (length bs - n) r.1 ≡ ok (drop n bs) =
        ap (λ m. read_chunk d rounds first (j * 512 + n) m r.1) (sym (length-drop n bs)) ∙ k.held in
      record {
        went = k.went;
        held =
            read_next rounds first (j * 512) (length bs) r.1 more
            ∙ ap₂ (after_read n)
                (ap (λ lba. d.read lba r.1) here ∙ k.others (first + j) (inl (omega arith)) ∙ at)
                rest
            ∙ ap ok (
                ap (λ x. x ++ drop n bs)
                  (take-take_append n bs (replicate (sector_size - n) 0) (omega arith))
                ∙ take-drop n bs);
        others = λ lba out. k.others lba (ground arith) ∙ same lba (ground arith);
      }

  -- When writes of sectors succeed: writing the bytes of a chunk to sectors below 2^32 that have the room keeps them.
  pub write_chunk-Kept :
      Works
      → (rounds first j : ℕ) (bs : List ℕ) (s : d.State) → first + j + rounds ≤ 2 ^ 32
      → length bs ≤ rounds * 512
      → Kept rounds first (j * 512) j bs s (write_chunk d rounds first (j * 512) bs s)
  unfolding write_chunk
  write_chunk-Kept works rounds first j [] s fits room =
      none_Kept rounds first (j * 512) j [] s refl
  write_chunk-Kept works zero first j (b ∷ bs) s fits room = absurd (omega arith)
  write_chunk-Kept works (suc rounds) first j (b ∷ bs) s fits room =
      let all = b ∷ bs in
      let n = min (length all) 512 in
      let lba = u32 (first + j * 512 / 512) in
      let here : lba ≡ first + j = omega arith in
      let nonzero : (length all == 0) ≡ false = ground arith in
      let went = works lba (sector_of all) s (length-sector_of all) in
      let s1 = (d.write lba (sector_of all) s).1 in
      let step : write_chunk d (suc rounds) first (j * 512) all s
          ≡ write_chunk d rounds first (j * 512 + n) (drop n all) s1 =
        rw (nonzero, write_chunk) (rw went) in
      rw step (
        next_Kept rounds first j all s s1 (write_chunk d rounds first (j * 512 + n) (drop n all) s1)
          (omega arith) fits
          (ap (λ x. d.read x s1) (sym here)
            ∙ d.read-write lba (sector_of all) s (length-sector_of all) went)
          (λ other ne. d.read-write_ne lba other (sector_of all) s (λ e. ne (e ∙ here)) went)
          (elim (Bool-cases (leb (length all) 512)) [
            | inl last ↦
                none_Kept rounds first (j * 512 + n) (j + 1) (drop n all) s1
                  (nothing_left n all (ground arith))
            | inr long ↦
                let next : (j + 1) * 512 ≡ j * 512 + n = ground arith in
                subst
                  (λ x.
                    Kept rounds first x (j + 1) (drop n all) s1
                      (write_chunk d rounds first x (drop n all) s1))
                  next
                  (write_chunk-Kept works rounds first (j + 1) (drop n all) s1 (omega arith)
                    (omega (arith, length-drop n all, next)))
          ]))
    where
      nothing_left : (n : ℕ) (xs : List ℕ) → length xs ≤ n → drop n xs ≡ []
      nothing_left zero [] h = refl
      nothing_left zero (x ∷ xs) h = absurd (omega arith)
      nothing_left (suc n) [] h = refl
      nothing_left (suc n) (x ∷ xs) h = nothing_left n xs (omega arith)
