-- ===== src/Fat/Dir/Entry.antt =====
-- A directory entry that is written is read back (kernel/src/fat.rs).
use package.solaros.Prelude.{
  ℕ, zero, suc, ◌+◌, ◌*◌, ◌/◌, ◌%◌, ◌^◌, ◌≤◌, ◌<◌, ◌≡◌, ◌≢◌, refl, sym, ◌∙◌, ap, Bool, true, false,
  Option, none, some, List, [], ◌∷◌, ◌++◌, get_or, set, take, drop, length, length-append,
  length-take, length-drop, length-set, take-length, arith, ◌==◌, if◌then◌else◌,
}
use package.solaros.Fs.{Result, ok, err, io}
use solaros.Fat.{Disk, get16, get32, put32}
use solaros.Fat.Sector.{get_or-set, get_or-put32, length-put32, get32-put32}
use solaros.Fat.Dir.{DirEntry, entry_at, put_bytes, put16, put_dir_entry, write_entry_at, io_result}

-- The fields fit their bytes.
pub record Fits (e : DirEntry) : Type 0 where
  pub name : length e.name ≡ 11
  pub cluster : e.cluster < 2 ^ 32
  pub size : e.size < 2 ^ 32

slice-set : (b : List ℕ) (n o j v : ℕ) → o + n ≤ j → take n (drop o (set b j v)) ≡ take n (drop o b)
slice-set [] n o j v h = refl
slice-set (x ∷ b) zero zero j v h = refl
slice-set (x ∷ b) (suc n) zero zero v h = absurd (omega arith)
slice-set (x ∷ b) (suc n) zero (suc j) v h = ap (◌∷◌ x) (slice-set b n 0 j v (omega arith))
slice-set (x ∷ b) n (suc o) zero v h = absurd (omega arith)
slice-set (x ∷ b) n (suc o) (suc j) v h = slice-set b n o j v (omega arith)

drop-length : (xs ys : List ℕ) → drop (length xs) (xs ++ ys) ≡ ys
drop-length [] ys = refl
drop-length (x ∷ xs) ys = drop-length xs ys

module _ (b : List ℕ) (o : ℕ) (xs : List ℕ) (room : o + length xs ≤ length b) where
  slice-put_bytes : take (length xs) (drop o (put_bytes b o xs)) ≡ xs
  slice-put_bytes =
      let rest = drop (o + length xs) b in
      let len : length (take o b) ≡ o = length-take o b ∙ omega arith in
      ap (λ k. take (length xs) (drop k (put_bytes b o xs))) (sym len)
      ∙ ap (take (length xs)) (drop-length (take o b) (xs ++ rest))
      ∙ take-length xs rest

  length-put_bytes : length (put_bytes b o xs) ≡ length b
  length-put_bytes =
      let rest = drop (o + length xs) b in
      omega (
        arith,
        length-append (take o b) (xs ++ rest),
        length-append xs rest,
        length-take o b,
        length-drop (o + length xs) b,
      )

slice-put16 :
    (b : List ℕ) (n o j v : ℕ) → o + n ≤ j → take n (drop o (put16 b j v)) ≡ take n (drop o b)
slice-put16 b n o j v h =
    slice-set (set b j (v % 256)) n o (j + 1) (v / 256 % 256) (omega arith)
    ∙ slice-set b n o j (v % 256) h

slice-put32 :
    (b : List ℕ) (n o j v : ℕ) → o + n ≤ j → take n (drop o (put32 b j v)) ≡ take n (drop o b)
slice-put32 b n o j v h =
    let c₁ = set b j (v % 256) in
    let c₂ = set c₁ (j + 1) (v / 256 % 256) in
    let c₃ = set c₂ (j + 2) (v / 65536 % 256) in
    slice-set c₃ n o (j + 3) (v / 16777216 % 256) (omega arith)
    ∙ slice-set c₂ n o (j + 2) (v / 65536 % 256) (omega arith)
    ∙ slice-set c₁ n o (j + 1) (v / 256 % 256) (omega arith)
    ∙ slice-set b n o j (v % 256) h

length-put16 : (b : List ℕ) (o v : ℕ) → length (put16 b o v) ≡ length b
length-put16 b o v =
    length-set (set b o (v % 256)) (o + 1) (v / 256 % 256) ∙ length-set b o (v % 256)

get_or-put16 :
    (b : List ℕ) (o v j : ℕ)
    → o + 1 < length b
    → get_or (put16 b o v) j 0
      ≡ (if j == o + 1 then v / 256 % 256 else if j == o then v % 256 else get_or b j 0)
get_or-put16 b o v j room = ground (
  arith,
  get_or-set b o j (v % 256) (omega arith),
  get_or-set (set b o (v % 256)) (o + 1) j (v / 256 % 256)
      (omega (arith, length-set b o (v % 256))),
)

module _ (b : List ℕ) (o : ℕ) (e : DirEntry) (room : o + 32 ≤ length b) (fits : Fits e) where
  abbrev b₀ : List ℕ
  b₀ = put_bytes b o e.name

  abbrev b₁ : List ℕ
  b₁ = set b₀ (o + 11) e.attr

  abbrev b₂ : List ℕ
  b₂ = put16 b₁ (o + 20) (e.cluster / 65536)

  abbrev b₃ : List ℕ
  b₃ = put16 b₂ (o + 26) e.cluster

  l₀ : length b₀ ≡ length b
  l₀ = length-put_bytes b o e.name (omega (arith, fits.name))

  l₁ : length b₁ ≡ length b
  l₁ = length-set b₀ (o + 11) e.attr ∙ l₀

  l₂ : length b₂ ≡ length b
  l₂ = length-put16 b₁ (o + 20) (e.cluster / 65536) ∙ l₁

  l₃ : length b₃ ≡ length b
  l₃ = length-put16 b₂ (o + 26) e.cluster ∙ l₂

  pub length-put_dir_entry : length (put_dir_entry b o e) ≡ length b
  length-put_dir_entry = length-put32 b₃ (o + 28) e.size ∙ l₃

  name_back : take 11 (drop o (put_dir_entry b o e)) ≡ e.name
  name_back =
      slice-put32 b₃ 11 o (o + 28) e.size (omega arith)
      ∙ slice-put16 b₂ 11 o (o + 26) e.cluster (omega arith)
      ∙ slice-put16 b₁ 11 o (o + 20) (e.cluster / 65536) (omega arith)
      ∙ slice-set b₀ 11 o (o + 11) e.attr (omega arith)
      ∙ ap (λ k. take k (drop o b₀)) (sym fits.name)
      ∙ slice-put_bytes b o e.name (omega (arith, fits.name))

  attr_back : get_or (put_dir_entry b o e) (o + 11) 0 ≡ e.attr
  attr_back = ground (
    arith,
    get_or-put32 b₃ (o + 28) e.size (o + 11) (omega (arith, l₃)),
    get_or-put16 b₂ (o + 26) e.cluster (o + 11) (omega (arith, l₂)),
    get_or-put16 b₁ (o + 20) (e.cluster / 65536) (o + 11) (omega (arith, l₁)),
    get_or-set b₀ (o + 11) (o + 11) e.attr (omega (arith, l₀)),
  )

  -- A byte between the attribute and the size.
  middle_back :
      (j : ℕ)
      → o + 11 < j
      → j < o + 28
      → get_or (put_dir_entry b o e) j 0 ≡ (
          if j == o + 26 + 1
          then e.cluster / 256 % 256
          else if j == o + 26
          then e.cluster % 256
          else if j == o + 20 + 1
          then e.cluster / 65536 / 256 % 256
          else if j == o + 20
          then e.cluster / 65536 % 256
          else get_or b₁ j 0)
  middle_back j low high = ground (
    arith,
    get_or-put32 b₃ (o + 28) e.size j (omega (arith, l₃)),
    get_or-put16 b₂ (o + 26) e.cluster j (omega (arith, l₂)),
    get_or-put16 b₁ (o + 20) (e.cluster / 65536) j (omega (arith, l₁)),
  )

  cluster_back :
      get16 (put_dir_entry b o e) (o + 20) * 65536 + get16 (put_dir_entry b o e) (o + 26)
      ≡ e.cluster
  cluster_back = ground (
    arith,
    middle_back (o + 20) (omega arith) (omega arith),
    middle_back (o + 20 + 1) (omega arith) (omega arith),
    middle_back (o + 26) (omega arith) (omega arith),
    middle_back (o + 26 + 1) (omega arith) (omega arith),
    fits.cluster,
  )

  size_back : get32 (put_dir_entry b o e) (o + 28) ≡ e.size
  size_back = get32-put32 b₃ (o + 28) e.size (omega (arith, l₃)) fits.size

  pub entry_at-put_dir_entry : entry_at (put_dir_entry b o e) o ≡ e
  entry_at-put_dir_entry = λ t. record {
    name = name_back t;
    attr = attr_back t;
    cluster = cluster_back t;
    size = size_back t;
  }

module _ (d : Disk) where
  io_result_ok : (r : Bool × d.State) → (io_result d r).0 ≡ ok tt → r.0 ≡ true
  io_result_ok (true, s) h = refl
  io_result_ok (false, s) h = cc

  io_result_state : (r : Bool × d.State) → (io_result d r).1 ≡ r.1
  io_result_state (true, s) = refl
  io_result_state (false, s) = refl

  write_entry-eq :
      (lba slot : ℕ) (e : DirEntry) (s : d.State) (b : List ℕ)
      → d.read lba s ≡ some b
      → write_entry_at d lba slot e s ≡ io_result d (d.write lba (put_dir_entry b (slot * 32) e) s)
  unfolding write_entry_at
  write_entry-eq lba slot e s b at = rw (at, write_entry_at)

  write_entry-fails :
      (lba slot : ℕ) (e : DirEntry) (s : d.State)
      → d.read lba s ≡ none
      → (write_entry_at d lba slot e s).0 ≡ err io
  unfolding write_entry_at
  write_entry-fails lba slot e s at = rw (at, write_entry_at)

  -- When `write_entry_at` writes an entry to one of the 16 slots of a sector and reports success, and the
  -- entry has a name of 11 bytes and 32-bit numbers: the sector then holds exactly that entry in the
  -- slot, and every other sector reads as before.
  pub write_entry_at-Held :
      (lba slot : ℕ) (e : DirEntry) (s : d.State)
      → slot < 16
      → Fits e
      → (write_entry_at d lba slot e s).0 ≡ ok tt
      → (b : List ℕ) × (d.read lba (write_entry_at d lba slot e s).1 ≡ some b)
        × (entry_at b (slot * 32) ≡ e)
        × ((other : ℕ)
            → other ≢ lba
            → d.read other (write_entry_at d lba slot e s).1 ≡ d.read other s)
  write_entry_at-Held lba slot e s inside fits done = by_read (d.read lba s) refl
    where
      err_ok : {x : Unit {0}} → err io ≡ ok x → ⊥
      err_ok h = cc

      by_read :
          (o : Option (List ℕ))
          → d.read lba s ≡ o
          → (b : List ℕ) × (d.read lba (write_entry_at d lba slot e s).1 ≡ some b)
            × (entry_at b (slot * 32) ≡ e)
            × ((other : ℕ)
                → other ≢ lba
                → d.read other (write_entry_at d lba slot e s).1 ≡ d.read other s)
      by_read none at = absurd (err_ok (sym (write_entry-fails lba slot e s at) ∙ done))
      by_read (some b) at =
          let len = d.read-length lba s at in
          let new = put_dir_entry b (slot * 32) e in
          let same = write_entry-eq lba slot e s b at in
          let room : slot * 32 + 32 ≤ length b = omega (arith, len) in
          let went : (d.write lba new s).0 ≡ true =
            io_result_ok (d.write lba new s)
              (sym (ap (λ (r : Result (Unit {0}) × d.State). r.0) same) ∙ done) in
          let to : (write_entry_at d lba slot e s).1 ≡ (d.write lba new s).1 =
            ap (λ (r : Result (Unit {0}) × d.State). r.1) same
            ∙ io_result_state (d.write lba new s) in
          (
            new,
            ap (d.read lba) to
                ∙ d.read-write lba new s (length-put_dir_entry b (slot * 32) e room fits ∙ len)
                    went,
            entry_at-put_dir_entry b (slot * 32) e room fits,
            λ other ne. ap (d.read other) to ∙ d.read-write_ne lba other new s ne went,
          )
