-- ===== src/Fat/Names/Padded.antt =====
-- The eleven bytes that `make_83` makes of a name (kernel/src/fat.rs).
use package.solaros.Prelude.{
  ℕ, zero, suc, ◌+◌, ◌-◌, ◌≤◌, ◌<◌, ◌≡◌, refl, sym, ◌∙◌, ap, true, false, List, [], ◌∷◌, ◌++◌,
  length, set, replicate, length-append, set-length, length-replicate, append_assoc, append-nil,
  map, arith, All, ◌==◌, leb, Bool-cases, inl, inr,
}
use package.solaros.Fs.{ok}
use solaros.Fat.Names.{upper, bad_char, make_chars, checked_83, make_83}

-- A char that may stand in a stem or an extension.
abbrev pub IsPlain : ℕ → Type 0
IsPlain c = ((c == b'.') ≡ false) × (bad_char c ≡ false)

-- Chars in capitals, padded with spaces to `n` bytes.
abbrev pub padded_upper : ℕ → List ℕ → List ℕ
padded_upper n xs = map upper xs ++ replicate (n - length xs) b' '

stem_step :
    (c : ℕ) (name out : List ℕ) (base : ℕ)
    → IsPlain c
    → base < 8
    → make_chars (c ∷ name) out false base 0
      ≡ make_chars name (set out base (upper c)) false (base + 1) 0
unfolding make_chars
stem_step c name out base p room =
    let small : leb 8 base ≡ false = ground arith in rw p.0 (rw p.1 (rw small))

ext_step :
    (c : ℕ) (name out : List ℕ) (base ext : ℕ)
    → IsPlain c
    → ext < 3
    → make_chars (c ∷ name) out true base ext
      ≡ make_chars name (set out (8 + ext) (upper c)) true base (ext + 1)
unfolding make_chars
ext_step c name out base ext p room =
    let small : leb 3 ext ≡ false = ground arith in rw p.0 (rw p.1 (rw small))

-- The byte of the first char is set behind the bytes that stand.
set_behind :
    (pre cs t : List ℕ) (c : ℕ)
    → set (pre ++ (replicate (length (c ∷ cs)) b' ' ++ t)) (length pre) (upper c)
      ≡ (pre ++ upper c ∷ []) ++ (replicate (length cs) b' ' ++ t)
set_behind pre cs t c =
    set-length pre b' ' (upper c) (replicate (length cs) b' ' ++ t)
    ∙ sym (append_assoc pre (upper c ∷ []) (replicate (length cs) b' ' ++ t))

longer : (pre : List ℕ) (v : ℕ) → length pre + 1 ≡ length (pre ++ v ∷ [])
longer pre v = omega (arith, length-append pre (v ∷ []))

-- A stem is copied in capitals over the spaces.
stem_chars :
    (cs rest pre t : List ℕ)
    → All IsPlain cs
    → length pre + length cs ≤ 8
    → make_chars (cs ++ rest) (pre ++ (replicate (length cs) b' ' ++ t)) false (length pre) 0
      ≡ make_chars rest (pre ++ (map upper cs ++ t)) false (length pre + length cs) 0
stem_chars [] rest pre t all room = ap (λ n. make_chars rest (pre ++ t) false n 0) (omega arith)
stem_chars (c ∷ cs) rest pre t all room =
    stem_step c (cs ++ rest) (pre ++ (replicate (length (c ∷ cs)) b' ' ++ t)) (length pre) all.0
      (omega arith)
    ∙ ap (λ o. make_chars (cs ++ rest) o false (length pre + 1) 0) (set_behind pre cs t c)
    ∙ ap
        (λ n.
          make_chars (cs ++ rest) ((pre ++ upper c ∷ []) ++ (replicate (length cs) b' ' ++ t)) false
            n 0)
        (longer pre (upper c))
    ∙ stem_chars cs rest (pre ++ upper c ∷ []) t all.1 (omega (arith, longer pre (upper c)))
    ∙ ap (λ o. make_chars rest o false (length (pre ++ upper c ∷ []) + length cs) 0)
        (append_assoc pre (upper c ∷ []) (map upper cs ++ t))
    ∙ ap (λ n. make_chars rest (pre ++ (upper c ∷ (map upper cs ++ t))) false n 0)
        (omega (arith, longer pre (upper c)))

-- So is an extension, behind eight bytes.
ext_chars :
    (cs pre t : List ℕ) (base ext : ℕ)
    → All IsPlain cs
    → length pre ≡ 8 + ext
    → ext + length cs ≤ 3
    → make_chars cs (pre ++ (replicate (length cs) b' ' ++ t)) true base ext
      ≡ ok (pre ++ (map upper cs ++ t), base)
unfolding make_chars
ext_chars [] pre t base ext all at room = refl
ext_chars (c ∷ cs) pre t base ext all at room =
    ext_step c cs (pre ++ (replicate (length (c ∷ cs)) b' ' ++ t)) base ext all.0 (omega arith)
    ∙ ap
        (λ n.
          make_chars cs (set (pre ++ (replicate (length (c ∷ cs)) b' ' ++ t)) n (upper c)) true base
            (ext + 1))
        (sym at)
    ∙ ap (λ o. make_chars cs o true base (ext + 1)) (set_behind pre cs t c)
    ∙ ext_chars cs (pre ++ upper c ∷ []) t base (ext + 1) all.1
        (omega (arith, longer pre (upper c))) (omega arith)
    ∙ ap (λ o. ok (o, base)) (append_assoc pre (upper c ∷ []) (map upper cs ++ t))

upper_ne : (c : ℕ) → (c == b'.') ≡ false → (upper c == b'.') ≡ false
upper_ne c h = ground arith

checked_stored :
    (c n : ℕ) (r : List ℕ) → IsPlain c → checked_83 (ok (upper c ∷ r, suc n)) ≡ ok (upper c ∷ r)
checked_stored c zero r p = rw (upper_ne c p.0)
checked_stored c (suc zero) r p = rw (upper_ne c p.0)
checked_stored c (suc (suc n)) r p =
    let zero_no : (suc (suc (suc n)) == 0) ≡ false = ground arith in
    let one_no : (suc (suc (suc n)) == 1) ≡ false = ground arith in
    rw (zero_no, one_no)
      (rw (upper_ne c p.0)
        (elim (Bool-cases (suc (suc (suc n)) == 2)) [ inl e ↦ rw e | inr e ↦ rw e ]))

replicate_add : (m n : ℕ) → replicate {A = ℕ} (m + n) b' ' ≡ replicate m b' ' ++ replicate n b' '
replicate_add zero n = ap (λ k. replicate {A = ℕ} k b' ') (omega arith)
replicate_add (suc m) n =
    ap (λ k. replicate {A = ℕ} k b' ') {y = suc (m + n)} (omega arith)
    ∙ ap (◌∷◌ b' ') (replicate_add m n)

length-upper : (xs : List ℕ) → length (map upper xs) ≡ length xs
length-upper [] = refl
length-upper (x ∷ xs) = ap suc (length-upper xs)

length-padded_upper : (n : ℕ) (xs : List ℕ) → length xs ≤ n → length (padded_upper n xs) ≡ n
length-padded_upper n xs h = omega (
  arith,
  length-append (map upper xs) (replicate (n - length xs) b' '),
  length-upper xs,
  length-replicate {A = ℕ} (n - length xs) b' ',
)

-- The spaces that a name of the given lengths is written over.
blank_parts :
    (m n : ℕ)
    → m ≤ 8
    → n ≤ 3
    → replicate {A = ℕ} 11 b' '
      ≡ replicate m b' ' ++ (replicate (8 - m) b' ' ++ (replicate n b' ' ++ replicate (3 - n) b' '))
blank_parts m n hm hn =
    ap (λ k. replicate {A = ℕ} k b' ') {x = 11} {y = m + ((8 - m) + (n + (3 - n)))} (omega arith)
    ∙ replicate_add m ((8 - m) + (n + (3 - n)))
    ∙ ap (λ r. replicate m b' ' ++ r)
        (replicate_add (8 - m) (n + (3 - n))
          ∙ ap (λ r. replicate (8 - m) b' ' ++ r) (replicate_add n (3 - n)))

module _ (c : ℕ) (cs ext : List ℕ) (stem_plain : All IsPlain (c ∷ cs)) (ext_plain : All IsPlain ext)
    (stem_fits : length (c ∷ cs) ≤ 8) (ext_fits : length ext ≤ 3) where
  abbrev stem : List ℕ
  stem = c ∷ cs

  abbrev stem_and_blank : List ℕ
  stem_and_blank =
      padded_upper 8 stem ++ (replicate (length ext) b' ' ++ replicate (3 - length ext) b' ')

  stem_done :
      (rest : List ℕ)
      → make_chars (stem ++ rest) (replicate 11 b' ') false 0 0
        ≡ make_chars rest stem_and_blank false (length stem) 0
  stem_done rest =
      let t =
        replicate (8 - length stem) b' '
        ++ (replicate (length ext) b' ' ++ replicate (3 - length ext) b' ') in
      ap (λ o. make_chars (stem ++ rest) o false 0 0)
        (blank_parts (length stem) (length ext) stem_fits ext_fits)
      ∙ stem_chars stem rest [] t stem_plain (omega arith)
      ∙ ap (λ n. make_chars rest (map upper stem ++ t) false n 0) {y = length stem} (omega arith)
      ∙ ap (λ o. make_chars rest o false (length stem) 0)
          (sym (
            append_assoc (map upper stem) (replicate (8 - length stem) b' ')
              (replicate (length ext) b' ' ++ replicate (3 - length ext) b' ')))

  dotted_chars :
      make_chars (stem ++ b'.' ∷ ext) (replicate 11 b' ') false 0 0
      ≡ ok (padded_upper 8 stem ++ padded_upper 3 ext, length stem)
  unfolding make_chars
  dotted_chars =
      stem_done (b'.' ∷ ext)
      ∙ ext_chars ext (padded_upper 8 stem) (replicate (3 - length ext) b' ') (length stem) 0
          ext_plain (length-padded_upper 8 stem stem_fits) (omega arith)

  make_83-dotted : make_83 (stem ++ b'.' ∷ ext) ≡ ok (padded_upper 8 stem ++ padded_upper 3 ext)
  unfolding make_83
  make_83-dotted = rw dotted_chars (
      checked_stored c (length cs)
        (map upper cs ++ replicate (8 - length stem) b' ' ++ padded_upper 3 ext) stem_plain.0)

-- `make_83` of a name without a dot, or with one: for a stem of one to eight plain chars and an extension of
-- at most three, it gives the stem padded to eight bytes and the extension padded to three, in capitals.
pub make_83-padded_upper :
    (c : ℕ) (cs ext : List ℕ)
    → All IsPlain (c ∷ cs)
    → All IsPlain ext
    → length (c ∷ cs) ≤ 8
    → length ext ≤ 3
    → (make_83 (c ∷ cs ++ b'.' ∷ ext) ≡ ok (padded_upper 8 (c ∷ cs) ++ padded_upper 3 ext))
      × (make_83 (c ∷ cs) ≡ ok (padded_upper 8 (c ∷ cs) ++ padded_upper 3 []))
unfolding make_83
make_83-padded_upper c cs ext stem_plain ext_plain stem_fits ext_fits = (
  make_83-dotted c cs ext stem_plain ext_plain stem_fits ext_fits,
  rw plain_chars (
      checked_stored c (length cs)
        (map upper cs ++ replicate (8 - length (c ∷ cs)) b' ' ++ padded_upper 3 []) stem_plain.0),
)
  where
    plain_chars :
        make_chars (c ∷ cs) (replicate 11 b' ') false 0 0
        ≡ ok (padded_upper 8 (c ∷ cs) ++ padded_upper 3 [], length (c ∷ cs))
    plain_chars =
        ap (λ n. make_chars n (replicate 11 b' ') false 0 0) (sym (append-nil (c ∷ cs)))
        ∙ stem_done c cs [] stem_plain tt stem_fits (omega arith) []
