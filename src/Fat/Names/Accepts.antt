-- ===== src/Fat/Names/Accepts.antt =====
-- The names that `make_83` accepts (kernel/src/fat.rs).
use package.solaros.Prelude.{
  ℕ, ◌+◌, ◌-◌, ◌≤◌, ◌<◌, ◌≡◌, ◌≢◌, ◌↔◌, refl, sym, ◌∙◌, ap, subst, true, false, List, [], ◌∷◌, ◌++◌,
  length, set, replicate, arith, All, ◌==◌, leb, Bool-cases, inl, inr, ==_iff, ap₂, All-map, map,
  ltb, ◌&&◌, if◌then◌else◌,
}
use package.solaros.Fs.{FsErr, Result, ok, err, bad_name}
use solaros.Fat.Names.{upper, bad_char, make_chars, checked_83, make_83}
use solaros.Fat.Names.Padded.{IsPlain, padded_upper, make_83-padded_upper}

refused {ℓ} : {A : Type ℓ} {x : Result A} {a : A} → x ≡ ok a → x ≡ err bad_name → ⊥
refused h e = cc

ok_inj {ℓ} : {A : Type ℓ} {x y : A} → ok x ≡ ok y → x ≡ y
ok_inj h = cc

no_ok {ℓ} : {A : Type ℓ} {e : FsErr} {a : A} → err e ≡ ok a → ⊥
no_ok h = cc

-- What an accepted char says, behind the dot and before it.
module _ (c : ℕ) (name out : List ℕ) (base : ℕ) {r : List ℕ × ℕ} where
  ext_accepts :
      (ext : ℕ)
      → make_chars (c ∷ name) out true base ext ≡ ok r
      → IsPlain c
        × (ext < 3)
        × (make_chars name (set out (8 + ext) (upper c)) true base (ext + 1) ≡ ok r)
  unfolding make_chars
  ext_accepts ext h = elim (Bool-cases (c == b'.')) [
    | inl dot ↦ absurd (refused h (rw dot))
    | inr plain ↦ elim (Bool-cases (bad_char c)) [
      | inl bad ↦ absurd (refused h (rw plain (rw bad)))
      | inr good ↦ elim (Bool-cases (leb 3 ext)) [
        | inl full ↦ absurd (refused h (rw plain (rw good (rw full))))
        | inr room ↦ ((plain, good), ground arith, sym (rw plain (rw good (rw room))) ∙ h)
      ]
    ]
  ]

module _ (c : ℕ) (name out : List ℕ) (base : ℕ) {r : List ℕ × ℕ} where
  stem_accepts :
      (c == b'.') ≡ false
      → make_chars (c ∷ name) out false base 0 ≡ ok r
      → IsPlain c
        × (base < 8)
        × (make_chars name (set out base (upper c)) false (base + 1) 0 ≡ ok r)
  unfolding make_chars
  stem_accepts plain h = elim (Bool-cases (bad_char c)) [
    | inl bad ↦ absurd (refused h (rw plain (rw bad)))
    | inr good ↦ elim (Bool-cases (leb 8 base)) [
      | inl full ↦ absurd (refused h (rw plain (rw good (rw full))))
      | inr room ↦ ((plain, good), ground arith, sym (rw plain (rw good (rw room))) ∙ h)
    ]
  ]

  dot_accepts :
      (c == b'.') ≡ true
      → make_chars (c ∷ name) out false base 0 ≡ ok r
      → make_chars name out true base 0 ≡ ok r
  unfolding make_chars
  dot_accepts dot h = sym (rw dot) ∙ h

ext_accepted :
    (ext out : List ℕ) (base n : ℕ) {r : List ℕ × ℕ}
    → make_chars ext out true base n ≡ ok r
    → n ≤ 3
    → All IsPlain ext × (n + length ext ≤ 3) × (r.1 ≡ base)
unfolding make_chars
ext_accepted [] out base n h small =
    (tt, omega arith, sym (ap (λ (p : List ℕ × ℕ). p.1) (ok_inj h)))
ext_accepted (c ∷ ext) out base n h small =
    let (plain, room, more) = ext_accepts c ext out base n h in
    let (all, fits, same) =
      ext_accepted ext (set out (8 + n) (upper c)) base (n + 1) more (omega arith) in
    ((plain, all), omega arith, same)

-- A stem of plain chars, by itself or with a dot and an extension of at most three behind it.
pub data IsName (room : ℕ) : List ℕ → Type 0 where
  bare : (stem : List ℕ) → All IsPlain stem → length stem ≤ room → IsName room stem
  dotted :
      (stem ext : List ℕ)
      → All IsPlain stem
      → length stem ≤ room
      → All IsPlain ext
      → length ext ≤ 3
      → IsName room (stem ++ b'.' ∷ ext)

char_before :
    (c room more : ℕ) (name : List ℕ)
    → IsPlain c
    → room + 1 ≡ more
    → IsName room name
    → IsName more (c ∷ name)
char_before c room more _ p e (bare stem all fits) = bare (c ∷ stem) (p, all) (omega arith)
char_before c room more _ p e (dotted stem ext all fits ext_all ext_fits) =
    dotted (c ∷ stem) ext (p, all) (omega arith) ext_all ext_fits

accepted :
    (name out : List ℕ) (base room : ℕ) {r : List ℕ × ℕ}
    → base + room ≡ 8
    → make_chars name out false base 0 ≡ ok r
    → IsName room name
unfolding make_chars
accepted [] out base room at h = bare [] tt (omega arith)
accepted (c ∷ name) out base room at h = elim (Bool-cases (c == b'.')) [
  | inl dot ↦
      let (all, fits, same) =
        ext_accepted name out base 0 (dot_accepts c name out base dot h) (omega arith) in
      subst (λ x. IsName room (x ∷ name)) (sym ((==_iff c b'.').0 dot))
        (dotted [] name tt (omega arith) all (omega arith))
  | inr plain ↦
      let (p, small, more) = stem_accepts c name out base plain h in
      char_before c (room - 1) room name p (omega arith)
        (accepted name (set out base (upper c)) (base + 1) (room - 1) (omega arith) more)
]

-- A char that a stem or an extension may have: ASCII, and none of NUL, space, dot, slash and backslash.
abbrev pub IsNameChar : ℕ → Type 0
IsNameChar c = (c < 128) × (c ≢ 0) × (c ≢ b' ') × (c ≢ b'.') × (c ≢ b'/') × (c ≢ 0x5C)

IsPlain-IsNameChar : (c : ℕ) → IsPlain c → IsNameChar c
IsPlain-IsNameChar c h = (
  ground (arith, h.0, h.1),
  ground (arith, h.0, h.1),
  ground (arith, h.0, h.1),
  ground (arith, h.0, h.1),
  ground (arith, h.0, h.1),
  ground (arith, h.0, h.1),
)

IsNameChar-IsPlain : (c : ℕ) → IsNameChar c → IsPlain c
IsNameChar-IsPlain c h = (ground (arith, h.3), ground (arith, h.0, h.1, h.2, h.4, h.5))

-- The capital of a small letter, and any other char.
abbrev pub capital : ℕ → ℕ
capital c = if ltb 96 c && ltb c 123 then c - 32 else c

capitals : (xs : List ℕ) → map upper xs ≡ map capital xs
capitals [] = refl
capitals (c ∷ xs) = ap₂ ◌∷◌ {x = upper c} {y = capital c} (ground arith) (capitals xs)

-- Chars in capitals, and spaces up to `n` bytes.
abbrev pub spaced : ℕ → List ℕ → List ℕ
spaced n xs = map capital xs ++ replicate (n - length xs) b' '

padded_upper-spaced : (n : ℕ) (xs : List ℕ) → padded_upper n xs ≡ spaced n xs
padded_upper-spaced n xs = ap (λ ys. ys ++ replicate (n - length xs) b' ') (capitals xs)

-- The names that are accepted, and their eleven bytes: a stem of one to eight such chars in capitals, padded
-- to eight, and an extension of at most three, padded to three.
pub data IsStored : List ℕ → List ℕ → Type 0 where
  stored_bare :
      (c : ℕ) (cs : List ℕ)
      → All IsNameChar (c ∷ cs)
      → length (c ∷ cs) ≤ 8
      → IsStored (c ∷ cs) (spaced 8 (c ∷ cs) ++ spaced 3 [])
  stored_dotted :
      (c : ℕ) (cs ext : List ℕ)
      → All IsNameChar (c ∷ cs)
      → length (c ∷ cs) ≤ 8
      → All IsNameChar ext
      → length ext ≤ 3
      → IsStored (c ∷ cs ++ b'.' ∷ ext) (spaced 8 (c ∷ cs) ++ spaced 3 ext)

IsStored-make_83 : {name n : List ℕ} → IsStored name n → make_83 name ≡ ok n
IsStored-make_83 (stored_bare c cs all fits) =
    (make_83-padded_upper c cs [] (All-map IsNameChar-IsPlain (c ∷ cs) all) tt fits (omega arith)).1
    ∙ ap ok (ap₂ ◌++◌ (padded_upper-spaced 8 (c ∷ cs)) (padded_upper-spaced 3 []))
IsStored-make_83 (stored_dotted c cs ext all fits ext_all ext_fits) =
    (make_83-padded_upper c cs ext (All-map IsNameChar-IsPlain (c ∷ cs) all)
      (All-map IsNameChar-IsPlain ext ext_all) fits ext_fits).0
    ∙ ap ok (ap₂ ◌++◌ (padded_upper-spaced 8 (c ∷ cs)) (padded_upper-spaced 3 ext))

-- The loop of a name that is accepted has ended with a stem.
make_83-chars :
    (name n : List ℕ)
    → make_83 name ≡ ok n
    → (r : List ℕ × ℕ) × (make_chars name (replicate 11 b' ') false 0 0 ≡ ok r) × (r.1 ≢ 0)
unfolding make_83
make_83-chars name n h = by_result (make_chars name (replicate 11 b' ') false 0 0) refl
  where
    by_result :
        (o : Result (List ℕ × ℕ))
        → make_chars name (replicate 11 b' ') false 0 0 ≡ o
        → (r : List ℕ × ℕ) × (make_chars name (replicate 11 b' ') false 0 0 ≡ ok r) × (r.1 ≢ 0)
    by_result (err e) at = absurd (no_ok (sym (ap checked_83 at) ∙ h))
    by_result (ok (out, base)) at = (
      (out, base),
      at,
      λ z. refused (sym (ap checked_83 at) ∙ h) (ap (λ k. checked_83 (ok (out, k))) z),
    )

IsName-IsStored : (name n : List ℕ) → make_83 name ≡ ok n → IsName 8 name → IsStored name n
unfolding make_chars
IsName-IsStored _ n h (bare [] all fits) =
    let (r, e, some_stem) = make_83-chars [] n h in
    absurd (some_stem (sym (ap (λ (p : List ℕ × ℕ). p.1) (ok_inj e))))
IsName-IsStored _ n h (bare (c ∷ cs) all fits) =
    let s = stored_bare c cs (All-map IsPlain-IsNameChar (c ∷ cs) all) fits in
    subst (IsStored (c ∷ cs)) (ok_inj (sym (IsStored-make_83 s) ∙ h)) s
IsName-IsStored _ n h (dotted [] ext all fits ext_all ext_fits) =
    let (r, e, some_stem) = make_83-chars (b'.' ∷ ext) n h in
    absurd (
      some_stem
        (ext_accepted ext (replicate 11 b' ') 0 0
          (dot_accepts b'.' ext (replicate 11 b' ') 0 refl e) (omega arith)).2)
IsName-IsStored _ n h (dotted (c ∷ cs) ext all fits ext_all ext_fits) =
    let s =
      stored_dotted c cs ext (All-map IsPlain-IsNameChar (c ∷ cs) all) fits
        (All-map IsPlain-IsNameChar ext ext_all) ext_fits in
    subst (IsStored (c ∷ cs ++ b'.' ∷ ext)) (ok_inj (sym (IsStored-make_83 s) ∙ h)) s

-- For every name and eleven bytes: `make_83` gives these bytes for the name exactly when the name is a stem
-- of one to eight plain chars (ASCII, and none of dot, NUL, slash, backslash and space), by itself or with
-- a dot and an extension of at most three plain chars behind it, and the bytes are the stem padded with
-- spaces to eight and the extension padded to three, in capitals.
pub make_83-IsStored : (name n : List ℕ) → (make_83 name ≡ ok n) ↔ IsStored name n
make_83-IsStored name n = (
  λ h.
      let (r, e, some_stem) = make_83-chars name n h in
      IsName-IsStored name n h (accepted name (replicate 11 b' ') 0 8 (omega arith) e),
  IsStored-make_83,
)
