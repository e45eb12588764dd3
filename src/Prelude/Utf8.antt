-- ===== src/Prelude/Utf8.antt =====
-- UTF-8 as in Rust's standard library: `char::encode_utf8` and `core::str::from_utf8`. A char is its
-- code point.
use package.solaros.Prelude.{
  ℕ, zero, suc, ◌+◌, ◌-◌, ◌*◌, ◌/◌, ◌%◌, ◌≤◌, ◌<◌, ◌≡◌, ◌⊎◌, Bool, true, false, ◌&&◌, ◌||◌, Option,
  none, some, List, [], ◌∷◌, ◌++◌, length, length-append, arith, All, ltb, leb, if◌then◌else◌,
}

-- A Unicode scalar value, which every `char` is.
abbrev pub IsScalar : ℕ → Type 0
IsScalar c = (c < 0xD800) ⊎ ((0xE000 ≤ c) × (c < 0x110000))

unfoldable pub encode_utf8 : ℕ → List ℕ
encode_utf8 c =
    if ltb c 0x80
    then c ∷ []
    else if ltb c 0x800
    then (0xC0 + c / 64) ∷ (0x80 + c % 64) ∷ []
    else if ltb c 0x10000
    then (0xE0 + c / 4096) ∷ (0x80 + c / 64 % 64) ∷ (0x80 + c % 64) ∷ []
    else (0xF0 + c / 262144) ∷ (0x80 + c / 4096 % 64) ∷ (0x80 + c / 64 % 64) ∷ (0x80 + c % 64) ∷ []

abbrev is_tail : ℕ → Bool
is_tail b = leb 0x80 b && ltb b 0xC0

abbrev accept : Bool → ℕ → List ℕ → Option (ℕ × List ℕ)
accept true c r = some (c, r)
accept false c r = none

abbrev two_bytes : ℕ → List ℕ → Option (ℕ × List ℕ)
two_bytes a [] = none
two_bytes a (b ∷ r) = accept (is_tail b) ((a - 0xC0) * 64 + (b - 0x80)) r

abbrev three_bytes : ℕ → List ℕ → Option (ℕ × List ℕ)
three_bytes a [] = none
three_bytes a (b ∷ []) = none
three_bytes a (b ∷ c ∷ r) =
    let v = (a - 0xE0) * 4096 + (b - 0x80) * 64 + (c - 0x80) in
    accept (is_tail b && is_tail c && leb 0x800 v && (ltb v 0xD800 || leb 0xE000 v)) v r

abbrev four_bytes : ℕ → List ℕ → Option (ℕ × List ℕ)
four_bytes a [] = none
four_bytes a (b ∷ []) = none
four_bytes a (b ∷ c ∷ []) = none
four_bytes a (b ∷ c ∷ d ∷ r) =
    let v = (a - 0xF0) * 262144 + (b - 0x80) * 4096 + (c - 0x80) * 64 + (d - 0x80) in
    accept (is_tail b && is_tail c && is_tail d && leb 0x10000 v && ltb v 0x110000) v r

-- The first char of valid bytes, and the bytes behind it.
unfoldable pub next_char : List ℕ → Option (ℕ × List ℕ)
next_char [] = none
next_char (a ∷ r) =
    if ltb a 0x80
    then some (a, r)
    else if ltb a 0xC2
    then none
    else if ltb a 0xE0
    then two_bytes a r
    else if ltb a 0xF0
    then three_bytes a r
    else if ltb a 0xF5
    then four_bytes a r
    else none

-- A char takes a byte at least, so the bytes themselves are fuel enough.
decode_from : ℕ → List ℕ → Option (List ℕ)
unfolding next_char
decode_from fuel [] = some []
decode_from zero (b ∷ bs) = none
decode_from (suc fuel) (b ∷ bs) = elim (next_char (b ∷ bs)) [
  | none ↦ none
  | some (c, rest) ↦ elim (decode_from fuel rest) [ none ↦ none | some cs ↦ some (c ∷ cs) ]
]

unfoldable pub decode_utf8 : List ℕ → Option (List ℕ)
unfolding decode_from
decode_utf8 bs = decode_from (length bs) bs

unfoldable pub encode_all : List ℕ → List ℕ
unfolding encode_utf8
encode_all [] = []
encode_all (c ∷ cs) = encode_utf8 c ++ encode_all cs

pub next_char-encode_utf8 :
    (c : ℕ) (rest : List ℕ) → IsScalar c → next_char (encode_utf8 c ++ rest) ≡ some (c, rest)
unfolding next_char encode_utf8
next_char-encode_utf8 c rest h = ground arith

pub encode_utf8-length : (c : ℕ) → (1 ≤ length (encode_utf8 c)) × (length (encode_utf8 c) ≤ 4)
unfolding encode_utf8
encode_utf8-length c = ground arith

-- The chars of a text are at most as many as its bytes.
pub length-encode_all :
    (cs : List ℕ) → (length cs ≤ length (encode_all cs)) × (length (encode_all cs) ≤ 4 * length cs)
unfolding encode_all
length-encode_all [] = omega arith
length-encode_all (c ∷ cs) =
    let one = encode_utf8-length c in
    omega (arith, length-encode_all cs, one, length-append (encode_utf8 c) (encode_all cs))

decode_from-step :
    (fuel c : ℕ) (rest cs : List ℕ)
    → IsScalar c
    → decode_from fuel rest ≡ some cs
    → decode_from (suc fuel) (encode_utf8 c ++ rest) ≡ some (c ∷ cs)
unfolding decode_from
decode_from-step fuel c rest cs h e =
    by_bytes (encode_utf8 c) (encode_utf8-length c).0 (next_char-encode_utf8 c rest h)
  where
    by_bytes :
        (bs : List ℕ)
        → 1 ≤ length bs
        → next_char (bs ++ rest) ≡ some (c, rest)
        → decode_from (suc fuel) (bs ++ rest) ≡ some (c ∷ cs)
    by_bytes [] some_byte first = absurd (omega arith)
    by_bytes (b ∷ bs) some_byte first = rw (first, decode_from) (rw e)

decode_from-encode_all :
    (fuel : ℕ) (cs : List ℕ)
    → length cs ≤ fuel
    → All IsScalar cs
    → decode_from fuel (encode_all cs) ≡ some cs
unfolding decode_from encode_all
decode_from-encode_all fuel [] h all = ground arith
decode_from-encode_all zero (c ∷ cs) h all = elim h [ ]
decode_from-encode_all (suc fuel) (c ∷ cs) h all =
    decode_from-step fuel c (encode_all cs) cs all.0
      (decode_from-encode_all fuel cs (omega arith) all.1)

-- Text that is encoded is decoded again.
pub decode_utf8-encode_all : (cs : List ℕ) → All IsScalar cs → decode_utf8 (encode_all cs) ≡ some cs
unfolding decode_utf8
decode_utf8-encode_all cs all =
    decode_from-encode_all (length (encode_all cs)) cs (length-encode_all cs).0 all
