-- ===== src/Fat/Sector.antt =====
-- Numbers in the bytes of a sector (kernel/src/fat.rs).
use package.solaros.Prelude.{
  ℕ, zero, suc, ◌+◌, ◌/◌, ◌%◌, ◌^◌, ◌<◌, ◌≡◌, ◌≢◌, ◌∙◌, List, [], ◌∷◌, length, length-set, get_or,
  set, ◌==◌, if◌then◌else◌, arith,
}
use solaros.Fat.{get32, put32}

pub get_or-set :
    (b : List ℕ) (i j v : ℕ)
    → i < length b
    → get_or (set b i v) j 0 ≡ (if j == i then v else get_or b j 0)
get_or-set [] i j v h = elim h [ ]
get_or-set (x ∷ b) zero zero v h = ground arith
get_or-set (x ∷ b) zero (suc j) v h = ground arith
get_or-set (x ∷ b) (suc i) zero v h = ground arith
get_or-set (x ∷ b) (suc i) (suc j) v h = ground (arith, get_or-set b i j v (omega arith))

pub length-put32 : (b : List ℕ) (o v : ℕ) → length (put32 b o v) ≡ length b
length-put32 b o v =
    let b₁ = set b o (v % 256) in
    let b₂ = set b₁ (o + 1) (v / 256 % 256) in
    let b₃ = set b₂ (o + 2) (v / 65536 % 256) in
    length-set b₃ (o + 3) (v / 16777216 % 256)
    ∙ length-set b₂ (o + 2) (v / 65536 % 256)
    ∙ length-set b₁ (o + 1) (v / 256 % 256)
    ∙ length-set b o (v % 256)

-- The bytes after `put32`.
pub get_or-put32 :
    (b : List ℕ) (o v j : ℕ)
    → o + 3 < length b
    → get_or (put32 b o v) j 0 ≡ (
        if j == o + 3
        then v / 16777216 % 256
        else if j == o + 2
        then v / 65536 % 256
        else if j == o + 1
        then v / 256 % 256
        else if j == o
        then v % 256
        else get_or b j 0)
get_or-put32 b o v j room =
    let b₁ = set b o (v % 256) in
    let b₂ = set b₁ (o + 1) (v / 256 % 256) in
    let b₃ = set b₂ (o + 2) (v / 65536 % 256) in
    let l₁ = length-set b o (v % 256) in
    let l₂ = length-set b₁ (o + 1) (v / 256 % 256) in
    let l₃ = length-set b₂ (o + 2) (v / 65536 % 256) in
    ground (
      arith,
      get_or-set b o j (v % 256) (omega arith),
      get_or-set b₁ (o + 1) j (v / 256 % 256) (omega (arith, l₁)),
      get_or-set b₂ (o + 2) j (v / 65536 % 256) (omega (arith, l₁, l₂)),
      get_or-set b₃ (o + 3) j (v / 16777216 % 256) (omega (arith, l₁, l₂, l₃)),
    )

pub get32-put32 : (b : List ℕ) (o v : ℕ) → o + 3 < length b → v < 2 ^ 32 → get32 (put32 b o v) o ≡ v
get32-put32 b o v room small = ground (
  arith,
  get_or-put32 b o v o room,
  get_or-put32 b o v (o + 1) room,
  get_or-put32 b o v (o + 2) room,
  get_or-put32 b o v (o + 3) room,
)

pub get32-put32_ne :
    (b : List ℕ) (o p v : ℕ)
    → o + 3 < length b
    → o % 4 ≡ 0
    → p % 4 ≡ 0
    → p ≢ o
    → get32 (put32 b o v) p ≡ get32 b p
get32-put32_ne b o p v room ao ap' ne = ground (
  arith,
  get_or-put32 b o v p room,
  get_or-put32 b o v (p + 1) room,
  get_or-put32 b o v (p + 2) room,
  get_or-put32 b o v (p + 3) room,
)
