-- ===== src/Users/Passwd/Digits.antt =====
-- Decimal numbers in /etc/passwd: what `push_u32` writes, `parse_u32` reads (kernel/src/users.rs).
use package.solaros.Prelude.{
  ℕ, zero, suc, ◌+◌, ◌-◌, ◌*◌, ◌/◌, ◌%◌, ◌^◌, ◌<◌, ◌≤◌, ◌≡◌, ◌≢◌, refl, sym, ap, ◌∙◌, Option, some,
  List, [], ◌∷◌, ◌++◌, length, length-append, All, All-append, false, Bool-cases, ◌==◌, ==_iff, inl,
  inr, arith,
}
use mathlib.Core.Option.{get_or}
use mathlib.Core.List.{reverse, reverse-cons}
use native.Mathlib.Nat.{pow-suc}
use solaros.Users.Passwd.{tmp_digits, u32_bytes, parse_digits, parse_u32}

abbrev pub IsDigit : ℕ → Type 0
IsDigit b = (b'0' ≤ b) × (b ≤ b'9')

-- Digits are read from the left.
parse_digits-append :
    (v w : ℕ) (xs ys : List ℕ)
    → parse_digits v xs ≡ some w
    → parse_digits v (xs ++ ys) ≡ parse_digits w ys
unfolding parse_digits
parse_digits-append v w [] ys e = ground arith
parse_digits-append v w (x ∷ xs) ys e =
    ground (arith, parse_digits-append (v * 10 + (x - b'0')) w xs ys)

parse_digits_one :
    (q r : ℕ) → r < 10 → q * 10 + r < 2 ^ 32 → parse_digits q ((b'0' + r) ∷ []) ≡ some (q * 10 + r)
unfolding parse_digits
parse_digits_one q r h small = ground arith

-- What the array of digits holds for a number that fits.
record Digits (places v : ℕ) (r : Option (List ℕ)) : Type 0 where
  tmp : List ℕ
  returns : r ≡ some tmp
  read : parse_digits 0 (reverse tmp) ≡ some v
  digits : All IsDigit (reverse tmp)
  size : length (reverse tmp) ≤ places
  nonempty : v ≢ 0 → reverse tmp ≢ []

not-snoc-nil : (xs : List ℕ) (x : ℕ) → xs ++ x ∷ [] ≢ []
not-snoc-nil [] x e = cc
not-snoc-nil (y ∷ xs) x e = cc

tmp_digits-Digits :
    (places v : ℕ) → v < 10 ^ places → v < 2 ^ 32 → Digits places v (tmp_digits places v)
unfolding tmp_digits parse_digits
tmp_digits-Digits zero v h small = record {
  tmp = [];
  returns = ground arith;
  read = ap some (omega arith);
  digits = tt;
  size = omega arith;
  nonempty = λ ne. absurd (ne (omega arith));
}
tmp_digits-Digits (suc places) v h small = elim (Bool-cases (v == 0)) [
  | inl e ↦ record {
    tmp = [];
    returns = rw (e, tmp_digits) refl;
    read = ap some (sym ((==_iff v 0).0 e));
    digits = tt;
    size = omega arith;
    nonempty = λ ne. absurd (ne ((==_iff v 0).0 e));
  }
  | inr e ↦
      let d = tmp_digits-Digits places (v / 10) (omega (arith, pow-suc 10 places)) (omega arith) in
      record {
        tmp = (b'0' + v % 10) ∷ d.tmp;
        returns = rw (e, d.returns, tmp_digits) refl;
        read =
            ap (parse_digits 0) (reverse-cons (b'0' + v % 10) d.tmp)
            ∙ parse_digits-append 0 (v / 10) (reverse d.tmp) ((b'0' + v % 10) ∷ []) d.read
            ∙ parse_digits_one (v / 10) (v % 10) (omega arith) (omega arith)
            ∙ ap some (omega arith);
        digits = rw (reverse-cons (b'0' + v % 10) d.tmp) (
            All-append IsDigit (reverse d.tmp) ((b'0' + v % 10) ∷ []) d.digits
              ((omega arith, omega arith), tt));
        size =
            rw (reverse-cons (b'0' + v % 10) d.tmp)
              (omega (arith, length-append (reverse d.tmp) ((b'0' + v % 10) ∷ []), d.size));
        nonempty = λ ne f.
            not-snoc-nil (reverse d.tmp) (b'0' + v % 10)
              (sym (reverse-cons (b'0' + v % 10) d.tmp) ∙ f);
      }
]

parse_u32-nonempty : (s : List ℕ) → s ≢ [] → parse_u32 s ≡ parse_digits 0 s
unfolding parse_u32
parse_u32-nonempty [] ne = absurd (ne refl)
parse_u32-nonempty (b ∷ s) ne = refl

==_ne : (v : ℕ) → (v == 0) ≡ false → v ≢ 0
==_ne v e = ground arith

-- The digits that `push_u32` writes.
abbrev pub decimal : ℕ → List ℕ
decimal v = get_or (u32_bytes v) []

-- `push_u32` writes at most ten digits for a u32, and `parse_u32` reads the number back from them.
pub record Decimal (v : ℕ) : Type 0 where
  pub written : u32_bytes v ≡ some (decimal v)
  pub read : parse_u32 (decimal v) ≡ some v
  pub digits : All IsDigit (decimal v)
  pub size : length (decimal v) ≤ 10

Decimal-of :
    (v : ℕ) (text : List ℕ)
    → u32_bytes v ≡ some text
    → parse_u32 text ≡ some v
    → All IsDigit text
    → length text ≤ 10
    → Decimal v
Decimal-of v text w r d l =
    let e : decimal v ≡ text = ap (λ o. get_or o []) w in
    record {
      written = w ∙ ap some (sym e);
      read = ap parse_u32 e ∙ r;
      digits = rw e d;
      size = rw e l;
    }

pub u32_bytes-Decimal : (v : ℕ) → v < 2 ^ 32 → Decimal v
unfolding u32_bytes parse_u32 parse_digits
u32_bytes-Decimal v h = elim (Bool-cases (v == 0)) [
  | inl e ↦
      Decimal-of v (b'0' ∷ []) (rw (e, u32_bytes) refl) (ap some (sym ((==_iff v 0).0 e)))
        ((omega arith, omega arith), tt) (omega arith)
  | inr e ↦
      let d = tmp_digits-Digits 10 v (omega arith) h in
      Decimal-of v (reverse d.tmp) (rw (e, d.returns, u32_bytes) refl)
        (parse_u32-nonempty (reverse d.tmp) (d.nonempty (==_ne v e)) ∙ d.read) d.digits d.size
]
