-- ===== src/Prelude/Lists.antt =====
-- Lists measured and indexed by native numbers, under the library's names, and predicates on them.
use Prim.Native.Nat.{ℕ, zero, suc, ◌+◌, ◌-◌, ◌≤◌, ◌<◌, min}
use mathlib.Core.Path.{◌≡◌, refl, sym, ap, ◌∙◌}
use mathlib.Core.Logic.{◌≢◌, ◌⊎◌, inl, inr}
use mathlib.Core.List.{List, [], ◌∷◌, ◌++◌}
use mathlib.Core.Option.{Option, none, some}
use native.Mathlib.Omega.{arith}

module _ {ℓ} {A : Type ℓ} where
  abbrev pub length : List A → ℕ
  length [] = 0
  length (x ∷ xs) = suc (length xs)

  abbrev pub get_elem? : List A → ℕ → Option A
  get_elem? [] i = none
  get_elem? (x ∷ xs) zero = some x
  get_elem? (x ∷ xs) (suc i) = get_elem? xs i

  abbrev pub get_or : List A → ℕ → A → A
  get_or [] i d = d
  get_or (x ∷ xs) zero d = x
  get_or (x ∷ xs) (suc i) d = get_or xs i d

  -- A write out of bounds changes nothing.
  abbrev pub set : List A → ℕ → A → List A
  set [] i v = []
  set (x ∷ xs) zero v = v ∷ xs
  set (x ∷ xs) (suc i) v = x ∷ set xs i v

  abbrev pub take : ℕ → List A → List A
  take zero xs = []
  take (suc n) [] = []
  take (suc n) (x ∷ xs) = x ∷ take n xs

  abbrev pub drop : ℕ → List A → List A
  drop zero xs = xs
  drop (suc n) [] = []
  drop (suc n) (x ∷ xs) = drop n xs

  abbrev pub replicate : ℕ → A → List A
  replicate zero a = []
  replicate (suc n) a = a ∷ replicate n a

  pub length-append : (xs ys : List A) → length (xs ++ ys) ≡ length xs + length ys
  length-append [] ys = omega arith
  length-append (x ∷ xs) ys = omega (arith, length-append xs ys)

  pub length-set : (xs : List A) (i : ℕ) (v : A) → length (set xs i v) ≡ length xs
  length-set [] i v = refl
  length-set (x ∷ xs) zero v = refl
  length-set (x ∷ xs) (suc i) v = ap suc (length-set xs i v)

  pub length-take : (n : ℕ) (xs : List A) → length (take n xs) ≡ min n (length xs)
  length-take zero xs = omega arith
  length-take (suc n) [] = omega arith
  length-take (suc n) (x ∷ xs) = omega (arith, length-take n xs)

  pub length-replicate : (n : ℕ) (a : A) → length (replicate n a) ≡ n
  length-replicate zero a = refl
  length-replicate (suc n) a = ap suc (length-replicate n a)

  pub take-length : (xs ys : List A) → take (length xs) (xs ++ ys) ≡ xs
  take-length [] ys = refl
  take-length (x ∷ xs) ys = ap (◌∷◌ x) (take-length xs ys)

  pub get_elem?-set_self :
      (xs : List A) (i : ℕ) (v : A) → i < length xs → get_elem? (set xs i v) i ≡ some v
  get_elem?-set_self [] i v h = elim h [ ]
  get_elem?-set_self (x ∷ xs) zero v h = refl
  get_elem?-set_self (x ∷ xs) (suc i) v h = get_elem?-set_self xs i v (omega arith)

  pub get_elem?-set_ne :
      (xs : List A) (i j : ℕ) (v : A) → i ≢ j → get_elem? (set xs i v) j ≡ get_elem? xs j
  get_elem?-set_ne [] i j v h = refl
  get_elem?-set_ne (x ∷ xs) zero zero v h = absurd (h refl)
  get_elem?-set_ne (x ∷ xs) zero (suc j) v h = refl
  get_elem?-set_ne (x ∷ xs) (suc i) zero v h = refl
  get_elem?-set_ne (x ∷ xs) (suc i) (suc j) v h = get_elem?-set_ne xs i j v (λ e. h (ap suc e))

  pub get_elem?-lt : (xs : List A) (i : ℕ) {a : A} → get_elem? xs i ≡ some a → i < length xs
  get_elem?-lt [] i e = cc
  get_elem?-lt (x ∷ xs) zero e = omega arith
  get_elem?-lt (x ∷ xs) (suc i) e = omega (arith, get_elem?-lt xs i e)

  pub get_elem?-none : (xs : List A) (i : ℕ) → get_elem? xs i ≡ none → length xs < suc i
  get_elem?-none [] i e = omega arith
  get_elem?-none (x ∷ xs) zero e = cc
  get_elem?-none (x ∷ xs) (suc i) e = omega (arith, get_elem?-none xs i e)

  pub get_elem?-some : (xs : List A) (i : ℕ) → i < length xs → (a : A) × (get_elem? xs i ≡ some a)
  get_elem?-some [] i h = elim h [ ]
  get_elem?-some (x ∷ xs) zero h = (x, refl)
  get_elem?-some (x ∷ xs) (suc i) h = get_elem?-some xs i (omega arith)

  pub get_elem?-take :
      (n : ℕ) (xs : List A) (j : ℕ) → j < n → get_elem? (take n xs) j ≡ get_elem? xs j
  get_elem?-take zero xs j h = elim h [ ]
  get_elem?-take (suc n) [] j h = refl
  get_elem?-take (suc n) (x ∷ xs) zero h = refl
  get_elem?-take (suc n) (x ∷ xs) (suc j) h = get_elem?-take n xs j (omega arith)

  pub take-set :
      (xs : List A) (i : ℕ) (a : A)
      → i < length xs
      → take (suc i) (set xs i a) ≡ take i xs ++ a ∷ []
  take-set [] i a h = elim h [ ]
  take-set (x ∷ xs) zero a h = refl
  take-set (x ∷ xs) (suc i) a h = ap (◌∷◌ x) (take-set xs i a (omega arith))

  -- The element between two lists, and a write there.
  pub get_or-length :
      (xs : List A) (y d : A) (zs : List A) → get_or (xs ++ y ∷ zs) (length xs) d ≡ y
  get_or-length [] y d zs = refl
  get_or-length (x ∷ xs) y d zs = get_or-length xs y d zs

  pub set-length :
      (xs : List A) (y v : A) (zs : List A) → set (xs ++ y ∷ zs) (length xs) v ≡ xs ++ v ∷ zs
  set-length [] y v zs = refl
  set-length (x ∷ xs) y v zs = ap (◌∷◌ x) (set-length xs y v zs)

  pub take-le : (n : ℕ) (xs : List A) → length xs ≤ n → take n xs ≡ xs
  take-le zero [] h = refl
  take-le zero (x ∷ xs) h = elim h [ ]
  take-le (suc n) [] h = refl
  take-le (suc n) (x ∷ xs) h = ap (◌∷◌ x) (take-le n xs (omega arith))

  pub take-append : (n : ℕ) (xs ys : List A) → n ≤ length xs → take n (xs ++ ys) ≡ take n xs
  take-append zero xs ys h = refl
  take-append (suc n) [] ys h = elim h [ ]
  take-append (suc n) (x ∷ xs) ys h = ap (◌∷◌ x) (take-append n xs ys (omega arith))

  pub get_or-take :
      (n : ℕ) (xs : List A) (i : ℕ) (d : A) → i < n → get_or (take n xs) i d ≡ get_or xs i d
  get_or-take zero xs i d h = elim h [ ]
  get_or-take (suc n) [] i d h = refl
  get_or-take (suc n) (x ∷ xs) zero d h = refl
  get_or-take (suc n) (x ∷ xs) (suc i) d h = get_or-take n xs i d (omega arith)

  -- A write at or behind the end of a prefix leaves the prefix alone.
  pub take-set_behind : (n i : ℕ) (xs : List A) (v : A) → n ≤ i → take n (set xs i v) ≡ take n xs
  take-set_behind zero i xs v h = refl
  take-set_behind (suc n) i [] v h = refl
  take-set_behind (suc n) zero (x ∷ xs) v h = elim h [ ]
  take-set_behind (suc n) (suc i) (x ∷ xs) v h = ap (◌∷◌ x) (take-set_behind n i xs v (omega arith))

  pub drop-set_before : (n i : ℕ) (xs : List A) (v : A) → i < n → drop n (set xs i v) ≡ drop n xs
  drop-set_before zero i xs v h = elim h [ ]
  drop-set_before (suc n) i [] v h = refl
  drop-set_before (suc n) zero (x ∷ xs) v h = refl
  drop-set_before (suc n) (suc i) (x ∷ xs) v h = drop-set_before n i xs v (omega arith)

  pub drop-set : (n i : ℕ) (xs : List A) (v : A) → drop n (set xs (n + i) v) ≡ set (drop n xs) i v
  drop-set zero i xs v = ap (λ k. set xs k v) (omega arith)
  drop-set (suc n) i [] v = refl
  drop-set (suc n) i (x ∷ xs) v =
      ap (λ k. drop (suc n) (set (x ∷ xs) k v)) {y = suc (n + i)} (omega arith) ∙ drop-set n i xs v

  drop-nil : (n : ℕ) → drop n [] ≡ []
  drop-nil zero = refl
  drop-nil (suc n) = refl

  pub drop-drop : (m n : ℕ) (xs : List A) → drop m (drop n xs) ≡ drop (n + m) xs
  drop-drop m zero xs = ap (λ k. drop k xs) (omega arith)
  drop-drop m (suc n) [] = drop-nil m ∙ sym (drop-nil (suc n + m))
  drop-drop m (suc n) (x ∷ xs) =
      drop-drop m n xs ∙ ap (λ k. drop k (x ∷ xs)) {x = suc (n + m)} (omega arith)

  pub length-drop : (n : ℕ) (xs : List A) → length (drop n xs) ≡ length xs - n
  length-drop zero xs = omega arith
  length-drop (suc n) [] = omega arith
  length-drop (suc n) (x ∷ xs) = omega (arith, length-drop n xs)

  -- The element behind the end of a list, and those before it, once one is pushed.
  pub get_elem?-push_last : (xs : List A) (a : A) → get_elem? (xs ++ a ∷ []) (length xs) ≡ some a
  get_elem?-push_last [] a = refl
  get_elem?-push_last (x ∷ xs) a = get_elem?-push_last xs a

  pub get_elem?-push_old :
      (xs : List A) (a : A) (i : ℕ) {b : A}
      → get_elem? xs i ≡ some b
      → get_elem? (xs ++ a ∷ []) i ≡ some b
  get_elem?-push_old [] a i e = cc
  get_elem?-push_old (x ∷ xs) a zero e = e
  get_elem?-push_old (x ∷ xs) a (suc i) e = get_elem?-push_old xs a i e

  pub get_elem?-push :
      (xs : List A) (a : A) (i : ℕ) {b : A}
      → get_elem? (xs ++ a ∷ []) i ≡ some b
      → (get_elem? xs i ≡ some b) ⊎ (b ≡ a)
  get_elem?-push [] a zero e = inr cc
  get_elem?-push [] a (suc i) e = cc
  get_elem?-push (x ∷ xs) a zero e = inl e
  get_elem?-push (x ∷ xs) a (suc i) e = get_elem?-push xs a i e

-- A predicate by recursion computes to tuples, which the tactics read and build.
abbrev pub All {ℓ κ} : {A : Type ℓ} → (A → Type κ) → List A → Type κ
All P [] = Unit
All P (x ∷ xs) = P x × All P xs

pub All-append {ℓ κ} :
    {A : Type ℓ} (P : A → Type κ) (xs ys : List A) → All P xs → All P ys → All P (xs ++ ys)
All-append P [] ys hx hy = hy
All-append P (x ∷ xs) ys hx hy = (hx.0, All-append P xs ys hx.1 hy)

pub All-map {ℓ κ μ} :
    {A : Type ℓ} {P : A → Type κ} {Q : A → Type μ} (f : (a : A) → P a → Q a) (xs : List A)
    → All P xs
    → All Q xs
All-map f [] h = tt
All-map f (x ∷ xs) h = (f x h.0, All-map f xs h.1)

-- Membership with the place kept, as a sum.
infix 40 ◌∈◌
abbrev pub ◌∈◌ : {A : Type 0} → A → List A → Type 0
a ∈ [] = ⊥
a ∈ x ∷ xs = (a ≡ x) ⊎ (a ∈ xs)

module _ {A : Type 0} where
  pub mem-append_left : (a : A) (xs ys : List A) → a ∈ xs → a ∈ xs ++ ys
  mem-append_left a [] ys h = absurd h
  mem-append_left a (x ∷ xs) ys (inl e) = inl e
  mem-append_left a (x ∷ xs) ys (inr h) = inr (mem-append_left a xs ys h)

  pub mem-append_right : (a : A) (xs ys : List A) → a ∈ ys → a ∈ xs ++ ys
  mem-append_right a [] ys h = h
  mem-append_right a (x ∷ xs) ys h = inr (mem-append_right a xs ys h)

  pub mem-append_split : (a : A) (xs ys : List A) → a ∈ xs ++ ys → (a ∈ xs) ⊎ (a ∈ ys)
  mem-append_split a [] ys h = inr h
  mem-append_split a (x ∷ xs) ys (inl e) = inl (inl e)
  mem-append_split a (x ∷ xs) ys (inr h) = elim (mem-append_split a xs ys h) [
    | inl l ↦ inl (inr l)
    | inr r ↦ inr r
  ]

  pub mem-All {ℓ} : (P : A → Type ℓ) (a : A) (xs : List A) → a ∈ xs → All P xs → P a
  mem-All P a [] m h = absurd m
  mem-All P a (x ∷ xs) (inl e) h = rw e h.0
  mem-All P a (x ∷ xs) (inr m) h = mem-All P a xs m h.1
