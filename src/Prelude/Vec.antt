-- ===== src/Prelude/Vec.antt =====
-- Changes of a `Vec` in place: `v[i].field = x` and `swap_remove`.
use Prim.Native.Nat.{ℕ, zero, suc, ◌+◌, ◌-◌, ◌<◌}
use mathlib.Core.Path.{◌≡◌, refl, sym, ◌∙◌, ap}
use mathlib.Core.Logic.{◌≢◌}
use mathlib.Core.List.{List, [], ◌∷◌}
use mathlib.Core.Option
use mathlib.Core.Option.{Option, none, some}
use native.Mathlib.Decide.{ℕ_discrete}
use native.Mathlib.Omega.{arith}
use solaros.Prelude.Lists.{
  length, get_elem?, set, take, length-set, length-take, get_elem?-lt, get_elem?-some,
  get_elem?-set_self, get_elem?-set_ne, get_elem?-take,
}

-- A change in place of one element; none out of bounds.
module _ {ℓ} {A : Type ℓ} where
  abbrev pub modify : List A → ℕ → (A → A) → List A
  modify [] i f = []
  modify (x ∷ xs) zero f = f x ∷ xs
  modify (x ∷ xs) (suc i) f = x ∷ modify xs i f

  pub length-modify : (xs : List A) (i : ℕ) (f : A → A) → length (modify xs i f) ≡ length xs
  length-modify [] i f = refl
  length-modify (x ∷ xs) zero f = refl
  length-modify (x ∷ xs) (suc i) f = ap suc (length-modify xs i f)

  pub get_elem?-modify_self :
      (xs : List A) (i : ℕ) (f : A → A)
      → get_elem? (modify xs i f) i ≡ Option.map f (get_elem? xs i)
  get_elem?-modify_self [] i f = refl
  get_elem?-modify_self (x ∷ xs) zero f = refl
  get_elem?-modify_self (x ∷ xs) (suc i) f = get_elem?-modify_self xs i f

  pub get_elem?-modify_ne :
      (xs : List A) (i j : ℕ) (f : A → A) → i ≢ j → get_elem? (modify xs i f) j ≡ get_elem? xs j
  get_elem?-modify_ne [] i j f h = refl
  get_elem?-modify_ne (x ∷ xs) zero zero f h = absurd (h refl)
  get_elem?-modify_ne (x ∷ xs) zero (suc j) f h = refl
  get_elem?-modify_ne (x ∷ xs) (suc i) zero f h = refl
  get_elem?-modify_ne (x ∷ xs) (suc i) (suc j) f h =
      get_elem?-modify_ne xs i j f (λ e. h (ap suc e))

-- `Vec::swap_remove`: the last element takes the place of the one removed.
module _ {ℓ} {A : Type ℓ} where
  pub swap_remove : List A → ℕ → List A
  swap_remove xs i = elim (get_elem? xs (length xs - 1)) [
    | none ↦ xs
    | some last ↦ take (length xs - 1) (set xs i last)
  ]

  module _ (xs : List A) (i : ℕ) (here : i < length xs) where
    swap_remove_lem :
        (last : A) × (get_elem? xs (length xs - 1) ≡ some last)
        × (swap_remove xs i ≡ take (length xs - 1) (set xs i last))
    unfolding swap_remove
    swap_remove_lem =
        let (last, e) = get_elem?-some xs (length xs - 1) (omega arith) in
        (last, e, rw (e, swap_remove))

    pub length-swap_remove : length (swap_remove xs i) + 1 ≡ length xs
    length-swap_remove =
        let (last, e, r) = swap_remove_lem in
        rw r (omega (arith, length-take (length xs - 1) (set xs i last), length-set xs i last))

    -- What stood before the place removed stands there still.
    pub get_elem?-swap_remove_below :
        (j : ℕ) → j < i → get_elem? (swap_remove xs i) j ≡ get_elem? xs j
    get_elem?-swap_remove_below j h =
        let (last, e, r) = swap_remove_lem in
        rw r (
          get_elem?-take (length xs - 1) (set xs i last) j (omega arith)
          ∙ get_elem?-set_ne xs i j last (omega arith))

    -- Nothing but the element at the place removed is lost.
    pub get_elem?-swap_remove_kept :
        (j : ℕ) {a : A}
        → j ≢ i
        → get_elem? xs j ≡ some a
        → (k : ℕ) × (get_elem? (swap_remove xs i) k ≡ some a)
    get_elem?-swap_remove_kept j {a} ne at =
        let (last, e, r) = swap_remove_lem in
        elim (ℕ_discrete j (length xs - 1)) [
          | yes p ↦ (
            i,
            rw r (
                get_elem?-take (length xs - 1) (set xs i last) i
                  (omega (arith, get_elem?-lt xs j at))
                ∙ get_elem?-set_self xs i last here
                ∙ sym e
                ∙ rw (← p) at),
          )
          | no q ↦ (
            j,
            rw r (
                get_elem?-take (length xs - 1) (set xs i last) j
                  (omega (arith, get_elem?-lt xs j at))
                ∙ get_elem?-set_ne xs i j last (λ f. ne (sym f))
                ∙ at),
          )
        ]

    -- What is left was there before.
    pub get_elem?-swap_remove_old :
        (k : ℕ) {a : A}
        → get_elem? (swap_remove xs i) k ≡ some a
        → (j : ℕ) × (get_elem? xs j ≡ some a)
    get_elem?-swap_remove_old k {a} at =
        let (last, e, r) = swap_remove_lem in
        let inside : k < length xs - 1 =
          omega (arith, get_elem?-lt (swap_remove xs i) k at, length-swap_remove) in
        let was : get_elem? (set xs i last) k ≡ some a =
          sym (get_elem?-take (length xs - 1) (set xs i last) k inside)
          ∙ sym (ap (λ l. get_elem? l k) r)
          ∙ at in
        elim (ℕ_discrete i k) [
          | yes p ↦ (
            length xs - 1,
            e
                ∙ sym (get_elem?-set_self xs i last here)
                ∙ ap (λ m. get_elem? (set xs i last) m) p
                ∙ was,
          )
          | no q ↦ (k, sym (get_elem?-set_ne xs i k last q) ∙ was)
        ]
