-- ===== src/Users/Find.antt =====
-- `find` and the comparison of names (kernel/src/users.rs).
use package.solaros.Prelude.{
  ℕ, suc, ◌+◌, ◌≡◌, ◌≢◌, ◌↔◌, ◌⊎◌, refl, ap₂, arith, true, none, some, Option-cases, List, [], ◌∷◌,
  length, ◌==◌, ==_iff, Bool-cases, inl, inr, take, get_elem?, All,
}
use solaros.Users.{User, Users, name_of, active, zip_eq, slice_eq, find_from, find}

zip_eq_self : (s : List ℕ) → zip_eq s s ≡ true
zip_eq_self [] = refl
zip_eq_self (x ∷ s) = ground (arith, zip_eq_self s)

zip_eq-true : (a b : List ℕ) → length a ≡ length b → zip_eq a b ≡ true → a ≡ b
zip_eq-true [] [] e h = refl
zip_eq-true [] (y ∷ b) e h = absurd (omega arith)
zip_eq-true (x ∷ a) [] e h = absurd (omega arith)
zip_eq-true (x ∷ a) (y ∷ b) e h = elim (Bool-cases (x == y)) [
  | inl t ↦ ap₂ ◌∷◌ ((==_iff x y).0 t) (zip_eq-true a b (omega arith) (ground arith))
  | inr f ↦ ground arith
]

-- `slice_eq` is equality.
pub slice_eq_iff : (a b : List ℕ) → (slice_eq a b ≡ true) ↔ (a ≡ b)
slice_eq_iff a b = (
  λ h. elim (Bool-cases (length a == length b)) [
    | inl t ↦ zip_eq-true a b ((==_iff (length a) (length b)).0 t) (ground arith)
    | inr f ↦ ground arith
  ],
  λ e. rw e (ground (arith, zip_eq_self b)),
)

find_from-none :
    (name : List ℕ) (i : ℕ) (us : List User)
    → find_from name i us ≡ none
    → All (λ u. name_of u ≢ name) us
unfolding find_from
find_from-none name i [] h = tt
find_from-none name i (u ∷ us) h = elim (Bool-cases (slice_eq (name_of u) name)) [
  | inl t ↦ cc
  | inr f ↦ (
    λ e. let t = (slice_eq_iff (name_of u) name).1 e in cc,
    find_from-none name (i + 1) us (ground arith),
  )
]

find_from-some :
    (name : List ℕ) (i j : ℕ) (us : List User)
    → find_from name i us ≡ some j
    → (k : ℕ) × (j ≡ i + k)
      × (u : User) × (get_elem? us k ≡ some u)
      × (name_of u ≡ name)
      × All (λ v. name_of v ≢ name) (take k us)
unfolding find_from
find_from-some name i j [] h = cc
find_from-some name i j (u ∷ us) h = elim (Bool-cases (slice_eq (name_of u) name)) [
  | inl t ↦
      let e : j ≡ i + 0 = ground arith in (0, e, u, refl, (slice_eq_iff (name_of u) name).0 t, tt)
  | inr f ↦
      let (k, e, v, at, named, before) = find_from-some name (i + 1) j us (ground arith) in
      (
        suc k,
        omega arith,
        v,
        at,
        named,
        ((λ q. let t = (slice_eq_iff (name_of u) name).1 q in cc), before),
      )
]

-- `find` returns the first user in the table of that name; it returns nothing when there is none.
pub find_first :
    (name : List ℕ) (us : Users)
    → ((find name us ≡ none) × All (λ u. name_of u ≢ name) (active us))
      ⊎ ((i : ℕ) × (u : User) × (find name us ≡ some i)
          × (get_elem? (active us) i ≡ some u)
          × (name_of u ≡ name)
          × All (λ v. name_of v ≢ name) (take i (active us)))
unfolding find
find_first name us = elim (Option-cases (find name us)) [
  | inl e ↦ inl (e, find_from-none name 0 (active us) e)
  | inr (i, e) ↦
      let (k, same, u, at, named, before) = find_from-some name 0 i (active us) e in
      let here : k ≡ i = omega arith in inr (i, u, e, rw (← here) at, named, rw (← here) before)
]
