-- ===== src/Users/Uid.antt =====
-- The choice of a user id: `next_uid` of kernel/src/users.rs.
use package.solaros.Prelude.{
  ℕ, zero, suc, ◌+◌, ◌≤◌, ◌<◌, ◌≡◌, refl, arith, true, false, some, List, [], ◌∷◌, length, leb,
  if◌then◌else◌, Bool-cases, inl, inr, ℕ_discrete, length-take,
}
use solaros.Users.{User, Users, active, uid_taken, next_uid_from, next_uid}

-- How many users have an id that is not below `uid`.
above : ℕ → List User → ℕ
above uid [] = 0
above uid (u ∷ rest) = (if leb uid u.uid then 1 else 0) + above uid rest

above_le_length : (uid : ℕ) (us : List User) → above uid us ≤ length us
unfolding above
above_le_length uid [] = omega arith
above_le_length uid (u ∷ us) = ground (arith, above_le_length uid us)

above_suc : (uid : ℕ) (us : List User) → above (uid + 1) us ≤ above uid us
unfolding above
above_suc uid [] = omega arith
above_suc uid (u ∷ us) = ground (arith, above_suc uid us)

-- An id that is taken is counted once less from the next one on.
above-uid_taken :
    (uid : ℕ) (us : List User) → uid_taken uid us ≡ true → above (uid + 1) us < above uid us
unfolding above uid_taken
above-uid_taken uid [] h = cc
above-uid_taken uid (u ∷ us) h = elim (Bool-cases (uid_taken uid us)) [
  | inl t ↦ ground (arith, above-uid_taken uid us t)
  | inr f ↦ ground (arith, above_suc uid us)
]

-- The lowest id from `start` on that no user has.
pub record IsNextUid (start : ℕ) (us : List User) (r : ℕ) : Type 0 where
  pub from : start ≤ r
  pub near : r ≤ start + length us
  pub free : uid_taken r us ≡ false
  pub lowest : (k : ℕ) → start ≤ k → k < r → uid_taken k us ≡ true

next_uid_from_lem :
    (fuel uid : ℕ) (us : List User)
    → above uid us < fuel
    → (r : ℕ) × (next_uid_from fuel uid us ≡ some r)
      × (uid ≤ r)
      × (r ≤ uid + above uid us)
      × (uid_taken r us ≡ false)
      × ((k : ℕ) → uid ≤ k → k < r → uid_taken k us ≡ true)
unfolding next_uid_from
next_uid_from_lem zero uid us h = elim h [ ]
next_uid_from_lem (suc fuel) uid us h = elim (Bool-cases (uid_taken uid us)) [
  | inr f ↦ (
    uid,
    rw (f, next_uid_from) refl,
    omega arith,
    omega arith,
    f,
    λ k lo hi. absurd (omega arith),
  )
  | inl t ↦
      let (r, e, from, near, free, lowest) =
        next_uid_from_lem fuel (uid + 1) us (omega (arith, above-uid_taken uid us t)) in
      (
        r,
        rw (t, next_uid_from) e,
        omega arith,
        omega (arith, above-uid_taken uid us t),
        free,
        λ k lo hi. elim (ℕ_discrete k uid) [ yes p ↦ rw p t | no q ↦ lowest k (omega arith) hi ],
      )
]

pub next_uid-IsNextUid :
    (us : Users) → (r : ℕ) × (next_uid us ≡ some r) × IsNextUid 1000 (active us) r
unfolding next_uid
next_uid-IsNextUid us =
    let size = length-take us.count us.table in
    let (r, e, from, near, free, lowest) =
      next_uid_from_lem (us.count + 1) 1000 (active us)
        (omega (arith, above_le_length 1000 (active us), size)) in
    (
      r,
      e,
      record {
        from = from;
        near = omega (arith, above_le_length 1000 (active us));
        free = free;
        lowest = lowest;
      },
    )
