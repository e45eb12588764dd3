-- ===== src/Users/Table.antt =====
-- `add_user`, and what holds of the table (kernel/src/users.rs).
use package.solaros.Prelude.{
  ℕ, suc, ◌+◌, ◌≤◌, ◌<◌, ◌≡◌, ◌≢◌, refl, sym, ap, ◌∙◌, arith, true, false, none, some, List, [],
  ◌∷◌, ◌++◌, length, leb, Bool-cases, inl, inr, length-set, take, take-set, take-length, set, min,
  All, All-append, ◌⊎◌, ◌↔◌, ltb, Bool, ◌&&◌,
}
use solaros.Users.{
  User, Users, Result, ok, err, UserErr, max_users, name_cap, name_of, pass_of, active, find, entry,
  put_entry, add_user_core, valid_name, name_char, all_chars, uid_taken, add_user,
}
use solaros.Users.Uid.{IsNextUid, next_uid-IsNextUid}
use solaros.Users.Find.{find_first}

-- No two users in the list have one name, and no two have one id.
abbrev pub Distinct : List User → Type 0
Distinct [] = Unit
Distinct (u ∷ us) = All (λ v. (name_of v ≢ name_of u) × (v.uid ≢ u.uid)) us × Distinct us

Distinct-push :
    (us : List User) (v : User)
    → Distinct us
    → All (λ u. (name_of u ≢ name_of v) × (u.uid ≢ v.uid)) us
    → Distinct (us ++ v ∷ [])
Distinct-push [] v d h = (tt, tt)
Distinct-push (u ∷ us) v d h = (
  All-append (λ w. (name_of w ≢ name_of u) × (w.uid ≢ u.uid)) us (v ∷ []) d.0
      ((λ e. h.0.0 (sym e), λ e. h.0.1 (sym e)), tt),
  Distinct-push us v d.1 h.1,
)

-- An entry written behind the active ones.
pub active-put_entry :
    (u : User) (us : Users)
    → us.count < length us.table
    → active (put_entry u us) ≡ active us ++ u ∷ []
active-put_entry u us h =
    ap (λ n. take n (set us.table us.count u)) {y = suc us.count} (omega arith)
    ∙ take-set us.table us.count u h

uid_taken-false :
    (uid : ℕ) (us : List User) → uid_taken uid us ≡ false → All (λ (u : User). u.uid ≢ uid) us
unfolding uid_taken
uid_taken-false uid [] h = tt
uid_taken-false uid (u ∷ us) h = (λ e. ground arith, uid_taken-false uid us (ground arith))

-- The table and its counter are within bounds, and no two users share a name or an id.
pub record WellFormed (us : Users) : Type 0 where
  pub room : us.count ≤ max_users
  pub size : length us.table ≡ max_users
  pub distinct : Distinct (active us)

-- `us'` is `us` with one more user: `u`, the last.
pub record Added (u : User) (us us' : Users) : Type 0 where
  pub users : active us' ≡ active us ++ u ∷ []
  pub count : us'.count ≡ us.count + 1
  pub current : us'.current ≡ us.current

put_entry-WellFormed :
    (u : User) (us : Users)
    → WellFormed us
    → us.count < max_users
    → All (λ v. (name_of v ≢ name_of u) × (v.uid ≢ u.uid)) (active us)
    → WellFormed (put_entry u us) × Added u us (put_entry u us)
put_entry-WellFormed u us wf few new =
    let grown = active-put_entry u us (omega (arith, wf.size)) in
    (
      record {
        room = omega arith;
        size = length-set us.table us.count u ∙ wf.size;
        distinct = rw grown (Distinct-push (active us) u wf.distinct new);
      },
      record { users = grown; count = refl; current = refl },
    )

both : (P Q : User → Type 0) (us : List User) → All P us → All Q us → All (λ u. P u × Q u) us
both P Q [] p q = tt
both P Q (u ∷ us) p q = ((p.0, q.0), both P Q us p.1 q.1)

-- A letter, a digit, an underscore, a dash or a dot.
abbrev pub IsNameChar : ℕ → Type 0
IsNameChar c =
    ((b'a' ≤ c) × (c ≤ b'z'))
    ⊎ ((b'A' ≤ c) × (c ≤ b'Z'))
    ⊎ ((b'0' ≤ c) × (c ≤ b'9'))
    ⊎ (c ≡ b'_')
    ⊎ (c ≡ b'-')
    ⊎ (c ≡ b'.')

-- A name of 1 to 16 such bytes.
abbrev pub IsName : List ℕ → Type 0
IsName name = (0 < length name) × (length name ≤ 16) × All IsNameChar name

name_char-IsNameChar : (c : ℕ) → (name_char c ≡ true) ↔ IsNameChar c
name_char-IsNameChar c = (λ h. ground arith, λ h. ground arith)

all_chars-All : (s : List ℕ) → (all_chars name_char s ≡ true) ↔ All IsNameChar s
unfolding all_chars
all_chars-All [] = (λ h. tt, λ h. refl)
all_chars-All (c ∷ s) = (
  λ h. (
    (name_char-IsNameChar c).0 (and_both (name_char c) (all_chars name_char s) h).0,
    (all_chars-All s).0 (and_both (name_char c) (all_chars name_char s) h).1,
  ),
  λ h. rw ((name_char-IsNameChar c).1 h.0) ((all_chars-All s).1 h.1),
)
  where
    and_both : (a b : Bool) → (a && b) ≡ true → (a ≡ true) × (b ≡ true)
    and_both true b h = (refl, h)
    and_both false b h = cc

valid_name-IsName : (name : List ℕ) → (valid_name name ≡ true) ↔ IsName name
unfolding valid_name
valid_name-IsName [] = (λ h. cc, λ h. absurd (omega (arith, h.0)))
valid_name-IsName (c ∷ s) = elim (Bool-cases (ltb name_cap (length (c ∷ s)))) [
  | inl long ↦ (λ h. absurd (not_true (rw long at h)), λ h. absurd (too_long (c ∷ s) long h.1))
  | inr fits ↦ rw fits (
    λ h. (omega arith, ground arith, (all_chars-All (c ∷ s)).0 h),
    λ h. (all_chars-All (c ∷ s)).1 h.2,
  )
]
  where
    not_true : false ≡ true → ⊥
    not_true e = cc

    too_long : (n : List ℕ) → ltb name_cap (length n) ≡ true → length n ≤ 16 → ⊥
    too_long n long h = ground arith

true-false : {b : Bool} → b ≡ true → b ≡ false → ⊥
true-false t f = cc

-- What `add_user` returns and leaves, by branch.
pub data Outcome (name : List ℕ) (us : Users) : Result ℕ → Users → Type 0 where
  invalid : ¬ IsName name → Outcome name us (err UserErr.invalid_username) us
  full : IsName name → max_users ≤ us.count → Outcome name us (err UserErr.table_full) us
  exists :
      (i : ℕ)
      → IsName name
      → us.count < max_users
      → find name us ≡ some i
      → Outcome name us (err UserErr.user_exists) us
  added :
      (u : User) (us' : Users)
      → IsName name
      → us.count < max_users
      → find name us ≡ none
      → name_of u ≡ name
      → IsNextUid 1000 (active us) u.uid
      → u.gid ≡ u.uid
      → pass_of u ≡ []
      → Added u us us'
      → Outcome name us (ok us.count) us'

valid_name-fits : (name : List ℕ) → valid_name name ≡ true → length name ≤ name_cap
unfolding valid_name
valid_name-fits [] h = omega arith
valid_name-fits (c ∷ s) h = ground arith

take_self : (s : List ℕ) → take (length s) s ≡ s
take_self [] = refl
take_self (c ∷ s) = ap (◌∷◌ c) (take_self s)

take_all : (n : ℕ) (s : List ℕ) → length s ≤ n → take (min (length s) n) s ≡ s
take_all n s h =
    let e : min (length s) n ≡ length s = omega arith in ap (λ k. take k s) e ∙ take_self s

-- `add_user` ends. It refuses a name that is not of 1 to 16 letters, digits, underscores, dashes and dots, a
-- full table and a name in use, and leaves the table as it was then; otherwise it appends a user of that
-- name without a password, whose user and group id are the lowest free id from 1000 on. The table stays
-- well-formed.
pub add_user-Outcome :
    (name : List ℕ) (us : Users)
    → WellFormed us
    → (r : Result ℕ) × (us' : Users) × (add_user name us ≡ some (r, us'))
      × WellFormed us'
      × Outcome name us r us'
unfolding add_user add_user_core
add_user-Outcome name us wf = elim (Bool-cases (valid_name name)) [
  | inr f ↦ (
    err UserErr.invalid_username,
    us,
    rw (f, add_user) refl,
    wf,
    Outcome.invalid (λ n. true-false ((valid_name-IsName name).1 n) f),
  )
  | inl t ↦
      let (uid, e, next) = next_uid-IsNextUid us in
      let is_name = (valid_name-IsName name).0 t in
      elim (Bool-cases (leb max_users us.count)) [
        | inl over ↦ (
          err UserErr.table_full,
          us,
          rw (t, e, over, add_user, add_user_core) refl,
          wf,
          Outcome.full is_name (ground arith),
        )
        | inr under ↦
            let few : us.count < max_users = ground arith in
            elim (find_first name us) [
              | inr (i, u, found, at, named, before) ↦ (
                err UserErr.user_exists,
                us,
                rw (t, e, under, found, add_user, add_user_core) refl,
                wf,
                Outcome.exists i is_name few found,
              )
              | inl (absent, names) ↦
                  let u = entry name uid uid [] in
                  let named : name_of u ≡ name = take-length name _ in
                  let (wf', a) = put_entry-WellFormed u us wf few (
                    rw named
                      (both _ _ (active us) names (uid_taken-false uid (active us) next.free))) in
                  (
                    ok us.count,
                    put_entry u us,
                    rw
                        (
                          t,
                          e,
                          under,
                          absent,
                          take_all name_cap name (valid_name-fits name t),
                          add_user,
                          add_user_core,
                        )
                        refl,
                    wf',
                    Outcome.added u (put_entry u us) is_name few absent named next refl refl a,
                  )
            ]
      ]
]
