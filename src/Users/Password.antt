-- ===== src/Users/Password.antt =====
-- Passwords in the user table: `set_password` and `check_password` of kernel/src/users.rs.
use package.solaros.Prelude.{
  ℕ, ◌<◌, ◌≤◌, ◌≡◌, ◌≢◌, ◌↔◌, inl, inr, refl, sym, ap, some, some_inj, get_elem?-some, List, [],
  ◌∷◌, length, ltb, ◌==◌, Bool-cases, true, false, if◌then◌else◌, get_elem?, get_elem?-set_self,
  get_elem?-set_ne, set, take-length, drop, arith,
}
use solaros.Users.{
  User, Users, Result, ok, err, UserErr, pass_cap, name_of, pass_of, slice_eq, with_password,
  set_password, check_password,
}
use solaros.Users.Find.{slice_eq_iff}

-- What `set_password` returns and leaves for the user at index `i`.
pub data Changed (i : ℕ) (pass : List ℕ) (us : Users) : Result (Unit {0}) → Users → Type 0 where
  refused : pass_cap < length pass → Changed i pass us (err UserErr.password_too_long) us
  stored :
      (us' : Users) (u u' : User)
      → get_elem? us.table i ≡ some u
      → length pass ≤ pass_cap
      → get_elem? us'.table i ≡ some u'
      → (name_of u' ≡ name_of u) × (u'.uid ≡ u.uid) × (u'.gid ≡ u.gid)
      → ((pass ≢ []) → (p : List ℕ) → (check_password i p us' ≡ some true) ↔ (p ≡ pass))
      → ((pass ≡ []) → (p : List ℕ) → check_password i p us' ≡ some true)
      → ((j : ℕ) → i ≢ j → get_elem? us'.table j ≡ get_elem? us.table j)
      → Changed i pass us (ok tt) us'

check_password_at :
    (i : ℕ) (p : List ℕ) (us : Users) (u : User)
    → get_elem? us.table i ≡ some u
    → check_password i p us ≡ some (if u.pass_len == 0 then true else slice_eq (pass_of u) p)
unfolding check_password
check_password_at i p us u at = rw (at, check_password) refl

nonempty_length : (s : List ℕ) → s ≢ [] → (length s == 0) ≡ false
nonempty_length [] h = absurd (h refl)
nonempty_length (c ∷ s) h = ground arith

-- `set_password` refuses a password of more than 32 chars and leaves the table as it was then.
-- Otherwise it changes the user at index `i` only, in nothing but the password; from then on
-- `check_password` accepts that password and no other for that user, or any if it is empty.
pub set_password-Changed :
    (i : ℕ) (pass : List ℕ) (us : Users)
    → i < length us.table
    → (r : Result (Unit {0})) × (us' : Users) × (set_password i pass us ≡ some (r, us'))
      × Changed i pass us r us'
unfolding set_password
set_password-Changed i pass us here = elim (Bool-cases (ltb pass_cap (length pass))) [
  | inl t ↦
      (err UserErr.password_too_long, us, rw (t, set_password) refl, Changed.refused (ground arith))
  | inr f ↦
      let (u, at) = get_elem?-some us.table i here in
      let u' = with_password pass u in
      let us' : Users = record us { table = set us.table i u' } in
      let at' : get_elem? us'.table i ≡ some u' = get_elem?-set_self us.table i u' here in
      let kept : pass_of u' ≡ pass = take-length pass (drop (length pass) u.pass) in
      (
        ok tt,
        us',
        rw (f, at, set_password) refl,
        Changed.stored us' u u' at (ground arith) at' (refl, refl, refl)
            (λ ne p.
              rw (check_password_at i p us' u' at', nonempty_length pass ne, kept)
                (
                  (λ h. sym ((slice_eq_iff pass p).0 (some_inj h))),
                  λ h. ap some ((slice_eq_iff pass p).1 (sym h)),
                ))
            (λ e p. rw (check_password_at i p us' u' at', e) refl)
            (λ j ne. get_elem?-set_ne us.table i j u' ne),
      )
]
