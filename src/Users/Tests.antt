-- ===== src/Users/Tests.antt =====
-- The user table's theorems at a table of two users, and runs of its operations
-- (kernel/src/users.rs).
use package.solaros.Prelude.{
  ℕ, ◌≡◌, refl, ap, arith, List, [], ◌∷◌, replicate, length, some, map, inl,
}
use solaros.Users.{
  Users, Result, new_user, entry, active, root_name, next_uid, add_user, set_password,
}
use solaros.Users.Table.{WellFormed, Outcome, add_user-Outcome}
use solaros.Users.Password.{Changed, set_password-Changed}
use solaros.Users.Passwd.{save_bytes, load_bytes}
use solaros.Users.Passwd.Line.{IsStorable, view}
use solaros.Users.Passwd.Roundtrip.{load_bytes-save_bytes}

abbrev ada : List ℕ
ada = b'a' ∷ b'd' ∷ b'a' ∷ []

abbrev key : List ℕ
key = b'k' ∷ b'e' ∷ b'y' ∷ []

abbrev two_users : Users
two_users = record {
  table = entry root_name 0 0 [] ∷ entry ada 1000 1000 key ∷ replicate 14 new_user;
  count = 2;
  current = 0;
}

two_users-WellFormed : WellFormed two_users
two_users-WellFormed = record {
  room = omega arith;
  size = refl;
  distinct = (((λ e. let l : 3 ≡ 4 = ap length e in omega arith, λ e. omega arith), tt), (tt, tt));
}

root-IsStorable : IsStorable (entry root_name 0 0 [])
root-IsStorable = record {
  name_plain = ground arith;
  name_fits = omega arith;
  uid_fits = omega arith;
  gid_fits = omega arith;
  pass_plain = tt;
  pass_fits = omega arith;
}

ada-IsStorable : IsStorable (entry ada 1000 1000 key)
ada-IsStorable = record {
  name_plain = ground arith;
  name_fits = omega arith;
  uid_fits = omega arith;
  gid_fits = omega arith;
  pass_plain = ground arith;
  pass_fits = omega arith;
}

load_bytes-save_bytes_example :
    (file : List ℕ) × (save_bytes two_users ≡ some file)
    × (map view (active (load_bytes file two_users)) ≡ map view (active two_users))
    × ((load_bytes file two_users).current ≡ 0)
load_bytes-save_bytes_example =
    load_bytes-save_bytes two_users two_users (root-IsStorable, (ada-IsStorable, tt)) (inl refl)
      (omega arith) refl

next_uid_run : next_uid two_users ≡ some 1001
unfolding next_uid
next_uid_run = refl

add_user-Outcome_example :
    (r : Result ℕ) × (us' : Users) × (add_user key two_users ≡ some (r, us'))
    × WellFormed us'
    × Outcome key two_users r us'
add_user-Outcome_example = add_user-Outcome key two_users two_users-WellFormed

set_password-Changed_example :
    (r : Result (Unit {0})) × (us' : Users) × (set_password 1 ada two_users ≡ some (r, us'))
    × Changed 1 ada two_users r us'
set_password-Changed_example = set_password-Changed 1 ada two_users (omega arith)
