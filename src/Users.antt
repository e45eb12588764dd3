-- ===== src/Users.antt =====
-- The user table of kernel/src/users.rs. A char is its code point; `us[i].name[..us[i].name_len]` is
-- the list `name_of u`. Loops over `0..count` go over the first `count` entries of the table.
pub mod Passwd
pub mod Find
pub mod Table
pub mod Password
pub mod Uid
mod Tests
use package.solaros.Prelude.{
  ℕ, zero, suc, ◌+◌, Bool, true, false, ◌&&◌, ◌||◌, not, Option, none, some, List, [], ◌∷◌, ◌++◌,
  length, take, drop, replicate, set, modify, get_elem?, if◌then◌else◌, ltb, leb, ◌==◌, min,
}

abbrev pub max_users : ℕ
max_users = 16

abbrev pub name_cap : ℕ
name_cap = 16

abbrev pub pass_cap : ℕ
pass_cap = 32

pub record User : Type 0 where
  pub name : List ℕ
  pub name_len : ℕ
  pub uid : ℕ
  pub gid : ℕ
  pub pass : List ℕ
  pub pass_len : ℕ

-- `User::new`.
abbrev pub new_user : User
new_user = record {
  name = replicate name_cap 0;
  name_len = 0;
  uid = 0;
  gid = 0;
  pass = replicate pass_cap 0;
  pass_len = 0;
}

abbrev pub name_of : User → List ℕ
name_of u = take u.name_len u.name

abbrev pub pass_of : User → List ℕ
pass_of u = take u.pass_len u.pass

-- `dst[..src.len()].copy_from_slice(src)`, for a `src` that fits.
abbrev pub copy_prefix : List ℕ → List ℕ → List ℕ
copy_prefix src dst = src ++ drop (length src) dst

-- The statics USERS, USER_COUNT and CURRENT.
pub record Users : Type 0 where
  pub table : List User
  pub count : ℕ
  pub current : ℕ

abbrev pub active : Users → List User
active us = take us.count us.table

-- The error messages of the module.
pub data UserErr : Type 0 where
  table_full user_exists invalid_username password_too_long : UserErr

pub data Result {ℓ} (A : Type ℓ) : Type ℓ where
  ok : A → Result A
  err : UserErr → Result A

-- `a.iter().zip(b.iter()).all(|(x, y)| x == y)`
abbrev pub zip_eq : List ℕ → List ℕ → Bool
zip_eq [] b = true
zip_eq (x ∷ a) [] = true
zip_eq (x ∷ a) (y ∷ b) = (x == y) && zip_eq a b

abbrev pub slice_eq : List ℕ → List ℕ → Bool
slice_eq a b = (length a == length b) && zip_eq a b

-- The loop of `find` over the entries from index `i` on.
pub find_from : List ℕ → ℕ → List User → Option ℕ
find_from name i [] = none
find_from name i (u ∷ rest) = elim (slice_eq (name_of u) name) [
  | true ↦ some i
  | false ↦ find_from name (i + 1) rest
]

pub find : List ℕ → Users → Option ℕ
unfolding find_from
find name us = find_from name 0 (active us)

-- The entry that `add_user_core` writes.
abbrev pub entry : List ℕ → ℕ → ℕ → List ℕ → User
entry name uid gid pass = record {
  name = copy_prefix name (replicate name_cap 0);
  name_len = length name;
  uid = uid;
  gid = gid;
  pass = copy_prefix pass (replicate pass_cap 0);
  pass_len = length pass;
}

abbrev pub put_entry : User → Users → Users
put_entry u us = record us { table = set us.table us.count u; count = us.count + 1 }

-- `add_user_core`: the new index, and the table after it.
pub add_user_core : List ℕ → ℕ → ℕ → Users → Result ℕ × Users
unfolding find
add_user_core name uid gid us =
    if leb max_users us.count then (err table_full, us) else elim (find name us) [
      | some _ ↦ (err user_exists, us)
      | none ↦
          (ok us.count, put_entry (entry (take (min (length name) name_cap) name) uid gid []) us)
    ]

abbrev pub root_name : List ℕ
root_name = b'r' ∷ b'o' ∷ b'o' ∷ b't' ∷ []

-- `init`.
pub init : Users → Users
unfolding add_user_core
init us =
    (add_user_core root_name 0 0
      (record { table = replicate max_users new_user; count = 0; current = 0 })).1

abbrev is_alphanumeric : ℕ → Bool
is_alphanumeric c = leb b'0' c && leb c b'9' || leb b'A' c && leb c b'Z' || leb b'a' c && leb c b'z'

abbrev pub name_char : ℕ → Bool
name_char c = is_alphanumeric c || c == b'_' || c == b'-' || c == b'.'

pub all_chars : (ℕ → Bool) → List ℕ → Bool
all_chars p [] = true
all_chars p (c ∷ s) = p c && all_chars p s

pub valid_name : List ℕ → Bool
unfolding all_chars
valid_name [] = false
valid_name (c ∷ s) = if ltb name_cap (length (c ∷ s)) then false else all_chars name_char (c ∷ s)

pub uid_taken : ℕ → List User → Bool
uid_taken uid [] = false
uid_taken uid (u ∷ rest) = (u.uid == uid) || uid_taken uid rest

-- The outer loop of `next_uid`, on fuel.
pub next_uid_from : ℕ → ℕ → List User → Option ℕ
unfolding uid_taken
next_uid_from zero uid users = none
next_uid_from (suc fuel) uid users = elim (uid_taken uid users) [
  | true ↦ next_uid_from fuel (uid + 1) users
  | false ↦ some uid
]

-- A pass of the outer loop for each user, and one more.
pub next_uid : Users → Option ℕ
unfolding next_uid_from
next_uid us = next_uid_from (us.count + 1) 1000 (active us)

-- `add_user`, up to the save. The outer option is the fuel of `next_uid`.
pub add_user : List ℕ → Users → Option (Result ℕ × Users)
unfolding valid_name next_uid add_user_core
add_user name us = elim (valid_name name) [
  | false ↦ some (err invalid_username, us)
  | true ↦ elim (next_uid us) [ none ↦ none | some uid ↦ some (add_user_core name uid uid us) ]
]

pub set_current : ℕ → Users → Users
set_current i us = if ltb i us.count then record us { current = i } else us

-- `check_password`. `none` is the panic for an index out of range.
pub check_password : ℕ → List ℕ → Users → Option Bool
check_password i pass us = elim (get_elem? us.table i) [
  | none ↦ none
  | some u ↦ some (if u.pass_len == 0 then true else slice_eq (pass_of u) pass)
]

abbrev pub with_password : List ℕ → User → User
with_password pass u = record u { pass = copy_prefix pass u.pass; pass_len = length pass }

-- `set_password`, up to the save.
pub set_password : ℕ → List ℕ → Users → Option (Result (Unit {0}) × Users)
set_password i pass us =
    if ltb pass_cap (length pass)
    then some (err password_too_long, us)
    else elim (get_elem? us.table i) [
      | none ↦ none
      | some u ↦ some (ok tt, record us { table = set us.table i (with_password pass u) })
    ]
