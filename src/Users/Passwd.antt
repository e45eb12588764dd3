-- ===== src/Users/Passwd.antt =====
-- /etc/passwd: `save_to_fs` and `load_from_fs` of kernel/src/users.rs, as functions to and from the
-- bytes of the file.
pub mod Digits
pub mod Line
pub mod Buffer
pub mod Save
pub mod Roundtrip
mod Runs
use package.solaros.Prelude.{
  ℕ, zero, suc, ◌+◌, ◌-◌, ◌*◌, ◌/◌, ◌%◌, ◌^◌, Bool, true, false, ◌&&◌, ◌||◌, Option, none, some,
  List, [], ◌∷◌, ◌++◌, length, take, replicate, set, if◌then◌else◌, ltb, leb, ◌==◌,
}
use mathlib.Core.List.{reverse}
use solaros.Users.{
  User, Users, max_users, name_cap, pass_cap, name_of, pass_of, active, slice_eq, entry, put_entry,
  root_name,
}

abbrev pub buffer_size : ℕ
buffer_size = 2048

abbrev pub colon : ℕ
colon = b':'

abbrev pub newline : ℕ
newline = 10

-- The buffer and the position up to which it is filled.
pub record Filled : Type 0 where
  pub bytes : List ℕ
  pub pos : ℕ

pub push_byte : ℕ → Filled → Filled
push_byte b buf =
    if ltb buf.pos (length buf.bytes)
    then record { bytes = set buf.bytes buf.pos b; pos = buf.pos + 1 }
    else buf

-- A loop of pushes.
pub push_bytes : List ℕ → Filled → Filled
unfolding push_byte
push_bytes [] buf = buf
push_bytes (b ∷ s) buf = push_bytes s (push_byte b buf)

-- `while v > 0` of `push_u32`: the digits in the array `tmp` of as many places as the first number,
-- the lowest first. `none` is a write behind its end.
pub tmp_digits : ℕ → ℕ → Option (List ℕ)
tmp_digits zero v = if v == 0 then some [] else none
tmp_digits (suc places) v = elim (v == 0) [
  | true ↦ some []
  | false ↦ elim (tmp_digits places (v / 10)) [
    | none ↦ none
    | some more ↦ some ((b'0' + v % 10) ∷ more)
  ]
]

-- `push_u32`, as the bytes that it pushes.
pub u32_bytes : ℕ → Option (List ℕ)
unfolding tmp_digits
u32_bytes v = elim (v == 0) [
  | true ↦ some (b'0' ∷ [])
  | false ↦ elim (tmp_digits 10 v) [ none ↦ none | some tmp ↦ some (reverse tmp) ]
]

-- `c as u32 as u8`.
abbrev pub low_byte : ℕ → ℕ
low_byte c = c % 256

abbrev pub low_bytes : List ℕ → List ℕ
low_bytes [] = []
low_bytes (c ∷ s) = low_byte c ∷ low_bytes s

-- The pushes for one user.
pub push_user : User → Filled → Option Filled
push_user u buf = elim (u32_bytes u.uid) [
  | none ↦ none
  | some uid ↦ elim (u32_bytes u.gid) [
    | none ↦ none
    | some gid ↦ some (
        push_byte newline (
          push_bytes (low_bytes (pass_of u)) (
            push_byte colon (
              push_bytes gid (
                push_byte colon
                  (push_bytes uid (push_byte colon (push_bytes (low_bytes (name_of u)) buf))))))))
  ]
]

pub push_users : List User → Filled → Option Filled
push_users [] buf = some buf
push_users (u ∷ rest) buf = elim (push_user u buf) [
  | none ↦ none
  | some buf' ↦ push_users rest buf'
]

-- The bytes that `save_to_fs` writes, `&buf[..pos]`. Nothing is written when there are none.
pub save_bytes : Users → Option (List ℕ)
save_bytes us =
    elim (push_users (active us) (record { bytes = replicate buffer_size 0; pos = 0 })) [
      | none ↦ none
      | some buf ↦ some (take buf.pos buf.bytes)
    ]

abbrev pub is_digit : ℕ → Bool
is_digit b = leb b'0' b && leb b b'9'

-- The loop of `parse_u32`, with `checked_mul` and `checked_add`.
pub parse_digits : ℕ → List ℕ → Option ℕ
parse_digits v [] = some v
parse_digits v (b ∷ s) =
    let rest = parse_digits (v * 10 + (b - b'0')) s in
    if is_digit b
    then if ltb (v * 10) (2 ^ 32)
      then if ltb (v * 10 + (b - b'0')) (2 ^ 32) then rest else none
      else none
    else none

pub parse_u32 : List ℕ → Option ℕ
unfolding parse_digits
parse_u32 [] = none
parse_u32 (b ∷ s) = parse_digits 0 (b ∷ s)

abbrev pub unwrap_or : Option ℕ → ℕ → ℕ
unwrap_or none d = d
unwrap_or (some v) d = v

pub plain_bytes : List ℕ → Bool
plain_bytes [] = true
plain_bytes (b ∷ s) = if (b == 0) || (b == colon) then false else plain_bytes s

-- `bytes_to_chars` into an array of `cap` chars: the chars before `out_len`.
pub bytes_to_chars : ℕ → List ℕ → Option (List ℕ)
unfolding plain_bytes
bytes_to_chars cap s = if ltb cap (length s) then none else if plain_bytes s then some s else none

-- The bytes before the next newline, and those behind it.
pub split_line : List ℕ → List ℕ × List ℕ
split_line [] = ([], [])
split_line (b ∷ s) = elim (b == newline) [
  | true ↦ ([], s)
  | false ↦ let (line, rest) = split_line s in (b ∷ line, rest)
]

-- The pieces of a line between its colons.
pub split_colons : List ℕ → List (List ℕ)
split_colons [] = [] ∷ []
split_colons (b ∷ s) = elim (b == colon) [
  | true ↦ [] ∷ split_colons s
  | false ↦ elim (split_colons s) [ [] ↦ (b ∷ []) ∷ [] | p ∷ ps ↦ (b ∷ p) ∷ ps ]
]

pub record Parsed : Type 0 where
  pub name : List ℕ
  pub uid : ℕ
  pub gid : ℕ
  pub pass : List ℕ

-- One line: its first four fields. A line with three of them passes the first test and is dropped
-- by the second.
pub parse_fields : List (List ℕ) → Option Parsed
parse_fields (f0 ∷ f1 ∷ f2 ∷ f3 ∷ more) =
    let uid = unwrap_or (parse_u32 f1) 0 in
    elim (bytes_to_chars name_cap f0) [
      | none ↦ none
      | some name ↦ elim (bytes_to_chars pass_cap f3) [
        | none ↦ none
        | some pass ↦
            some
              (record { name = name; uid = uid; gid = unwrap_or (parse_u32 f2) uid; pass = pass })
      ]
    ]
parse_fields _ = none

pub parse_line : List ℕ → Option Parsed
parse_line line = parse_fields (split_colons line)

-- `while line_start < len`, over the bytes left; each round takes one byte at least.
pub parse_lines : ℕ → List ℕ → List Parsed → List Parsed
parse_lines zero bytes parsed = parsed
parse_lines (suc fuel) [] parsed = parsed
parse_lines (suc fuel) (b ∷ s) parsed =
    let (line, rest) = split_line (b ∷ s) in
    parse_lines fuel rest (elim (parse_line line) [
      | none ↦ parsed
      | some e ↦ if ltb (length parsed) max_users then parsed ++ e ∷ [] else parsed
    ])

-- The rebuild loop, from entry `count` on.
pub rebuild : List Parsed → Users → Users
rebuild [] us = us
rebuild (e ∷ rest) us =
    if leb max_users us.count
    then us
    else rebuild rest (put_entry (entry e.name e.uid e.gid e.pass) us)

pub has_root : List Parsed → Bool
has_root [] = false
has_root (e ∷ rest) = slice_eq e.name root_name || has_root rest

-- `load_from_fs` at the file's contents. It saves the table again at the end.
pub load_bytes : List ℕ → Users → Users
load_bytes [] us = us
load_bytes (b ∷ s) us =
    let parsed = parse_lines (length (b ∷ s)) (b ∷ s) [] in
    let us' = rebuild parsed (record us { count = 0 }) in
    if has_root parsed
    then us'
    else if ltb us'.count max_users
    then put_entry (entry root_name 0 0 []) us'
    else us'
