-- ===== src/Users/Passwd/Save.antt =====
-- The whole file as `save_to_fs` writes it (kernel/src/users.rs).
use package.solaros.Prelude.{
  ℕ, suc, ◌+◌, ◌*◌, ◌≤◌, ◌≡◌, refl, ap, some, List, [], ◌∷◌, ◌++◌, append_assoc, length, replicate,
  All, arith,
}
use solaros.Users.{User, Users, max_users, name_of, pass_of, active}
use solaros.Users.Passwd.{
  Filled, colon, newline, buffer_size, low_bytes, push_byte, push_bytes, push_user, push_users,
  save_bytes,
}
use solaros.Users.Passwd.Digits.{Decimal, decimal, u32_bytes-Decimal}
use solaros.Users.Passwd.Line.{IsStorable, line_of}
use solaros.Users.Passwd.Buffer.{
  Pushed, Pushed-nil, Pushed-append, push_byte-Pushed, push_bytes-Pushed,
}

abbrev pub file_of : List User → List ℕ
file_of [] = []
file_of (u ∷ rest) = line_of u ++ newline ∷ file_of rest

length-low_bytes : (s : List ℕ) → length (low_bytes s) ≡ length s
length-low_bytes [] = refl
length-low_bytes (c ∷ s) = ap suc (length-low_bytes s)

-- A user takes 72 bytes at most.
module _ (u : User) (s : IsStorable u) where
  uid_text : Decimal u.uid
  uid_text = u32_bytes-Decimal u.uid s.uid_fits

  gid_text : Decimal u.gid
  gid_text = u32_bytes-Decimal u.gid s.gid_fits

  abbrev name_bytes : List ℕ
  name_bytes = low_bytes (name_of u)

  abbrev pass_bytes : List ℕ
  pass_bytes = low_bytes (pass_of u)

  regroup :
      ((((((name_bytes ++ colon ∷ []) ++ decimal u.uid) ++ colon ∷ []) ++ decimal u.gid)
            ++ colon ∷ [])
          ++ pass_bytes)
        ++ newline ∷ []
      ≡ line_of u ++ newline ∷ []
  regroup = simp append_assoc

  -- The nested pushes of one user, each of which fits.
  push_user-Pushed :
      (buf : Filled)
      → buf.pos + 72 ≤ length buf.bytes
      → (out : Filled) × (push_user u buf ≡ some out)
        × Pushed (line_of u ++ newline ∷ []) buf out
        × (out.pos ≤ buf.pos + 72)
  unfolding push_user
  push_user-Pushed buf room =
      let b1 = push_bytes name_bytes buf in
      let p1 = push_bytes-Pushed name_bytes buf (omega (arith, l_name, s.name_fits)) in
      let l1 : b1.pos + 56 ≤ length b1.bytes =
        omega (arith, p1.pos, p1.size, l_name, s.name_fits) in
      let b2 = push_byte colon b1 in
      let p2 = push_byte-Pushed colon b1 (omega arith) in
      let b3 = push_bytes (decimal u.uid) b2 in
      let p3 =
        push_bytes-Pushed (decimal u.uid) b2 (omega (arith, p2.pos, p2.size, uid_text.size)) in
      let l3 : b3.pos + 45 ≤ length b3.bytes =
        omega (arith, p2.pos, p2.size, p3.pos, p3.size, uid_text.size) in
      let b4 = push_byte colon b3 in
      let p4 = push_byte-Pushed colon b3 (omega arith) in
      let b5 = push_bytes (decimal u.gid) b4 in
      let p5 =
        push_bytes-Pushed (decimal u.gid) b4 (omega (arith, p4.pos, p4.size, gid_text.size)) in
      let l5 : b5.pos + 34 ≤ length b5.bytes =
        omega (arith, p4.pos, p4.size, p5.pos, p5.size, gid_text.size) in
      let b6 = push_byte colon b5 in
      let p6 = push_byte-Pushed colon b5 (omega arith) in
      let b7 = push_bytes pass_bytes b6 in
      let p7 =
        push_bytes-Pushed pass_bytes b6 (omega (arith, p6.pos, p6.size, l_pass, s.pass_fits)) in
      let p8 =
        push_byte-Pushed newline b7
          (omega (arith, p6.pos, p6.size, p7.pos, p7.size, l_pass, s.pass_fits)) in
      let all =
        Pushed-append
          (Pushed-append
            (Pushed-append
              (Pushed-append (Pushed-append (Pushed-append (Pushed-append p1 p2) p3) p4) p5) p6)
            p7)
          p8 in
      (
        push_byte newline b7,
        rw (uid_text.written, gid_text.written, push_user) refl,
        rw regroup at all,
        omega (
          arith, p1.pos, p2.pos, p3.pos, p4.pos, p5.pos, p6.pos, p7.pos, p8.pos, l_name, l_pass,
          s.name_fits, s.pass_fits, uid_text.size, gid_text.size,
        ),
      )
    where
      l_name : length name_bytes ≡ length (name_of u)
      l_name = length-low_bytes (name_of u)

      l_pass : length pass_bytes ≡ length (pass_of u)
      l_pass = length-low_bytes (pass_of u)

-- All users: 72 bytes each suffice.
push_users-Pushed :
    (us : List User) (buf : Filled)
    → All IsStorable us
    → buf.pos + length us * 72 ≤ length buf.bytes
    → (out : Filled) × (push_users us buf ≡ some out) × Pushed (file_of us) buf out
unfolding push_users
push_users-Pushed [] buf h room = (buf, refl, Pushed-nil buf)
push_users-Pushed (u ∷ rest) buf h room =
    let (b1, r1, p1, l1) = push_user-Pushed u h.0 buf (omega arith) in
    let (b2, r2, p2) = push_users-Pushed rest b1 h.1 (omega (arith, p1.size)) in
    (
      b2,
      rw (r1, push_users) r2,
      rw (append_assoc (line_of u) (newline ∷ []) (file_of rest)) at (Pushed-append p1 p2),
    )

-- What `save_to_fs` writes.
pub save_bytes_lem :
    (us : Users)
    → All IsStorable (active us)
    → length (active us) ≤ max_users
    → save_bytes us ≡ some (file_of (active us))
unfolding save_bytes
save_bytes_lem us h few =
    let buf : Filled = record { bytes = replicate buffer_size 0; pos = 0 } in
    let (out, r, p) = push_users-Pushed (active us) buf h (omega arith) in
    rw (r, save_bytes) (ap some p.text)
