-- ===== src/Users/Passwd/Runs.antt =====
-- Runs of `save_to_fs` and `load_from_fs` (kernel/src/users.rs).
use package.solaros.Prelude.{ℕ, ◌≡◌, refl, List, [], ◌∷◌, Option, some, none, map, replicate}
use solaros.Users.{Users, new_user, entry, active, root_name}
use solaros.Users.Passwd.{
  save_bytes, load_bytes, push_users, push_user, u32_bytes, push_byte, push_bytes, has_root,
  parse_lines, split_line, parse_line, parse_fields, split_colons, bytes_to_chars, rebuild,
  parse_u32,
}
use solaros.Users.Passwd.Line.{view}

-- A colon in a password ends the field that `load_from_fs` reads, so the rest is lost.
abbrev colon_users : Users
colon_users = record {
  table = entry root_name 0 0 (b'a' ∷ b':' ∷ b'b' ∷ []) ∷ replicate 15 new_user;
  count = 1;
  current = 0;
}

abbrev reload : Option (List ℕ) → Users → Users
reload none us = us
reload (some file) us = load_bytes file us

colon_cut :
    map view (active (reload (save_bytes colon_users) colon_users))
    ≡ record { name = root_name; uid = 0; gid = 0; pass = b'a' ∷ [] } ∷ []
unfolding save_bytes load_bytes push_users push_user u32_bytes push_byte push_bytes has_root
    parse_lines split_line parse_line parse_fields split_colons bytes_to_chars rebuild parse_u32
colon_cut = refl
