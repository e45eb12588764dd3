-- ===== src/Users/Passwd/Roundtrip.antt =====
-- The whole file: `load_from_fs` after `save_to_fs` (kernel/src/users.rs).
use package.solaros.Prelude.{
  ℕ, zero, suc, ◌+◌, ◌<◌, ◌≤◌, ◌≡◌, ◌≢◌, ◌⊎◌, refl, sym, ap, ◌∙◌, some, none, List, [], ◌∷◌, ◌++◌,
  map, map-append, append_assoc, append-nil, length, length-append, length-set, drop, take-length,
  replicate, ltb, leb, lt→ltb, All, arith, if◌then◌else◌, true, false, inl, inr,
}
use solaros.Users.{
  User, Users, max_users, name_cap, pass_cap, name_of, pass_of, active, entry, put_entry, root_name,
}
use solaros.Users.Table.{active-put_entry}
use solaros.Users.Passwd.{
  Parsed, newline, save_bytes, parse_line, parse_lines, split_line, rebuild, has_root, load_bytes,
}
use solaros.Users.Passwd.Line.{
  IsStorable, view, line_of, parse_line-line_of, line_of_one_line, split_line_lem,
}
use solaros.Users.Passwd.Save.{file_of, save_bytes_lem}

split_nonempty :
    (fuel : ℕ) (bytes : List ℕ) (acc : List Parsed)
    → bytes ≢ []
    → parse_lines (suc fuel) bytes acc
      ≡ parse_lines fuel (split_line bytes).1 (elim (parse_line (split_line bytes).0) [
        | none ↦ acc
        | some e ↦ if ltb (length acc) max_users then acc ++ e ∷ [] else acc
      ])
unfolding parse_lines
split_nonempty fuel [] acc ne = absurd (ne refl)
split_nonempty fuel (b ∷ s) acc ne = refl

line_not_nil : (xs ys : List ℕ) → xs ++ newline ∷ ys ≢ []
line_not_nil [] ys e = cc
line_not_nil (x ∷ xs) ys e = cc

parse_lines_lem :
    (fuel : ℕ) (us : List User) (acc : List Parsed)
    → All IsStorable us
    → length acc + length us ≤ max_users
    → length us ≤ fuel
    → parse_lines fuel (file_of us) acc ≡ acc ++ map view us
unfolding parse_lines
parse_lines_lem zero [] acc h few enough = sym (append-nil acc)
parse_lines_lem zero (u ∷ us) acc h few enough = absurd (omega arith)
parse_lines_lem (suc fuel) [] acc h few enough = sym (append-nil acc)
parse_lines_lem (suc fuel) (u ∷ us) acc h few enough =
    split_nonempty fuel (file_of (u ∷ us)) acc (line_not_nil (line_of u) (file_of us))
    ∙ rw
        (
          split_line_lem (line_of u) (file_of us) (line_of_one_line u h.0),
          parse_line-line_of u h.0,
          lt→ltb (length acc) max_users (omega arith),
        )
        (parse_lines_lem fuel us (acc ++ view u ∷ []) h.1
            (omega (arith, length-append acc (view u ∷ []))) (omega arith)
          ∙ append_assoc acc (view u ∷ []) (map view us))

view-entry : (u : User) → view (entry (name_of u) u.uid u.gid (pass_of u)) ≡ view u
view-entry u = λ i. record {
  name = take-length (name_of u) (drop (length (name_of u)) (replicate name_cap 0)) i;
  uid = u.uid;
  gid = u.gid;
  pass = take-length (pass_of u) (drop (length (pass_of u)) (replicate pass_cap 0)) i;
}

not_full : (n : ℕ) → n < max_users → leb max_users n ≡ false
not_full n h = ground arith

rebuild_lem :
    (es : List User) (us : Users)
    → us.count + length es ≤ max_users
    → length us.table ≡ max_users
    → (map view (active (rebuild (map view es) us)) ≡ map view (active us) ++ map view es)
      × ((rebuild (map view es) us).current ≡ us.current)
unfolding rebuild
rebuild_lem [] us few full = (sym (append-nil _), refl)
rebuild_lem (u ∷ es) us few full =
    let new = entry (name_of u) u.uid u.gid (pass_of u) in
    let rest =
      rebuild_lem es (put_entry new us) (omega arith) (length-set us.table us.count new ∙ full) in
    rw (not_full us.count (omega arith), rebuild)
      (
        rest.0
            ∙ ap (λ l. map view l ++ map view es) (active-put_entry new us (omega arith))
            ∙ ap (λ l. l ++ map view es) (map-append view (active us) (new ∷ []))
            ∙ append_assoc (map view (active us)) (view new ∷ []) (map view es)
            ∙ ap (λ v. map view (active us) ++ v ∷ map view es) (view-entry u),
        rest.1,
      )

-- A table with a user named root.
abbrev pub HasRoot : List User → Type 0
HasRoot [] = ⊥
HasRoot (u ∷ us) = (name_of u ≡ root_name) ⊎ HasRoot us

has_root_lem : (us : List User) → HasRoot us → has_root (map view us) ≡ true
unfolding has_root
has_root_lem [] h = absurd h
has_root_lem (u ∷ us) (inl e) = rw e refl
has_root_lem (u ∷ us) (inr h) = ground (arith, has_root_lem us h)

load_nonempty :
    (bytes : List ℕ) (parsed : List Parsed) (us : Users)
    → bytes ≢ []
    → parse_lines (length bytes) bytes [] ≡ parsed
    → has_root parsed ≡ true
    → load_bytes bytes us ≡ rebuild parsed (record us { count = 0 })
unfolding load_bytes
load_nonempty [] parsed us ne p root = absurd (ne refl)
load_nonempty (b ∷ s) parsed us ne p root = rw (p, root, load_bytes) refl

length-le-file_of : (us : List User) → length us ≤ length (file_of us)
length-le-file_of [] = omega arith
length-le-file_of (u ∷ us) =
    omega (arith, length-le-file_of us, length-append (line_of u) (newline ∷ file_of us))

file_of-nonempty : (us : List User) → HasRoot us → file_of us ≢ []
file_of-nonempty [] h = absurd h
file_of-nonempty (u ∷ us) h = line_not_nil (line_of u) (file_of us)

-- The table that is loaded from what was saved holds the same users in the same order, with the
-- same names, ids and passwords, whatever the table held before, if names and passwords consist of
-- bytes other than NUL, colon and newline, and one user is root.
pub load_bytes-save_bytes :
    (us before : Users)
    → All IsStorable (active us)
    → HasRoot (active us)
    → length (active us) ≤ max_users
    → length before.table ≡ max_users
    → (file : List ℕ) × (save_bytes us ≡ some file)
      × (map view (active (load_bytes file before)) ≡ map view (active us))
      × ((load_bytes file before).current ≡ before.current)
load_bytes-save_bytes us before h root few full =
    let bytes = file_of (active us) in
    let load =
      load_nonempty bytes (map view (active us)) before (file_of-nonempty (active us) root)
        (parse_lines_lem (length bytes) (active us) [] h (omega arith)
          (length-le-file_of (active us)))
        (has_root_lem (active us) root) in
    let built = rebuild_lem (active us) (record before { count = 0 }) (omega arith) full in
    (
      bytes,
      save_bytes_lem us h few,
      ap (λ t. map view (active t)) load ∙ built.0,
      ap (λ (t : Users). t.current) load ∙ built.1,
    )
