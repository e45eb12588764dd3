-- ===== src/Users/Passwd/Line.antt =====
-- One line of /etc/passwd: the fields that `load_from_fs` finds are those that `save_to_fs` wrote
-- (kernel/src/users.rs).
use package.solaros.Prelude.{
  ℕ, ◌^◌, ◌<◌, ◌≤◌, ◌≡◌, ◌≢◌, refl, ap, ap₂, ◌∙◌, some, List, [], ◌∷◌, ◌++◌, length, All,
  All-append, All-map, true, false, ◌==◌, arith,
}
use solaros.Users.{User, name_cap, pass_cap, name_of, pass_of}
use solaros.Users.Passwd.{
  Parsed, colon, newline, low_bytes, plain_bytes, bytes_to_chars, split_line, split_colons,
  parse_fields, parse_line,
}
use solaros.Users.Passwd.Digits.{IsDigit, Decimal, decimal, u32_bytes-Decimal}

-- A char that the file can hold: a byte that is no separator and not zero.
abbrev pub IsPlain : ℕ → Type 0
IsPlain c = (c ≢ 0) × (c ≢ colon) × (c ≢ newline) × (c < 256)

-- The fields of a user that the file can hold.
pub record IsStorable (u : User) : Type 0 where
  pub name_plain : All IsPlain (name_of u)
  pub name_fits : length (name_of u) ≤ name_cap
  pub uid_fits : u.uid < 2 ^ 32
  pub gid_fits : u.gid < 2 ^ 32
  pub pass_plain : All IsPlain (pass_of u)
  pub pass_fits : length (pass_of u) ≤ pass_cap

-- What a user is, whatever stands behind the used part of its arrays.
abbrev pub view : User → Parsed
view u = record { name = name_of u; uid = u.uid; gid = u.gid; pass = pass_of u }

-- The line of a user, without its newline.
abbrev pub line_of : User → List ℕ
line_of u =
    low_bytes (name_of u)
    ++ (colon ∷ (decimal u.uid ++ (colon ∷ (decimal u.gid ++ (colon ∷ low_bytes (pass_of u))))))

low_bytes_plain : (s : List ℕ) → All IsPlain s → low_bytes s ≡ s
low_bytes_plain [] h = refl
low_bytes_plain (c ∷ s) h = ap₂ ◌∷◌ (omega arith) (low_bytes_plain s h.1)

plain_bytes_lem : (s : List ℕ) → All IsPlain s → plain_bytes s ≡ true
unfolding plain_bytes
plain_bytes_lem [] h = refl
plain_bytes_lem (c ∷ s) h = ground (arith, plain_bytes_lem s h.1)

pub bytes_to_chars_lem :
    (cap : ℕ) (s : List ℕ) → All IsPlain s → length s ≤ cap → bytes_to_chars cap s ≡ some s
unfolding bytes_to_chars
bytes_to_chars_lem cap s h fits = ground (arith, plain_bytes_lem s h)

ne_test : (a b : ℕ) → a ≢ b → (a == b) ≡ false
ne_test a b h = ground arith

pub split_line_lem :
    (xs rest : List ℕ) → All (λ c. c ≢ newline) xs → split_line (xs ++ newline ∷ rest) ≡ (xs, rest)
unfolding split_line
split_line_lem [] rest h = refl
split_line_lem (x ∷ xs) rest h =
    rw (ne_test x newline h.0, split_line, split_line_lem xs rest h.1) refl

split_colons_field :
    (xs rest : List ℕ)
    → All (λ c. c ≢ colon) xs
    → split_colons (xs ++ colon ∷ rest) ≡ xs ∷ split_colons rest
unfolding split_colons
split_colons_field [] rest h = refl
split_colons_field (x ∷ xs) rest h =
    rw (ne_test x colon h.0, split_colons, split_colons_field xs rest h.1) refl

split_colons_last : (xs : List ℕ) → All (λ c. c ≢ colon) xs → split_colons xs ≡ xs ∷ []
unfolding split_colons
split_colons_last [] h = refl
split_colons_last (x ∷ xs) h = rw (ne_test x colon h.0, split_colons, split_colons_last xs h.1) refl

digits-IsPlain : (xs : List ℕ) → All IsDigit xs → All IsPlain xs
digits-IsPlain = All-map (λ c h. (omega arith, omega arith, omega arith, omega arith))

no_colon : (xs : List ℕ) → All IsPlain xs → All (λ c. c ≢ colon) xs
no_colon = All-map (λ c h. h.1)

no_newline : (xs : List ℕ) → All IsPlain xs → All (λ c. c ≢ newline) xs
no_newline = All-map (λ c h. h.2)

module _ (u : User) (s : IsStorable u) where
  uid_text : Decimal u.uid
  uid_text = u32_bytes-Decimal u.uid s.uid_fits

  gid_text : Decimal u.gid
  gid_text = u32_bytes-Decimal u.gid s.gid_fits

  fields : split_colons (line_of u) ≡ name_of u ∷ decimal u.uid ∷ decimal u.gid ∷ pass_of u ∷ []
  fields =
      rw (low_bytes_plain (name_of u) s.name_plain, low_bytes_plain (pass_of u) s.pass_plain)
        (split_colons_field (name_of u) _ (no_colon _ s.name_plain)
          ∙ ap (◌∷◌ (name_of u)) (
              split_colons_field (decimal u.uid) _ (no_colon _ (digits-IsPlain _ uid_text.digits))
              ∙ ap (◌∷◌ (decimal u.uid)) (
                  split_colons_field (decimal u.gid) _
                    (no_colon _ (digits-IsPlain _ gid_text.digits))
                  ∙ ap (◌∷◌ (decimal u.gid))
                      (split_colons_last (pass_of u) (no_colon _ s.pass_plain)))))

  -- The line of a user is read as that user.
  pub parse_line-line_of : parse_line (line_of u) ≡ some (view u)
  unfolding parse_line parse_fields
  parse_line-line_of =
      rw
        (
          fields,
          bytes_to_chars_lem name_cap (name_of u) s.name_plain s.name_fits,
          bytes_to_chars_lem pass_cap (pass_of u) s.pass_plain s.pass_fits,
          uid_text.read,
          gid_text.read,
          parse_fields,
        )
        refl

  -- A line holds no newline.
  pub line_of_one_line : All (λ c. c ≢ newline) (line_of u)
  line_of_one_line =
      rw (low_bytes_plain (name_of u) s.name_plain, low_bytes_plain (pass_of u) s.pass_plain)
        (All-append (λ c. c ≢ newline) (name_of u) _ (no_newline _ s.name_plain)
          (
            omega arith,
            All-append (λ c. c ≢ newline) (decimal u.uid) _
                (no_newline _ (digits-IsPlain _ uid_text.digits))
                (
                  omega arith,
                  All-append (λ c. c ≢ newline) (decimal u.gid) _
                      (no_newline _ (digits-IsPlain _ gid_text.digits))
                      (omega arith, no_newline _ s.pass_plain),
                ),
          ))
