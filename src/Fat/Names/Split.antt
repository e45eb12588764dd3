-- ===== src/Fat/Names/Split.antt =====
-- What `split_parent` makes of a path (kernel/src/fat.rs).
use package.solaros.Prelude.{
  ℕ, suc, ◌+◌, ◌≡◌, refl, ◌∙◌, ap, ap₂, false, Option, none, some, List, [], ◌∷◌, ◌++◌, length,
  take, drop, take-length, arith, All, ◌==◌, if◌then◌else◌,
}
use solaros.Fat.Names.{last_slash, split_parent}

-- A name holds no slash.
abbrev pub NoSlash : List ℕ → Type 0
NoSlash = All (λ c. (c == b'/') ≡ false)

last_slash-NoSlash :
    (k : ℕ) (last : Option ℕ) (leaf : List ℕ) → NoSlash leaf → last_slash k last leaf ≡ last
unfolding last_slash
last_slash-NoSlash k last [] h = refl
last_slash-NoSlash k last (c ∷ leaf) h =
    last_slash-NoSlash (k + 1) (if c == b'/' then some k else last) leaf h.1 ∙ rw h.0

last_slash-append :
    (k : ℕ) (last : Option ℕ) (dir leaf : List ℕ)
    → NoSlash leaf
    → last_slash k last (dir ++ b'/' ∷ leaf) ≡ some (k + length dir)
unfolding last_slash
last_slash-append k last [] leaf h =
    last_slash-NoSlash (k + 1) (some k) leaf h ∙ ap some (omega arith)
last_slash-append k last (c ∷ dir) leaf h =
    last_slash-append (k + 1) (if c == b'/' then some k else last) dir leaf h
    ∙ ap some (omega arith)

drop_past : (dir leaf : List ℕ) → drop (suc (length dir)) (dir ++ b'/' ∷ leaf) ≡ leaf
drop_past [] leaf = refl
drop_past (c ∷ dir) leaf = drop_past dir leaf

-- The part before the last slash, and the name behind it.
pub split_parent-append :
    (dir leaf : List ℕ) → NoSlash leaf → split_parent (dir ++ b'/' ∷ leaf) ≡ (dir, leaf)
unfolding split_parent
split_parent-append dir leaf h =
    rw (last_slash-append 0 none dir leaf h, split_parent)
      (ap₂ (λ p q. (p, q))
        (ap (λ n. take n (dir ++ b'/' ∷ leaf)) {y = length dir} (omega arith)
          ∙ take-length dir (b'/' ∷ leaf))
        (ap (λ n. drop n (dir ++ b'/' ∷ leaf)) {y = suc (length dir)} (omega arith)
          ∙ drop_past dir leaf))

pub split_parent-NoSlash : (leaf : List ℕ) → NoSlash leaf → split_parent leaf ≡ ([], leaf)
unfolding split_parent
split_parent-NoSlash leaf h = rw (last_slash-NoSlash 0 none leaf h, split_parent)
