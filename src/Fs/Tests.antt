-- ===== src/Fs/Tests.antt =====
-- Runs of `cd`, and its theorem at these (kernel/src/fs.rs).
use package.solaros.Prelude.{ℕ, ◌≡◌, refl, arith, List, [], ◌∷◌, Option, none, some}
use solaros.Fs.{Cwd, Result, ok, new_cwd, fat, Check, cd}
use solaros.Fs.Cd.{IsCwd, names}
use solaros.Fs.Change.{Changed, cd-Changed}

-- The path `/a/../usr//.`.
abbrev some_path : List ℕ
some_path = b'/' ∷ b'a' ∷ b'/' ∷ b'.' ∷ b'.' ∷ b'/' ∷ b'u' ∷ b's' ∷ b'r' ∷ b'/' ∷ b'/' ∷ b'.' ∷ []

abbrev always : Check
always k cand = ok tt

new_cwd-IsCwd : IsCwd new_cwd
new_cwd-IsCwd = record { parts = refl; lens = refl; depth = omega arith }

cd-Changed_example :
    (r : Result (Unit {0})) × (cwd' : Cwd) × (cd always (some fat) some_path new_cwd
      ≡ some (r, cwd'))
    × Changed always (some fat) some_path new_cwd r cwd'
cd-Changed_example = cd-Changed always (some fat) some_path new_cwd new_cwd-IsCwd

abbrev names_after : Option (Result (Unit {0}) × Cwd) → List (List ℕ)
names_after none = []
names_after (some (r, cwd)) = names cwd

cd_run : names_after (cd always (some fat) some_path new_cwd) ≡ (b'u' ∷ b's' ∷ b'r' ∷ []) ∷ []
unfolding cd
cd_run = refl
