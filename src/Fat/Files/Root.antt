-- ===== src/Fat/Files/Root.antt =====
-- The commands on names in the root (kernel/src/fat.rs).
use package.solaros.Prelude.{ℕ, ◌≡◌, sym, ◌∙◌, List, [], ◌∷◌}
use solaros.Fat.{FsInfo, Disk}
use solaros.Fat.Names.{split_parent}
use solaros.Fat.Names.Split.{NoSlash, split_parent-append, split_parent-NoSlash}
use solaros.Fat.Files.{mkdir, touch, rm, rmdir}

module _ (d : Disk) (i : FsInfo) (cwd : List (List ℕ)) (leaf : List ℕ) (plain : NoSlash leaf)
    (s : d.State) where
  same_split : split_parent (b'/' ∷ leaf) ≡ split_parent leaf
  same_split = split_parent-append [] leaf plain ∙ sym (split_parent-NoSlash leaf plain)

  -- For a name without a slash, `mkdir`, `touch`, `rm` and `rmdir` of "/name" do exactly what they do for
  -- "name": they work in the current directory, not in the root.
  pub commands_in_root :
      (mkdir d i cwd (b'/' ∷ leaf) s ≡ mkdir d i cwd leaf s)
      × (touch d i cwd (b'/' ∷ leaf) s ≡ touch d i cwd leaf s)
      × (rm d i cwd (b'/' ∷ leaf) s ≡ rm d i cwd leaf s)
      × (rmdir d i cwd (b'/' ∷ leaf) s ≡ rmdir d i cwd leaf s)
  unfolding mkdir touch rm rmdir
  commands_in_root =
      (rw (same_split, mkdir), rw (same_split, touch), rw (same_split, rm), rw (same_split, rmdir))
