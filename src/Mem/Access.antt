-- ===== src/Mem/Access.antt =====
-- The walk that the processor makes through the page tables, as rules (kernel/src/mem.rs).
use package.solaros.Prelude.{arith, ℕ, ◌≡◌, ◌↔◌, ◌⊎◌, Bool, true, false, if◌then◌else◌}
use solaros.Mem.{
  Paging, present, user_accessible, huge_page, Tables, slot, level_index, is_present, is_huge,
  check_one_page,
}

module _ (p : Paging) where
  open p use {Entry, flags, addr, contains}

  -- An entry that is present, and one that is also open to the user.
  abbrev pub IsPresent : Entry → Type 0
  IsPresent e = contains (flags e) present ≡ true

  abbrev pub IsOpen : Entry → Type 0
  IsOpen e = IsPresent e × (contains (flags e) user_accessible ≡ true)

  abbrev pub IsHuge : Entry → Type 0
  IsHuge e = contains (flags e) huge_page ≡ true

  -- The entries on the walk for an address from the table of the root, from the fourth level to the first.
  abbrev pub entry4 : ℕ → ℕ → Tables p → Entry
  entry4 root vaddr mem = mem (slot p root (level_index p vaddr 39))

  abbrev pub entry3 : ℕ → ℕ → Tables p → Entry
  entry3 root vaddr mem = mem (slot p (addr (entry4 root vaddr mem)) (level_index p vaddr 30))

  abbrev pub entry2 : ℕ → ℕ → Tables p → Entry
  entry2 root vaddr mem = mem (slot p (addr (entry3 root vaddr mem)) (level_index p vaddr 21))

  abbrev pub entry1 : ℕ → ℕ → Tables p → Entry
  entry1 root vaddr mem = mem (slot p (addr (entry2 root vaddr mem)) (level_index p vaddr 12))

  -- Each entry on the way is good; the walk ends at the last level, or before at a huge page of 1 GB or 2 MB.
  abbrev pub Walk : (Entry → Type 0) → ℕ → ℕ → Tables p → Type 0
  Walk Good root vaddr mem =
      Good (entry4 root vaddr mem)
      × Good (entry3 root vaddr mem)
      × (IsHuge (entry3 root vaddr mem)
          ⊎ (Good (entry2 root vaddr mem)
              × (IsHuge (entry2 root vaddr mem) ⊎ Good (entry1 root vaddr mem))))

  -- The address is the user's: the processor lets it through in user mode.
  abbrev pub IsUser : ℕ → Tables p → ℕ → Type 0
  IsUser root mem vaddr = Walk IsOpen root vaddr mem

  -- The address is mapped, for the kernel at least.
  abbrev pub IsMapped : ℕ → Tables p → ℕ → Type 0
  IsMapped root mem vaddr = Walk IsPresent root vaddr mem

  pub check_one_page-IsUser :
      (root vaddr : ℕ) (mem : Tables p)
      → (check_one_page p root vaddr mem ≡ true) ↔ IsUser root mem vaddr
  unfolding check_one_page
  check_one_page-IsUser root vaddr mem = (λ h. ground arith, λ h. ground arith)

  -- The walk of `mark_one_page`, which tests that entries are present.
  abbrev pub mapped_pt : ℕ → ℕ → Tables p → Bool
  mapped_pt vaddr table m = is_present p (m (slot p table (level_index p vaddr 12)))

  abbrev pub mapped_level : ℕ → (ℕ → Tables p → Bool) → Tables p → Bool
  mapped_level at next m =
      if is_present p (m at)
      then (if is_huge p (m at) then true else next (addr (m at)) m)
      else false

  abbrev pub mapped_pd : ℕ → ℕ → Tables p → Bool
  mapped_pd vaddr table m = mapped_level (slot p table (level_index p vaddr 21)) (mapped_pt vaddr) m

  abbrev pub mapped_pdpt : ℕ → ℕ → Tables p → Bool
  mapped_pdpt vaddr table m =
      mapped_level (slot p table (level_index p vaddr 30)) (mapped_pd vaddr) m

  unfoldable pub mapped_one : ℕ → ℕ → Tables p → Bool
  mapped_one root vaddr m =
      let e = m (slot p root (level_index p vaddr 39)) in
      if is_present p e then mapped_pdpt vaddr (addr e) m else false

  pub mapped_one-IsMapped :
      (root vaddr : ℕ) (mem : Tables p)
      → (mapped_one root vaddr mem ≡ true) ↔ IsMapped root mem vaddr
  unfolding mapped_one
  mapped_one-IsMapped root vaddr mem = (λ h. ground arith, λ h. ground arith)
