-- ===== src/Mem.antt =====
-- The page-table walks of kernel/src/mem.rs: marking pages user-accessible, and the check that guards
-- the system calls. The x86_64 crate's page-table entries are the parameter `Paging`; arithmetic on
-- addresses wraps at 64 bits, as in a release build.
pub mod Access
pub mod Walk
pub mod Range
pub mod Tests
use package.solaros.Prelude.{
  ℕ, zero, suc, ◌+◌, ◌-◌, ◌*◌, ◌/◌, ◌^◌, bit_and, Bool, true, false, ◌&&◌, ◌||◌, ◌≡◌, if◌then◌else◌,
  Option, none, some, ltb, ◌==◌, add_u64, sub_u64, shr,
}

-- The flags of `PageTableFlags` that the code names.
pub data Flag : Type 0 where
  present user_accessible huge_page no_execute : Flag

abbrev pub same_flag : Flag → Flag → Bool
same_flag present present = true
same_flag user_accessible user_accessible = true
same_flag huge_page huge_page = true
same_flag no_execute no_execute = true
same_flag _ _ = false

-- `PageTableEntry` and its flags, as the x86_64 crate documents them: `set_flags` keeps the address,
-- and `a | F` and `a & !F` change the bit of `F` alone.
pub record Paging : Type 1 where
  pub Entry : Type 0
  pub Flags : Type 0
  pub flags : Entry → Flags
  pub addr : Entry → ℕ
  pub set_flags : Entry → Flags → Entry
  pub contains : Flags → Flag → Bool
  pub with_flag : Flags → Flag → Flags
  pub without_flag : Flags → Flag → Flags
  pub flags-set_flags : (e : Entry) (f : Flags) → flags (set_flags e f) ≡ f
  pub addr-set_flags : (e : Entry) (f : Flags) → addr (set_flags e f) ≡ addr e
  pub contains-with_flag :
      (f : Flags) (x y : Flag) → contains (with_flag f x) y ≡ (same_flag x y || contains f y)
  pub contains-without_flag :
      (f : Flags) (x y : Flag)
      → contains (without_flag f x) y ≡ (if same_flag x y then false else contains f y)

abbrev pub page_size : ℕ
page_size = 0x1000

-- `PMO` of acpi.rs.
abbrev pub pmo : ℕ
pmo = 0xFFFF_8000_0000_0000

abbrev phys_to_virt : ℕ → ℕ
phys_to_virt paddr = add_u64 pmo paddr

-- `v & !(PAGE - 1)`
abbrev pub page_floor : ℕ → ℕ
page_floor v = bit_and v (2 ^ 64 - page_size)

-- `((vaddr + len) + PAGE - 1) & !(PAGE - 1)`
abbrev pub range_end : ℕ → ℕ → ℕ
range_end vaddr len = page_floor (sub_u64 (add_u64 (add_u64 vaddr len) page_size) 1)

-- Rounds that suffice for the loops below: a page each.
abbrev pub rounds : ℕ → ℕ → ℕ
rounds start end = (end - start) / page_size + 1

module _ (p : Paging) where
  open p use {Entry, flags, addr, set_flags, contains, with_flag, without_flag}

  -- The entries of all tables, by virtual address.
  abbrev pub Tables : Type 0
  Tables = ℕ → Entry

  -- The address of entry `index` of the table at physical address `table`.
  abbrev pub slot : ℕ → ℕ → ℕ
  slot table index = add_u64 (phys_to_virt table) (8 * index)

  -- `(vaddr >> shift) & 0x1FF`
  abbrev pub level_index : ℕ → ℕ → ℕ
  level_index vaddr shift = bit_and (shr vaddr shift) 0x1FF

  -- `e.set_flags((e.flags() & !NO_EXECUTE) | USER_ACCESSIBLE)`
  abbrev pub open_entry : Entry → Entry
  open_entry e = set_flags e (with_flag (without_flag (flags e) no_execute) user_accessible)

  abbrev pub open_at : ℕ → Tables → Tables
  open_at at mem a = if a == at then open_entry (mem at) else mem a

  abbrev pub is_present : Entry → Bool
  is_present e = contains (flags e) present

  -- `contains(PRESENT | USER_ACCESSIBLE)`
  abbrev pub is_user : Entry → Bool
  is_user e = contains (flags e) present && contains (flags e) user_accessible

  abbrev pub is_huge : Entry → Bool
  is_huge e = contains (flags e) huge_page

  -- The last level of `mark_one_page`.
  abbrev pub mark_pt : ℕ → ℕ → Tables → Tables × Bool
  mark_pt table vaddr mem =
      let pte = slot table (level_index vaddr 12) in
      if is_present (mem pte) then (open_at pte mem, true) else (mem, false)

  abbrev pub mark_pd : ℕ → ℕ → Tables → Tables × Bool
  mark_pd table vaddr mem =
      let pde = slot table (level_index vaddr 21) in
      let mem' = open_at pde mem in
      if is_present (mem pde)
      then if is_huge (mem' pde) then (mem', true) else mark_pt (addr (mem' pde)) vaddr mem'
      else (mem, false)

  abbrev pub mark_pdpt : ℕ → ℕ → Tables → Tables × Bool
  mark_pdpt table vaddr mem =
      let pdpte = slot table (level_index vaddr 30) in
      let mem' = open_at pdpte mem in
      if is_present (mem pdpte)
      then if is_huge (mem' pdpte) then (mem', true) else mark_pd (addr (mem' pdpte)) vaddr mem'
      else (mem, false)

  -- `mark_one_page`, with `root` the address that CR3 holds.
  pub mark_one_page : ℕ → ℕ → Tables → Tables × Bool
  mark_one_page root vaddr mem =
      let pml4e = slot root (level_index vaddr 39) in
      let mem' = open_at pml4e mem in
      if is_present (mem pml4e) then mark_pdpt (addr (mem' pml4e)) vaddr mem' else (mem, false)

  -- `while page < end` of `mark_user_pages`, with `ok` so far; `none` would mean that the fuel, the
  -- third argument, ran out.
  pub mark_pages : ℕ → ℕ → ℕ → ℕ → Bool → Tables → Option (Tables × Bool)
  mark_pages root end zero page ok mem = if ltb page end then none else some (mem, ok)
  mark_pages root end (suc fuel) page ok mem = elim (ltb page end) [
    | false ↦ some (mem, ok)
    | true ↦
        let (mem', done) = mark_one_page root page mem in
        mark_pages root end fuel (add_u64 page page_size) (if done then ok else false) mem'
  ]

  pub mark_user_pages : ℕ → ℕ → ℕ → Tables → Option (Tables × Bool)
  unfolding mark_pages
  mark_user_pages root vaddr len mem =
      let start = page_floor vaddr in
      let end = range_end vaddr len in mark_pages root end (rounds start end) start true mem

  abbrev pub check_pt : ℕ → ℕ → Tables → Bool
  check_pt table vaddr mem = is_user (mem (slot table (level_index vaddr 12)))

  abbrev pub check_pd : ℕ → ℕ → Tables → Bool
  check_pd table vaddr mem =
      let pde = mem (slot table (level_index vaddr 21)) in
      if is_user pde then if is_huge pde then true else check_pt (addr pde) vaddr mem else false

  abbrev pub check_pdpt : ℕ → ℕ → Tables → Bool
  check_pdpt table vaddr mem =
      let pdpte = mem (slot table (level_index vaddr 30)) in
      if is_user pdpte
      then if is_huge pdpte then true else check_pd (addr pdpte) vaddr mem
      else false

  unfoldable pub check_one_page : ℕ → ℕ → Tables → Bool
  check_one_page root vaddr mem =
      let pml4e = mem (slot root (level_index vaddr 39)) in
      if is_user pml4e then check_pdpt (addr pml4e) vaddr mem else false

  -- `while page < end` of `is_user_range`, on fuel.
  pub check_pages : ℕ → ℕ → ℕ → ℕ → Tables → Option Bool
  check_pages root end zero page mem = if ltb page end then none else some true
  check_pages root end (suc fuel) page mem = elim (ltb page end) [
    | false ↦ some true
    | true ↦ elim (check_one_page root page mem) [
      | false ↦ some false
      | true ↦ check_pages root end fuel (add_u64 page page_size) mem
    ]
  ]

  unfoldable pub is_user_range : ℕ → ℕ → ℕ → Tables → Option Bool
  unfolding check_pages
  is_user_range root vaddr len mem =
      let start = page_floor vaddr in
      let end = range_end vaddr len in check_pages root end (rounds start end) start mem
