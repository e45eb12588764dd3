-- ===== src/Mem/Range.antt =====
-- Ranges of pages: `mark_user_pages` and `is_user_range` of kernel/src/mem.rs.
use package.solaros.Prelude.{
  ℕ, zero, suc, ◌+◌, ◌-◌, ◌*◌, ◌/◌, ◌%◌, ◌^◌, ◌≤◌, ◌<◌, ◌≡◌, ◌↔◌, refl, sym, ap, ◌∙◌, Bool, true,
  false, if◌then◌else◌, ltb, Bool-cases, inl, inr, ◌⊎◌, arith, Option, some, some_inj, add_u64,
  sub_u64, dec_lt,
}
use solaros.Prelude.Bits.{bit_and_mask}
use solaros.Mem.{
  Paging, Tables, page_size, page_floor, range_end, rounds, mark_one_page, mark_pages,
  mark_user_pages, check_one_page, check_pages, is_user_range,
}
use solaros.Mem.Walk.{
  Opens, Opens-refl, Opens-trans, mark_one_page-Marks, check_one_page_mono, mark_one_page-mapped,
  mapped_one-kept,
}
use solaros.Mem.Access.{IsUser, IsMapped, mapped_one, mapped_one-IsMapped, check_one_page-IsUser}

pub page_floor_lem : (v : ℕ) → v < 2 ^ 64 → page_floor v ≡ v / 4096 * 4096
page_floor_lem v h =
    bit_and_mask 64 12 (2 ^ 64 - 4096) v (v / 4096) (v % 4096) (omega arith) h (omega arith)
      (omega arith)

-- Without overflow the range ends at the next page boundary.
pub range_end_lem :
    (vaddr len : ℕ)
    → vaddr + len + 4096 ≤ 2 ^ 64
    → range_end vaddr len ≡ (vaddr + len + 4095) / 4096 * 4096
range_end_lem vaddr len h =
    page_floor_lem (sub_u64 (add_u64 (add_u64 vaddr len) page_size) 1) (omega arith)
    ∙ ap (λ v. v / 4096 * 4096) (omega arith)

range_end_max : (vaddr len : ℕ) → range_end vaddr len + 4096 ≤ 2 ^ 64
range_end_max vaddr len =
    omega (arith, page_floor_lem (sub_u64 (add_u64 (add_u64 vaddr len) page_size) 1) (omega arith))

true-false : true ≡ false → ⊥
true-false e = cc

module _ (p : Paging) (root end : ℕ) (bound : end + 4096 ≤ 2 ^ 64) where
  -- Every page from `page` on, up to `end`, is accepted.
  abbrev AllPages : Tables p → ℕ → Type 0
  AllPages mem page =
      (k : ℕ) → page + k * 4096 < end → check_one_page p root (page + k * 4096) mem ≡ true

  -- Every page from `page` on, up to `end`, is mapped.
  abbrev AllMapped : Tables p → ℕ → Type 0
  AllMapped mem page =
      (k : ℕ) → page + k * 4096 < end → mapped_one p root (page + k * 4096) mem ≡ true

  AllPages-end : (mem : Tables p) (page : ℕ) → end ≤ page → AllPages mem page
  AllPages-end mem page h k l = absurd (omega arith)

  AllPages-cons :
      (mem : Tables p) (page : ℕ)
      → check_one_page p root page mem ≡ true
      → AllPages mem (page + 4096)
      → AllPages mem page
  AllPages-cons mem page first rest zero l =
      ap (λ a. check_one_page p root a mem) (omega arith) ∙ first
  AllPages-cons mem page first rest (suc k) l =
      ap (λ a. check_one_page p root a mem) (omega arith) ∙ rest k (omega arith)

  step : (page : ℕ) → ltb page end ≡ true → add_u64 page page_size ≡ page + 4096
  step page more = ground arith

  -- The loop ends. It says true if every page passes, and false if some page does not.
  Checked : Tables p → ℕ → Option Bool → Type 0
  Checked mem page r =
      (r ≡ some true) × AllPages mem page
      ⊎ (r ≡ some false)
        × ((k : ℕ) × (page + k * 4096 < end)
            × (check_one_page p root (page + k * 4096) mem ≡ false))

  Checked-cons :
      (mem : Tables p) (page : ℕ) (r : Option Bool)
      → check_one_page p root page mem ≡ true
      → Checked mem (page + 4096) r
      → Checked mem page r
  unfolding Checked
  Checked-cons mem page r first (inl (e, rest)) = inl (e, AllPages-cons mem page first rest)
  Checked-cons mem page r first (inr (e, (k, l, bad))) =
      inr (e, (suc k, omega arith, ap (λ a. check_one_page p root a mem) (omega arith) ∙ bad))

  check_pages-Checked :
      (fuel page : ℕ) (mem : Tables p)
      → end ≤ page + fuel * 4096
      → Checked mem page (check_pages p root end fuel page mem)
  unfolding check_pages Checked
  check_pages-Checked zero page mem h = inl (ground arith, AllPages-end mem page (omega arith))
  check_pages-Checked (suc fuel) page mem h = elim (Bool-cases (ltb page end)) [
    | inr over ↦ inl (rw (over, check_pages) refl, AllPages-end mem page (ground arith))
    | inl more ↦ elim (Bool-cases (check_one_page p root page mem)) [
      | inr bad ↦ inr (
        rw (more, bad, check_pages) refl,
        (0, ground arith, ap (λ a. check_one_page p root a mem) (omega arith) ∙ bad),
      )
      | inl good ↦ Checked-cons mem page _ good (
          rw (more, good, step page more, check_pages)
            (check_pages-Checked fuel (page + 4096) mem (omega arith)))
    ]
  ]

  AllPages-accepted :
      (fuel page : ℕ) (mem : Tables p)
      → end ≤ page + fuel * 4096
      → AllPages mem page
      → check_pages p root end fuel page mem ≡ some true
  unfolding Checked
  AllPages-accepted fuel page mem h all = elim (check_pages-Checked fuel page mem h) [
    | inl (e, _) ↦ e
    | inr (e, (k, l, bad)) ↦ absurd (true-false (sym (all k l) ∙ bad))
  ]

  accepted-AllPages :
      (fuel page : ℕ) (mem : Tables p)
      → end ≤ page + fuel * 4096
      → check_pages p root end fuel page mem ≡ some true
      → AllPages mem page
  unfolding Checked
  accepted-AllPages fuel page mem h yes_all = elim (check_pages-Checked fuel page mem h) [
    | inl (_, all) ↦ all
    | inr (e, _) ↦ absurd (true-false (some_inj (sym yes_all ∙ e)))
  ]

  -- The loop ends, the tables only open, and if it says true then every page of the range passes.
  mark_pages_lem :
      (fuel page : ℕ) (ok : Bool) (mem : Tables p)
      → end ≤ page + fuel * 4096
      → (out : Tables p × Bool) × (mark_pages p root end fuel page ok mem ≡ some out)
        × Opens p mem out.0
        × (out.1 ≡ true → (ok ≡ true) × AllPages out.0 page)
        × (ok ≡ true → AllMapped mem page → out.1 ≡ true)
  unfolding mark_pages
  mark_pages_lem zero page ok mem h = (
    (mem, ok),
    ground arith,
    Opens-refl p mem,
    λ e. (e, AllPages-end mem page (omega arith)),
    λ e all. e,
  )
  mark_pages_lem (suc fuel) page ok mem h = elim (Bool-cases (ltb page end)) [
    | inr over ↦ (
      (mem, ok),
      rw (over, mark_pages) refl,
      Opens-refl p mem,
      λ e. (e, AllPages-end mem page (ground arith)),
      λ e all. e,
    )
    | inl more ↦
        let r = mark_one_page p root page mem in
        let first = mark_one_page-Marks p root page mem in
        let rest =
          mark_pages_lem fuel (page + 4096) (if r.1 then ok else false) r.0 (omega arith) in
        (
          rest.0,
          rw (more, step page more, mark_pages) rest.1,
          Opens-trans p first.0 rest.2,
          λ e.
              let both = and_flag r.1 ok (rest.3 e).0 in
              (
                both.1,
                AllPages-cons rest.0.0 page
                    (check_one_page_mono p root page rest.2 (first.1 both.0)) (rest.3 e).1,
              ),
          λ e all.
              let here : r.1 ≡ true =
                mark_one_page-mapped p root page mem
                ∙ ap (λ a. mapped_one p root a mem) (omega arith)
                ∙ all 0 (ground arith) in
              rest.4 (rw here e) (λ k l.
                mapped_one-kept p root (page + 4096 + k * 4096) first.0
                ∙ ap (λ a. mapped_one p root a mem) (omega arith)
                ∙ all (suc k) (omega arith)),
        )
  ]
    where
      and_flag :
          (done ok : Bool) → (if done then ok else false) ≡ true → (done ≡ true) × (ok ≡ true)
      and_flag true ok e = (refl, e)
      and_flag false ok e = cc

-- The check looks at the page of an address only.
check_page_of :
    (p : Paging) (root a b : ℕ) (mem : Tables p)
    → a / 4096 ≡ b / 4096
    → check_one_page p root a mem ≡ check_one_page p root b mem
unfolding check_one_page
check_page_of p root a b mem h = rw (at39, at30, at21, at12) refl
  where
    at39 : a / 2 ^ 39 ≡ b / 2 ^ 39
    at39 = omega arith

    at30 : a / 2 ^ 30 ≡ b / 2 ^ 30
    at30 = omega arith

    at21 : a / 2 ^ 21 ≡ b / 2 ^ 21
    at21 = omega arith

    at12 : a / 2 ^ 12 ≡ b / 2 ^ 12
    at12 = h

rounds_suffice : (start end : ℕ) → end ≤ start + rounds start end * 4096
rounds_suffice start end = omega arith

-- The loop of the check ends.
pub is_user_range_ends :
    (p : Paging) (root vaddr len : ℕ) (mem : Tables p)
    → (b : Bool) × (is_user_range p root vaddr len mem ≡ some b)
unfolding is_user_range Checked
is_user_range_ends p root vaddr len mem =
    let start = page_floor vaddr in
    let end = range_end vaddr len in
    elim (check_pages-Checked p root end (range_end_max vaddr len) (rounds start end) start mem
      (rounds_suffice start end)) [ inl (e, _) ↦ (true, e) | inr (e, _) ↦ (false, e) ]

-- Both loops end, and marking only opens entries. Marking returns true when every page of the range is mapped,
-- and when it returns true, `is_user_range` accepts the range in the tables that it leaves, whatever the tables
-- were.
pub mark_user_pages_lem :
    (p : Paging) (root vaddr len : ℕ) (mem : Tables p)
    → (out : Tables p × Bool) × (b : Bool) × (mark_user_pages p root vaddr len mem ≡ some out)
      × (is_user_range p root vaddr len out.0 ≡ some b)
      × Opens p mem out.0
      × (((k : ℕ)
            → page_floor vaddr + k * 4096 < range_end vaddr len
            → IsMapped p root mem (page_floor vaddr + k * 4096))
          → out.1 ≡ true)
      × (out.1 ≡ true → b ≡ true)
unfolding mark_user_pages is_user_range
mark_user_pages_lem p root vaddr len mem =
    let start = page_floor vaddr in
    let end = range_end vaddr len in
    let bound = range_end_max vaddr len in
    let m =
      mark_pages_lem p root end bound (rounds start end) start true mem
        (rounds_suffice start end) in
    let c = is_user_range_ends p root vaddr len m.0.0 in
    (
      m.0,
      c.0,
      m.1,
      c.1,
      m.2,
      λ all. m.4 refl (λ k l. (mapped_one-IsMapped p root (start + k * 4096) mem).1 (all k l)),
      λ e. some_inj (
          sym c.1
          ∙ AllPages-accepted p root end bound (rounds start end) start m.0.0
              (rounds_suffice start end) (m.3 e).1),
    )

-- For a range that does not reach the last page of the address space, `is_user_range` accepts
-- exactly when `check_one_page` accepts every address of it.
is_user_range-check :
    (p : Paging) (root vaddr len : ℕ) (mem : Tables p)
    → 0 < len
    → vaddr + len + 4096 ≤ 2 ^ 64
    → (is_user_range p root vaddr len mem ≡ some true)
      ↔ ((a : ℕ) → vaddr ≤ a → a < vaddr + len → check_one_page p root a mem ≡ true)
unfolding is_user_range
is_user_range-check p root vaddr len mem pos fits = (sound, complete)
  where
    start : page_floor vaddr ≡ vaddr / 4096 * 4096
    start = page_floor_lem vaddr (omega arith)

    end : range_end vaddr len ≡ (vaddr + len + 4095) / 4096 * 4096
    end = range_end_lem vaddr len fits

    sound :
        is_user_range p root vaddr len mem ≡ some true
        → (a : ℕ) → vaddr ≤ a
        → a < vaddr + len
        → check_one_page p root a mem ≡ true
    sound e a lo hi =
        let all =
          accepted-AllPages p root (range_end vaddr len) (range_end_max vaddr len)
            (rounds (page_floor vaddr) (range_end vaddr len)) (page_floor vaddr) mem
            (rounds_suffice (page_floor vaddr) (range_end vaddr len)) e in
        check_page_of p root a (page_floor vaddr + (a / 4096 - vaddr / 4096) * 4096) mem
          (omega (arith, start))
        ∙ all (a / 4096 - vaddr / 4096) (omega (arith, start, end))

    complete :
        ((a : ℕ) → vaddr ≤ a → a < vaddr + len → check_one_page p root a mem ≡ true)
        → is_user_range p root vaddr len mem ≡ some true
    complete each =
        AllPages-accepted p root (range_end vaddr len) (range_end_max vaddr len)
          (rounds (page_floor vaddr) (range_end vaddr len)) (page_floor vaddr) mem
          (rounds_suffice (page_floor vaddr) (range_end vaddr len))
          λ k l. elim (dec_lt (page_floor vaddr + k * 4096) vaddr) [
            | yes before ↦
                check_page_of p root (page_floor vaddr + k * 4096) vaddr mem (omega (arith, start))
                ∙ each vaddr (omega arith) (omega arith)
            | no after ↦
                each (page_floor vaddr + k * 4096) (omega arith) (omega (arith, start, end))
          ]

-- For a non-empty range that ends at least a page below 2^64: `is_user_range` accepts exactly when every address
-- of the range is the user's, that is, when the walk of the processor for it finds each entry on the way present
-- and open to the user, down to the last level or to a huge page.
pub is_user_range_iff :
    (p : Paging) (root vaddr len : ℕ) (mem : Tables p)
    → 0 < len
    → vaddr + len + 4096 ≤ 2 ^ 64
    → (is_user_range p root vaddr len mem ≡ some true)
      ↔ ((a : ℕ) → vaddr ≤ a → a < vaddr + len → IsUser p root mem a)
is_user_range_iff p root vaddr len mem pos fits =
    let (sound, complete) = is_user_range-check p root vaddr len mem pos fits in
    (
      λ e a low high. (check_one_page-IsUser p root a mem).0 (sound e a low high),
      λ all. complete (λ a low high. (check_one_page-IsUser p root a mem).1 (all a low high)),
    )

-- A range that does reach it is accepted whatever the tables are: the end wraps to an address below
-- the start, and no page is looked at.
pub is_user_range_wraps :
    (p : Paging) (root vaddr len : ℕ) (mem : Tables p)
    → vaddr < 2 ^ 64
    → len ≤ 512
    → 2 ^ 64 < vaddr + len + 4096
    → is_user_range p root vaddr len mem ≡ some true
unfolding is_user_range
is_user_range_wraps p root vaddr len mem h small over =
    let start = page_floor_lem vaddr h in
    let end = page_floor_lem (sub_u64 (add_u64 (add_u64 vaddr len) page_size) 1) (omega arith) in
    AllPages-accepted p root (range_end vaddr len) (range_end_max vaddr len)
      (rounds (page_floor vaddr) (range_end vaddr len)) (page_floor vaddr) mem
      (rounds_suffice (page_floor vaddr) (range_end vaddr len))
      (AllPages-end p root (range_end vaddr len) (range_end_max vaddr len) mem (page_floor vaddr)
        (omega (arith, start, end)))
