-- ===== src/Mem/Walk.antt =====
-- One page: what `mark_one_page` does to the tables, and that `check_one_page` then accepts the page
-- (kernel/src/mem.rs). No assumption is made on how the tables lie; they may share entries.
use package.solaros.Prelude.{
  ℕ, ◌≡◌, refl, ap, ◌∙◌, Bool, true, false, ◌&&◌, ◌||◌, if◌then◌else◌, ◌==◌, Bool-cases, ==_iff,
  inl, inr,
}
use solaros.Mem.{
  Paging, Flag, present, user_accessible, huge_page, no_execute, same_flag, Tables, slot,
  level_index, open_entry, open_at, is_present, is_user, is_huge, mark_pt, mark_pd, mark_pdpt,
  mark_one_page, check_pt, check_pd, check_pdpt, check_one_page,
}
use solaros.Mem.Access.{mapped_pt, mapped_level, mapped_pd, mapped_pdpt, mapped_one}

and_left : (a b : Bool) → (a && b) ≡ true → a ≡ true
and_left true b h = refl
and_left false b h = h

false-true : false ≡ true → ⊥
false-true e = cc

module _ (p : Paging) where
  open p use {
    Entry, flags, addr, set_flags, contains, with_flag, without_flag, flags-set_flags,
    addr-set_flags, contains-with_flag, contains-without_flag,
  }

  -- The tables `mem'` have the structure of `mem`, and no entry lost the user bit.
  pub record Opens (mem mem' : Tables p) : Type 0 where
    pub addr_same : (a : ℕ) → addr (mem' a) ≡ addr (mem a)
    pub present_same : (a : ℕ) → is_present p (mem' a) ≡ is_present p (mem a)
    pub huge_same : (a : ℕ) → is_huge p (mem' a) ≡ is_huge p (mem a)
    pub user_kept : (a : ℕ) → is_user p (mem a) ≡ true → is_user p (mem' a) ≡ true

  pub Opens-refl : (mem : Tables p) → Opens mem mem
  Opens-refl mem = record {
    addr_same = λ a. refl;
    present_same = λ a. refl;
    huge_same = λ a. refl;
    user_kept = λ a h. h;
  }

  pub Opens-trans : {a b c : Tables p} → Opens a b → Opens b c → Opens a c
  Opens-trans f g = record {
    addr_same = λ x. g.addr_same x ∙ f.addr_same x;
    present_same = λ x. g.present_same x ∙ f.present_same x;
    huge_same = λ x. g.huge_same x ∙ f.huge_same x;
    user_kept = λ x h. g.user_kept x (f.user_kept x h);
  }

  -- The flags of an opened entry: the user bit is set and the no-execute bit clear.
  contains-open_entry :
      (e : Entry) (f : Flag)
      → contains (flags (open_entry p e)) f ≡ (
          same_flag user_accessible f
          || (if same_flag no_execute f then false else contains (flags e) f))
  contains-open_entry e f =
      ap (λ fs. contains fs f) (flags-set_flags e _)
      ∙ contains-with_flag _ user_accessible f
      ∙ ap (λ b. same_flag user_accessible f || b) (contains-without_flag (flags e) no_execute f)

  present-open_entry : (e : Entry) → is_present p (open_entry p e) ≡ is_present p e
  present-open_entry e = contains-open_entry e present

  huge-open_entry : (e : Entry) → is_huge p (open_entry p e) ≡ is_huge p e
  huge-open_entry e = contains-open_entry e huge_page

  user-open_entry : (e : Entry) → is_present p e ≡ true → is_user p (open_entry p e) ≡ true
  user-open_entry e h = rw (contains-open_entry e present, h, contains-open_entry e user_accessible)

  -- An entry after `open_at` is the opened old one, or the old one.
  open_at_cases :
      (P : Entry → Type 0) (at : ℕ) (mem : Tables p) (a : ℕ)
      → P (open_entry p (mem a))
      → P (mem a)
      → P (open_at p at mem a)
  open_at_cases P at mem a yes_case no_case = elim (Bool-cases (a == at)) [
    | inl e ↦ rw (e, ← (==_iff a at).0 e) yes_case
    | inr e ↦ rw e no_case
  ]

  pub Opens-open_at : (at : ℕ) (mem : Tables p) → Opens mem (open_at p at mem)
  Opens-open_at at mem = record {
    addr_same =
        λ a. open_at_cases (λ e. addr e ≡ addr (mem a)) at mem a (addr-set_flags (mem a) _) refl;
    present_same = λ a.
        open_at_cases (λ e. is_present p e ≡ is_present p (mem a)) at mem a
          (present-open_entry (mem a)) refl;
    huge_same = λ a.
        open_at_cases (λ e. is_huge p e ≡ is_huge p (mem a)) at mem a (huge-open_entry (mem a))
          refl;
    user_kept = λ a h.
        open_at_cases (λ e. is_user p e ≡ true) at mem a (user-open_entry (mem a) (and_left _ _ h))
          h;
  }

  open_at_user :
      (at : ℕ) (mem : Tables p)
      → is_present p (mem at) ≡ true
      → is_user p (open_at p at mem at) ≡ true
  open_at_user at mem h = rw ((==_iff at at).1 refl) (user-open_entry (mem at) h)

  -- The tables only open, and if the walk reports success then the check accepts.
  abbrev pub Marks : Tables p → Tables p × Bool → (Tables p → Bool) → Type 0
  Marks mem r check = Opens mem r.0 × (r.1 ≡ true → check r.0 ≡ true)

  -- A level that may end the walk by a huge page, over the level below it.
  level-Marks :
      (at : ℕ) (mark_next : ℕ → Tables p → Tables p × Bool) (check_next : ℕ → Tables p → Bool)
      → ((table : ℕ) (m : Tables p) → Marks m (mark_next table m) (check_next table))
      → (mem : Tables p)
      → Marks mem
          (if is_present p (mem at)
            then (if is_huge p (open_at p at mem at)
                then (open_at p at mem, true)
                else mark_next (addr (open_at p at mem at)) (open_at p at mem))
            else (mem, false))
          (λ m.
            if is_user p (m at)
            then (if is_huge p (m at) then true else check_next (addr (m at)) m)
            else false)
  level-Marks at mark_next check_next next mem = elim (Bool-cases (is_present p (mem at))) [
    | inr absent ↦ rw absent (Opens-refl mem, λ f. cc)
    | inl there ↦ rw there (elim (Bool-cases (is_huge p (open_at p at mem at))) [
      | inl huge ↦ rw huge (Opens-open_at at mem, λ _. rw (open_at_user at mem there, huge) refl)
      | inr small ↦ rw small (below there small)
    ])
  ]
    where
      mem' : Tables p
      mem' = open_at p at mem

      below :
          is_present p (mem at) ≡ true
          → is_huge p (mem' at) ≡ false
          → Marks mem (mark_next (addr (mem' at)) mem') (λ m.
            if is_user p (m at)
            then (if is_huge p (m at) then true else check_next (addr (m at)) m)
            else false)
      below there small =
          let (opened, accepted) = next (addr (mem' at)) mem' in
          (
            Opens-trans (Opens-open_at at mem) opened,
            λ ok.
                rw
                  (
                    opened.user_kept at (open_at_user at mem there),
                    opened.huge_same at,
                    small,
                    opened.addr_same at,
                  )
                  (accepted ok),
          )

  mark_pt-Marks :
      (vaddr table : ℕ) (mem : Tables p)
      → Marks mem (mark_pt p table vaddr mem) (check_pt p table vaddr)
  mark_pt-Marks vaddr table mem =
      elim (Bool-cases (is_present p (mem (slot p table (level_index p vaddr 12))))) [
        | inl there ↦ rw there (Opens-open_at _ mem, λ _. open_at_user _ mem there)
        | inr absent ↦ rw absent (Opens-refl mem, λ f. cc)
      ]

  mark_pd-Marks :
      (vaddr table : ℕ) (mem : Tables p)
      → Marks mem (mark_pd p table vaddr mem) (check_pd p table vaddr)
  mark_pd-Marks vaddr table mem =
      level-Marks (slot p table (level_index p vaddr 21)) (λ t m. mark_pt p t vaddr m)
        (λ t m. check_pt p t vaddr m) (mark_pt-Marks vaddr) mem

  mark_pdpt-Marks :
      (vaddr table : ℕ) (mem : Tables p)
      → Marks mem (mark_pdpt p table vaddr mem) (check_pdpt p table vaddr)
  mark_pdpt-Marks vaddr table mem =
      level-Marks (slot p table (level_index p vaddr 30)) (λ t m. mark_pd p t vaddr m)
        (λ t m. check_pd p t vaddr m) (mark_pd-Marks vaddr) mem

  -- `mark_one_page` leaves the walk's structure alone and takes the user bit from no entry; if it
  -- returns true, `check_one_page` accepts the page in the tables that it leaves.
  pub mark_one_page-Marks :
      (root vaddr : ℕ) (mem : Tables p)
      → Marks mem (mark_one_page p root vaddr mem) (check_one_page p root vaddr)
  unfolding mark_one_page check_one_page
  mark_one_page-Marks root vaddr mem =
      elim (Bool-cases (is_present p (mem (slot p root (level_index p vaddr 39))))) [
        | inr absent ↦ rw absent (Opens-refl mem, λ f. cc)
        | inl there ↦ rw there (
            let at = slot p root (level_index p vaddr 39) in
            let mem' : Tables p = open_at p at mem in
            let (opened, accepted) = mark_pdpt-Marks vaddr (addr (mem' at)) mem' in
            (
              Opens-trans (Opens-open_at at mem) opened,
              λ ok.
                  rw (opened.user_kept at (open_at_user at mem there), opened.addr_same at)
                    (accepted ok),
            ))
      ]

  level_mono :
      (at : ℕ) (check_next : ℕ → Tables p → Bool) {a b : Tables p}
      → Opens a b
      → ((table : ℕ) → check_next table a ≡ true → check_next table b ≡ true)
      → (if is_user p (a at)
          then (if is_huge p (a at) then true else check_next (addr (a at)) a)
          else false)
        ≡ true
      → (if is_user p (b at)
          then (if is_huge p (b at) then true else check_next (addr (b at)) b)
          else false)
        ≡ true
  level_mono at check_next {a} {b} o next h = elim (Bool-cases (is_user p (a at))) [
    | inr closed ↦ absurd (false-true (rw closed at h))
    | inl open_now ↦
        rw (o.user_kept at open_now, o.huge_same at, o.addr_same at)
          (elim (Bool-cases (is_huge p (a at))) [
            | inl huge ↦ rw huge refl
            | inr small ↦ rw small (next (addr (a at)) (rw (open_now, small) at h))
          ])
  ]

  -- A page that is accepted stays accepted as the tables open further.
  pub check_one_page_mono :
      (root vaddr : ℕ) {a b : Tables p}
      → Opens a b
      → check_one_page p root vaddr a ≡ true
      → check_one_page p root vaddr b ≡ true
  unfolding check_one_page
  check_one_page_mono root vaddr {a} {b} o h =
      elim (Bool-cases (is_user p (a (slot p root (level_index p vaddr 39))))) [
        | inr closed ↦ absurd (false-true (rw closed at h))
        | inl open_now ↦
            rw (o.user_kept _ open_now, o.addr_same _)
              (pdpt (addr (a (slot p root (level_index p vaddr 39)))) (rw open_now at h))
      ]
    where
      pt : (t : ℕ) → check_pt p t vaddr a ≡ true → check_pt p t vaddr b ≡ true
      pt t = o.user_kept _

      pd : (t : ℕ) → check_pd p t vaddr a ≡ true → check_pd p t vaddr b ≡ true
      pd t = level_mono _ (λ t m. check_pt p t vaddr m) o pt

      pdpt : (t : ℕ) → check_pdpt p t vaddr a ≡ true → check_pdpt p t vaddr b ≡ true
      pdpt t = level_mono _ (λ t m. check_pd p t vaddr m) o pd

  -- The walk of `mark_one_page` does not depend on the flags that it sets.
  level_kept :
      (at : ℕ) (next : ℕ → Tables p → Bool) {a b : Tables p}
      → Opens a b
      → ((table : ℕ) → next table b ≡ next table a)
      → mapped_level p at next b ≡ mapped_level p at next a
  level_kept at next o same = rw (o.present_same at, o.huge_same at, o.addr_same at, same) refl

  pdpt_kept :
      (vaddr table : ℕ) {a b : Tables p}
      → Opens a b
      → mapped_pdpt p vaddr table b ≡ mapped_pdpt p vaddr table a
  pdpt_kept vaddr table o =
      level_kept _ (mapped_pd p vaddr) o
        (λ t. level_kept _ (mapped_pt p vaddr) o (λ u. o.present_same _))

  pub mapped_one-kept :
      (root vaddr : ℕ) {a b : Tables p}
      → Opens a b
      → mapped_one p root vaddr b ≡ mapped_one p root vaddr a
  unfolding mapped_one
  mapped_one-kept root vaddr {a} {b} o =
      let at = slot p root (level_index p vaddr 39) in
      rw (o.present_same at, o.addr_same at, pdpt_kept vaddr (addr (a at)) o) refl

  -- A level reports success exactly when its walk goes through.
  level-mapped :
      (at : ℕ) (mark_next : ℕ → Tables p → Tables p × Bool) (next : ℕ → Tables p → Bool)
      → ((table : ℕ) (m : Tables p) → (mark_next table m).1 ≡ next table m)
      → ((table : ℕ) (a b : Tables p) → Opens a b → next table b ≡ next table a)
      → (mem : Tables p)
      → (if is_present p (mem at)
          then (if is_huge p (open_at p at mem at)
              then (open_at p at mem, true)
              else mark_next (addr (open_at p at mem at)) (open_at p at mem))
          else (mem, false)).1
        ≡ mapped_level p at next mem
  level-mapped at mark_next next same kept mem = elim (Bool-cases (is_present p (mem at))) [
    | inr absent ↦ rw absent refl
    | inl there ↦
        let o = Opens-open_at at mem in
        rw (there, o.huge_same at)
          (elim (Bool-cases (is_huge p (mem at))) [
            | inl huge ↦ rw huge refl
            | inr small ↦ rw small (
                same _ _
                ∙ ap (λ t. next t (open_at p at mem)) (o.addr_same at)
                ∙ kept (addr (mem at)) mem (open_at p at mem) o)
          ])
  ]

  mark_pt-mapped :
      (vaddr table : ℕ) (m : Tables p) → (mark_pt p table vaddr m).1 ≡ mapped_pt p vaddr table m
  mark_pt-mapped vaddr table m =
      elim (Bool-cases (is_present p (m (slot p table (level_index p vaddr 12))))) [
        | inl there ↦ rw there refl
        | inr absent ↦ rw absent refl
      ]

  pub mark_one_page-mapped :
      (root vaddr : ℕ) (mem : Tables p)
      → (mark_one_page p root vaddr mem).1 ≡ mapped_one p root vaddr mem
  unfolding mark_one_page mapped_one
  mark_one_page-mapped root vaddr mem =
      let at = slot p root (level_index p vaddr 39) in
      let o = Opens-open_at at mem in
      elim (Bool-cases (is_present p (mem at))) [
        | inr absent ↦ rw absent refl
        | inl there ↦ rw there (
            pdpt (addr (open_at p at mem at)) (open_at p at mem)
            ∙ ap (λ t. mapped_pdpt p vaddr t (open_at p at mem)) (o.addr_same at)
            ∙ pdpt_kept vaddr (addr (mem at)) o)
      ]
    where
      pd : (t : ℕ) (m : Tables p) → (mark_pd p t vaddr m).1 ≡ mapped_pd p vaddr t m
      pd t m =
          level-mapped _ (λ t m. mark_pt p t vaddr m) (mapped_pt p vaddr) (mark_pt-mapped vaddr)
            (λ t a b o. o.present_same _) m

      pdpt : (t : ℕ) (m : Tables p) → (mark_pdpt p t vaddr m).1 ≡ mapped_pdpt p vaddr t m
      pdpt t m =
          level-mapped _ (λ t m. mark_pd p t vaddr m) (mapped_pd p vaddr) pd
            (λ t a b o. level_kept _ (mapped_pt p vaddr) o (λ u. o.present_same _)) m
