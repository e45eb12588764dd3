-- ===== src/Mem/Tests.antt =====
-- A page-table interface that meets `Paging`, and the theorems on ranges at small tables.
use package.solaros.Prelude.{
  ℕ, ◌+◌, ◌*◌, ◌<◌, ◌≤◌, ◌≡◌, ◌↔◌, refl, Bool, true, false, ◌||◌, if◌then◌else◌, some, arith,
}
use solaros.Mem.{
  Paging, Flag, present, user_accessible, huge_page, no_execute, same_flag, Tables, check_one_page,
  mark_user_pages, is_user_range, page_floor, range_end,
}
use solaros.Mem.Access.{IsUser, IsMapped}
use solaros.Mem.Walk.{Opens}
use solaros.Mem.Range.{is_user_range_iff, mark_user_pages_lem, is_user_range_wraps}

pub record Bits : Type 0 where
  pub p : Bool
  pub u : Bool
  pub h : Bool
  pub nx : Bool

pub record TestEntry : Type 0 where
  pub base : ℕ
  pub bits : Bits

abbrev pub has : Bits → Flag → Bool
has f present = f.p
has f user_accessible = f.u
has f huge_page = f.h
has f no_execute = f.nx

abbrev pub put : Bool → Bits → Flag → Bits
put b f present = record f { p = b }
put b f user_accessible = record f { u = b }
put b f huge_page = record f { h = b }
put b f no_execute = record f { nx = b }

pub has-put-true : (f : Bits) (x y : Flag) → has (put true f x) y ≡ (same_flag x y || has f y)
has-put-true f x y = ground arith

pub has-put-false :
    (f : Bits) (x y : Flag) → has (put false f x) y ≡ (if same_flag x y then false else has f y)
has-put-false f x y = ground arith

abbrev pub paging : Paging
paging = record {
  Entry = TestEntry;
  Flags = Bits;
  flags = λ e. e.bits;
  addr = λ e. e.base;
  set_flags = λ e f. record e { bits = f };
  contains = has;
  with_flag = put true;
  without_flag = put false;
  flags-set_flags = λ e f. refl;
  addr-set_flags = λ e f. refl;
  contains-with_flag = has-put-true;
  contains-without_flag = has-put-false;
}

-- Every entry is present and points back to the table at 0.
abbrev tables : Tables paging
tables = λ a. record { base = 0; bits = record { p = true; u = false; h = false; nx = true } }

is_user_range_iff_example :
    (is_user_range paging 0 0x2345 16 tables ≡ some true)
    ↔ ((a : ℕ) → 0x2345 ≤ a → a < 0x2345 + 16 → IsUser paging 0 tables a)
is_user_range_iff_example = is_user_range_iff paging 0 0x2345 16 tables (omega arith) (omega arith)

mark_user_pages_lem_example :
    (out : Tables paging × Bool) × (b : Bool) × (mark_user_pages paging 0 0x2345 16 tables
      ≡ some out)
    × (is_user_range paging 0 0x2345 16 out.0 ≡ some b)
    × Opens paging tables out.0
    × (((k : ℕ)
          → page_floor 0x2345 + k * 4096 < range_end 0x2345 16
          → IsMapped paging 0 tables (page_floor 0x2345 + k * 4096))
        → out.1 ≡ true)
    × (out.1 ≡ true → b ≡ true)
mark_user_pages_lem_example = mark_user_pages_lem paging 0 0x2345 16 tables

-- The last 256 bytes of the address space, which no page maps for the user.
is_user_range_wraps_example : is_user_range paging 0 0xFFFF_FFFF_FFFF_FF00 256 tables ≡ some true
is_user_range_wraps_example =
    is_user_range_wraps paging 0 0xFFFF_FFFF_FFFF_FF00 256 tables (omega arith) (omega arith)
      (omega arith)

nothing_is_user : check_one_page paging 0 0xFFFF_FFFF_FFFF_FF00 tables ≡ false
unfolding check_one_page
nothing_is_user = refl
