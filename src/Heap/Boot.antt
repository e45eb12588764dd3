-- ===== src/Heap/Boot.antt =====
-- The region of physical memory that the heap is given at boot (`init` of kernel/src/heap.rs).
use package.solaros.Prelude.{
  subst, sym, ap, ltb→lt, ℕ, ◌+◌, ◌-◌, ◌≤◌, ◌<◌, ◌≡◌, refl, List, [], ◌∷◌, All, arith, sub_u64, ltb,
  ◌&&◌, Bool, true, false, Option, none, some, if◌then◌else◌, ◌∈◌, Bool-cases, inl, inr, ◌⊎◌,
  All-map,
}
use solaros.Heap.{Heap, init}

-- `heap_bytes` is 16 MB.
abbrev pub heap_bytes : ℕ
heap_bytes = 16777216

-- A region of the boot information, and whether its kind is `Usable`.
pub record Region : Type 0 where
  pub start : ℕ
  pub end : ℕ
  pub usable : Bool

abbrev pub region_len : Region → ℕ
region_len r = sub_u64 r.end r.start

-- The loop over the regions: the start and the length of the longest usable one so far.
pub best_region : List Region → ℕ → ℕ → ℕ × ℕ
best_region [] start len = (start, len)
best_region (r ∷ rs) start len =
    let better = r.usable && ltb len (region_len r) in
    best_region rs (if better then r.start else start) (if better then region_len r else len)

-- `init`: no heap when no usable region is long enough, or the heap in the last 16 MB of the longest.
pub boot : List Region → Heap → Option Heap
unfolding best_region
boot regions h =
    let (start, len) = best_region regions 0 0 in
    if ltb len heap_bytes then none else some (init (start + len - heap_bytes) heap_bytes h)

-- The start value, or a usable region of the list, such that no usable one is longer.
abbrev Best : List Region → ℕ → ℕ → ℕ × ℕ → Type 0
Best rs start len best =
    ((best ≡ (start, len))
      ⊎ ((r : Region) × (r ∈ rs) × (r.usable ≡ true) × (best ≡ (r.start, region_len r))))
    × (len ≤ best.1)
    × All (λ r. r.usable ≡ true → region_len r ≤ best.1) rs

module _ (r : Region) (rs : List Region) (start len : ℕ) where
  best_region_better :
      (r.usable && ltb len (region_len r)) ≡ true
      → best_region (r ∷ rs) start len ≡ best_region rs r.start (region_len r)
  unfolding best_region
  best_region_better e = rw e

  best_region_worse :
      (r.usable && ltb len (region_len r)) ≡ false
      → best_region (r ∷ rs) start len ≡ best_region rs start len
  unfolding best_region
  best_region_worse e = rw e

best_region-Best : (rs : List Region) (start len : ℕ) → Best rs start len (best_region rs start len)
unfolding best_region
best_region-Best [] start len = (inl refl, omega arith, tt)
best_region-Best (r ∷ rs) start len = elim (Bool-cases (r.usable && ltb len (region_len r))) [
  | inl better ↦
      subst (Best (r ∷ rs) start len) (sym (best_region_better r rs start len better))
        (longer better (best_region-Best rs r.start (region_len r)))
  | inr worse ↦
      subst (Best (r ∷ rs) start len) (sym (best_region_worse r rs start len worse))
        (shorter worse (best_region-Best rs start len))
]
  where
    longer :
        {best : ℕ × ℕ}
        → (r.usable && ltb len (region_len r)) ≡ true
        → Best rs r.start (region_len r) best
        → Best (r ∷ rs) start len best
    longer t (inl e, low, all) = (inr (r, inl refl, ground arith, e), ground arith, (λ u. low, all))
    longer t (inr (s, m, u, e), low, all) = (inr (s, inr m, u, e), ground arith, (λ u. low, all))

    shorter :
        {best : ℕ × ℕ}
        → (r.usable && ltb len (region_len r)) ≡ false
        → Best rs start len best
        → Best (r ∷ rs) start len best
    shorter t (inl e, low, all) = (inl e, low, (λ u. ground arith, all))
    shorter t (inr (s, m, u, e), low, all) = (inr (s, inr m, u, e), low, (λ u. ground arith, all))

-- No usable region has 16 MB, and there is no heap; or the heap is the end of the longest usable one.
pub data Booted (regions : List Region) (h : Heap) : Option Heap → Type 0 where
  no_room : All (λ r. r.usable ≡ true → region_len r < heap_bytes) regions → Booted regions h none
  heap_in :
      (r : Region)
      → r ∈ regions
      → r.usable ≡ true
      → heap_bytes ≤ region_len r
      → All (λ s. s.usable ≡ true → region_len s ≤ region_len r) regions
      → Booted regions h (some (init (r.start + region_len r - heap_bytes) heap_bytes h))

Best-Booted :
    (regions : List Region) (h : Heap) (best : ℕ × ℕ)
    → Best regions 0 0 best
    → Booted regions h (
        if ltb best.1 heap_bytes
        then none
        else some (init (best.0 + best.1 - heap_bytes) heap_bytes h))
Best-Booted regions h best b = elim (Bool-cases (ltb best.1 heap_bytes)) [
  | inl small ↦ rw small (
      no_room (
        All-map {P = λ r. r.usable ≡ true → region_len r ≤ best.1}
          (λ r low u. omega (arith, low u, ltb→lt best.1 heap_bytes small)) regions b.2))
  | inr large ↦ rw large (found large b.0)
]
  where
    found :
        ltb best.1 heap_bytes ≡ false
        → (best ≡ (0, 0))
          ⊎ ((r : Region) × (r ∈ regions) × (r.usable ≡ true) × (best ≡ (r.start, region_len r)))
        → Booted regions h (some (init (best.0 + best.1 - heap_bytes) heap_bytes h))
    found large (inl e) =
        let none_yet : best.1 ≡ 0 = ap (λ (p : ℕ × ℕ). p.1) e in absurd (ground arith)
    found large (inr (r, m, u, e)) =
        let len : best.1 ≡ region_len r = ap (λ (p : ℕ × ℕ). p.1) e in
        let room : heap_bytes ≤ best.1 = ground arith in
        subst (λ (p : ℕ × ℕ). Booted regions h (some (init (p.0 + p.1 - heap_bytes) heap_bytes h)))
          (sym e)
          (heap_in r m u (omega arith) (
            All-map {P = λ s. s.usable ≡ true → region_len s ≤ best.1}
              (λ s low v. omega (arith, low v)) regions b.2))

-- `boot` gives the heap the last 16 MB of the longest usable region, or fails when none has 16 MB.
pub boot-Booted : (regions : List Region) (h : Heap) → Booted regions h (boot regions h)
unfolding boot
boot-Booted regions h =
    Best-Booted regions h (best_region regions 0 0) (best_region-Best regions 0 0)
