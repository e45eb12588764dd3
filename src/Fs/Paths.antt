-- ===== src/Fs/Paths.antt =====
-- The components of a path, and that `pop_comp` takes them one by one (kernel/src/fs.rs).
use package.solaros.Prelude.{
  ℕ, ◌≤◌, ◌<◌, ◌≡◌, refl, sym, ◌∙◌, ap, ap₂, subst, List, [], ◌∷◌, ◌++◌, Option, none, some, length,
  ◌==◌, if◌then◌else◌, arith, false, Bool-cases, inl, inr, append_assoc, append-nil,
}
use solaros.Fs.{strip_slashes, split_comp, comp_of, pop_comp, is_empty}

abbrev flush : List ℕ → List (List ℕ) → List (List ℕ)
flush [] rest = rest
flush (c ∷ comp) rest = (c ∷ comp) ∷ rest

-- The parts between slashes that are not empty, behind what was read of the first one.
abbrev pub components_from : List ℕ → List ℕ → List (List ℕ)
components_from comp [] = flush comp []
components_from comp (c ∷ s) =
    if c == b'/' then flush comp (components_from [] s) else components_from (comp ++ c ∷ []) s

abbrev pub components : List ℕ → List (List ℕ)
components = components_from []

strip_slashes-components : (p : List ℕ) → components (strip_slashes p) ≡ components p
unfolding strip_slashes
strip_slashes-components [] = refl
strip_slashes-components (c ∷ s) = elim (Bool-cases (c == b'/')) [
  | inl slash ↦ rw slash (strip_slashes-components s)
  | inr other ↦ rw other (rw other)
]

length-strip_slashes : (p : List ℕ) → length (strip_slashes p) ≤ length p
unfolding strip_slashes
length-strip_slashes [] = omega arith
length-strip_slashes (c ∷ s) = ground (arith, length-strip_slashes s)

split_comp-components :
    (comp s : List ℕ)
    → components_from comp s ≡ flush (comp ++ (split_comp s).0) (components (split_comp s).1)
unfolding split_comp
split_comp-components comp [] = ap (λ c. flush c []) (sym (append-nil comp))
split_comp-components comp (c ∷ s) = elim (Bool-cases (c == b'/')) [
  | inl slash ↦
      let skip : components (c ∷ s) ≡ components s = rw slash in
      rw slash (ap₂ flush (sym (append-nil comp)) (sym skip))
  | inr other ↦ rw other (
      split_comp-components (comp ++ c ∷ []) s
      ∙ ap (λ l. flush l (components (split_comp s).1))
          (append_assoc comp (c ∷ []) (split_comp s).0))
]

length-split_comp : (s : List ℕ) → length (split_comp s).1 ≤ length s
unfolding split_comp
length-split_comp [] = omega arith
length-split_comp (c ∷ s) = ground (arith, length-split_comp s)

-- What `pop_comp` finds: nothing, when there is no component left, or the first one and the text behind it.
pub data FirstOf (p : List ℕ) : Option (List ℕ × List ℕ) → Type 0 where
  finished : components p ≡ [] → FirstOf p none
  found :
      {comp tail : List ℕ}
      → components p ≡ comp ∷ components tail
      → is_empty comp ≡ false
      → length tail < length p
      → FirstOf p (some (comp, tail))

abbrev StartsPlain : List ℕ → Type 0
StartsPlain [] = Unit
StartsPlain (c ∷ s) = (c == b'/') ≡ false

strip_slashes-StartsPlain : (p : List ℕ) → StartsPlain (strip_slashes p)
unfolding strip_slashes
strip_slashes-StartsPlain [] = tt
strip_slashes-StartsPlain (c ∷ s) = elim (Bool-cases (c == b'/')) [
  | inl slash ↦ rw slash (strip_slashes-StartsPlain s)
  | inr other ↦ rw other other
]

comp_of-FirstOf :
    (p q : List ℕ)
    → components q ≡ components p
    → length q ≤ length p
    → StartsPlain q
    → FirstOf p (comp_of q)
unfolding comp_of split_comp
comp_of-FirstOf p [] same less plain = finished (sym same)
comp_of-FirstOf p (c ∷ s) same less plain =
    let split : split_comp (c ∷ s) ≡ (c ∷ (split_comp s).0, (split_comp s).1) =
      rw (plain, split_comp) in
    subst (λ r. FirstOf p (some r)) (sym split)
      (found
        (sym same
          ∙ split_comp-components [] (c ∷ s)
          ∙ ap (λ (r : List ℕ × List ℕ). flush r.0 (components r.1)) split)
        refl (omega (arith, length-split_comp s)))

pub pop_comp-FirstOf : (p : List ℕ) → FirstOf p (pop_comp p)
unfolding pop_comp
pop_comp-FirstOf p =
    comp_of-FirstOf p (strip_slashes p) (strip_slashes-components p) (length-strip_slashes p)
      (strip_slashes-StartsPlain p)
