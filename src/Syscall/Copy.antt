-- ===== src/Syscall/Copy.antt =====
-- Bytes that are copied into memory (kernel/src/syscall.rs).
use package.solaros.Prelude.{
  ℕ, zero, suc, ◌+◌, ◌≤◌, ◌<◌, ◌≡◌, ◌⊎◌, inl, refl, ◌∙◌, ap, List, [], ◌∷◌, length, get_or, arith,
  if◌then◌else◌, ◌==◌,
}
use solaros.Syscall.{copy_in}

pub copy_in-outside :
    (bs : List ℕ) (at : ℕ) (bytes : ℕ → ℕ) (a : ℕ)
    → (a < at) ⊎ (at + length bs ≤ a)
    → copy_in bs at bytes a ≡ bytes a
unfolding copy_in
copy_in-outside [] at bytes a h = refl
copy_in-outside (b ∷ bs) at bytes a h =
    copy_in-outside bs (at + 1) (λ x. if x == at then b else bytes x) a (ground arith)
    ∙ ground arith

pub copy_in-inside :
    (bs : List ℕ) (at : ℕ) (mem : ℕ → ℕ) (k : ℕ)
    → k < length bs
    → copy_in bs at mem (at + k) ≡ get_or bs k 0
unfolding copy_in
copy_in-inside [] at mem k h = absurd (omega arith)
copy_in-inside (b ∷ bs) at mem zero h =
    copy_in-outside bs (at + 1) (λ x. if x == at then b else mem x) (at + 0) (inl (omega arith))
    ∙ ground arith
copy_in-inside (b ∷ bs) at mem (suc k) h =
    ap (copy_in bs (at + 1) (λ x. if x == at then b else mem x)) (omega arith)
    ∙ copy_in-inside bs (at + 1) (λ x. if x == at then b else mem x) k (omega arith)
