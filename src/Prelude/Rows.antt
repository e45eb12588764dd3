-- ===== src/Prelude/Rows.antt =====
-- Lists of lists kept as rows of fixed size with their lengths, and arrays whose places move down by one.
use package.solaros.Prelude.{
  ℕ, zero, suc, ◌<◌, ◌≡◌, refl, ap, List, [], ◌∷◌, length, take, drop, set, get_or, arith, All,
}

module _ {A : Type 0} where
  -- What the rows hold.
  abbrev pub stored : List ℕ → List (List A) → List (List A)
  stored [] ps = []
  stored (l ∷ ls) [] = []
  stored (l ∷ ls) (p ∷ ps) = take l p ∷ stored ls ps

  pub stored-set :
      (i l : ℕ) (p : List A) (ls : List ℕ) (ps : List (List A))
      → stored (set ls i l) (set ps i p) ≡ set (stored ls ps) i (take l p)
  stored-set i l p [] ps = refl
  stored-set zero l p (m ∷ ls) [] = refl
  stored-set (suc i) l p (m ∷ ls) [] = refl
  stored-set zero l p (m ∷ ls) (q ∷ ps) = refl
  stored-set (suc i) l p (m ∷ ls) (q ∷ ps) = ap (◌∷◌ (take m q)) (stored-set i l p ls ps)

  pub length-stored :
      (ls : List ℕ) (ps : List (List A)) → length ls ≡ length ps → length (stored ls ps) ≡ length ls
  length-stored [] ps e = refl
  length-stored (m ∷ ls) [] e = absurd (omega arith)
  length-stored (m ∷ ls) (q ∷ ps) e = ap suc (length-stored ls ps (omega arith))

  pub take-stored :
      (n : ℕ) (ls : List ℕ) (ps : List (List A))
      → take n (stored ls ps) ≡ stored (take n ls) (take n ps)
  take-stored zero ls ps = refl
  take-stored (suc n) [] ps = refl
  take-stored (suc n) (l ∷ ls) [] = refl
  take-stored (suc n) (l ∷ ls) (p ∷ ps) = ap (◌∷◌ (take l p)) (take-stored n ls ps)

  pub get_or-stored :
      (ls : List ℕ) (ps : List (List A)) (i : ℕ)
      → length ls ≡ length ps
      → i < length ls
      → get_or (stored ls ps) i [] ≡ take (get_or ls i 0) (get_or ps i [])
  get_or-stored [] ps i e h = elim h [ ]
  get_or-stored (l ∷ ls) [] i e h = absurd (omega arith)
  get_or-stored (l ∷ ls) (p ∷ ps) zero e h = refl
  get_or-stored (l ∷ ls) (p ∷ ps) (suc i) e h = get_or-stored ls ps i (omega arith) (omega arith)

module _ {ℓ} {A : Type ℓ} where
  pub get_or-All :
      (P : A → Type 0) (xs : List A) (i : ℕ) (d : A) → All P xs → i < length xs → P (get_or xs i d)
  get_or-All P [] i d all h = elim h [ ]
  get_or-All P (x ∷ xs) zero d all h = all.0
  get_or-All P (x ∷ xs) (suc i) d all h = get_or-All P xs i d all.1 (omega arith)

  pub set-All : (P : A → Type 0) (xs : List A) (i : ℕ) (v : A) → P v → All P xs → All P (set xs i v)
  set-All P [] i v h all = tt
  set-All P (x ∷ xs) zero v h all = (h, all.1)
  set-All P (x ∷ xs) (suc i) v h all = (all.0, set-All P xs i v h all.1)

  pub take-All : (P : A → Type 0) (n : ℕ) (xs : List A) → All P xs → All P (take n xs)
  take-All P zero xs all = tt
  take-All P (suc n) [] all = tt
  take-All P (suc n) (x ∷ xs) all = (all.0, take-All P n xs all.1)

  pub drop-All : (P : A → Type 0) (n : ℕ) (xs : List A) → All P xs → All P (drop n xs)
  drop-All P zero xs all = all
  drop-All P (suc n) [] all = tt
  drop-All P (suc n) (x ∷ xs) all = drop-All P n xs all.1
