-- ===== src/Shell/Words/Slices.antt =====
-- The eight arguments in the one array of `parse_args` (user/src/main.rs).
use package.solaros.Prelude.{
  ℕ, zero, suc, ◌+◌, ◌*◌, ◌≤◌, ◌<◌, ◌≡◌, refl, ◌∙◌, ap, ap₂, List, [], ◌∷◌, ◌++◌, length,
  length-take, length-set, length-drop, take, drop, set, get_or, take-set, take-set_behind,
  drop-set_before, drop-set, drop-drop, All, arith,
}
use solaros.Shell.{max_arg_len}

-- Each argument has 64 places, of which its length are in use.
abbrev pub slices : List ℕ → List ℕ → List (List ℕ)
slices [] a = []
slices (l ∷ ls) a = take l a ∷ slices ls (drop max_arg_len a)

-- The arrays have their sizes, and no argument is longer than its places.
pub record IsParse (ls a : List ℕ) : Type 0 where
  pub places : max_arg_len * length ls ≤ length a
  pub fits : All (λ l. l ≤ max_arg_len) ls

abbrev pub IsParse_rest :
    (l : ℕ) (ls a : List ℕ) → IsParse (l ∷ ls) a → IsParse ls (drop max_arg_len a)
IsParse_rest l ls a is = record {
  places = omega (arith, is.places, length-drop max_arg_len a);
  fits = is.fits.1;
}

pub length-slices : (ls a : List ℕ) → length (slices ls a) ≡ length ls
length-slices [] a = refl
length-slices (l ∷ ls) a = ap suc (length-slices ls (drop max_arg_len a))

pub get_or-slices :
    (ls a : List ℕ) (i : ℕ)
    → i < length ls
    → get_or (slices ls a) i [] ≡ take (get_or ls i 0) (drop (i * max_arg_len) a)
get_or-slices [] a i h = elim h [ ]
get_or-slices (l ∷ ls) a zero h = refl
get_or-slices (l ∷ ls) a (suc i) h =
    get_or-slices ls (drop max_arg_len a) i (omega arith)
    ∙ ap (take (get_or ls i 0))
        (drop-drop (i * max_arg_len) max_arg_len a ∙ ap (λ k. drop k a) (omega arith))

-- The length that is stored for an argument.
pub length-slice :
    (ls a : List ℕ) (i : ℕ) → IsParse ls a → length (get_or (slices ls a) i []) ≡ get_or ls i 0
length-slice [] a i is = refl
length-slice (l ∷ ls) a zero is = omega (arith, length-take l a, is.places, is.fits)
length-slice (l ∷ ls) a (suc i) is = length-slice ls (drop max_arg_len a) i (IsParse_rest l ls a is)

-- A char that is put behind an argument is added to it alone.
pub slices-set :
    (ls a : List ℕ) (i c : ℕ)
    → IsParse ls a
    → i < length ls
    → get_or ls i 0 < max_arg_len
    → slices (set ls i (get_or ls i 0 + 1)) (set a (i * max_arg_len + get_or ls i 0) c)
      ≡ set (slices ls a) i (get_or (slices ls a) i [] ++ c ∷ [])
slices-set [] a i c is h room = elim h [ ]
slices-set (l ∷ ls) a zero c is h room =
    let fits = length-drop max_arg_len a in
    ap₂ (λ (x : List ℕ) (r : List (List ℕ)). x ∷ r)
      (ap (λ n. take n (set a (0 * max_arg_len + l) c)) {y = suc l} (omega arith)
        ∙ ap (λ j. take (suc l) (set a j c)) {y = l} (omega arith)
        ∙ take-set a l c (omega (arith, is.places)))
      (ap (slices ls) (drop-set_before max_arg_len (0 * max_arg_len + l) a c (omega (arith, room))))
slices-set (l ∷ ls) a (suc i) c is h room =
    let at = i * max_arg_len + get_or ls i 0 in
    ap₂ (λ (x : List ℕ) (r : List (List ℕ)). x ∷ r)
      (take-set_behind l (suc i * max_arg_len + get_or ls i 0) a c (omega (arith, is.fits.0)))
      (ap (λ b. slices (set ls i (get_or ls i 0 + 1)) b)
          (ap (λ k. drop max_arg_len (set a k c)) {y = max_arg_len + at} (omega arith)
            ∙ drop-set max_arg_len at a c)
        ∙ slices-set ls (drop max_arg_len a) i c (IsParse_rest l ls a is) (omega arith) room)

pub set-IsParse :
    (ls a : List ℕ) (i k v c : ℕ)
    → IsParse ls a
    → v ≤ max_arg_len
    → IsParse (set ls i v) (set a k c)
set-IsParse ls a i k v c is h = record {
  places = omega (arith, is.places, length-set ls i v, length-set a k c);
  fits = still ls i is.fits;
}
  where
    still :
        (ls : List ℕ) (i : ℕ)
        → All (λ l. l ≤ max_arg_len) ls
        → All (λ l. l ≤ max_arg_len) (set ls i v)
    still [] i f = tt
    still (l ∷ ls) zero f = (h, f.1)
    still (l ∷ ls) (suc i) f = (f.0, still ls i f.1)
