-- ===== src/Shell/History/Lines.antt =====
-- The lines of the history, its newest one, and the row that is written (user/src/main.rs).
use package.solaros.Prelude.{
  ℕ, zero, suc, ◌+◌, ◌-◌, ◌≤◌, ◌<◌, ◌≡◌, refl, sym, ◌∙◌, ap, Bool, true, ◌&&◌, List, [], ◌∷◌, ◌++◌,
  length, length-append, length-set, length-take, length-drop, take, drop, set, get_or, take-length,
  take-set, take-le, get_or-take, ltb→lt, lt→ltb, leb→le, All, arith, ltb, leb, ◌==◌, ==_iff,
  Bool-cases, inl, inr, min,
}
use package.solaros.Prelude.Rows.{
  stored, stored-set, length-stored, get_or-stored, get_or-All, set-All,
}
use solaros.Shell.{
  Hist, hist_cap, hist_len_cap, same_chars, is_newest_line, shift_down, put_row, put_line,
}

abbrev pub IsRow : List ℕ → Type 0
IsRow row = length row ≡ hist_len_cap

pub record IsHist (h : Hist) : Type 0 where
  pub rows : length h.rows ≡ hist_cap
  pub lens : length h.lens ≡ hist_cap
  pub row : All IsRow h.rows
  pub fits : All (λ l. l ≤ hist_len_cap) h.lens
  pub count : h.count ≤ hist_cap

-- The lines of the history, from the oldest on.
abbrev pub lines : Hist → List (List ℕ)
lines h = take h.count (stored h.lens h.rows)

-- The line is the newest of the lines.
abbrev pub IsNewest : List ℕ → List (List ℕ) → Type 0
IsNewest line ls = (0 < length ls) × (get_or ls (length ls - 1) [] ≡ line)

-- What pushing a line makes of the lines: nothing when it is the newest, and else it is added, cut to 64
-- chars, and the oldest of 50 lines is dropped.
pub data Pushed (line : List ℕ) : List (List ℕ) → List (List ℕ) → Type 0 where
  repeated : {ls : List (List ℕ)} → IsNewest line ls → Pushed line ls ls
  added :
      {ls : List (List ℕ)}
      → (IsNewest line ls → ⊥)
      → length ls < hist_cap
      → Pushed line ls (ls ++ take hist_len_cap line ∷ [])
  dropped :
      {oldest : List ℕ} {ls : List (List ℕ)}
      → (IsNewest line (oldest ∷ ls) → ⊥)
      → length (oldest ∷ ls) ≡ hist_cap
      → Pushed line (oldest ∷ ls) (ls ++ take hist_len_cap line ∷ [])

module _ {ℓ} {A : Type ℓ} (d : A) where
  shift_down-cons :
      (n i : ℕ) (x : A) (xs : List A) → shift_down d n (suc i) (x ∷ xs) ≡ x ∷ shift_down d n i xs
  unfolding shift_down
  shift_down-cons zero i x xs = refl
  shift_down-cons (suc n) i x xs =
      ap (λ k. shift_down d n k (set (x ∷ xs) (suc i) (get_or (x ∷ xs) k d))) {x = suc i + 1}
        {y = suc (i + 1)} (omega arith)
      ∙ shift_down-cons n (i + 1) x (set xs i (get_or xs (i + 1) d))

  -- The first places take what stood behind them, and the others stay.
  pub shift_down-eq :
      (n : ℕ) (x : A) (xs : List A)
      → n ≤ length xs
      → shift_down d n 0 (x ∷ xs) ≡ take n xs ++ drop n (x ∷ xs)
  unfolding shift_down
  shift_down-eq zero x xs h = refl
  shift_down-eq (suc n) x [] h = elim h [ ]
  shift_down-eq (suc n) x (y ∷ ys) h =
      shift_down-cons n 0 y (y ∷ ys) ∙ ap (◌∷◌ y) (shift_down-eq n y ys (omega arith))

same_chars_sound : (a b : List ℕ) → same_chars a b ≡ true → a ≡ b
same_chars_sound [] [] h = refl
same_chars_sound [] (y ∷ b) h = cc
same_chars_sound (x ∷ a) [] h = cc
same_chars_sound (x ∷ a) (y ∷ b) h = ground (arith, same_chars_sound a b)

same_chars_refl : (a : List ℕ) → same_chars a a ≡ true
same_chars_refl [] = refl
same_chars_refl (x ∷ a) = ground (arith, same_chars_refl a)

and_true : (a b c : Bool) → (a && b && c) ≡ true → (a ≡ true) × (b ≡ true) × (c ≡ true)
and_true a b c h = ground arith

all_true : (a b c : Bool) → a ≡ true → b ≡ true → c ≡ true → (a && b && c) ≡ true
all_true a b c p q r = ground arith

module _ (line : List ℕ) (h : Hist) (is : IsHist h) where
  pub length-lines : length (lines h) ≡ h.count
  length-lines = omega (
    arith,
    length-take h.count (stored h.lens h.rows),
    length-stored h.lens h.rows (is.lens ∙ sym is.rows),
    is.lens,
    is.count,
  )

  -- The newest line is as long as its length says.
  newest_line :
      0 < h.count
      → get_or (lines h) (length (lines h) - 1) []
        ≡ take (get_or h.lens (h.count - 1) 0) (get_or h.rows (h.count - 1) [])
  newest_line some_line =
      let at = h.count - 1 in
      ap (λ k. get_or (lines h) k []) {y = at} (omega (arith, length-lines))
      ∙ get_or-take h.count (stored h.lens h.rows) at [] (omega arith)
      ∙ get_or-stored h.lens h.rows at (is.lens ∙ sym is.rows) (omega (arith, is.lens, is.count))

  length_newest :
      0 < h.count
      → length (get_or (lines h) (length (lines h) - 1) []) ≡ get_or h.lens (h.count - 1) 0
  length_newest some_line =
      let at = h.count - 1 in
      let small =
        get_or-All (λ l. l ≤ hist_len_cap) h.lens at 0 is.fits (omega (arith, is.lens, is.count)) in
      let wide = get_or-All IsRow h.rows at [] is.row (omega (arith, is.rows, is.count)) in
      ap length (newest_line some_line)
      ∙ omega (arith, length-take (get_or h.lens at 0) (get_or h.rows at []), small, wide)

  pub is_newest_line-IsNewest : is_newest_line line h ≡ true → IsNewest line (lines h)
  is_newest_line-IsNewest e =
      let (some_test, len_test, char_test) =
        and_true (ltb 0 h.count) (get_or h.lens (h.count - 1) 0 == length line)
          (same_chars (take (length line) (get_or h.rows (h.count - 1) [])) line) e in
      let some_line = ltb→lt 0 h.count some_test in
      let len = (==_iff (get_or h.lens (h.count - 1) 0) (length line)).0 len_test in
      (
        omega (arith, length-lines),
        newest_line some_line
            ∙ ap (λ n. take n (get_or h.rows (h.count - 1) [])) len
            ∙ same_chars_sound (take (length line) (get_or h.rows (h.count - 1) [])) line char_test,
      )

  pub is_newest_line_if : IsNewest line (lines h) → is_newest_line line h ≡ true
  is_newest_line_if n =
      let some_line : 0 < h.count = omega (arith, length-lines, n.0) in
      let len : get_or h.lens (h.count - 1) 0 ≡ length line =
        sym (length_newest some_line) ∙ ap length n.1 in
      let chars : take (length line) (get_or h.rows (h.count - 1) []) ≡ line =
        ap (λ k. take k (get_or h.rows (h.count - 1) [])) (sym len)
        ∙ sym (newest_line some_line)
        ∙ n.1 in
      all_true (ltb 0 h.count) (get_or h.lens (h.count - 1) 0 == length line)
        (same_chars (take (length line) (get_or h.rows (h.count - 1) [])) line)
        (lt→ltb 0 h.count some_line) ((==_iff (get_or h.lens (h.count - 1) 0) (length line)).1 len)
        (ap (λ x. same_chars x line) chars ∙ same_chars_refl line)

  put_row-row : (row : List ℕ) → IsRow row → IsRow (put_row line row)
  put_row-row row w =
      let n = min (length line) hist_len_cap in
      omega
        (arith, length-append (take n line) (drop n row), length-take n line, length-drop n row, w)

  -- What the row of a line holds.
  take-put_row :
      (row : List ℕ)
      → take (min (length line) hist_len_cap) (put_row line row) ≡ take hist_len_cap line
  take-put_row row =
      let n = min (length line) hist_len_cap in
      let len : length (take n line) ≡ n = omega (arith, length-take n line) in
      ap (λ k. take k (put_row line row)) (sym len)
      ∙ take-length (take n line) (drop n row)
      ∙ cut_line line
    where
      cut_line : (l : List ℕ) → take (min (length l) hist_len_cap) l ≡ take hist_len_cap l
      cut_line l = elim (Bool-cases (leb (length l) hist_len_cap)) [
        | inl short ↦
            let le = leb→le (length l) hist_len_cap short in
            ap (λ k. take k l) {y = length l} (omega arith)
            ∙ take-le (length l) l (omega arith)
            ∙ sym (take-le hist_len_cap l le)
        | inr long ↦ ap (λ k. take k l) {y = hist_len_cap} (ground arith)
      ]

  module _ (room : h.count < hist_cap) where
    pub put_line-IsHist : IsHist (put_line line h)
    put_line-IsHist = record {
      rows = length-set h.rows h.count (put_row line (get_or h.rows h.count [])) ∙ is.rows;
      lens = length-set h.lens h.count (min (length line) hist_len_cap) ∙ is.lens;
      row =
          set-All IsRow h.rows h.count (put_row line (get_or h.rows h.count []))
            (put_row-row (get_or h.rows h.count [])
              (get_or-All IsRow h.rows h.count [] is.row (omega (arith, is.rows))))
            is.row;
      fits =
          set-All (λ l. l ≤ hist_len_cap) h.lens h.count (min (length line) hist_len_cap)
            (omega arith) is.fits;
      count = omega arith;
    }

    pub lines-put_line : lines (put_line line h) ≡ lines h ++ take hist_len_cap line ∷ []
    lines-put_line =
        let row = put_row line (get_or h.rows h.count []) in
        ap (take (h.count + 1))
          (stored-set h.count (min (length line) hist_len_cap) row h.lens h.rows)
        ∙ ap
            (λ k.
              take k
                (set (stored h.lens h.rows) h.count (take (min (length line) hist_len_cap) row)))
            {y = suc h.count} (omega arith)
        ∙ take-set (stored h.lens h.rows) h.count (take (min (length line) hist_len_cap) row)
            (omega (arith, length-stored h.lens h.rows (is.lens ∙ sym is.rows), is.lens))
        ∙ ap (λ (x : List ℕ). lines h ++ x ∷ []) (take-put_row (get_or h.rows h.count []))

-- The places before the last hold what stood behind them, and the others what they held.
