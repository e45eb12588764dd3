-- ===== src/Shell/History.antt =====
-- The history of the user shell: `history_push` (user/src/main.rs).
pub mod Lines
use package.solaros.Prelude.{
  ℕ, zero, suc, ◌+◌, ◌-◌, ◌≤◌, ◌<◌, ◌≡◌, refl, sym, subst, ◌∙◌, ap, ap₂, Bool, true, false, ◌&&◌,
  List, [], ◌∷◌, ◌++◌, length, length-append, length-set, length-take, length-drop, take, drop, set,
  get_or, take-length, take-set, take-le, get_or-take, ltb→lt, lt→ltb, leb→le, All, All-append,
  arith, ltb, leb, ◌==◌, ==_iff, Bool-cases, inl, inr, min,
}
use package.solaros.Prelude.Rows.{
  stored, stored-set, length-stored, take-stored, get_or-stored, get_or-All, set-All, take-All,
  drop-All,
}
use solaros.Shell.{
  Hist, hist_cap, hist_len_cap, same_chars, is_newest_line, shift_down, drop_oldest, put_row,
  put_line, history_push,
}
use Lines.{
  IsRow, IsHist, lines, IsNewest, Pushed, repeated, added, dropped, shift_down-eq, length-lines,
  is_newest_line-IsNewest, is_newest_line_if, put_line-IsHist, lines-put_line,
}

take-shift_down {ℓ} :
    {A : Type ℓ} (d x : A) (xs : List A)
    → take (length xs) (shift_down d (length xs) 0 (x ∷ xs)) ≡ xs
take-shift_down d x xs =
    ap (take (length xs)) (
      shift_down-eq d (length xs) x xs (omega arith)
      ∙ ap (λ y. y ++ drop (length xs) (x ∷ xs)) (take-le (length xs) xs (omega arith)))
    ∙ take-length xs (drop (length xs) (x ∷ xs))

shift_down-All {ℓ} :
    {A : Type ℓ} (P : A → Type 0) (d x : A) (xs : List A)
    → All P (x ∷ xs)
    → (All P (shift_down d (length xs) 0 (x ∷ xs)))
      × (length (shift_down d (length xs) 0 (x ∷ xs)) ≡ length (x ∷ xs))
shift_down-All P d x xs all =
    let e = shift_down-eq d (length xs) x xs (omega arith) in
    (
      subst (All P) (sym e) (
          All-append P (take (length xs) xs) (drop (length xs) (x ∷ xs))
            (take-All P (length xs) xs all.1) (drop-All P (length xs) (x ∷ xs) all)),
      ap length e
          ∙ omega (
            arith,
            length-append (take (length xs) xs) (drop (length xs) (x ∷ xs)),
            length-take (length xs) xs,
            length-drop (length xs) (x ∷ xs),
          ),
    )

-- Dropping the oldest line of a full history.
module _ (l : ℕ) (ls : List ℕ) (r : List ℕ) (rs : List (List ℕ)) where
  abbrev full_hist : Hist
  full_hist = record { rows = r ∷ rs; lens = l ∷ ls; count = hist_cap }

  module _ (is : IsHist full_hist) where
    rows_left : length rs ≡ hist_cap - 1
    rows_left = omega (arith, is.rows)

    lens_left : length ls ≡ hist_cap - 1
    lens_left = omega (arith, is.lens)

    drop_oldest-IsHist : IsHist (drop_oldest full_hist)
    drop_oldest-IsHist =
        let on_rows = shift_down-All IsRow [] r rs is.row in
        let on_lens = shift_down-All (λ l. l ≤ hist_len_cap) 0 l ls is.fits in
        record {
          rows =
              subst (λ n. length (shift_down [] n 0 (r ∷ rs)) ≡ hist_cap) rows_left
                (on_rows.1 ∙ is.rows);
          lens =
              subst (λ n. length (shift_down 0 n 0 (l ∷ ls)) ≡ hist_cap) lens_left
                (on_lens.1 ∙ is.lens);
          row = subst (λ n. All IsRow (shift_down [] n 0 (r ∷ rs))) rows_left on_rows.0;
          fits =
              subst (λ n. All (λ l. l ≤ hist_len_cap) (shift_down 0 n 0 (l ∷ ls))) lens_left
                on_lens.0;
          count = omega arith;
        }

    lines_of_full : lines full_hist ≡ take l r ∷ stored ls rs
    lines_of_full =
        take-le hist_cap (stored (l ∷ ls) (r ∷ rs))
          (omega (arith, length-stored ls rs (lens_left ∙ sym rows_left), lens_left))

    lines-drop_oldest : lines (drop_oldest full_hist) ≡ stored ls rs
    lines-drop_oldest =
        take-stored (hist_cap - 1) (shift_down 0 (hist_cap - 1) 0 (l ∷ ls))
          (shift_down [] (hist_cap - 1) 0 (r ∷ rs))
        ∙ ap₂ stored
            (subst (λ n. take n (shift_down 0 n 0 (l ∷ ls)) ≡ ls) lens_left
              (take-shift_down 0 l ls))
            (subst (λ n. take n (shift_down [] n 0 (r ∷ rs)) ≡ rs) rows_left
              (take-shift_down [] r rs))

-- What `history_push` leaves.
abbrev Kept : List ℕ → Hist → Hist → Type 0
Kept line h h' = IsHist h' × Pushed line (lines h) (lines h')

push_full :
    (line : List ℕ) (rows : List (List ℕ)) (lens : List ℕ)
    → IsHist (record { rows = rows; lens = lens; count = hist_cap })
    → (IsNewest line (lines (record { rows = rows; lens = lens; count = hist_cap })) → ⊥)
    → Kept line
        (record { rows = rows; lens = lens; count = hist_cap })
        (put_line line (drop_oldest (record { rows = rows; lens = lens; count = hist_cap })))
push_full line [] lens is other = absurd (omega (arith, is.rows))
push_full line (r ∷ rs) [] is other = absurd (omega (arith, is.lens))
push_full line (r ∷ rs) (l ∷ ls) is other =
    let h = full_hist l ls r rs in
    let is' = drop_oldest-IsHist l ls r rs is in
    let before = lines_of_full l ls r rs is in
    (
      put_line-IsHist line (drop_oldest h) is' (omega arith),
      subst (λ x. Pushed line x (lines (put_line line (drop_oldest h)))) (sym before)
          (subst (Pushed line (take l r ∷ stored ls rs))
            (ap (λ x. x ++ take hist_len_cap line ∷ []) (sym (lines-drop_oldest l ls r rs is))
              ∙ sym (lines-put_line line (drop_oldest h) is' (omega arith)))
            (dropped (λ n. other (subst (IsNewest line) (sym before) n))
              (omega (
                arith,
                length-stored ls rs (lens_left l ls r rs is ∙ sym (rows_left l ls r rs is)),
                lens_left l ls r rs is,
              )))),
    )

-- For a history whose arrays have their sizes: pushing a line keeps it so, and leaves the lines as they are
-- when the line is the newest one; otherwise the line, cut to 64 chars, is added behind the others, of
-- which the oldest is dropped when there were 50. A line over 64 chars may be added though its cut copy is the
-- newest one.
pub history_push-Pushed :
    (line : List ℕ) (h : Hist)
    → IsHist h
    → IsHist (history_push line h) × Pushed line (lines h) (lines (history_push line h))
unfolding history_push
history_push-Pushed line h is = elim (Bool-cases (is_newest_line line h)) [
  | inl same ↦ rw same (is, repeated (is_newest_line-IsNewest line h is same))
  | inr other ↦
      let not_newest : IsNewest line (lines h) → ⊥ =
        λ n. absurd_tests (is_newest_line_if line h is n) other in
      elim (Bool-cases (h.count == hist_cap)) [
        | inl full ↦ rw other (rw full (at_cap h is not_newest ((==_iff h.count hist_cap).0 full)))
        | inr room ↦
            let small : h.count < hist_cap = ground (arith, is.count) in
            rw other (
              rw room (
                put_line-IsHist line h is small,
                subst (Pushed line (lines h)) (sym (lines-put_line line h is small))
                    (added not_newest (omega (arith, length-lines line h is))),
              ))
      ]
]
  where
    absurd_tests : {b : Bool} → b ≡ true → b ≡ false → ⊥
    absurd_tests p q = cc

    at_cap :
        (h : Hist)
        → IsHist h
        → (IsNewest line (lines h) → ⊥)
        → h.count ≡ hist_cap
        → Kept line h (put_line line (drop_oldest h))
    at_cap h is other e =
        subst
          (λ n.
            IsHist (record h { count = n })
            → (IsNewest line (lines (record h { count = n })) → ⊥)
            → Kept line (record h { count = n })
                (put_line line (drop_oldest (record h { count = n }))))
          (sym e) (push_full line h.rows h.lens) is other
