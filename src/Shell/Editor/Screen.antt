-- ===== src/Shell/Editor/Screen.antt =====
-- What the user sees of the line that the editor holds (user/src/main.rs).
use package.solaros.Prelude.{
  ℕ, zero, suc, ◌+◌, ◌-◌, ◌≤◌, ◌<◌, ◌≡◌, ◌≢◌, refl, sym, ◌∙◌, ap, List, [], ◌∷◌, ◌++◌, map,
  map-append, append_assoc, append-nil, length-append, length, false, true, ◌⊎◌, length-set,
  length-take, take, set, take-set, arith, if◌then◌else◌, ltb, leb, ◌==◌, ==_iff, Bool-cases, inl,
  inr,
}
use package.solaros.Prelude.Utf8.{encode_utf8}
use solaros.Shell.{Call, write, console, exec, put_char}
use solaros.Shell.Commands.{execute}
use solaros.Shell.Editor.{Editor, line_cap, erase, on_char, print_prompt}

-- The chars before the cursor, and the editor's bounds.
abbrev pub text : Editor → List ℕ
text ed = take ed.len ed.line

pub record IsEditor (ed : Editor) : Type 0 where
  pub size : length ed.line ≡ line_cap
  pub len : ed.len ≤ line_cap

-- What a key makes of the line.
abbrev pub edit : ℕ → List ℕ → List ℕ
edit c line =
    if (c == b'\n')
    then []
    else if c == 0x0D
    then []
    else if c == 0x08
    then take (length line - 1) line
    else if c == 0x03
    then []
    else if leb 0x20 c
    then (if ltb (length line) line_cap then line ++ c ∷ [] else line)
    else line

-- The row of the screen that the cursor is in, with `columns` places: a write of one char adds a cell, in a
-- full row it begins the next one, and operation 3 of the console takes away the last cell of this row.
abbrev pub shown : ℕ → List (List ℕ) → List Call → List (List ℕ)
shown columns row [] = row
shown columns row (write b ∷ calls) =
    shown columns (if ltb (length row) columns then row ++ b ∷ [] else b ∷ []) calls
shown columns row (console op a ∷ calls) =
    shown columns (if op == 3 then take (length row - 1) row else row) calls
shown columns row (exec b ∷ calls) = shown columns row calls

-- A key that is neither Enter nor Ctrl-C.
abbrev pub IsInLine : ℕ → Type 0
IsInLine c = (c ≢ b'\n') × (c ≢ 0x0D) × (c ≢ 0x03)

abbrev pub cells : List ℕ → List (List ℕ)
cells line = map encode_utf8 line

length-cells : (line : List ℕ) → length (cells line) ≡ length line
length-cells [] = refl
length-cells (c ∷ line) = ap suc (length-cells line)

take-cells : (n : ℕ) (line : List ℕ) → take n (cells line) ≡ cells (take n line)
take-cells zero line = refl
take-cells (suc n) [] = refl
take-cells (suc n) (c ∷ line) = ap (◌∷◌ (encode_utf8 c)) (take-cells n line)

take-take : {A : Type 0} (m n : ℕ) (xs : List A) → m ≤ n → take m (take n xs) ≡ take m xs
take-take zero n xs h = refl
take-take (suc m) zero xs h = elim h [ ]
take-take (suc m) (suc n) [] h = refl
take-take (suc m) (suc n) (x ∷ xs) h = ap (◌∷◌ x) (take-take m n xs (omega arith))

take_back :
    {A : Type 0} (xs ys : List A)
    → 0 < length ys
    → take (length (xs ++ ys) - 1) (xs ++ ys) ≡ xs ++ take (length ys - 1) ys
take_back [] ys h = refl
take_back (x ∷ xs) ys h =
    ap (λ n. take n (x ∷ xs ++ ys)) {y = suc (length (xs ++ ys) - 1)}
      (omega (arith, length-append xs ys))
    ∙ ap (◌∷◌ x) (take_back xs ys h)

-- Ctrl-C takes away every cell of the line, and no other.
shown-erase :
    (columns : ℕ) (before cs : List (List ℕ)) (n : ℕ)
    → length cs ≡ n
    → shown columns (before ++ cs) (erase n) ≡ before
unfolding erase
shown-erase columns before [] zero e = append-nil before
shown-erase columns before (c ∷ cs) zero e = absurd (omega arith)
shown-erase columns before cs (suc n) e =
    ap (λ row. shown columns row (erase n)) (take_back before cs (omega arith))
    ∙ shown-erase columns before (take (length cs - 1) cs) n
        (omega (arith, length-take (length cs - 1) cs))

module _ (ed : Editor) (is : IsEditor ed) where
  length-text : length (text ed) ≡ ed.len
  length-text = omega (arith, length-take ed.len ed.line, is.size, is.len)

  text_after :
      (c : ℕ) → ed.len < line_cap → take (ed.len + 1) (set ed.line ed.len c) ≡ text ed ++ c ∷ []
  text_after c room =
      ap (λ k. take k (set ed.line ed.len c)) {y = suc ed.len} (omega arith)
      ∙ take-set ed.line ed.len c (omega (arith, is.size))

  text_back : take (ed.len - 1) ed.line ≡ take (length (text ed) - 1) (text ed)
  text_back =
      sym (take-take (ed.len - 1) ed.len ed.line (omega arith))
      ∙ ap (λ k. take (k - 1) (text ed)) (sym length-text)

-- The key Enter.
abbrev pub IsEnter : ℕ → Type 0
IsEnter c = (c ≡ b'\n') ⊎ (c ≡ 0x0D)

-- What a key does: the bounds hold, and the line is edited. Enter hands the line to `execute`, and another key
-- leaves the history. On a row with a place for one more cell, a key within the line leaves exactly the line behind
-- the prompt, and Ctrl-C first takes all of it away.
pub record Edited (columns : ℕ) (before : List (List ℕ)) (c : ℕ) (ed : Editor)
    (r : List Call × Editor) : Type 0 where
  pub is : IsEditor r.1
  pub text_eq : text r.1 ≡ edit c (text ed)
  pub entered :
      IsEnter c
      → (r.0 ≡ put_char b'\n' ∷ (execute (text ed) ed.hist).0 ++ print_prompt)
        × (r.1.hist ≡ (execute (text ed) ed.hist).1)
  pub kept : (IsEnter c → ⊥) → r.1.hist ≡ ed.hist
  pub seen :
      IsInLine c
      → length before + length (text ed) < columns
      → shown columns (before ++ cells (text ed)) r.0 ≡ before ++ cells (text r.1)
  pub cleared :
      c ≡ 0x03
      → (calls : List Call) × (r.0 ≡ calls ++ put_char b'\n' ∷ print_prompt)
        × (shown columns (before ++ cells (text ed)) calls ≡ before)

-- The keys, by the tests of the loop.
module _ (columns : ℕ) (before : List (List ℕ)) (c : ℕ) (ed : Editor) (is : IsEditor ed) where
  enter-Edited :
      IsEnter c
      → (next : List ℕ) → [] ≡ next
      → (IsInLine c → ⊥)
      → c ≢ 0x03
      → next ≡ edit c (text ed)
      → Edited columns before c ed (
        put_char b'\n' ∷ (execute (text ed) ed.hist).0 ++ print_prompt,
        record ed { len = 0; hist = (execute (text ed) ed.hist).1 },
      )
  enter-Edited enters next e outside other same = record {
    is = record { size = is.size; len = omega arith };
    text_eq = e ∙ same;
    entered = λ enters. (refl, refl);
    kept = λ other_key. absurd (other_key enters);
    seen = λ inside room. absurd (outside inside);
    cleared = λ e. absurd (other e);
  }

  interrupt-Edited :
      (IsEnter c → ⊥)
      → (c ≡ 0x03)
      → [] ≡ edit c (text ed)
      → Edited columns before c ed
          (erase ed.len ++ put_char b'\n' ∷ print_prompt, record ed { len = 0 })
  interrupt-Edited not_enter e same = record {
    is = record { size = is.size; len = omega arith };
    text_eq = same;
    entered = λ enters. absurd (not_enter enters);
    kept = λ other_key. refl;
    seen = λ inside room. absurd (inside.2 e);
    cleared = λ e. (
      erase ed.len,
      refl,
      shown-erase columns before (cells (text ed)) ed.len
          (length-cells (text ed) ∙ length-text ed is),
    );
  }

  still-Edited :
      (IsEnter c → ⊥)
      → (c ≢ 0x03)
      → text ed ≡ edit c (text ed)
      → Edited columns before c ed ([], ed)
  still-Edited not_enter other same = record {
    is = is;
    text_eq = same;
    entered = λ enters. absurd (not_enter enters);
    kept = λ other_key. refl;
    seen = λ inside room. refl;
    cleared = λ e. absurd (other e);
  }

  back-Edited :
      (IsEnter c → ⊥)
      → (c ≢ 0x03)
      → 0 < ed.len
      → take (length (text ed) - 1) (text ed) ≡ edit c (text ed)
      → Edited columns before c ed (console 3 0 ∷ [], record ed { len = ed.len - 1 })
  back-Edited not_enter other some_char same = record {
    is = record { size = is.size; len = omega (arith, is.len) };
    text_eq = text_back ed is ∙ same;
    entered = λ enters. absurd (not_enter enters);
    kept = λ other_key. refl;
    seen = λ inside room.
        take_back before (cells (text ed))
          (omega (arith, length-cells (text ed), length-text ed is))
        ∙ ap (◌++◌ before) (
            take-cells (length (cells (text ed)) - 1) (text ed)
            ∙ ap (λ k. cells (take (k - 1) (text ed))) (length-cells (text ed))
            ∙ ap cells (sym (text_back ed is)));
    cleared = λ e. absurd (other e);
  }

  insert-Edited :
      (IsEnter c → ⊥)
      → (c ≢ 0x03)
      → ed.len < line_cap
      → text ed ++ c ∷ [] ≡ edit c (text ed)
      → Edited columns before c ed
          (put_char c ∷ [], record ed { line = set ed.line ed.len c; len = ed.len + 1 })
  insert-Edited not_enter other room same = record {
    is = record { size = length-set ed.line ed.len c ∙ is.size; len = omega arith };
    text_eq = text_after ed is c room ∙ same;
    entered = λ enters. absurd (not_enter enters);
    kept = λ other_key. refl;
    seen = λ inside places.
        let fits : ltb (length (before ++ cells (text ed))) columns ≡ true =
          ground (arith, length-append before (cells (text ed)), length-cells (text ed)) in
        rw fits (
          append_assoc before (cells (text ed)) (encode_utf8 c ∷ [])
          ∙ ap (◌++◌ before) (
              sym (map-append encode_utf8 (text ed) (c ∷ []))
              ∙ ap cells (sym (text_after ed is c room))));
    cleared = λ e. absurd (other e);
  }

-- For every key, and an editor with a line of 128 places and at most 128 of them in use: the editor stays so.
-- Enter hands the line and the history to `execute`, prints a line break, what the command prints and the
-- prompt, and empties the line; other keys leave the history. Ctrl-C empties the line, Backspace takes its
-- last char away, a printable char is added while there is room, and the rest changes nothing. On a row of
-- the screen that has a place for one more cell behind the prompt and the line, a key within the line leaves
-- exactly the new line behind the prompt, and Ctrl-C takes all of the line away before its line break.
pub on_char-Edited :
    (columns : ℕ) (before : List (List ℕ)) (c : ℕ) (ed : Editor)
    → IsEditor ed
    → Edited columns before c ed (on_char c ed)
unfolding on_char
on_char-Edited columns before c ed is = elim (Bool-cases (c == b'\n')) [
  | inl e ↦ rw e (
      enter-Edited columns before c ed is (inl ((==_iff c b'\n').0 e)) [] refl
        (λ i. i.0 ((==_iff c b'\n').0 e)) (ground arith) (rw e))
  | inr p ↦ elim (Bool-cases (c == 0x0D)) [
    | inl e ↦
        rw (p, e)
          (enter-Edited columns before c ed is (inr ((==_iff c 0x0D).0 e)) [] refl
            (λ i. i.1 ((==_iff c 0x0D).0 e)) (ground arith) (rw (p, e)))
    | inr q ↦ elim (Bool-cases (c == 0x08)) [
      | inl e ↦ elim (Bool-cases (ltb 0 ed.len)) [
        | inl some_char ↦
            rw (p, q, e, some_char)
              (back-Edited columns before c ed is (not_enter p q) (ground arith) (ground arith)
                (rw (p, q, e)))
        | inr empty ↦
            rw (p, q, e, empty)
              (still-Edited columns before c ed is (not_enter p q) (ground arith)
                (empty_back (ground arith) ∙ rw (p, q, e)))
      ]
      | inr r ↦ elim (Bool-cases (c == 0x03)) [
        | inl e ↦
            rw (p, q, r, e)
              (interrupt-Edited columns before c ed is (not_enter p q) ((==_iff c 0x03).0 e)
                (rw (p, q, r, e)))
        | inr t ↦ elim (Bool-cases (leb 0x20 c)) [
          | inr control ↦
              rw (p, q, r, t, control)
                (still-Edited columns before c ed is (not_enter p q) (ground arith)
                  (rw (p, q, r, t, control)))
          | inl printable ↦ elim (Bool-cases (ltb ed.len line_cap)) [
            | inl room ↦
                rw (p, q, r, t, printable, room)
                  (insert-Edited columns before c ed is (not_enter p q) (ground arith)
                    (ground arith) (rw (p, q, r, t, printable, same_room ∙ room)))
            | inr full ↦
                rw (p, q, r, t, printable, full)
                  (still-Edited columns before c ed is (not_enter p q) (ground arith)
                    (rw (p, q, r, t, printable, same_room ∙ full)))
          ]
        ]
      ]
    ]
  ]
]
  where
    not_enter : (c == b'\n') ≡ false → (c == 0x0D) ≡ false → IsEnter c → ⊥
    not_enter p q (inl e) = absurd (ground arith)
    not_enter p q (inr e) = absurd (ground arith)

    empty_back : ed.len ≡ 0 → text ed ≡ take (length (text ed) - 1) (text ed)
    empty_back z =
        let none_left : text ed ≡ [] = ap (λ k. take k ed.line) z in
        none_left ∙ sym (ap (λ (t : List ℕ). take (length t - 1) t) none_left)

    same_room : ltb (length (text ed)) line_cap ≡ ltb ed.len line_cap
    same_room = ap (λ n. ltb n line_cap) (length-text ed is)
