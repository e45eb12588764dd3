-- ===== src/Shell/Words.antt =====
-- The arguments that `parse_args` makes of a line (user/src/main.rs).
pub mod Slices
pub mod Steps
use package.solaros.Prelude.{
  ℕ, zero, suc, ◌+◌, ◌-◌, ◌*◌, ◌≤◌, ◌<◌, ◌≡◌, ◌≢◌, refl, sym, subst, ◌∙◌, ap, ap₂, Bool, true,
  false, not, ◌&&◌, List, [], ◌∷◌, ◌++◌, map, map-append, append_assoc, append-nil, length,
  length-append, length-replicate, length-take, length-set, take, drop, set, get_or, replicate,
  get_or-length, set-length, take-le, take-append, All, arith, leb, ltb, if◌then◌else◌, Bool-cases,
  inl, inr, min, lt→ltb,
}
use solaros.Shell.{
  Parse, empty_parse, parse_args, parse_chars, put_arg, end_word, is_blank, arg, max_args,
  max_arg_len,
}
use Slices.{slices, IsParse, set-IsParse, slices-set, length-slice, get_or-slices, length-slices}
use Steps.{
  begun, words_of, words, cut, Within, Full, Parsed, get_or-map, get_or-append, put_arg-Within,
  end_word_open, end_word_idle, end_word-Within, end_word-Full,
}

-- A word that has begun.
Within-Parsed : (p : Parse) (done : List (List ℕ)) → Within p done [] → Parsed p done
Within-Parsed p done v = record {
  is = v.is;
  size = v.size;
  count = v.count ∙ ap length (sym (take-le max_args done (omega (arith, v.room))));
  stored = λ i h.
      ap (λ s. get_or s i []) v.stored
      ∙ get_or-map done (cut [] ∷ replicate (max_args - 1 - length done) []) i
          (omega (arith, v.count));
}

Full-Parsed : (p : Parse) (done ws : List (List ℕ)) → Full p done → Parsed p (done ++ ws)
Full-Parsed p done ws f = record {
  is = f.is;
  size = f.size;
  count =
      f.count
      ∙ ap length (
          sym (take-le max_args done (omega (arith, f.full)))
          ∙ sym (take-append max_args done ws (omega (arith, f.full))));
  stored = λ i h.
      let inside : i < length done = omega (arith, f.count) in
      ap (λ s. get_or s i []) (f.stored ∙ sym (append-nil (map cut done)))
      ∙ get_or-map done [] i inside
      ∙ ap cut (sym (get_or-append done ws i [] inside));
}

-- The three ways of a char.
module _ (c : ℕ) (cs : List ℕ) (p : Parse) where
  step_blank : is_blank c ≡ true → parse_chars (c ∷ cs) p ≡ parse_chars cs (end_word p)
  unfolding parse_chars
  step_blank blank = rw (blank, parse_chars)

  step_over :
      is_blank c ≡ false → p.in_arg ≡ false → p.count ≡ max_args → parse_chars (c ∷ cs) p ≡ p
  unfolding parse_chars
  step_over char idle full =
      let over : (not p.in_arg && leb max_args p.count) ≡ true = ground arith in
      rw (char, parse_chars) (rw over)

  step_char :
      is_blank c ≡ false
      → p.count < max_args
      → parse_chars (c ∷ cs) p ≡ parse_chars cs (put_arg c p)
  unfolding parse_chars
  step_char char room =
      let over : (not p.in_arg && leb max_args p.count) ≡ false = ground arith in
      rw (char, parse_chars) (rw over)

parse_full :
    (cs : List ℕ) (p : Parse) (done ws : List (List ℕ))
    → Full p done
    → Parsed (end_word (parse_chars cs p)) (done ++ ws)
unfolding parse_chars
parse_full [] p done ws f =
    subst (λ q. Parsed q (done ++ ws)) (sym (end_word_idle p f.in_arg)) (Full-Parsed p done ws f)
parse_full (c ∷ cs) p done ws f = elim (Bool-cases (is_blank c)) [
  | inl blank ↦
      let same = step_blank c cs p blank ∙ ap (parse_chars cs) (end_word_idle p f.in_arg) in
      subst (λ q. Parsed (end_word q) (done ++ ws)) (sym same) (parse_full cs p done ws f)
  | inr char ↦
      let same = step_over c cs p char f.in_arg (f.count ∙ f.full) in
      subst (λ q. Parsed (end_word q) (done ++ ws)) (sym same)
        (subst (λ q. Parsed q (done ++ ws)) (sym (end_word_idle p f.in_arg))
          (Full-Parsed p done ws f))
]

-- The word that has begun is done, and more words come.
next_words :
    (p : Parse) (done : List (List ℕ)) (c : ℕ) (w cs : List ℕ) (ws : List (List ℕ))
    → Within p done (c ∷ w)
    → (Within (end_word p) (done ++ (c ∷ w) ∷ []) []
        → Parsed (end_word (parse_chars cs (end_word p))) ((done ++ (c ∷ w) ∷ []) ++ ws))
    → Parsed (end_word (parse_chars cs (end_word p))) (done ++ (c ∷ w) ∷ ws)
next_words p done c w cs ws v more =
    subst (Parsed (end_word (parse_chars cs (end_word p)))) (append_assoc done ((c ∷ w) ∷ []) ws)
      (elim (Bool-cases (ltb (length done + 1) max_args)) [
        | inl room ↦ more (end_word-Within p done c w v (ground arith))
        | inr full ↦
            let last : length done + 1 ≡ max_args = ground (arith, v.room) in
            parse_full cs (end_word p) (done ++ (c ∷ w) ∷ []) ws (end_word-Full p done c w v last)
      ])

parse_within :
    (cs : List ℕ) (p : Parse) (done : List (List ℕ)) (w : List ℕ)
    → Within p done w
    → Parsed (end_word (parse_chars cs p)) (done ++ words_of w cs)
unfolding parse_chars
parse_within [] p done [] v =
    subst (λ q. Parsed q (done ++ [])) (sym (end_word_idle p v.in_arg))
      (subst (Parsed p) (sym (append-nil done)) (Within-Parsed p done v))
parse_within [] p done (c ∷ w) v =
    let after = end_word p in
    let idle : after.in_arg ≡ false =
      ap (λ (q : Parse). q.in_arg) (end_word_open p v.in_arg (omega (arith, v.count, v.room))) in
    let same = end_word_idle after idle in
    subst (λ q. Parsed q (done ++ (c ∷ w) ∷ [])) same
      (next_words p done c w [] [] v (λ v'.
        subst (λ q. Parsed q ((done ++ (c ∷ w) ∷ []) ++ [])) (sym same)
          (subst (Parsed after) (sym (append-nil (done ++ (c ∷ w) ∷ [])))
            (Within-Parsed after (done ++ (c ∷ w) ∷ []) v'))))
parse_within (c ∷ cs) p done w v = elim (Bool-cases (is_blank c)) [
  | inl blank ↦
      subst (λ q. Parsed (end_word q) (done ++ words_of w (c ∷ cs))) (sym (step_blank c cs p blank))
        (rw blank (at_blank w v (λ q dn v'. parse_within cs q dn [] v')))
  | inr char ↦
      subst (λ q. Parsed (end_word q) (done ++ words_of w (c ∷ cs)))
        (sym (step_char c cs p char (omega (arith, v.count, v.room))))
        (rw char (parse_within cs (put_arg c p) done (w ++ c ∷ []) (put_arg-Within c p done w v)))
]
  where
    at_blank :
        (w : List ℕ)
        → Within p done w
        → ((q : Parse) (dn : List (List ℕ))
            → Within q dn []
            → Parsed (end_word (parse_chars cs q)) (dn ++ words cs))
        → Parsed (end_word (parse_chars cs (end_word p))) (done ++ (begun w ++ words cs))
    at_blank [] v ih =
        subst (λ q. Parsed (end_word (parse_chars cs q)) (done ++ words cs))
          (sym (end_word_idle p v.in_arg)) (ih p done v)
    at_blank (x ∷ w) v ih =
        next_words p done x w cs (words cs) v (ih (end_word p) (done ++ (x ∷ w) ∷ []))

arg-slice :
    (p : Parse) (i : ℕ)
    → i < p.count
    → arg p i ≡ take (get_or p.lens i 0) (drop (i * max_arg_len) p.args)
arg-slice p i h = rw (lt→ltb i p.count h)

arg-Parsed :
    (p : Parse) (ws : List (List ℕ))
    → Parsed p ws
    → (i : ℕ) → i < p.count
    → arg p i ≡ cut (get_or ws i [])
arg-Parsed p ws r i h =
    let few : i < length p.lens = omega (arith, r.count, r.size, length-take max_args ws) in
    rw (lt→ltb i p.count h) (sym (get_or-slices p.lens p.args i few) ∙ r.stored i h)

parse_args-Parsed : (line : List ℕ) → Parsed (parse_args line) (words line)
unfolding parse_args
parse_args-Parsed line = parse_within line empty_parse [] [] start
  where
    start : Within empty_parse [] []
    start = record {
      is = record { places = omega arith; fits = omega arith };
      size = refl;
      room = omega arith;
      stored = refl;
      count = refl;
      in_arg = refl;
    }

-- For every line: there are as many arguments as words, but at most eight, and each is the word in its
-- place, cut to 64 chars.
pub parse_args-words :
    (line : List ℕ)
    → ((parse_args line).count ≡ min max_args (length (words line)))
      × ((i : ℕ)
          → i < (parse_args line).count
          → arg (parse_args line) i ≡ take max_arg_len (get_or (words line) i []))
parse_args-words line =
    let r = parse_args-Parsed line in
    (
      r.count ∙ length-take max_args (words line),
      λ i h. arg-Parsed (parse_args line) (words line) r i h,
    )

-- The length that is kept for an argument is its own.
pub parse_args-lens :
    (line : List ℕ) (i : ℕ)
    → i < (parse_args line).count
    → get_or (parse_args line).lens i 0 ≡ length (arg (parse_args line) i)
parse_args-lens line i h =
    let p = parse_args line in
    let r = parse_args-Parsed line in
    let few : i < length p.lens =
      omega (arith, r.count, r.size, length-take max_args (words line)) in
    sym (length-slice p.lens p.args i r.is)
    ∙ ap length (get_or-slices p.lens p.args i few ∙ sym (arg-slice p i h))
