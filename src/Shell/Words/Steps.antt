-- ===== src/Shell/Words/Steps.antt =====
-- How one char changes the words that `parse_args` has stored (user/src/main.rs).
use package.solaros.Prelude.{
  ℕ, zero, suc, ◌+◌, ◌-◌, ◌*◌, ◌≤◌, ◌<◌, ◌≡◌, refl, sym, subst, ◌∙◌, ap, ap₂, Bool, true, false,
  List, [], ◌∷◌, ◌++◌, map, map-append, append_assoc, append-nil, length, length-append,
  length-take, length-set, take, set, get_or, replicate, get_or-length, set-length, take-le,
  take-append, arith, ltb, if◌then◌else◌, Bool-cases, inl, inr,
}
use solaros.Shell.{Parse, put_arg, end_word, is_blank, max_args, max_arg_len}
use solaros.Shell.Words.Slices.{slices, IsParse, set-IsParse, slices-set, length-slice}

abbrev pub begun : List ℕ → List (List ℕ)
begun [] = []
begun (c ∷ w) = (c ∷ w) ∷ []

-- The words of a line, behind the chars of one that has begun: what stands between spaces and tabs.
abbrev pub words_of : List ℕ → List ℕ → List (List ℕ)
words_of w [] = begun w
words_of w (c ∷ cs) = if is_blank c then begun w ++ words_of [] cs else words_of (w ++ c ∷ []) cs

abbrev pub words : List ℕ → List (List ℕ)
words cs = words_of [] cs

abbrev pub cut : List ℕ → List ℕ
cut = take max_arg_len

-- The eight arguments when these words are done and another has begun.
abbrev pub table : List (List ℕ) → List ℕ → List (List ℕ)
table done w = map cut done ++ cut w ∷ replicate (max_args - 1 - length done) []

abbrev is_begun : List ℕ → Bool
is_begun [] = false
is_begun (c ∷ w) = true

-- `parse_args` within the first eight words.
pub record Within (p : Parse) (done : List (List ℕ)) (w : List ℕ) : Type 0 where
  pub is : IsParse p.lens p.args
  pub size : length p.lens ≡ max_args
  pub room : length done < max_args
  pub stored : slices p.lens p.args ≡ table done w
  pub count : p.count ≡ length done
  pub in_arg : p.in_arg ≡ is_begun w

-- After the eighth.
pub record Full (p : Parse) (done : List (List ℕ)) : Type 0 where
  pub is : IsParse p.lens p.args
  pub size : length p.lens ≡ max_args
  pub full : length done ≡ max_args
  pub stored : slices p.lens p.args ≡ map cut done
  pub count : p.count ≡ length done
  pub in_arg : p.in_arg ≡ false

-- The arguments are the first eight words.
pub record Parsed (p : Parse) (ws : List (List ℕ)) : Type 0 where
  pub is : IsParse p.lens p.args
  pub size : length p.lens ≡ max_args
  pub count : p.count ≡ length (take max_args ws)
  pub stored : (i : ℕ) → i < p.count → get_or (slices p.lens p.args) i [] ≡ cut (get_or ws i [])

length-map {ℓ κ} :
    {A : Type ℓ} {B : Type κ} (f : A → B) (xs : List A) → length (map f xs) ≡ length xs
length-map f [] = refl
length-map f (x ∷ xs) = ap suc (length-map f xs)

pub get_or-map :
    (xs ys : List (List ℕ)) (i : ℕ)
    → i < length xs
    → get_or (map cut xs ++ ys) i [] ≡ cut (get_or xs i [])
get_or-map [] ys i h = elim h [ ]
get_or-map (x ∷ xs) ys zero h = refl
get_or-map (x ∷ xs) ys (suc i) h = get_or-map xs ys i (omega arith)

pub get_or-append {ℓ} :
    {A : Type ℓ} (xs ys : List A) (i : ℕ) (d : A)
    → i < length xs
    → get_or (xs ++ ys) i d ≡ get_or xs i d
get_or-append [] ys i d h = elim h [ ]
get_or-append (x ∷ xs) ys zero d h = refl
get_or-append (x ∷ xs) ys (suc i) d h = get_or-append xs ys i d (omega arith)

-- A char of a word is put into the argument of that word, or dropped when the argument is full.
cut-snoc : (w : List ℕ) (c : ℕ) → length (cut w) < max_arg_len → cut w ++ c ∷ [] ≡ cut (w ++ c ∷ [])
cut-snoc w c h =
    let short : length w < max_arg_len = omega (arith, length-take max_arg_len w) in
    ap (λ x. x ++ c ∷ []) (take-le max_arg_len w (omega arith))
    ∙ sym (take-le max_arg_len (w ++ c ∷ []) (omega (arith, length-append w (c ∷ []))))

cut-snoc_full : (w : List ℕ) (c : ℕ) → max_arg_len ≤ length (cut w) → cut w ≡ cut (w ++ c ∷ [])
cut-snoc_full w c h =
    sym (take-append max_arg_len w (c ∷ []) (omega (arith, length-take max_arg_len w)))

is_begun-snoc : (w : List ℕ) (c : ℕ) → is_begun (w ++ c ∷ []) ≡ true
is_begun-snoc [] c = refl
is_begun-snoc (x ∷ w) c = refl

module _ (c : ℕ) (p : Parse) (done : List (List ℕ)) (w : List ℕ) (v : Within p done w) where
  at_end : length (map cut done) ≡ p.count
  at_end = length-map cut done ∙ sym v.count

  row : get_or (slices p.lens p.args) p.count [] ≡ cut w
  row =
      ap (λ s. get_or s p.count []) v.stored
      ∙ ap (λ k. get_or (table done w) k []) (sym at_end)
      ∙ get_or-length (map cut done) (cut w) [] (replicate (max_args - 1 - length done) [])

  used : get_or p.lens p.count 0 ≡ length (cut w)
  used = sym (length-slice p.lens p.args p.count v.is) ∙ ap length row

  put_room :
      ltb (get_or p.lens p.count 0) max_arg_len ≡ true → Within (put_arg c p) done (w ++ c ∷ [])
  put_room test =
      let len = get_or p.lens p.count 0 in
      let small : len < max_arg_len = ground arith in
      rw test (record {
        is =
            set-IsParse p.lens p.args p.count (p.count * max_arg_len + len) (len + 1) c v.is
              (omega arith);
        size = length-set p.lens p.count (len + 1) ∙ v.size;
        room = v.room;
        stored =
            slices-set p.lens p.args p.count c v.is (omega (arith, v.count, v.room, v.size)) small
            ∙ ap₂ (λ s (r : List ℕ). set s p.count (r ++ c ∷ [])) v.stored row
            ∙ ap (λ k. set (table done w) k (cut w ++ c ∷ [])) (sym at_end)
            ∙ set-length (map cut done) (cut w) (cut w ++ c ∷ [])
                (replicate (max_args - 1 - length done) [])
            ∙ ap (λ (r : List ℕ). map cut done ++ r ∷ replicate (max_args - 1 - length done) [])
                (cut-snoc w c (omega (arith, used)));
        count = v.count;
        in_arg = sym (is_begun-snoc w c);
      })

  put_full :
      ltb (get_or p.lens p.count 0) max_arg_len ≡ false → Within (put_arg c p) done (w ++ c ∷ [])
  put_full test =
      let big : max_arg_len ≤ get_or p.lens p.count 0 = ground arith in
      rw test (record {
        is = v.is;
        size = v.size;
        room = v.room;
        stored =
            v.stored
            ∙ ap (λ (r : List ℕ). map cut done ++ r ∷ replicate (max_args - 1 - length done) [])
                (cut-snoc_full w c (omega (arith, used)));
        count = v.count;
        in_arg = sym (is_begun-snoc w c);
      })

  pub put_arg-Within : Within (put_arg c p) done (w ++ c ∷ [])
  put_arg-Within = elim (Bool-cases (ltb (get_or p.lens p.count 0) max_arg_len)) [
    | inl room ↦ put_room room
    | inr full ↦ put_full full
  ]

pub end_word_open :
    (p : Parse)
    → p.in_arg ≡ true
    → p.count < max_args
    → end_word p ≡ record p { count = p.count + 1; in_arg = false }
end_word_open p e h = ground arith

pub end_word_idle : (p : Parse) → p.in_arg ≡ false → end_word p ≡ p
end_word_idle p e = ground arith

length-done : (done : List (List ℕ)) (w : List ℕ) → length (done ++ w ∷ []) ≡ length done + 1
length-done done w = length-append done (w ∷ [])

map-cut :
    (done : List (List ℕ)) (w : List ℕ) (ts : List (List ℕ))
    → map cut done ++ cut w ∷ ts ≡ map cut (done ++ w ∷ []) ++ ts
map-cut done w ts = sym (
    ap (λ (x : List (List ℕ)). x ++ ts) (map-append cut done (w ∷ []))
    ∙ append_assoc (map cut done) (cut w ∷ []) ts)

-- A blank ends the word that has begun.
module _ (p : Parse) (done : List (List ℕ)) (c : ℕ) (w : List ℕ) (v : Within p done (c ∷ w)) where
  ended : end_word p ≡ record p { count = p.count + 1; in_arg = false }
  ended = end_word_open p v.in_arg (omega (arith, v.count, v.room))

  pub end_word-Within : length done + 1 < max_args → Within (end_word p) (done ++ (c ∷ w) ∷ []) []
  end_word-Within more =
      subst (λ q. Within q (done ++ (c ∷ w) ∷ []) []) (sym ended)
        (record {
          is = v.is;
          size = v.size;
          room = omega (arith, length-done done (c ∷ w));
          stored =
              v.stored
              ∙ map-cut done (c ∷ w) (replicate (max_args - 1 - length done) [])
              ∙ ap (λ k. map cut (done ++ (c ∷ w) ∷ []) ++ replicate k [])
                  {y = suc (max_args - 1 - length (done ++ (c ∷ w) ∷ []))}
                  (omega (arith, length-done done (c ∷ w)));
          count = omega (arith, v.count, length-done done (c ∷ w));
          in_arg = refl;
        })

  pub end_word-Full : length done + 1 ≡ max_args → Full (end_word p) (done ++ (c ∷ w) ∷ [])
  end_word-Full last =
      subst (λ q. Full q (done ++ (c ∷ w) ∷ [])) (sym ended)
        (record {
          is = v.is;
          size = v.size;
          full = omega (arith, length-done done (c ∷ w));
          stored =
              v.stored
              ∙ map-cut done (c ∷ w) (replicate (max_args - 1 - length done) [])
              ∙ ap (λ k. map cut (done ++ (c ∷ w) ∷ []) ++ replicate k []) {y = 0} (omega arith)
              ∙ append-nil (map cut (done ++ (c ∷ w) ∷ []));
          count = omega (arith, v.count, length-done done (c ∷ w));
          in_arg = refl;
        })
