-- ===== src/Input/Serial.antt =====
-- What the console reads from the serial line (kernel/src/input.rs).
use package.solaros.Prelude.{
  ℕ, zero, suc, ◌-◌, ◌<◌, ◌≡◌, refl, sym, ◌∙◌, ap, subst, List, [], ◌∷◌, ◌++◌, Option, none, some,
  length, length-append, take, drop, append_assoc, append-nil, arith,
}
use solaros.Input.{Ring, push, drain_receiver, serial_cap}
use solaros.Input.Queue.{IsRing, Pushed, full, stored, push-Pushed}

-- The bytes for which there is room are held, the next one is lost, and the others stay.
pub record Drained (q bs left : List ℕ) (ring : Ring) : Type 0 where
  pub held : IsRing serial_cap ring (q ++ take (255 - length q) bs)
  pub stays : left ≡ drop (256 - length q) bs

take_some :
    {A : Type 0} (n : ℕ) (b : A) (bs : List A) → 0 < n → take n (b ∷ bs) ≡ b ∷ take (n - 1) bs
take_some zero b bs h = elim h [ ]
take_some (suc n) b bs h = ap (λ m. b ∷ take m bs) {x = n} (omega arith)

drop_some : {A : Type 0} (n : ℕ) (b : A) (bs : List A) → 0 < n → drop n (b ∷ bs) ≡ drop (n - 1) bs
drop_some zero b bs h = elim h [ ]
drop_some (suc n) b bs h = ap (λ m. drop m bs) {x = n} (omega arith)

drain_full :
    (b : ℕ) (bs : List ℕ) (ring : Ring)
    → push serial_cap b ring ≡ none
    → drain_receiver (b ∷ bs) ring ≡ (bs, ring)
unfolding drain_receiver
drain_full b bs ring e = rw (e, drain_receiver)

drain_more :
    (b : ℕ) (bs : List ℕ) (ring ring' : Ring)
    → push serial_cap b ring ≡ some ring'
    → drain_receiver (b ∷ bs) ring ≡ drain_receiver bs ring'
unfolding drain_receiver
drain_more b bs ring ring' e = rw (e, drain_receiver)

abbrev Drains : List ℕ → List ℕ → List ℕ × Ring → Type 0
Drains q bs r = Drained q bs r.0 r.1

take_nil : (n : ℕ) → ◌≡◌ {A = List ℕ} (take n []) []
take_nil zero = refl
take_nil (suc n) = refl

drop_nil : (n : ℕ) → ◌≡◌ {A = List ℕ} (drop n []) []
drop_nil zero = refl
drop_nil (suc n) = refl

-- One byte put behind `q`, then as many as there is room for.
push_take :
    (q bs : List ℕ) (b : ℕ)
    → suc (length q) < serial_cap
    → (q ++ b ∷ []) ++ take (255 - length (q ++ b ∷ [])) bs ≡ q ++ take (255 - length q) (b ∷ bs)
push_take q bs b room =
    append_assoc q (b ∷ []) (take (255 - length (q ++ b ∷ [])) bs)
    ∙ ap (λ n. q ++ b ∷ take n bs) {y = 255 - length q - 1}
        (omega (arith, length-append q (b ∷ [])))
    ∙ ap (λ t. q ++ t) (sym (take_some (255 - length q) b bs (omega arith)))

-- `drain_receiver` and `serial_irq` fill the ring in order.
pub drain_receiver-Drained :
    (bs q : List ℕ) (ring : Ring)
    → IsRing serial_cap ring q
    → Drained q bs (drain_receiver bs ring).0 (drain_receiver bs ring).1
unfolding drain_receiver
drain_receiver-Drained [] q ring is = record {
  held =
      subst (IsRing serial_cap ring)
        (sym (ap (λ t. q ++ t) (take_nil (255 - length q)) ∙ append-nil q)) is;
  stays = sym (drop_nil (256 - length q));
}
drain_receiver-Drained (b ∷ bs) q ring is =
    step (push serial_cap b ring) refl (push-Pushed serial_cap b ring q is)
      (λ ring' is'. drain_receiver-Drained bs (q ++ b ∷ []) ring' is')
  where
    step :
        (o : Option Ring)
        → push serial_cap b ring ≡ o
        → Pushed serial_cap b q o
        → ((ring' : Ring)
            → IsRing serial_cap ring' (q ++ b ∷ [])
            → Drains (q ++ b ∷ []) bs (drain_receiver bs ring'))
        → Drains q (b ∷ bs) (drain_receiver (b ∷ bs) ring)
    step none e (full last) ih = subst (Drains q (b ∷ bs)) (sym (drain_full b bs ring e)) (record {
      held =
          subst (IsRing serial_cap ring)
            (sym (ap (λ n. q ++ take n (b ∷ bs)) {y = 0} (omega arith) ∙ append-nil q)) is;
      stays = sym (ap (λ n. drop n (b ∷ bs)) {y = 1} (omega arith));
    })
    step (some ring') e (stored room is') ih =
        let r = ih ring' is' in
        subst (Drains q (b ∷ bs)) (sym (drain_more b bs ring ring' e)) (record {
          held =
              subst (IsRing serial_cap (drain_receiver bs ring').1) (push_take q bs b room) r.held;
          stays =
              r.stays
              ∙ ap (λ n. drop n bs) {y = 256 - length q - 1}
                  (omega (arith, length-append q (b ∷ [])))
              ∙ sym (drop_some (256 - length q) b bs (omega arith));
        })
