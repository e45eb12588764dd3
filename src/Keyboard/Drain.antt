-- ===== src/Keyboard/Drain.antt =====
-- `drain` of kernel/src/keyboard.rs against the decoder alone, without its ring.
use package.solaros.Prelude.{
  ℕ, suc, ◌<◌, ◌≡◌, refl, ◌∙◌, ap, List, [], ◌∷◌, Option, none, some, length, take, drop,
}
use package.solaros.Input.Queue.{IsRing}
use package.solaros.Keyboard.{
  KbdLayout, turkish_q, DecodedKey, Decoders, Raw, raw_cap, ActiveKeyboard, tr, us,
  switch_layout_if_needed, step_keyboard, drain,
}
use package.solaros.Keyboard.Decode.{Run, ends, waits, emits, drain-Run}

-- The answers up to the first one that is no key.
abbrev pub leading : List (Option DecodedKey) → List DecodedKey
leading [] = []
leading (none ∷ answers) = []
leading (some key ∷ answers) = key ∷ leading answers

module _ (d : Decoders) where
  -- The decoder's answers to bytes in a row, and the decoder after them.
  abbrev pub answers : ActiveKeyboard d → List ℕ → List (Option DecodedKey)
  answers kb [] = []
  answers kb (sc ∷ q) = (step_keyboard d sc kb).0 ∷ answers (step_keyboard d sc kb).1 q

  abbrev pub fed : ActiveKeyboard d → List ℕ → ActiveKeyboard d
  fed kb [] = kb
  fed kb (sc ∷ q) = fed (step_keyboard d sc kb).1 q

  -- The decoder of the layout that is wanted stays so.
  switch_idem :
      (want : KbdLayout) (sc : ℕ) (kb : ActiveKeyboard d)
      → switch_layout_if_needed d want (step_keyboard d sc (switch_layout_if_needed d want kb)).1
        ≡ (step_keyboard d sc (switch_layout_if_needed d want kb)).1
  unfolding switch_layout_if_needed
  switch_idem turkish_q sc (us k) = refl
  switch_idem turkish_q sc (tr k) = refl
  switch_idem KbdLayout.us sc (tr k) = refl
  switch_idem KbdLayout.us sc (us k) = refl

  -- The keys up to the first byte that completes none, which is used up; the bytes behind it stay.
  pub record Drained (start : ActiveKeyboard d) (q : List ℕ) (keys : List DecodedKey)
      (kb : ActiveKeyboard d) (rest : List ℕ) : Type 0 where
    pub keys_eq : keys ≡ leading (answers start q)
    pub rest_eq : rest ≡ drop (suc (length keys)) q
    pub kb_eq : kb ≡ fed start (take (suc (length keys)) q)

  module _ (want : KbdLayout) where
    Run-Drained :
        (kb : ActiveKeyboard d) (q : List ℕ) (keys : List DecodedKey) (kb' : ActiveKeyboard d)
        (rest : List ℕ)
        → Run d want kb q keys kb' rest
        → Drained (switch_layout_if_needed d want kb) q keys kb' rest
    Run-Drained kb q keys kb' rest (ends kb0) = record {
      keys_eq = refl;
      rest_eq = refl;
      kb_eq = refl;
    }
    Run-Drained kb q keys kb' rest (waits kb0 sc q' silent) = record {
      keys_eq = rw silent refl;
      rest_eq = refl;
      kb_eq = refl;
    }
    Run-Drained kb q keys kb' rest (emits kb0 sc q' key keys' kb1 rest1 one run) =
        let next = (step_keyboard d sc (switch_layout_if_needed d want kb0)).1 in
        let tail = Run-Drained next q' keys' kb1 rest1 run in
        let same = switch_idem want sc kb0 in
        record {
          keys_eq = rw one (ap (◌∷◌ key) (tail.keys_eq ∙ ap (λ k. leading (answers k q')) same));
          rest_eq = tail.rest_eq;
          kb_eq = tail.kb_eq ∙ ap (λ k. fed k (take (suc (length keys')) q')) same;
        }

    -- For a ring that holds a queue of bytes, and a round for each byte and one more: `drain` ends. It switches to
    -- the wanted layout, hands on the keys of this decoder's answers to the queue up to the first byte that
    -- completes none, and takes just the bytes of these keys and that byte; all later bytes stay queued.
    pub drain-Drained :
        (fuel : ℕ) (kb : ActiveKeyboard d) (raw : Raw) (q : List ℕ)
        → length q < fuel
        → IsRing raw_cap raw.ring q
        → (keys : List DecodedKey) × (kb' : ActiveKeyboard d) × (raw' : Raw) × (rest : List ℕ)
          × (drain d fuel want kb raw ≡ some (keys, kb', raw'))
          × Drained (switch_layout_if_needed d want kb) q keys kb' rest
          × IsRing raw_cap raw'.ring rest
    drain-Drained fuel kb raw q enough is =
        let (keys, kb', raw', rest, e, run, is') = drain-Run d want fuel kb raw q enough is in
        (keys, kb', raw', rest, e, Run-Drained kb q keys kb' rest run, is')
