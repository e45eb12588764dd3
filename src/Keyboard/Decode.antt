-- ===== src/Keyboard/Decode.antt =====
-- The decoder over the queue of scancodes (kernel/src/keyboard.rs).
use package.solaros.Prelude.{
  ℕ, zero, suc, ◌<◌, ◌≡◌, refl, ◌∙◌, ap, List, [], ◌∷◌, Option, none, some, length, arith,
}
use package.solaros.Input.{Ring, pop}
use package.solaros.Input.Queue.{IsRing, Popped, empty, taken, pop-Popped}
use package.solaros.Keyboard.{
  KbdLayout, DecodedKey, Decoders, Raw, raw_cap, ActiveKeyboard, switch_layout_if_needed,
  step_keyboard, decode_one, drain, drain_match,
}

module _ (d : Decoders) (want : KbdLayout) where
  -- What the decoder makes of a queue of bytes: up to the first byte that completes no key.
  pub data Run
      : ActiveKeyboard d → List ℕ → List DecodedKey → ActiveKeyboard d → List ℕ → Type 0 where
    ends : (kb : ActiveKeyboard d) → Run kb [] [] (switch_layout_if_needed d want kb) []
    waits :
        (kb : ActiveKeyboard d) (sc : ℕ) (q : List ℕ)
        → (step_keyboard d sc (switch_layout_if_needed d want kb)).0 ≡ none
        → Run kb (sc ∷ q) [] (step_keyboard d sc (switch_layout_if_needed d want kb)).1 q
    emits :
        (kb : ActiveKeyboard d) (sc : ℕ) (q : List ℕ) (key : DecodedKey) (keys : List DecodedKey)
        (kb' : ActiveKeyboard d) (rest : List ℕ)
        → (step_keyboard d sc (switch_layout_if_needed d want kb)).0 ≡ some key
        → Run (step_keyboard d sc (switch_layout_if_needed d want kb)).1 q keys kb' rest
        → Run kb (sc ∷ q) (key ∷ keys) kb' rest

  abbrev pub Outcome : ℕ → ActiveKeyboard d → Raw → List ℕ → Type 0
  Outcome fuel kb raw q =
      (keys : List DecodedKey) × (kb' : ActiveKeyboard d) × (raw' : Raw) × (rest : List ℕ) × (drain
          d fuel want kb raw
        ≡ some (keys, kb', raw'))
      × Run kb q keys kb' rest
      × IsRing raw_cap raw'.ring rest

  decode_empty :
      (kb : ActiveKeyboard d) (raw : Raw)
      → pop raw_cap raw.ring ≡ none
      → decode_one d want kb raw ≡ (none, switch_layout_if_needed d want kb, raw)
  unfolding decode_one
  decode_empty kb raw e = rw (e, decode_one)

  decode_byte :
      (kb : ActiveKeyboard d) (raw : Raw) (sc : ℕ) (ring : Ring)
      → pop raw_cap raw.ring ≡ some (sc, ring)
      → decode_one d want kb raw ≡ (
        (step_keyboard d sc (switch_layout_if_needed d want kb)).0,
        (step_keyboard d sc (switch_layout_if_needed d want kb)).1,
        record raw { ring = ring },
      )
  unfolding decode_one
  decode_byte kb raw sc ring e = rw (e, decode_one)

  drain_stop :
      (fuel : ℕ) (kb kb' : ActiveKeyboard d) (raw raw' : Raw)
      → decode_one d want kb raw ≡ (none, kb', raw')
      → drain d (suc fuel) want kb raw ≡ some ([], kb', raw')
  unfolding drain
  drain_stop fuel kb kb' raw raw' e = ap (drain_match d (λ k r. drain d fuel want k r)) e

  drain_go :
      (fuel : ℕ) (kb kb' kb'' : ActiveKeyboard d) (raw raw' raw'' : Raw) (key : DecodedKey)
      (keys : List DecodedKey)
      → decode_one d want kb raw ≡ (some key, kb', raw')
      → drain d fuel want kb' raw' ≡ some (keys, kb'', raw'')
      → drain d (suc fuel) want kb raw ≡ some (key ∷ keys, kb'', raw'')
  unfolding drain
  drain_go fuel kb kb' kb'' raw raw' raw'' key keys e more =
      ap (drain_match d (λ k r. drain d fuel want k r)) e ∙ rw (more, drain_match)

  -- `drain` ends in such a run.
  pub drain-Run :
      (fuel : ℕ) (kb : ActiveKeyboard d) (raw : Raw) (q : List ℕ)
      → length q < fuel
      → IsRing raw_cap raw.ring q
      → Outcome fuel kb raw q
  drain-Run zero kb raw q enough is = elim enough [ ]
  drain-Run (suc fuel) kb raw q enough is =
      popped q (pop raw_cap raw.ring) refl enough is (pop-Popped raw_cap raw.ring q is)
        (λ kb' raw' q' less is'. drain-Run fuel kb' raw' q' less is')
    where
      byte :
          (sc : ℕ) (q' : List ℕ) (ring : Ring) (key : Option DecodedKey)
          → (step_keyboard d sc (switch_layout_if_needed d want kb)).0 ≡ key
          → pop raw_cap raw.ring ≡ some (sc, ring)
          → IsRing raw_cap ring q'
          → Outcome fuel
              (step_keyboard d sc (switch_layout_if_needed d want kb)).1
              (record raw { ring = ring })
              q'
          → Outcome (suc fuel) kb raw (sc ∷ q')
      byte sc q' ring none k e is' more =
          let kb' = (step_keyboard d sc (switch_layout_if_needed d want kb)).1 in
          (
            [],
            kb',
            record raw { ring = ring },
            q',
            drain_stop fuel kb kb' raw (record raw { ring = ring })
                (decode_byte kb raw sc ring e ∙ ap (λ o. (o, kb', record raw { ring = ring })) k),
            waits kb sc q' k,
            is',
          )
      byte sc q' ring (some key) k e is' (keys, kb'', raw'', rest, e', run, last) =
          let kb' = (step_keyboard d sc (switch_layout_if_needed d want kb)).1 in
          (
            key ∷ keys,
            kb'',
            raw'',
            rest,
            drain_go fuel kb kb' kb'' raw (record raw { ring = ring }) raw'' key keys
                (decode_byte kb raw sc ring e ∙ ap (λ o. (o, kb', record raw { ring = ring })) k)
                e',
            emits kb sc q' key keys kb'' rest k run,
            last,
          )

      popped :
          (q : List ℕ) (o : Option (ℕ × Ring))
          → pop raw_cap raw.ring ≡ o
          → length q < suc fuel
          → IsRing raw_cap raw.ring q
          → Popped raw_cap q o
          → ((kb' : ActiveKeyboard d) (raw' : Raw) (q' : List ℕ)
              → length q' < fuel
              → IsRing raw_cap raw'.ring q'
              → Outcome fuel kb' raw' q')
          → Outcome (suc fuel) kb raw q
      popped q o e enough is empty ih = (
        [],
        switch_layout_if_needed d want kb,
        raw,
        [],
        drain_stop fuel kb (switch_layout_if_needed d want kb) raw raw (decode_empty kb raw e),
        ends kb,
        is,
      )
      popped q o e enough is (taken {b = sc} {q = q'} {ring = ring} is') ih =
          byte sc q' ring (step_keyboard d sc (switch_layout_if_needed d want kb)).0 refl e is' (
            ih (step_keyboard d sc (switch_layout_if_needed d want kb)).1
              (record raw { ring = ring }) q' (omega arith) is')
