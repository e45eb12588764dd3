-- ===== src/Users/Passwd/Buffer.antt =====
-- The buffer of `save_to_fs` (kernel/src/users.rs): pushes that fit append.
use package.solaros.Prelude.{
  ℕ, suc, ◌+◌, ◌<◌, ◌≤◌, ◌≡◌, refl, sym, ap, ◌∙◌, List, [], ◌∷◌, ◌++◌, append_assoc, append-nil,
  length, length-append, length-set, take, take-set, set, lt→ltb, arith,
}
use solaros.Users.Passwd.{Filled, push_byte, push_bytes}

-- The bytes pushed so far.
abbrev pub written : Filled → List ℕ
written buf = take buf.pos buf.bytes

-- `out` is `buf` with `s` appended.
pub record Pushed (s : List ℕ) (buf out : Filled) : Type 0 where
  pub text : written out ≡ written buf ++ s
  pub pos : out.pos ≡ buf.pos + length s
  pub size : length out.bytes ≡ length buf.bytes

pub Pushed-nil : (buf : Filled) → Pushed [] buf buf
Pushed-nil buf = record { text = sym (append-nil (written buf)); pos = omega arith; size = refl }

pub Pushed-append :
    {s t : List ℕ} {a b c : Filled} → Pushed s a b → Pushed t b c → Pushed (s ++ t) a c
Pushed-append {s} {t} {a} p q = record {
  text = q.text ∙ ap (λ l. l ++ t) p.text ∙ append_assoc (written a) s t;
  pos = omega (arith, q.pos, p.pos, length-append s t);
  size = q.size ∙ p.size;
}

pub push_byte-Pushed :
    (b : ℕ) (buf : Filled) → buf.pos < length buf.bytes → Pushed (b ∷ []) buf (push_byte b buf)
unfolding push_byte
push_byte-Pushed b buf h = rw (lt→ltb buf.pos (length buf.bytes) h) (record {
  text =
      ap (λ n. take n (set buf.bytes buf.pos b)) {y = suc buf.pos} (omega arith)
      ∙ take-set buf.bytes buf.pos b h;
  pos = omega arith;
  size = length-set buf.bytes buf.pos b;
})

pub push_bytes-Pushed :
    (s : List ℕ) (buf : Filled)
    → buf.pos + length s ≤ length buf.bytes
    → Pushed s buf (push_bytes s buf)
unfolding push_bytes
push_bytes-Pushed [] buf h = Pushed-nil buf
push_bytes-Pushed (b ∷ s) buf h =
    let first = push_byte-Pushed b buf (omega arith) in
    Pushed-append first
      (push_bytes-Pushed s (push_byte b buf) (omega (arith, first.pos, first.size)))
