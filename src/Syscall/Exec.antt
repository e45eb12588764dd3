-- ===== src/Syscall/Exec.antt =====
-- The calls of the user shell, as the kernel serves them (user/src/main.rs and kernel/src/syscall.rs).
use package.solaros.Prelude.{
  ℕ, ◌+◌, ◌*◌, ◌/◌, ◌%◌, ◌≤◌, ◌<◌, ◌≡◌, ◌≢◌, refl, true, false, ◌||◌, some, List, length, arith,
  All, min, ◌==◌, Option, none,
}
use package.solaros.Prelude.Utf8.{IsScalar, encode_all, decode_utf8-encode_all}
use solaros.Mem.{Paging, Tables, is_user_range}
use solaros.Shell.{Call, write, console, exec}
use solaros.Shell.Commands.{encode_line}
use solaros.Shell.Commands.Forward.{decode_utf8-encode_line}
use solaros.Syscall.{
  Frame, Kernel, Answer, Effect, print, clear, reset_colors, backspace, set_fg, run, emit, copy_out,
  guarded, after_commands, syscall_dispatch,
}

-- The registers of a call: its number and its arguments, with its bytes at `ptr`.
abbrev pub frame_of : ℕ → Frame → Call → Frame
frame_of ptr f (write b) = record f { rax = 3; rdi = 1; rsi = ptr; rdx = length b }
frame_of ptr f (console op a) = record f { rax = 7; rdi = op; rsi = a; rdx = 0 }
frame_of ptr f (exec b) = record f { rax = 8; rdi = ptr; rsi = length b; rdx = 0 }

-- What a call is to do.
pub data Means : Call → Effect → Type 0 where
  text : (cs : List ℕ) → All IsScalar cs → Means (write (encode_all cs)) (print cs)
  cleared : (a : ℕ) → Means (console 0 a) clear
  colored :
      (r g b : ℕ)
      → r < 256
      → g < 256
      → b < 256
      → Means (console 1 (r * 65536 + g * 256 + b)) (set_fg r g b)
  plain : (a : ℕ) → Means (console 2 a) reset_colors
  erased : (a : ℕ) → Means (console 3 a) backspace
  forwarded :
      (line : List ℕ)
      → All IsScalar line
      → length line ≤ 128
      → Means (exec (encode_line line)) (run line)

-- The kernel after an effect; a command may not return.
abbrev pub performs : (List ℕ → Kernel → Option Kernel) → Effect → Kernel → Option Kernel
performs commands (run line) k = commands line (emit (run line) k)
performs commands e k = some (emit e k)

-- The task goes on with these registers.
abbrev pub goes_on : Frame → Option Kernel → Option Answer
goes_on f none = none
goes_on f (some k) = some (false, f, k)

module _ (p : Paging) (root : ℕ) (tables : Tables p) where
  -- Bytes that the user's memory holds at `ptr`, on pages of the user.
  pub record IsHeld (ptr : ℕ) (k : Kernel) (bs : List ℕ) : Type 0 where
    pub at : ptr ≢ 0
    pub some_byte : 0 < length bs
    pub held : copy_out (length bs) ptr k.bytes ≡ bs
    pub user : is_user_range p root ptr (length bs) tables ≡ some true

  -- What a call finds in memory; one `write` has at most 256 bytes.
  abbrev pub IsReady : ℕ → Kernel → Call → Type 0
  IsReady ptr k (write b) = IsHeld ptr k b × (length b ≤ 256)
  IsReady ptr k (console op a) = Unit {0}
  IsReady ptr k (exec b) = IsHeld ptr k b

  -- The result of a call in rax.
  abbrev pub result_of : Call → ℕ
  result_of (write b) = length b
  result_of (console op a) = 0
  result_of (exec b) = 0

  zero_test : (n : ℕ) → n ≢ 0 → (n == 0) ≡ false
  zero_test n h = ground arith

  after_commands-goes_on :
      (wait : Kernel → Option (ℕ × Kernel)) (commands : List ℕ → Kernel → Option Kernel) (f : Frame)
      (o : Option Kernel)
      → after_commands p root tables wait commands f o ≡ goes_on (record f { rax = 0 }) o
  after_commands-goes_on wait commands f none = refl
  after_commands-goes_on wait commands f (some k) = refl

  -- For every call of the shell with valid text, a line of at most 128 chars and at most 256 bytes to write: when
  -- its bytes are held on pages of the user, the dispatcher does exactly what the call means (a line
  -- goes to the commands, and if these do not return, neither does the call), goes on in the task, and returns
  -- the number of bytes written, or 0.
  pub syscall_dispatch-Means :
      (wait : Kernel → Option (ℕ × Kernel)) (commands : List ℕ → Kernel → Option Kernel) (ptr : ℕ)
      (f : Frame) (k : Kernel) {c : Call} {e : Effect}
      → Means c e
      → IsReady ptr k c
      → syscall_dispatch p root tables wait commands (frame_of ptr f c) k
        ≡ goes_on (record (frame_of ptr f c) { rax = result_of c }) (performs commands e k)
  unfolding syscall_dispatch
  syscall_dispatch-Means wait commands ptr f k (text cs all) (h, short) =
      let bs = encode_all cs in
      let tests : ((ptr == 0) || (length bs == 0)) ≡ false = ground (arith, h.at, h.some_byte) in
      let n : min (length bs) 256 ≡ length bs = omega arith in
      rw tests (rw n (rw (h.user, guarded) (rw h.held (rw (decode_utf8-encode_all cs all)))))
  syscall_dispatch-Means wait commands ptr f k (cleared a) h = refl
  syscall_dispatch-Means wait commands ptr f k (colored r g b hr hg hb) h =
      let red : (r * 65536 + g * 256 + b) / 65536 % 256 ≡ r = omega arith in
      let green : (r * 65536 + g * 256 + b) / 256 % 256 ≡ g = omega arith in
      let blue : (r * 65536 + g * 256 + b) % 256 ≡ b = omega arith in rw (red, green, blue)
  syscall_dispatch-Means wait commands ptr f k (plain a) h = refl
  syscall_dispatch-Means wait commands ptr f k (erased a) h = refl
  syscall_dispatch-Means wait commands ptr f k (forwarded line all short) h =
      let bs = encode_line line in
      let both = decode_utf8-encode_line line short all in
      let tests : ((ptr == 0) || (length bs == 0)) ≡ false = ground (arith, h.at, h.some_byte) in
      let n : min (length bs) 512 ≡ length bs = omega (arith, both.0) in
      rw tests (
        rw n (
          rw (h.user, guarded)
            (rw h.held (
              rw both.1 (
                after_commands-goes_on wait commands (frame_of ptr f (exec bs))
                  (commands line (emit (run line) k)))))))
