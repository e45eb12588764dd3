-- ===== src/Syscall.antt =====
-- The system calls, kernel/src/syscall.rs: the dispatcher over the registers that the entry pushes, and
-- the user's memory. `read_char` is the parameter `wait`, which gives the char and the kernel after what the drivers
-- and other tasks did meanwhile; `commands::execute` is the parameter `commands`, which gives the kernel
-- after it.
pub mod Copy
pub mod Guard
pub mod Exec
mod Tests
use package.solaros.Prelude.{
  ℕ, zero, suc, ◌+◌, ◌-◌, ◌*◌, ◌/◌, ◌%◌, ◌^◌, Bool, true, false, ◌&&◌, ◌||◌, not, Option, none,
  some, List, [], ◌∷◌, ◌++◌, length, take, drop, min, bit_and, if◌then◌else◌, ltb, leb, ◌==◌,
}
use package.solaros.Prelude.Utf8.{encode_utf8, decode_utf8}
use solaros.Mem.{Paging, Tables, is_user_range}

-- `SyscallFrame`
pub record Frame : Type 0 where
  pub r9 : ℕ
  pub r8 : ℕ
  pub r10 : ℕ
  pub rdx : ℕ
  pub rsi : ℕ
  pub rdi : ℕ
  pub rcx : ℕ
  pub rax : ℕ
  pub rbx : ℕ
  pub rbp : ℕ
  pub r12 : ℕ
  pub r13 : ℕ
  pub r14 : ℕ
  pub r15 : ℕ
  pub r11 : ℕ

-- What the calls ask of the screen, and of `commands::execute`.
pub data Effect : Type 0 where
  print : List ℕ → Effect
  clear reset_colors backspace : Effect
  set_fg : ℕ → ℕ → ℕ → Effect
  run : List ℕ → Effect

-- The counter of pings, the bytes of memory, and the effects so far.
pub record Kernel : Type 0 where
  pub pings : ℕ
  pub bytes : ℕ → ℕ
  pub effects : List Effect

abbrev pub u64_max : ℕ
u64_max = 2 ^ 64 - 1

abbrev pub emit : Effect → Kernel → Kernel
emit e k = record k { effects = k.effects ++ e ∷ [] }

-- `copy_nonoverlapping` from memory and into it.
pub copy_out : ℕ → ℕ → (ℕ → ℕ) → List ℕ
copy_out zero a bytes = []
copy_out (suc n) a bytes = bytes a ∷ copy_out n (a + 1) bytes

pub copy_in : List ℕ → ℕ → (ℕ → ℕ) → ℕ → ℕ
copy_in [] a bytes = bytes
copy_in (b ∷ bs) a bytes = copy_in bs (a + 1) (λ x. if x == a then b else bytes x)

-- Whether the task terminates, the registers and the kernel after a call.
abbrev pub Answer : Type 0
Answer = Bool × Frame × Kernel

abbrev pub returns : ℕ → Frame → Kernel → Option Answer
returns v f k = some (false, record f { rax = v }, k)

-- The calls that need no memory.
abbrev pub ping : Frame → Kernel → Option Answer
ping f k = let n = (k.pings + 1) % 2 ^ 64 in returns n f (record k { pings = n })

abbrev pub console_effect : ℕ → ℕ → Kernel → Kernel
console_effect op a k =
    if op == 0
    then emit clear k
    else if op == 1
    then emit (set_fg (a / 65536 % 256) (a / 256 % 256) (a % 256)) k
    else if op == 2
    then emit reset_colors k
    else if op == 3
    then emit backspace k
    else k

module _ (p : Paging) (root : ℕ) (tables : Tables p) where
  abbrev pub max_write : ℕ
  max_write = 256

  -- A guarded call: `none` does not occur, since the check of the range ends.
  abbrev pub guarded : ℕ → ℕ → Frame → Kernel → Option Answer → Option Answer
  guarded buf n f k answer = elim (is_user_range p root buf n tables) [
    | none ↦ none
    | some accepted ↦ elim accepted [ false ↦ returns u64_max f k | true ↦ answer ]
  ]

  abbrev pub print_text : Option (List ℕ) → Kernel → Kernel
  print_text none k = k
  print_text (some cs) k = emit (print cs) k

  abbrev pub sys_write : Frame → Kernel → Option Answer
  sys_write f k =
      if f.rdi == 0
      then returns u64_max f k
      else if (f.rsi == 0) || (f.rdx == 0)
      then returns 0 f k
      else (let n = min f.rdx max_write in
          guarded f.rsi n f k (returns n f (print_text (decode_utf8 (copy_out n f.rsi k.bytes)) k)))

  -- The end of the call `read`: the char's bytes, if they fit.
  abbrev pub hand_over : ℕ → Frame → ℕ × Kernel → Option Answer
  hand_over n f (c, k) =
      let bs = encode_utf8 c in
      if ltb n (length bs)
      then returns 0 f k
      else returns (length bs) f (record k { bytes = copy_in bs f.rsi k.bytes })

  -- `read_char` may wait for ever, and `commands::execute` may not return: `none`.
  module _ (wait : Kernel → Option (ℕ × Kernel)) (commands : List ℕ → Kernel → Option Kernel) where
    abbrev pub after_wait : ℕ → Frame → Option (ℕ × Kernel) → Option Answer
    after_wait n f none = none
    after_wait n f (some r) = hand_over n f r

    abbrev pub sys_read : Frame → Kernel → Option Answer
    sys_read f k =
        if not (f.rdi == 0) || (f.rsi == 0) || (f.rdx == 0)
        then returns u64_max f k
        else (let n = min f.rdx 64 in guarded f.rsi n f k (after_wait n f (wait k)))

    abbrev pub after_commands : Frame → Option Kernel → Option Answer
    after_commands f none = none
    after_commands f (some k) = returns 0 f k

    abbrev pub run_text : Option (List ℕ) → Frame → Kernel → Option Answer
    run_text none f k = returns u64_max f k
    run_text (some cs) f k = after_commands f (commands cs (emit (run cs) k))

    abbrev pub sys_exec : Frame → Kernel → Option Answer
    sys_exec f k =
        let n = min f.rsi 512 in
        if (f.rdi == 0) || (f.rsi == 0)
        then returns u64_max f k
        else guarded f.rdi n f k (run_text (decode_utf8 (copy_out n f.rdi k.bytes)) f k)

    -- `syscall_dispatch`
    pub syscall_dispatch : Frame → Kernel → Option Answer
    unfolding copy_out copy_in
    syscall_dispatch f k =
        if f.rax == 1
        then ping f k
        else if f.rax == 2
        then some (true, f, k)
        else if f.rax == 3
        then sys_write f k
        else if f.rax == 4
        then sys_read f k
        else if f.rax == 7
        then returns 0 f (console_effect f.rdi f.rsi k)
        else if f.rax == 8
        then sys_exec f k
        else returns u64_max f k
