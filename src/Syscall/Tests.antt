-- ===== src/Syscall/Tests.antt =====
-- Runs of the system calls, and their theorems at these (kernel/src/syscall.rs).
use package.solaros.Prelude.{
  ℕ, ◌+◌, ◌-◌, ◌≤◌, ◌<◌, ◌≡◌, refl, Bool, true, false, Option, some, List, [], ◌∷◌, ◌++◌, length,
  arith, inl, get_or,
}
use package.solaros.Prelude.Utf8.{IsScalar, encode_all}
use solaros.Mem.{Tables, is_user_range, check_one_page}
use solaros.Mem.Tests.{paging}
use solaros.Shell.{write, codes}
use solaros.Syscall.{Frame, Kernel, Answer, print, emit, syscall_dispatch}
use solaros.Syscall.Guard.{Serves, syscall_dispatch-Served}
use solaros.Syscall.Exec.{frame_of, result_of, text, syscall_dispatch-Means}

-- Every page is the user's.
abbrev user_tables : Tables paging
user_tables = λ a. record { base = 0; bits = record { p = true; u = true; h = false; nx = false } }

abbrev word : List ℕ
word = codes "hi"

-- The word stands at 0x1000.
abbrev kernel : Kernel
kernel = record { pings = 0; bytes = λ a. get_or word (a - 0x1000) 0; effects = [] }

abbrev idle : Frame
idle = record {
  r9 = 9;
  r8 = 8;
  r10 = 10;
  rdx = 2;
  rsi = 0x1000;
  rdi = 0;
  rcx = 1;
  rax = 4;
  rbx = 3;
  rbp = 4;
  r12 = 12;
  r13 = 13;
  r14 = 14;
  r15 = 15;
  r11 = 11;
}

-- The user types `k`.
abbrev types_k : Kernel → Option (ℕ × Kernel)
types_k k = some (b'k', k)

-- Every command returns and prints nothing.
abbrev returning : List ℕ → Kernel → Option Kernel
returning line k = some k

syscall_dispatch-Served_example :
    Serves paging 0 user_tables types_k returning idle kernel
      (syscall_dispatch paging 0 user_tables types_k returning idle kernel)
syscall_dispatch-Served_example =
    syscall_dispatch-Served paging 0 user_tables types_k returning idle kernel

abbrev byte_read : Option Answer → ℕ
byte_read (some (stop, f, k)) = k.bytes 0x1000
byte_read _ = 0

read_run : byte_read (syscall_dispatch paging 0 user_tables types_k returning idle kernel) ≡ b'k'
unfolding syscall_dispatch is_user_range check_one_page solaros.Prelude.Utf8.encode_utf8
read_run = refl

word_user : is_user_range paging 0 0x1000 2 user_tables ≡ some true
unfolding is_user_range check_one_page
word_user = refl

word_held : solaros.Syscall.copy_out 2 0x1000 kernel.bytes ≡ word
unfolding solaros.Syscall.copy_out
word_held = refl

syscall_dispatch-Means_example :
    syscall_dispatch paging 0 user_tables types_k returning
      (frame_of 0x1000 idle (write (encode_all word)))
      kernel
    ≡ some (
      false,
      record (frame_of 0x1000 idle (write (encode_all word))) {
        rax = result_of paging 0 user_tables (write (encode_all word));
      },
      emit (print word) kernel,
    )
unfolding encode_all
syscall_dispatch-Means_example =
    syscall_dispatch-Means paging 0 user_tables types_k returning 0x1000 idle kernel
      (text word (inl (omega arith), (inl (omega arith), tt)))
      (
        record {
          at = λ e. absurd (omega arith);
          some_byte = omega arith;
          held = word_held;
          user = word_user;
        },
        omega arith,
      )
