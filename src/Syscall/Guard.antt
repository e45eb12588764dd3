-- ===== src/Syscall/Guard.antt =====
-- What the system calls may touch (kernel/src/syscall.rs).
use package.solaros.Prelude.{
  ℕ, ◌+◌, ◌%◌, ◌^◌, ◌≤◌, ◌<◌, ◌≡◌, ◌≢◌, ◌↔◌, ◌⊎◌, inl, inr, refl, Bool, true, false, not, ◌||◌,
  Option, none, some, List, length, arith, min, ltb, ◌==◌, ==_iff, Bool-cases,
}
use package.solaros.Prelude.Utf8.{encode_utf8, decode_utf8}
use solaros.Mem.{Paging, Tables, is_user_range}
use solaros.Mem.Access.{IsUser}
use solaros.Mem.Range.{is_user_range_iff, is_user_range_ends}
use solaros.Syscall.Copy.{copy_in-outside}
use solaros.Syscall.{
  Frame, Kernel, Answer, u64_max, returns, guarded, copy_out, copy_in, console_effect, sys_write,
  sys_read, sys_exec, hand_over, print_text, run_text, run, emit, after_wait, after_commands,
  syscall_dispatch,
}

module _ (p : Paging) (root : ℕ) (tables : Tables p) (wait : Kernel → Option (ℕ × Kernel))
    (commands : List ℕ → Kernel → Option Kernel) where
  -- The memory after a call: as it was; or as the wait for a key left it, but for the first 64 bytes of the
  -- buffer, each the user's unless the buffer comes within a page of 2^64; or as a command left it.
  pub data Touched (f : Frame) (k : Kernel) (bytes : ℕ → ℕ) : Type 0 where
    untouched : ((a : ℕ) → bytes a ≡ k.bytes a) → Touched f k bytes
    received :
        {c : ℕ} {k' : Kernel}
        → wait k ≡ some (c, k')
        → ((a : ℕ)
            → (bytes a ≡ k'.bytes a)
              ⊎ (f.rsi ≤ a)
                × (a < f.rsi + 64)
                × (IsUser p root tables a ⊎ (2 ^ 64 < f.rsi + 64 + 4096)))
        → Touched f k bytes
    commanded :
        {line : List ℕ} {k' : Kernel}
        → commands line (emit (run line) k) ≡ some k'
        → ((a : ℕ) → bytes a ≡ k'.bytes a)
        → Touched f k bytes

  -- What a call does: rax alone changes of the registers, and the task ends for call 2 only.
  pub record Served (f : Frame) (k : Kernel) (r : Answer) : Type 0 where
    pub only_rax : r.1 ≡ record f { rax = r.1.rax }
    pub ends : (r.0 ≡ true) ↔ (f.rax ≡ 2)
    pub memory : Touched f k r.2.bytes

  -- The call returns; or it is a read whose wait does not end, or a command that does not return.
  pub data Serves (f : Frame) (k : Kernel) : Option Answer → Type 0 where
    served : {r : Answer} → Served f k r → Serves f k (some r)
    waiting : f.rax ≡ 4 → wait k ≡ none → Serves f k none
    commanding :
        (line : List ℕ) → f.rax ≡ 8 → commands line (emit (run line) k) ≡ none → Serves f k none

  module _ (f : Frame) (continues : f.rax ≢ 2) (k : Kernel) where
    returns-Serves : (v : ℕ) (k' : Kernel) → Touched f k k'.bytes → Serves f k (returns v f k')
    returns-Serves v k' memory =
        served
          (record { only_rax = refl; ends = (λ e. cc, λ e. absurd (continues e)); memory = memory })

    plain : (v : ℕ) → Serves f k (returns v f k)
    plain v = returns-Serves v k (untouched (λ a. refl))

    guarded-Serves :
        (buf n : ℕ) (answer : Option Answer)
        → (is_user_range p root buf n tables ≡ some true → Serves f k answer)
        → Serves f k (guarded p root tables buf n f k answer)
    guarded-Serves buf n answer accepted =
        let (b, e) = is_user_range_ends p root buf n tables in by_answer b e
      where
        by_answer :
            (b : Bool)
            → is_user_range p root buf n tables ≡ some b
            → Serves f k (guarded p root tables buf n f k answer)
        by_answer false e = rw (e, guarded) (plain u64_max)
        by_answer true e = rw (e, guarded) (accepted e)

    print_text-bytes :
        (o : Option (List ℕ)) (a : ℕ) → (print_text p root tables o k).bytes a ≡ k.bytes a
    print_text-bytes none a = refl
    print_text-bytes (some cs) a = refl

    console_effect-bytes : (op c : ℕ) (a : ℕ) → (console_effect op c k).bytes a ≡ k.bytes a
    console_effect-bytes op c a = ground arith

    sys_write-Serves : Serves f k (sys_write p root tables f k)
    sys_write-Serves = elim (Bool-cases (f.rdi == 0)) [
      | inl e ↦ rw e (plain u64_max)
      | inr e ↦ elim (Bool-cases ((f.rsi == 0) || (f.rdx == 0))) [
        | inl q ↦ rw (e, q) (plain 0)
        | inr q ↦
            let n = min f.rdx 256 in
            let text = decode_utf8 (copy_out n f.rsi k.bytes) in
            rw (e, q)
              (guarded-Serves f.rsi n (returns n f (print_text p root tables text k)) (λ accepted.
                returns-Serves n (print_text p root tables text k)
                  (untouched (print_text-bytes text))))
      ]
    ]

    run_text-Serves :
        f.rax ≡ 8 → (o : Option (List ℕ)) → Serves f k (run_text p root tables wait commands o f k)
    run_text-Serves eight none = plain u64_max
    run_text-Serves eight (some cs) = by_end (commands cs (emit (run cs) k)) refl
      where
        by_end :
            (o : Option Kernel)
            → commands cs (emit (run cs) k) ≡ o
            → Serves f k (after_commands p root tables wait commands f o)
        by_end none e = commanding cs eight e
        by_end (some k') e = returns-Serves 0 k' (commanded e (λ a. refl))

    sys_exec-Serves : f.rax ≡ 8 → Serves f k (sys_exec p root tables wait commands f k)
    sys_exec-Serves eight = elim (Bool-cases ((f.rdi == 0) || (f.rsi == 0))) [
      | inl q ↦ rw q (plain u64_max)
      | inr q ↦
          let n = min f.rsi 512 in
          let text = decode_utf8 (copy_out n f.rdi k.bytes) in
          rw q (
            guarded-Serves f.rdi n (run_text p root tables wait commands text f k)
              (λ accepted. run_text-Serves eight text))
    ]

    -- The bytes of a char are written inside the range that was checked.
    hand_over-Serves :
        (n c : ℕ) (k' : Kernel)
        → n ≤ 64
        → wait k ≡ some (c, k')
        → ((a : ℕ)
            → f.rsi ≤ a
            → a < f.rsi + n
            → IsUser p root tables a ⊎ (2 ^ 64 < f.rsi + 64 + 4096))
        → Serves f k (hand_over p root tables n f (c, k'))
    hand_over-Serves n c k' small e users = elim (Bool-cases (ltb n (length (encode_utf8 c)))) [
      | inl long ↦ rw long (returns-Serves 0 k' (received e (λ a. inl refl)))
      | inr fits ↦ rw fits (
          returns-Serves (length (encode_utf8 c))
            (record k' { bytes = copy_in (encode_utf8 c) f.rsi k'.bytes })
            (received e (λ a. written a (ground arith))))
    ]
      where
        written :
            (a : ℕ)
            → length (encode_utf8 c) ≤ n
            → (copy_in (encode_utf8 c) f.rsi k'.bytes a ≡ k'.bytes a)
              ⊎ (f.rsi ≤ a)
                × (a < f.rsi + 64)
                × (IsUser p root tables a ⊎ (2 ^ 64 < f.rsi + 64 + 4096))
        written a fits = elim (Bool-cases (ltb a f.rsi)) [
          | inl before ↦ inl (copy_in-outside (encode_utf8 c) f.rsi k'.bytes a (inl (ground arith)))
          | inr low ↦ elim (Bool-cases (ltb a (f.rsi + n))) [
            | inl inside ↦
                let from : f.rsi ≤ a = ground arith in
                let to : a < f.rsi + n = ground arith in inr (from, omega arith, users a from to)
            | inr behind ↦
                inl (copy_in-outside (encode_utf8 c) f.rsi k'.bytes a (inr (ground arith)))
          ]
        ]

    -- An accepted range is the user's, unless it comes within a page of 2^64.
    accepted-users :
        (n : ℕ)
        → 0 < n
        → n ≤ 64
        → is_user_range p root f.rsi n tables ≡ some true
        → (a : ℕ) → f.rsi ≤ a
        → a < f.rsi + n
        → IsUser p root tables a ⊎ (2 ^ 64 < f.rsi + 64 + 4096)
    accepted-users n pos small accepted a low high =
        elim (Bool-cases (ltb (2 ^ 64) (f.rsi + 64 + 4096))) [
          | inl over ↦ inr (ground arith)
          | inr under ↦
              let fits : f.rsi + n + 4096 ≤ 2 ^ 64 = ground arith in
              inl ((is_user_range_iff p root f.rsi n tables pos fits).0 accepted a low high)
        ]

    sys_read-Serves : f.rax ≡ 4 → Serves f k (sys_read p root tables wait commands f k)
    sys_read-Serves four = elim (Bool-cases (not (f.rdi == 0) || (f.rsi == 0) || (f.rdx == 0))) [
      | inl bad ↦ rw bad (plain u64_max)
      | inr good ↦
          let n = min f.rdx 64 in
          let some_room : 0 < n = ground arith in
          rw good (
            guarded-Serves f.rsi n (after_wait p root tables wait commands n f (wait k))
              (λ accepted.
                by_wait n (omega arith) (accepted-users n some_room (omega arith) accepted) (wait k)
                  refl))
    ]
      where
        by_wait :
            (n : ℕ)
            → n ≤ 64
            → ((a : ℕ)
                → f.rsi ≤ a
                → a < f.rsi + n
                → IsUser p root tables a ⊎ (2 ^ 64 < f.rsi + 64 + 4096))
            → (o : Option (ℕ × Kernel)) → wait k ≡ o
            → Serves f k (after_wait p root tables wait commands n f o)
        by_wait n small users none e = waiting four e
        by_wait n small users (some (c, k')) e = hand_over-Serves n c k' small e users

  -- For every call, in a kernel whose page tables do not change meanwhile: the dispatcher returns, unless the wait
  -- for a key does not end or a command does not return. Then rax is the only register that changes, the task
  -- ends exactly for call 2, and memory stays as it was, or as a command left it, or as the wait for a key left
  -- it but for the first 64 bytes of the buffer, which are the user's unless the buffer comes within a page of
  -- 2^64.
  pub syscall_dispatch-Served :
      (f : Frame) (k : Kernel) → Serves f k (syscall_dispatch p root tables wait commands f k)
  unfolding syscall_dispatch
  syscall_dispatch-Served f k = elim (Bool-cases (f.rax == 2)) [
    | inl exit ↦
        let two = (==_iff f.rax 2).0 exit in
        let not_ping : (f.rax == 1) ≡ false = ground arith in
        rw (not_ping, exit)
          (served (record {
            only_rax = refl;
            ends = (λ e. two, λ e. refl);
            memory = untouched (λ a. refl);
          }))
    | inr other ↦ continues (ground arith) other
  ]
    where
      continues :
          f.rax ≢ 2
          → (f.rax == 2) ≡ false
          → Serves f k (syscall_dispatch p root tables wait commands f k)
      continues ne q = elim (Bool-cases (f.rax == 1)) [
        | inl e ↦ rw e (
            returns-Serves f ne k ((k.pings + 1) % 2 ^ 64)
              (record k { pings = (k.pings + 1) % 2 ^ 64 }) (untouched (λ a. refl)))
        | inr r ↦ elim (Bool-cases (f.rax == 3)) [
          | inl e ↦ rw (r, q, e) (sys_write-Serves f ne k)
          | inr s ↦ elim (Bool-cases (f.rax == 4)) [
            | inl e ↦ rw (r, q, s, e) (sys_read-Serves f ne k ((==_iff f.rax 4).0 e))
            | inr t ↦ elim (Bool-cases (f.rax == 7)) [
              | inl e ↦
                  rw (r, q, s, t, e)
                    (returns-Serves f ne k 0 (console_effect f.rdi f.rsi k)
                      (untouched (console_effect-bytes f ne k f.rdi f.rsi)))
              | inr u ↦ elim (Bool-cases (f.rax == 8)) [
                | inl e ↦ rw (r, q, s, t, u, e) (sys_exec-Serves f ne k ((==_iff f.rax 8).0 e))
                | inr v ↦ rw (r, q, s, t, u, v) (plain f ne k u64_max)
              ]
            ]
          ]
        ]
      ]
