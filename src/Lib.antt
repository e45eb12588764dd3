-- ===== src/Lib.antt =====
-- Verification of Solaros, an x86_64 hobby kernel in Rust. The kernel runs tasks on a round-robin
-- scheduler that the timer interrupt drives, loads a user program into heap memory whose pages it
-- marks user-accessible, and serves system calls that check user pointers against the page tables.
--
-- Files, by the part of the program that they model:
--   Prelude          native numbers, lists, arrays, UTF-8, machine words and bit masks; no code of the
--                    program
--   Sched            kernel/src/sched.rs: `Scheduler` is SchedulerInner, `Machine` adds the statics,
--                    the registers and the memory; init, spawn, schedule (wake, pick, resume_next),
--                    sleep_until and terminate_current carry the source's names
--   Sched/Switch     the assembly context_switch of kernel/src/sched.rs
--   Mem              kernel/src/mem.rs: mark_one_page, mark_user_pages, check_one_page, is_user_range
--   Users            kernel/src/users.rs: `Users` holds the statics; add_user, next_uid, find,
--                    set_current, check_password and set_password carry the source's names
--   Users/Passwd     save_to_fs and load_from_fs of kernel/src/users.rs: `save_bytes` is the bytes
--                    that are written to /etc/passwd, `load_bytes` reads such bytes back
--   Heap             kernel/src/heap.rs: `Heap` is HeapInner with the headers of the free blocks in the
--                    memory; init, alloc (alloc_locked), dealloc, realloc and the choice of the region
--   Input            kernel/src/input.rs: the serial ring, its interrupt handler, and read_char
--   Keyboard         kernel/src/keyboard.rs: the Turkish layout, the scancode ring, decode_one and drain
--   Fs               kernel/src/fs.rs: paths, the current directory `Cwd` and cd
--   Fat              kernel/src/fat.rs: the allocation table: read_fat, write_fat, alloc_cluster, free_chain
--   Fat/Mount        kernel/src/fat.rs: mount_at, whose tests and layout are `read_boot`
--   Fat/Dir          kernel/src/fat.rs: walk_dir, look_up, find_pos, find_free_slot and the changes of an
--                    entry; one scan over sectors and slots, with the source's loop bodies as arguments
--   Fat/Names        kernel/src/fat.rs: make_83 and split_parent
--   Fat/Paths        kernel/src/fat.rs: parent_of, resolve, cluster_from_cwd and resolve_from_cwd
--   Fat/Contents     kernel/src/fat.rs: the loops of read_file and write_file over clusters and sectors, and
--                    the taking of a chain of clusters
--   Fat/Files        kernel/src/fat.rs: mkdir, touch, rm, rmdir, mv, read_file and write_file, as do blocks
--                    of a monad that passes the disk on and ends at the first error
--   Shell            user/src/main.rs: its calls as data, parse_args and history_push with their arrays
--   Shell/Commands   user/src/main.rs: the commands, encode_line and execute
--   Shell/Editor     user/src/main.rs: print_prompt, and `on_char` for one round of the loop of _start
--   Syscall          kernel/src/syscall.rs: syscall_dispatch with one function for each call; `Frame` is
--                    SyscallFrame, `Kernel` holds the counter, the memory and what the screen is asked
--   Crc              kernel/src/crc.rs: crc32c, by its two loops
--   Elf              kernel/src/elf.rs: the program headers, `span` for the extent of the image, load_segments,
--                    the relocations, and load_user_elf over a memory of bytes
--
-- The shell asks the kernel by `Call`s; Syscall/Exec joins both: what the dispatcher does for each.
--
-- State is passed explicitly. A panic (an index out of range) is the result `none`. Sums that the
-- source leaves to the hardware wrap at 64 bits, as in a release build.
--
-- Fuel: the loop over the sleepers takes one round for each sleeper, since a round shortens the list
-- or moves the index on; the page loops take one round for each page and one more; next_uid takes one
-- round for each user and one more; the lines of /etc/passwd one for each byte; the walk over the free
-- list one for each free block; draining the keyboard one for each byte and one more; cd and resolve one
-- for each char of the path and one more. The scans and walks of a FAT32 volume take the source's own
-- guards as their fuel, the sectors of a cluster one round each, and the relocations of an image one for
-- each 24 bytes of their table. Where a theorem is about such a loop, it shows that the rounds suffice.
--
-- The entries of page tables come from the x86_64 crate; they are the parameter `Paging`, with the
-- crate's documented laws on flags as fields. The scancode decoders of the pc_keyboard crate are the
-- parameter `Decoders`. The reads and writes of sectors by the disk drivers are the parameter `Disk`, whose
-- laws say that a sector that was written is read back and that no other one changes. The check of a
-- directory by the mounted file system is an argument of cd; the poll of the keyboard is one of read_char.
-- A system call takes the page tables as they are, and two parameters: `wait`, which gives the char that
-- read_char returns and the kernel after what other tasks did meanwhile, or nothing when no key ever
-- comes; and `commands`, which gives the kernel that commands::execute leaves for a line, whatever it does to
-- the memory, or nothing when it does not return. The allocator's address for a new stack and the boot
-- stack's top are arguments.
--
-- Not modelled: port and MMIO drivers (ATA, AHCI, PCI, PS/2, APIC, ACPI, GDT, interrupts, UART,
-- framebuffer), since they are hardware access; the ext4 file system, and of FAT32 formatting, ls
-- and cat, which print (what is read from and written to /etc/passwd is an argument and a
-- result); the entry of system calls in assembly, which keeps the registers on the stack; the console's
-- display and the kernel's side of the shell (commands.rs). Messages printed by the modelled functions of
-- the kernel are left out.

pub mod Prelude
pub mod Sched
pub mod Mem
pub mod Users
pub mod Heap
pub mod Input
pub mod Keyboard
pub mod Fs
pub mod Fat
pub mod Shell
pub mod Syscall
pub mod Crc
pub mod Elf
