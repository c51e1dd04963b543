-- ===== src/Lib.antt =====
-- A model of the ARM64 emulator in emu/, with proofs that its instructions do what the architecture
-- asks.
--
-- The interpreter (`cpu_exec_one` in emu/src/cpu.c) fetches a word through the software TLB of
-- emu/include/cpu.h, which falls back on the regions of emu/src/memory.c, dispatches on bits 28:25
-- to one of the handlers, and moves the program counter on if the handler left it alone.
--
-- Prelude has the library names, Boolean tests, words of C and arrays; Bits has the lemmas on binary
-- digits. The program's parts are
--   Cpu      emu/include/cpu.h and the flags of emu/src/cpu.c: State (`cpu_state_t`, `cpu_xreg`,
--            `cpu_set_xreg` and so on), Fields (`bits`, `bit`, `sign_extend`), Flags
--            (`cpu_update_flags_*`, `cpu_check_cond`), Condition, Valid (the invariant), Kept;
--   Decoder  emu/src/decoder.c: `apply_shift`, `apply_shift32`, `extend_reg`;
--   DpImm    emu/src/exec_dp_imm.c, and `decode_bitmask_imm` of emu/src/cpu.c in Bitmask;
--   DpReg    emu/src/exec_dp_reg.c: Arith, Select, OneSource, TwoSource, ThreeSource, Dispatch;
--   Branch   emu/src/exec_branch.c in Exec and emu/src/exec_system.c in System;
--   Memory   Space (`mem_region_t`, `mem_translate`, the TLB functions), Access (`cpu_mem_*`), and of
--            emu/src/memory.c Insert (`region_insert`), Gap (the search of `mem_mmap`), Unmap
--            (`unmap_range`, `mem_munmap`), Map (`mem_mmap`), Brk (`mem_brk`) and Protect
--            (`mem_mprotect`); View is what the regions hold, Fresh what a thread with an empty TLB
--            loads, and Host what the code asks of its host; Guest has the accessors of system calls
--            (`mem_read*`, `mem_write*`), and Clone `mem_space_clone` and `mem_mmap_host`;
--   Machine  the processor with its memory, and the calls of `cpu_mem_*` in a handler;
--   LoadStore  emu/src/exec_ldst.c: Access (`do_load`, `do_store`), Register, Pair, Exclusive and
--            Dispatch;
--   Process  emu/include/process.h and emu/src/process.c: State (`emu_process_t`), Table (`proc_find`,
--            `proc_exit` and the passes of `proc_wait`), Wait (`proc_wait`), Call (the accesses of a
--            system call), Fds (the table of descriptors: `fd_alloc_init`, `fd_close` and so on);
--   Signal   emu/src/signal_emu.c and emu/src/sys_signal.c: Mask (`sig_action`, `sig_procmask`,
--            `sig_send`, `sig_pending`), Deliver (`sig_deliver`), Frame (the signal frame and
--            `do_rt_sigreturn`), Calls and Kill (the other system calls, `sys_signal`);
--   Vfs      emu/src/vfs.c: Path (`vfs_normalize_path`), Mount (`vfs_mount`, `vfs_find_mount`), Resolve
--            (`vfs_resolve_rw`);
--   Syscall  emu/src/sys_memory.c: Memory (`do_mmap`, `do_mremap`, `sys_memory` and so on);
--   Step     `cpu_exec_one`, `cpu_step` and `cpu_run` of emu/src/cpu.c.
-- The other files hold the proofs, and Tests the concrete runs.
--
-- Words are native numbers, and every operation of C that wraps says so (`add64`, `shl32`, `u32`).
-- A handler takes the state and the instruction to an `Outcome`: the code of emu/include/emu.h and
-- the new state, or `undefined` where C shifts by a negative count or by the width of the operand.
-- Signed values are their two's complement patterns. The register file, the TLB and host memory are
-- functions of the index; a C array out of whose bounds no index can lead needs no more.
--
-- Loops that C bounds by a register width are structural, or on fuel that suffices: seven rounds for
-- the length of a mask, six to replicate it (the element doubles from 2 up to 64), the width for
-- CLZ and CLS. The search for a gap gets one round for each region and one more. The forty links that
-- `vfs_resolve_rw` follows at most are the code's own limit.
--
-- The monotonic clock is a parameter (`Clock`), read once by the instruction that reads the
-- counter. SIMD (emu/src/exec_simd.c) is not modelled: it is an argument `exec_simd`, which gets the
-- structure loads and stores too, and of which nothing is assumed. The host of the address space is
-- a record of answers (`Host`): the blocks that calloc, realloc and mmap find, and what pread reads;
-- `Serves` says that a new block is apart from those in use and that there is memory for one more.
-- What lstat and readlink say of the host's files is an argument of `vfs_resolve_rw`, as the answers
-- of dup and memfd_create are of the calls that use them.
--
-- No code flushes a TLB after the start of a thread, so what the regions hold is what the system
-- calls find and what a thread with an empty TLB loads, and an older thread may still load what was
-- there before.
--
-- A process is a record, and a pointer to it in the table is its pid. What other threads do while
-- `proc_wait` holds no lock is a list of changes of the table, two for each round of its loop, and
-- the loop is structural on that list. Locks, condition variables, reference counts and the wake-up
-- of futexes are left out.
--
-- Of emu/src/process.c fork, execve and the threads of the host are not modelled. The ELF loader, the
-- dispatch of system calls and those on files, sockets and time, the file systems behind the mounts,
-- native execution and the application are not modelled either.
pub mod Prelude
pub mod Bits
pub mod Cpu
pub mod Decoder
pub mod DpImm
pub mod DpReg
pub mod Branch
pub mod Memory
pub mod Machine
pub mod LoadStore
pub mod Step
pub mod Process
pub mod Signal
pub mod Vfs
pub mod Syscall
pub mod Tests
