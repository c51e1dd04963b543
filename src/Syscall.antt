-- ===== src/Syscall.antt =====
-- System calls: those on memory, of emu/src/sys_memory.c.
pub mod Memory
pub mod Remap
