-- ===== src/Branch.antt =====
-- Branches, exceptions and system registers: emu/src/exec_branch.c and emu/src/exec_system.c.
pub mod System
pub mod Exec
pub mod Valid
pub mod Targets
pub mod Compare
pub mod ThreadPointer
