-- ===== src/Process.antt =====
-- A process of emu/include/process.h, and the table of emu/src/process.c.
pub mod State
pub mod Call
pub mod Table
pub mod Wait
pub mod Find
pub mod Exit
pub mod Family
pub mod Waited
pub mod Fds
pub mod Slots
