-- ===== src/Step.antt =====
-- The interpreter's main loop, in emu/src/cpu.c.
pub mod Run
pub mod Fetch
pub mod Advance
pub mod Valid
