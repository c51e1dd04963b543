-- ===== src/Signal.antt =====
-- Signals: emu/src/signal_emu.c and the system calls of emu/src/sys_signal.c.
pub mod Mask
pub mod Frame
pub mod Deliver
pub mod Saved
pub mod Calls
pub mod Kill
pub mod Fields
pub mod Restored
pub mod Return
pub mod Lowest
pub mod Guard
pub mod Steps
pub mod Took
pub mod Killed
pub mod Forged
pub mod Target
