-- ===== src/LoadStore.antt =====
-- Loads and stores: emu/src/exec_ldst.c.
pub mod Access
pub mod Register
pub mod Pair
pub mod Exclusive
pub mod Dispatch
pub mod Valid
pub mod Found
pub mod Words
pub mod Stack
pub mod Monitor
pub mod Prefetch
