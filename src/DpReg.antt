-- ===== src/DpReg.antt =====
-- Data processing on registers: emu/src/exec_dp_reg.c.
pub mod Arith
pub mod Select
pub mod OneSource
pub mod TwoSource
pub mod ThreeSource
pub mod Ranges
pub mod Dispatch
pub mod Valid
pub mod HighProduct
pub mod Counts
pub mod Reverse
