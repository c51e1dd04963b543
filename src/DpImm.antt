-- ===== src/DpImm.antt =====
-- Data processing with an immediate: emu/src/exec_dp_imm.c, and the decoder of logical immediates
-- `decode_bitmask_imm` of emu/src/cpu.c.
pub mod Bitmask
pub mod Handlers
pub mod Bitfield
pub mod Valid
pub mod Constants
pub mod Shifts
pub mod Undefined
pub mod Masks
