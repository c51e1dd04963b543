-- ===== src/Cpu.antt =====
-- The processor of emu/include/cpu.h and emu/src/cpu.c: registers, instruction fields and sign
-- extension. A register array is a function of the index, which every caller keeps below 32.
mod State
pub mod Fields
pub mod Flags
pub mod Condition
pub mod Valid
pub mod Kept
unfoldable pub use State.*
unfoldable pub use Fields.*
