-- ===== src/Memory.antt =====
-- Guest memory: the regions of emu/src/memory.c and the software TLB of emu/include/cpu.h.
pub mod Space
pub mod Access
pub mod Layout
pub mod Insert
pub mod Gap
pub mod Coherent
pub mod RoundTrip
pub mod Host
pub mod Unmap
pub mod View
pub mod Map
pub mod Brk
pub mod Protect
pub mod Stale
pub mod Guest
pub mod Words
pub mod Fresh
pub mod Clone
