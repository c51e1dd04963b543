-- ===== src/Vfs.antt =====
-- The virtual file system: paths and mounts of emu/src/vfs.c.
pub mod Path
pub mod Mount
pub mod Normal
pub mod Longest
pub mod Resolve
pub mod Contained
pub mod Bound
