-- ===== src/Machine.antt =====
-- The state of one guest thread with the memory that it works on, and the accesses of the loads and
-- stores to it.
mod State
pub mod Valid
unfoldable pub use State.*
