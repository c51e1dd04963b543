-- ===== src/Bits.antt =====
-- `&`, `|` and `^` of C at variables: how they act on two parts of a word, and their ranges.
mod Step
mod Split
mod Range
mod Digit
mod Power
mod Sign
pub use Step.*
pub use Split.*
pub use Range.*
pub use Digit.*
pub use Power.*
pub use Sign.*
