-- ===== src/Prelude/Bits.antt =====
-- Binary digits of a number, and what `&`, `|` and `~` do to them.
mod Step
mod Digits
mod Fields
mod Masks
mod Arrays
unfoldable pub use Digits.*
pub use Fields.*
pub use Masks.*
unfoldable pub use Arrays.*
