-- ===== src/Text.antt =====
-- Rust's `&str` and `String` as lists of Unicode scalar values, with the operations of the standard
-- library that the program calls. A length in bytes is that of the UTF-8 encoding.
mod Defs
mod Equality
pub mod Search
pub mod Replace
unfoldable pub use Defs.*
pub use Equality.*
