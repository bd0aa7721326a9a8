-- ===== src/Text.antt =====
-- Python's `str` as a list of code points, with the methods that the program calls. What those
-- methods take from the Unicode character database above ASCII is a parameter.
mod Chars
pub mod Equality
pub mod Strip
pub mod Split
pub mod Lines
pub mod Search
pub mod Number
pub mod Decimal
unfoldable pub use Chars.*
