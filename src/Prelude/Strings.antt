-- ===== src/Prelude/Strings.antt =====
-- Go's strings, and the functions of its `strings` package that the program uses.
mod Bytes
mod Search
pub mod Digits
pub mod Trim
pub mod Hex
pub use Bytes.{Text, text, is_empty, text_eq_iff, text_eq_refl}
unfoldable pub use Bytes.{text_eq}
unfoldable pub use Search.{
  has_prefix, trim_byte, cut, contains_byte, space_width, last_space_width, trim_from, trim_space,
  to_lower,
}
