-- ===== src/Text.antt =====
-- Python's `str` over ASCII: a text is the list of its code points. The functions are those of the
-- language that the source calls.
mod Base
mod Strip
mod Parts
mod Dict
pub mod Distinct
unfoldable pub use Base.*
unfoldable pub use Strip.*
unfoldable pub use Parts.*
unfoldable pub use Dict.*
