-- ===== src/Text.antt =====
-- What the sources use of Go's bytes, strings and strconv packages, over the bytes of a text.
pub mod Compare
pub mod Search
pub mod Split
pub mod Number
pub mod Utf8
pub mod Unquote
pub mod Hex
pub mod Trim
pub mod Filepath
pub mod Sort
