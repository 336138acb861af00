-- ===== src/Codec.antt =====
-- What the program uses of Go's `encoding/base64`, `encoding/hex` and `strings`, on bytes.
-- A decoder gives `none` where Go's returns an error; the error's text is no part of it.
mod Partial
pub mod Base64
pub mod Hex
pub mod Strings
pub mod Integers
pub mod Paths
