-- ===== src/Go.antt =====
-- What the program uses of Go's standard library, on strings as lists of bytes.
pub mod Text
pub mod Net
pub mod Bytes
