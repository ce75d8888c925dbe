-- ===== src/Go.antt =====
-- What the code uses of the Go standard library on strings and paths.
pub mod Strings
pub mod Path
