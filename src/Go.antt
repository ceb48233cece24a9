-- ===== src/Go.antt =====
-- The parts of Go's standard library that the program calls, as far as it uses them.
pub mod Text
pub mod Strconv
pub mod Scan
pub mod Regexp
pub mod Runtime
