-- ===== src/Grants.antt =====
-- grants.rs: capability tokens. A `&str` is the list of its bytes, and a panic is a value.
pub mod Hex
pub mod Tokens
pub mod Verbs
pub use Hex.{Panics, returned, panicked, hex, unhex}
