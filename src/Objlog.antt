-- ===== src/Objlog.antt =====
-- objlog.rs: the log-structured commit. The keys, the entry format, and the protocol over the blob
-- store as programs that other tasks may interleave with.
pub mod Keys
pub mod Entry
pub mod Io
pub mod Spares
pub mod Hoare
pub mod Yields
pub mod Runs
pub mod Gentle
pub mod Protocol
pub mod Outcome
pub mod Prewrite
pub mod Lockstep
