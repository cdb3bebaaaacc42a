-- ===== src/Examples.antt =====
-- The theorems at concrete inputs.
pub mod Log
pub mod Images
pub mod Payloads
pub mod Access
pub mod Nodes
pub mod Workers
pub mod Recovery
pub mod Boats
pub mod Launch
pub mod Net
