-- ===== src/Routing.antt =====
-- cluster.rs, the routing map: where an object's worker is, and which lease block covers a worker.
pub mod Blocks
pub mod Claimed
pub mod Hash
pub mod Placement
