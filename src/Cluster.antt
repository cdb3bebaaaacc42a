-- ===== src/Cluster.antt =====
-- cluster.rs, the parts that decide without other nodes' help: the clock of a node and the leases it
-- checks, and the durable claims to objects.
pub mod Clock
pub mod Claims
pub mod Leases
pub mod Requests
pub mod Boot
pub mod Claiming
pub mod Wire
pub mod Nonce
