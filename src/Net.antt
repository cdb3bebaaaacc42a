-- ===== src/Net.antt =====
-- What crosses between tasks and nodes: the RPC of rpc.rs, the routing of transactions of cluster.rs,
-- and the take of an object of worker.rs.
pub mod Rpc
pub mod Task
pub mod Submit
pub mod Take
