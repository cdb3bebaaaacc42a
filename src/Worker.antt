-- ===== src/Worker.antt =====
-- worker.rs: a logical worker, one serial loop that admits, runs and ships transactions on the objects
-- that it owns. `State` has its state, the other modules its operations.
pub mod State
pub mod Transfer
pub mod Queues
pub mod Handoff
pub mod Ship
pub mod Revert
pub mod Boats
pub mod Idle
pub mod Recovery
pub mod Acquire
pub mod Components
pub mod Polls
pub mod Launch
pub mod Execute
pub mod Dirty
pub mod Complete
pub mod Durable
