-- ===== src/Lib.antt =====
-- fafo: single-writer SQLite objects over a blob store. This library models the parts of it that
-- decide what is durable, who owns what and who may do what, and proves them correct.
--
-- The program. A cluster of nodes keeps everything durable in a blob store. Logical workers are
-- leased to nodes in blocks; each object belongs to one worker, its hash home or an exception. An
-- object's history is a log of entries in the store, and a transaction over several objects is
-- decided by one blob that is created once. Clients hold capability tokens.
--
-- The files and the code, paths from the repository's root:
--   * Objlog: src/objlog.rs. Keys has the keys and their parsers, Entry the wire format of entries
--     and `fold`, Protocol the async functions under their own names. Io is what an async function
--     over `&dyn BlobStore` is: a program that makes store calls; `run` runs it on the store in
--     memory against a schedule. A schedule lists, for each call, the calls that other tasks make
--     before it, and whether it succeeds, fails, or takes effect and loses its answer. Spares,
--     Hoare, Yields, Runs, Gentle, Outcome, Prewrite and Lockstep are proofs. A loop of retries has
--     the source's bound as fuel.
--   * Store: src/store.rs, `MemInner` and `MemBlobStore`. An operation holds one lock to its end, so
--     it is a function of the state; an ordered map is a sorted association list.
--   * Delta: src/delta.rs. The page hash is a parameter. `chunks` has the length of the file as
--     fuel, enough as every chunk takes a byte.
--   * Grants: src/grants.rs. HMAC-SHA256 and serde_json are the parameter `Codec`; a panic is a
--     value.
--   * Routing: src/cluster.rs, `Routing`, `block_of`, `block_range`, `default_worker`, `fnv1a`,
--     `plurality_target`, `claimed_ranges` and `owns_worker`, with the wrap-around of `usize` and
--     `u64` written out. The order in which a hash map is walked is that of its association list.
--   * Cluster: src/cluster.rs. Clock has `NodeClock` and the guard's timing, with the float rate as
--     a parameter; Claims has `durable_claim`; Wire the formats of a checkpoint and of the cluster's
--     meta; Leases has the lease keys, `lease_from_keys` and `verify_leases`, where a stopped node is
--     the flag `fenced`; Claiming has `ClaimSpec`, `load_leases` and the part of `start` that takes
--     leases, where the answer of a health check is a parameter; Nonce the
--     nonce and the tag of a boot, whose loop has the source's 64 rounds, on a store's own `version`
--     and `put_cas` or on the defaults of the trait in src/store.rs; Boot has the part of `start`
--     that reads ownership out of the checkpoints; Requests has `validate_txn`, with `valid_id` of
--     src/object.rs.
--   * Net: Rpc has the messages of src/rpc.rs and what its callers make of an answer. Task is what an
--     async function that talks to peers is: a program of calls, hand-overs to workers of this node
--     and reads of the durable state; a `World` answers each action by all that was done before.
--     Submit has the routing of requests of src/cluster.rs: `resolve_addr`, `ensure_local_sender`,
--     `submit_as`, `submit_system`, `submit_routed`, `submit_received`, and the worker that
--     `submit_poll` and `cancel_poll` choose. Take has `take_task` and `send_adopt` of
--     src/worker.rs, on the tries that are left, eight as in the source; what other tasks make of
--     the routing map between two tries is left out.
--   * Worker: src/worker.rs. State has the state of a `Worker`, with the parts of its node that it
--     reads and writes; a reply channel is a number, and what is sent is logged. Transfer has
--     `release` and `admit`, Queues the queues with `service_front`, `grant_front`, `fail_txn` and
--     the handlers of Take, Adopt and CancelPoll, Idle that of Shed. Handoff puts releases and
--     admissions of any number of workers together as a step relation, without restarts, surrenders
--     and adoptions on a durable claim, and with the primary log off. Ship has `ship_task` up to
--     its answer, with the gate, the prewrites and the commit, and Landing the rest; a boat's staged
--     puts, which run concurrently, are made in turn. Boats has `ship_payload`,
--     `maybe_return_home` and parts of `on_ship_done`; Surrender puts those of a boat that lost its
--     prewrite together. Revert has `revert_closure`; its loop has one
--     more round of fuel than there are participants, enough as every round but the last adds one.
--     Acquire has `advance`, the fetch of an image, `on_activated` and `on_taken`; a spawned task
--     is part of the result, and the loop is a recursion over the participants that are left.
--     Recovery has `promote_staged`, `roll_forward`, `recover` and `recover_records_touching`.
--     SQLite and serde_json are parameters.
--     Components has `txn_components`: `find` has one more than the number of all participants as
--     fuel, enough as a union lengthens a chain of parents by one. Launch has `maybe_launch` up to
--     the boat that leaves; Execute has `cap_gate` and `apply` over a record of what the code uses of
--     SQLite; Complete and Dirty have `run_and_complete`, and Account the unshipped bytes;
--     Polls has `poll_hash`, `poll_ready`, `take_fired_polls`, the catching up of a live object with
--     its log and the handler of RecheckPolls; Durable has `durable_read`.
--   * Activation: src/object.rs, `fetch_image`. The live file is a parameter.
--   * Disk: src/limits.rs, the budgets and `DiskLedger`. The file system's answers are arguments,
--     and the paths that `enforce` unlinks are part of its result. Its loop has the number of files
--     as fuel, enough as every round removes one.
--   * Prelude: what the others share. Examples: the theorems of the list below at concrete inputs.
--
-- Texts are lists of their bytes, numbers are unbounded except where the width is written out, and
-- diagnostics are left out.
--
-- Not modelled: the loop of a worker with its handlers of Submit and Shutdown (src/worker.rs), the
-- tasks that `start` spawns, and shutdown (src/cluster.rs), wills (src/wills.rs)
-- and the sessions (src/api.rs), which are left for later; SQLite connections (src/object.rs), the
-- transport of src/rpc.rs and the HTTP API, the store on disk and the R2 client (src/r2.rs), which are
-- I/O; the simulator, the command line and the tools (src/sim.rs, src/main.rs, src/bin), which are
-- test harnesses.
pub mod Prelude
pub mod Grants
pub mod Routing
pub mod Delta
pub mod Store
pub mod Objlog
pub mod Cluster
pub mod Disk
pub mod Worker
pub mod Activation
pub mod Net
pub mod Examples
