-- ===== src/Net/Submit.antt =====
-- cluster.rs, where a transaction is sent: `resolve_addr`, `ensure_local_sender`, `submit_as`,
-- `submit_system`, `submit_routed`, `submit_received`, and of `submit_poll` and `cancel_poll` the choice
-- of the worker. A worker of this node is asked by its number; that the task of a claimed worker can
-- be spawned is assumed. Of the texts of errors only those are kept that are looked at.
pub mod Spending
pub mod Hops
use fafo.Prelude.{
  ℕ, ◌+◌, ◌≡◌, Bool, true, false, not, ◌&&◌, Option, none, some, List, [], ◌∷◌, ltb, leb, nat_beq,
  nat_eq, if◌then◌else◌, Map, lookup, insert,
}
use fafo.Prelude.Bytes.{Bytes, codes, bytes_beq, starts_with}
use fafo.Store.{is_some}
use fafo.Grants.Tokens.{Capability}
use fafo.Objlog.Protocol.{sort}
use fafo.Routing.Blocks.{block_of, block_range}
use fafo.Routing.Placement.{Routing, addr_of_worker, owner_of, plurality_target}
use fafo.Cluster.Leases.{LeaseState}
use fafo.Cluster.Requests.{
  Op, Validated, validated, rejected, BadRequest, validate_txn, valid_id, dedup,
}
use fafo.Net.Rpc.{
  ApiError, bad_request, internal, TxnResponse, Outcome, ok, err, Txn, Request, forwarded,
}
use fafo.Net.Rpc as Rpc
use fafo.Net.Task.{Net, ret, call, submit, lease, durable, ◌>>=◌}

-- What is read and written of a node: the routing map, the block leases held, its own address, and
-- the clock and the count of transactions.
pub record Node : Type 0 where
  pub routing : Routing
  pub epochs : Map ℕ ℕ
  pub advertise : Bytes
  pub clock : ℕ
  pub total_txns : ℕ

abbrev pub block_at : Node → ℕ → ℕ
block_at node worker = block_of worker node.routing.logical node.routing.blocks

-- `local_sender(..).is_some()`
unfoldable pub hosts : Node → ℕ → Bool
hosts node worker = is_some (lookup ⦃e = nat_eq⦄ (block_at node worker) node.epochs)

abbrev with_addr : Node → ℕ → Bytes → Node
with_addr node block addr =
    let r = node.routing in
    record node { routing = record r { addrs = insert ⦃e = nat_eq⦄ block addr r.addrs } }

unfoldable pub remember : Node → ℕ → Option LeaseState → Option Bytes × Node
remember node block none = (none, node)
remember node block (some l) = (some l.addr, with_addr node block l.addr)

unfoldable pub resolve_addr : Node → ℕ → Net (Option Bytes × Node)
unfolding remember
resolve_addr node worker =
    let block = block_at node worker in lease block (λ l. ret (remember node block l))

-- The lease is this node's own, and it is held again.
unfoldable pub readopt : Node → ℕ → Option LeaseState → Bool × Node
unfolding hosts
readopt node worker none = (false, node)
readopt node worker (some l) =
    let block = block_at node worker in
    let held = record node { epochs = insert ⦃e = nat_eq⦄ block l.epoch node.epochs } in
    let node' = with_addr held block node.advertise in
    if bytes_beq l.addr node.advertise && not l.released
    then (hosts node' worker, node')
    else (false, node)

unfoldable pub ensure_local_sender : Node → ℕ → Net (Bool × Node)
unfolding hosts readopt
ensure_local_sender node worker =
    let block = block_at node worker in
    if hosts node worker
    then ret (true, node)
    else if is_some (lookup ⦃e = nat_eq⦄ block node.epochs)
    then ret (false, node)
    else lease block (λ l. ret (readopt node worker l))

abbrev pub Answer : Type 0
Answer = Outcome TxnResponse ApiError

-- The answer of a worker of this node.
abbrev pub of_local : Option Answer → Answer
of_local none = err (internal (codes "transaction dropped"))
of_local (some a) = a

unfoldable pub forward_txn : Bytes → Txn → Net Answer
unfolding forwarded
forward_txn base t = call base (Request.txn t) (λ x. ret (forwarded base x))

-- `e.message.starts_with("rpc to")`
unfoldable pub is_transport : Answer → Bool
is_transport (ok r) = false
is_transport (err e) = starts_with (codes "rpc to") e.message

-- The second try, at an address that is not the first one.
unfoldable pub try_fresh : Bytes → Txn → Answer → Option Bytes × Node → Net (Answer × Node)
unfolding forward_txn
try_fresh addr t first (none, node) = ret (first, node)
try_fresh addr t first (some fresh, node) =
    if bytes_beq fresh addr
    then ret (first, node)
    else (do again ← forward_txn fresh t; ret (again, node))

-- A read falls back on the log where the owner could not serve it.
unfoldable pub or_durable : Bool → Txn → Answer × Node → Net (Answer × Node)
or_durable log_primary t (ok r, node) = ret (ok r, node)
or_durable log_primary t (err e, node) =
    if t.read_only && log_primary then durable t (λ a. ret (a, node)) else ret (err e, node)

-- The transaction goes to the node at an address.
unfoldable pub send_to : Node → ℕ → Txn → Bytes → Net (Answer × Node)
unfolding forward_txn is_transport try_fresh resolve_addr
send_to node target t addr = do
  first ← forward_txn addr t
  if is_transport first
      then (do fresh ← resolve_addr node target; try_fresh addr t first fresh)
      else ret (first, node)

unfoldable pub route : Bool → ℕ → Txn → Option Bytes × Node → Net (Answer × Node)
unfolding send_to or_durable
route log_primary target t (none, node) =
    if t.read_only && log_primary
    then durable t (λ a. ret (a, node))
    else ret (err (internal (codes "no live node holds logical worker")), node)
route log_primary target t (some addr, node) = do
  r ← send_to node target t addr
  or_durable log_primary t r

-- `submit_routed` from where the target is chosen.
unfoldable pub submit_at : Bool → Node → ℕ → Txn → Net (Answer × Node)
unfolding hosts route resolve_addr
submit_at log_primary node target t =
    if hosts node target
    then submit target t (λ a. ret (of_local a, node))
    else elim (addr_of_worker node.routing target) [
      | some addr ↦ route log_primary target t (some addr, node)
      | none ↦ (do r ← resolve_addr node target; route log_primary target t r)
    ]

-- `none` is the panic of `plurality_target` on a transaction with no participant.
unfoldable pub submit_routed : Bool → Node → Txn → Option (Net (Answer × Node))
unfolding submit_at
submit_routed log_primary node t = elim (plurality_target node.routing t.objects) [
  | none ↦ none
  | some target ↦ some (submit_at log_primary node target t)
]

abbrev pub refused : BadRequest → ApiError
refused e = bad_request (codes "bad request")

abbrev counted : Node → Node
counted node = record node { clock = node.clock + 1; total_txns = node.total_txns + 1 }

unfoldable pub submit_as :
    Bool
    → Node
    → Option Capability
    → List Bytes
    → List (Op Bytes)
    → Bool
    → Bool
    → Option (Net (Answer × Node))
unfolding submit_routed
submit_as log_primary node cap objects ops read_only optimistic = elim (validate_txn objects ops) [
  | rejected e ↦ some (ret (err (refused e), node))
  | validated ids ↦ submit_routed log_primary (counted node) (record {
    objects = ids;
    ops = ops;
    read_only = read_only;
    optimistic = optimistic;
    cap = cap;
  })
]

-- The names of the system's own objects are not checked.
unfoldable pub submit_system :
    Bool → Node → List Bytes → List (Op Bytes) → Bool → Option (Net (Answer × Node))
unfolding submit_routed dedup sort
submit_system log_primary node objects ops optimistic =
    submit_routed log_primary (counted node) (record {
      objects = dedup (sort objects);
      ops = ops;
      read_only = false;
      optimistic = optimistic;
      cap = none;
    })

-- `keys().min()`
unfoldable pub lowest : Map ℕ ℕ → Option ℕ
lowest [] = none
lowest ((b, e) ∷ m) = elim (lowest m) [ none ↦ some b | some c ↦ some (if ltb c b then c else b) ]

-- The coordinator of a transaction that came over the RPC.
unfoldable pub coordinator : Node → ℕ → Option ℕ
unfolding hosts lowest block_range
coordinator node preferred =
    if hosts node preferred then some preferred else elim (lowest node.epochs) [
      | none ↦ none
      | some block ↦
          let start = (block_range block node.routing.logical node.routing.blocks).0 in
          if hosts node start then some start else none
    ]

unfoldable pub coordinate : Node → Txn → Option ℕ → Net Answer
coordinate node t none =
    ret (err (internal (codes "no local worker to coordinate a received transaction")))
coordinate node t (some w) = submit w t (λ a. ret (of_local a))

unfoldable pub submit_received : Node → Txn → Option (Net Answer)
unfolding coordinator coordinate
submit_received node t = elim (plurality_target node.routing t.objects) [
  | none ↦ none
  | some preferred ↦ some (coordinate node t (coordinator node preferred))
]

-- The worker that a poll goes to: polls are not forwarded.
unfoldable pub poll_target : Node → Bytes → Outcome ℕ ApiError
unfolding hosts valid_id owner_of
poll_target node object =
    let target = owner_of node.routing object in
    if not (valid_id object)
    then err (bad_request (codes "invalid object id"))
    else if not (hosts node target)
    then err (bad_request (codes "this node does not own the object"))
    else ok target

unfoldable pub cancel_target : Node → Bytes → Option ℕ
unfolding hosts owner_of
cancel_target node object =
    let target = owner_of node.routing object in if hosts node target then some target else none
