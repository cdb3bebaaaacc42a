-- ===== src/Net/Submit/Hops.antt =====
-- cluster.rs, how far a transaction travels.
use fafo.Prelude.{
  ℕ, ◌≡◌, ◌≤◌, Bool, ◌&&◌, Option, none, some, List, [], arith, Bool-cases, Option-cases, inl, inr,
  if◌then◌else◌,
}
use fafo.Prelude.Bytes.{Bytes, bytes_beq}
use fafo.Routing.Placement.{addr_of_worker}
use fafo.Net.Rpc.{Txn, ok, err, Request}
use fafo.Net.Task.{Act, ret, durable, World, run, run-Always, ◌>>=◌}
use fafo.Net.Submit.{
  Node, Answer, hosts, block_at, resolve_addr, forward_txn, is_transport, try_fresh, or_durable,
  send_to, route, submit_at, coordinator, coordinate,
}
use fafo.Net.Submit.Spending.{
  calls_in, reads_in, submits_in, Spent, Within, Within-then, Within-more, Within-sum, nothing,
  after_one, Spent-within,
}

resolve-Within : (past : List Act) (node : Node) (w : ℕ) → Within 0 0 0 past (resolve_addr node w)
unfolding resolve_addr
resolve-Within past node w = λ x. after_one past (Act.lease (block_at node w))

forward-Within : (past : List Act) (addr : Bytes) (t : Txn) → Within 1 0 0 past (forward_txn addr t)
unfolding forward_txn
forward-Within past addr t = λ x. after_one past (Act.call addr (Request.txn t))

fresh-Within :
    (past : List Act) (addr : Bytes) (t : Txn) (first : Answer) (r : Option Bytes × Node)
    → Within 1 0 0 past (try_fresh addr t first r)
unfolding try_fresh
fresh-Within past addr t first (none, node) = (omega arith, omega arith, omega arith)
fresh-Within past addr t first (some fresh, node) = elim (Bool-cases (bytes_beq fresh addr)) [
  | inl y ↦ rw y (omega arith, omega arith, omega arith)
  | inr n ↦ rw n (
      Within-then 1 0 0 0 0 0 past (forward_txn fresh t) (λ again. ret (again, node))
        (forward-Within past fresh t) (λ h a. nothing h))
]

send-Within :
    (past : List Act) (node : Node) (target : ℕ) (t : Txn) (addr : Bytes)
    → Within 2 0 0 past (send_to node target t addr)
unfolding send_to
send-Within past node target t addr =
    Within-then 1 0 0 1 0 0 past (forward_txn addr t)
      (λ first.
        if is_transport first
        then resolve_addr node target >>= (λ fresh. try_fresh addr t first fresh)
        else ret (first, node))
      (forward-Within past addr t)
      (λ h first. elim (Bool-cases (is_transport first)) [
        | inl y ↦ rw y (
            Within-then 0 0 0 1 0 0 h (resolve_addr node target)
              (λ fresh. try_fresh addr t first fresh) (resolve-Within h node target)
              (λ g fresh. fresh-Within g addr t first fresh))
        | inr n ↦ rw n (omega arith, omega arith, omega arith)
      ])

-- One read of the log, of a read-only transaction in the mode of the primary log.
abbrev pub reads_allowed : Bool → Txn → ℕ
reads_allowed log_primary t = if t.read_only && log_primary then 1 else 0

fallback-Within :
    (past : List Act) (log_primary : Bool) (t : Txn) (node : Node) (e : Answer)
    → Within {A = Answer × Node} 0
        (reads_allowed log_primary t)
        0
        past
        (if t.read_only && log_primary then durable t (λ a. ret (a, node)) else ret (e, node))
fallback-Within past log_primary t node e = elim (Bool-cases (t.read_only && log_primary)) [
  | inl y ↦ rw y (λ x. after_one past (Act.durable t))
  | inr n ↦ rw n (nothing past)
]

or_durable-Within :
    (past : List Act) (log_primary : Bool) (t : Txn) (r : Answer × Node)
    → Within 0 (reads_allowed log_primary t) 0 past (or_durable log_primary t r)
unfolding or_durable
or_durable-Within past log_primary t (ok a, node) = (omega arith, omega arith, omega arith)
or_durable-Within past log_primary t (err e, node) = fallback-Within past log_primary t node (err e)

route-Within :
    (past : List Act) (log_primary : Bool) (target : ℕ) (t : Txn) (r : Option Bytes × Node)
    → Within 2 (reads_allowed log_primary t) 0 past (route log_primary target t r)
unfolding route
route-Within past log_primary target t (none, node) =
    elim (Bool-cases (t.read_only && log_primary)) [
      | inl y ↦
          rw y (λ x. Spent-within past (Act.durable t) (omega arith) (omega arith) (omega arith))
      | inr n ↦ rw n (omega arith, omega arith, omega arith)
    ]
route-Within past log_primary target t (some addr, node) =
    Within-sum 2 0 0 0 (reads_allowed log_primary t) 0 2 (reads_allowed log_primary t) 0 past
      (send_to node target t addr) (λ r. or_durable log_primary t r) (omega arith) (omega arith)
      (omega arith) (send-Within past node target t addr)
      (λ h r. or_durable-Within h log_primary t r)

submit-Within :
    (past : List Act) (log_primary : Bool) (node : Node) (target : ℕ) (t : Txn)
    → Within 2 (reads_allowed log_primary t) 1 past (submit_at log_primary node target t)
unfolding submit_at
submit-Within past log_primary node target t = elim (Bool-cases (hosts node target)) [
  | inl here ↦
      rw here
        (λ x. Spent-within past (Act.submit target t) (omega arith) (omega arith) (omega arith))
  | inr away ↦ elim (Option-cases (addr_of_worker node.routing target)) [
    | inr (addr, e) ↦
        rw (away, submit_at)
          (rw (e, submit_at)
            (Within-more 2 (reads_allowed log_primary t) 0 2 (reads_allowed log_primary t) 1 past
              (route log_primary target t (some addr, node)) (omega arith) (omega arith)
              (omega arith) (route-Within past log_primary target t (some addr, node))))
    | inl e ↦
        rw (away, submit_at)
          (rw (e, submit_at)
            (Within-sum 0 0 0 2 (reads_allowed log_primary t) 0 2 (reads_allowed log_primary t) 1
              past (resolve_addr node target) (λ r. route log_primary target t r) (omega arith)
              (omega arith) (omega arith) (resolve-Within past node target)
              (λ h r. route-Within h log_primary target t r)))
  ]
]

-- Whatever peers, workers and the store answer, a routed transaction ends after at most two calls to
-- peers, one hand-over to a worker of this node, and one read of the log; and the log is read only
-- for a read-only transaction, in the mode of the primary log: a write never goes past its owner.
pub submit_at_bounded :
    (log_primary : Bool) (node : Node) (target : ℕ) (t : Txn) (w : World)
    → let h = (run w [] (submit_at log_primary node target t)).1 in
      (calls_in h ≤ 2) × (reads_in h ≤ reads_allowed log_primary t) × (submits_in h ≤ 1)
submit_at_bounded log_primary node target t w =
    let s =
      run-Always (λ h a. Spent 2 (reads_allowed log_primary t) 1 [] h)
        (submit_at log_primary node target t) w [] (submit-Within [] log_primary node target t) in
    (omega arith, omega arith, omega arith)

received-Within :
    (past : List Act) (node : Node) (t : Txn) (c : Option ℕ)
    → Within 0 0 1 past (coordinate node t c)
unfolding coordinate
received-Within past node t none = (omega arith, omega arith, omega arith)
received-Within past node t (some v) = λ x. after_one past (Act.submit v t)

-- A transaction that came over the RPC is never forwarded again, whatever the routing map says and
-- whoever owns its objects: no peer is called and no log read, and one worker of this node, at most,
-- gets it.
pub submit_received_stays :
    (node : Node) (t : Txn) (preferred : ℕ) (w : World)
    → let h = (run w [] (coordinate node t (coordinator node preferred))).1 in
      (calls_in h ≡ 0) × (reads_in h ≡ 0) × (submits_in h ≤ 1)
submit_received_stays node t preferred w =
    let s =
      run-Always (λ h a. Spent 0 0 1 [] h) (coordinate node t (coordinator node preferred)) w []
        (received-Within [] node t (coordinator node preferred)) in
    (omega arith, omega arith, omega arith)
