-- ===== src/Worker/Acquire.antt =====
-- worker.rs, how a transaction gets its participants: `advance`, the task that fetches an object's
-- image, `on_activated` and `on_taken`. A task that the code spawns is part of the result. What
-- `materialize` answers is the parameter `opens`; the enforcement of the disk budget is left out.
-- The transactions that a handler returns are those that it gives to `pump`.
pub mod Owner
use fafo.Prelude.{
  ℕ, ◌+◌, ◌≡◌, Bool, true, false, not, ◌&&◌, ◌||◌, Option, none, some, List, [], ◌∷◌, ◌++◌, nat_beq,
  nat_eq, ltb, drop, length, any, if◌then◌else◌, Map, lookup, insert, remove,
}
use fafo.Prelude.Bytes.{Bytes, bytes_eq}
use fafo.Store.{is_some}
use fafo.Disk as Disk
use fafo.Delta.{manifest_of}
use fafo.Objlog.Io.{Io, ret, ◌>>=◌, ◌>>◌, attempt}
use fafo.Routing.Placement.{Routing, owner_of}
use fafo.Cluster.Claims.{Checkpoint, Claim, durable_claim, u64_max}
use fafo.Activation.{fetch_image}
use fafo.Worker.State.{Worker, TransferMeta, Parked, Waiting, txn, take, owns, live_path}
use fafo.Worker.Transfer.{admit}
use fafo.Worker.Queues.{fail_txn, queue_of}
use fafo.Worker.Ship.{TxnRecord}
use fafo.Worker.Recovery.{recover_records_touching}
use fafo.Worker.Boats.{delta_min_bytes}

pub data Spawned : Type 0 where
  take_task : (txn : ℕ) → Bytes → Spawned
  activation : (txn : ℕ) → Bytes → (verify_claim : Bool) → Spawned

abbrev with_exceptions : Worker → Map Bytes ℕ → Worker
with_exceptions w exceptions = record w { routing = record (w.routing) { exceptions = exceptions } }

-- `is_owner`, with the routing map led back to `owned`.
unfoldable pub reconcile_owner : Worker → Bytes → Bool × Worker
reconcile_owner w object =
    let exceptions = w.routing.exceptions in
    let claims_here = nat_beq (owner_of w.routing object) w.id in
    if is_some (lookup object w.owned)
    then (true, if claims_here then w else with_exceptions w (insert object w.id exceptions))
    else elim (lookup object exceptions) [
      | none ↦ (claims_here, w)
      | some v ↦
          if nat_beq v w.id
          then (let w' = with_exceptions w (remove object exceptions) in
              (nat_beq (owner_of w'.routing object) w.id, w'))
          else (claims_here, w)
    ]

abbrev is_txn : ℕ → Waiting → Bool
is_txn t (txn u) = nat_beq u t
is_txn t (take taker resp) = false

-- The transaction is in the object's queue.
unfoldable pub join_queue : ℕ → Bytes → Worker → Worker
join_queue t object w =
    let queue = queue_of w object in
    let joined = if any (is_txn t) queue then queue else queue ++ txn t ∷ [] in
    record w { queues = insert object joined w.queues }

abbrev at_head : ℕ → List Waiting → Bool
at_head t [] = false
at_head t (e ∷ queue) = is_txn t e

abbrev edit_parked : ℕ → (Parked → Parked) → Worker → Worker
edit_parked t f w = elim (lookup ⦃e = nat_eq⦄ t w.parked) [
  | none ↦ w
  | some p ↦ record w { parked = insert ⦃e = nat_eq⦄ t (f p) w.parked }
]

abbrev has_flag : ℕ → (Parked → Bool) → Worker → Bool
has_flag t flag w = elim (lookup ⦃e = nat_eq⦄ t w.parked) as (λ x. Bool) [
  | none ↦ false
  | some p ↦ flag p
]

-- The object is cold: its image is fetched, once.
unfoldable pub activate_once : ℕ → Bytes → Worker → Option Spawned × Worker
activate_once t object w = if has_flag t (λ p. p.activating) w then (none, w) else (
  some (activation t object (not (is_some (lookup object w.owned)))),
  edit_parked t (λ p. record p { activating = true }) w,
)

-- The object is elsewhere: it is taken, once.
unfoldable pub take_once : ℕ → Bytes → Worker → Option Spawned × Worker
take_once t object w = if has_flag t (λ p. p.taking) w then (none, w) else (
  some (take_task t object),
  edit_parked t (λ p. record p { taking = true; crossed = true }) w,
)

-- The loop over the participants that are not acquired. `true` when the transaction may run.
unfoldable pub acquire : ℕ → List Bytes → Worker → Bool × Option Spawned × Worker
unfolding reconcile_owner join_queue activate_once take_once
acquire t [] w = (true, none, w)
acquire t (object ∷ objects) w =
    let (is_owner, w1) = reconcile_owner w object in
    let w2 = join_queue t object w1 in
    let rest = acquire t objects (edit_parked t (λ p. record p { acquired = p.acquired + 1 }) w2) in
    if not is_owner
    then (let r = take_once t object w1 in (false, r.0, r.1))
    else if not (at_head t (queue_of w2 object))
    then (false, none, w2)
    else if is_some (lookup object w2.objects)
    then rest
    else (let r = activate_once t object w2 in (false, r.0, r.1))

unfoldable pub advance : ℕ → Worker → Bool × Option Spawned × Worker
unfolding acquire
advance t w = elim (lookup ⦃e = nat_eq⦄ t w.parked) [
  | none ↦ (false, none, w)
  | some p ↦ acquire t (drop p.acquired p.participants) w
]

-- A claim by another worker.
unfoldable pub elsewhere : ℕ → Claim → Option ℕ
elsewhere me (Claim.owned v g) = if nat_beq v me then none else some v
elsewhere me (Claim.transit v g) = if nat_beq v me then none else some v
elsewhere me Claim.unclaimed = none

pub data TakenResult : Type 0 where
  got : TransferMeta → TakenResult
  already_local : TakenResult
  take_error : TakenResult

module _ (to_vec : Checkpoint → Bytes) (from_slice : Bytes → Option Checkpoint)
    (file_len : Bytes → Option ℕ) (listening : ℕ → Bool) (log_primary : Bool) where
  -- The spawned fetch: a worker to route to, and the image with its length of chain, if it is got.
  unfoldable pub activation_task :
      (Bytes → Option TxnRecord)
      → ℕ
      → Bytes
      → Bool
      → Option Bytes
      → Io (Option ℕ × Option (Bytes × ℕ))
  unfolding elsewhere
  activation_task parse_record me object verify_claim cached = do
    let fetch = attempt (
        recover_records_touching parse_record log_primary object
        >> fetch_image log_primary object cached)
    claim ← if verify_claim then durable_claim from_slice object else ret Claim.unclaimed
    elim (elsewhere me claim) [
      | some v ↦ ret (if nat_beq v u64_max then none else some v, none)
      | none ↦ (do r ← fetch; ret (none, r))
    ]

  -- `outcome` of `on_activated`: `none` is its error.
  unfoldable pub install_image :
      (Bytes → ℕ) → (Bytes → Bool) → Worker → Bytes → Bytes × ℕ → Option Worker
  unfolding live_path owns
  install_image hash_page opens w object (image, chain_total) =
      let live = record w {
        objects = insert object tt w.objects;
        disk = Disk.set_live w.disk (live_path w object) (length image) w.id;
      } in
      if owns w object && not (is_some (lookup object w.objects))
      then (if opens image
          then some (
              if log_primary
              then record live { log_seq = insert object chain_total w.log_seq }
              else if ltb (length image) delta_min_bytes
              then live
              else record live {
                manifests = insert object (manifest_of hash_page image chain_total) w.manifests;
              })
          else none)
      else some w

  unfoldable pub on_activated :
      (Bytes → ℕ) → (Bytes → Bool) → Worker → ℕ → Bytes → Option (Bytes × ℕ) → Io (List ℕ × Worker)
  unfolding install_image fail_txn
  on_activated hash_page opens w t object result =
      let w1 = edit_parked t (λ p. record p { activating = false }) w in
      let failure = fail_txn to_vec from_slice file_len listening log_primary t w1 in
      elim result [
        | none ↦ failure
        | some fetched ↦ elim (install_image hash_page opens w1 object fetched) [
          | none ↦ failure
          | some w2 ↦ ret (t ∷ [], w2)
        ]
      ]

  -- The object is here; the transaction heads its queue where there is none.
  unfoldable pub head_queue : ℕ → Bytes → Worker → Worker
  head_queue t object w = elim (lookup object w.queues) [
    | some queue ↦ w
    | none ↦ record w { queues = insert object (txn t ∷ []) w.queues }
  ]

  unfoldable pub on_taken : Worker → ℕ → Bytes → TakenResult → Io (List ℕ × Worker)
  unfolding head_queue admit fail_txn
  on_taken w t object result =
      let w1 = edit_parked t (λ p. record p { taking = false }) w in
      if not (is_some (lookup ⦃e = nat_eq⦄ t w.parked)) then ret ([], w) else elim result [
        | already_local ↦ ret (t ∷ [], w1)
        | take_error ↦ fail_txn to_vec from_slice file_len listening log_primary t w1
        | got tm ↦ (do
          r ←
              if is_some (lookup object w1.owned)
              then ret (true, w1)
              else admit to_vec from_slice log_primary w1 object tm
          if r.0
              then ret (t ∷ [], head_queue t object r.1)
              else fail_txn to_vec from_slice file_len listening log_primary t r.1)
      ]
