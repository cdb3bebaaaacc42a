-- ===== src/Worker/Queues.antt =====
-- worker.rs, the queues of objects: `service_front`, `grant_front`, `fail_txn`, and the handlers of
-- `Take`, `Adopt` and `CancelPoll`. `listening` says whether a reply channel still has its receiver.
-- The transactions that an operation returns are those that its caller gives to `pump`.
use fafo.Prelude.{
  ℕ, ◌+◌, Bool, true, false, ◌&&◌, Option, none, some, List, [], ◌∷◌, ◌++◌, map, nat_beq, nat_eq,
  if◌then◌else◌, any, get_elem?, Map, lookup, insert, remove,
}
use fafo.Prelude.Bytes.{Bytes, bytes_eq, bytes_beq}
use fafo.Store.{is_some}
use fafo.Objlog.Io.{Io, ret, ◌>>=◌}
use fafo.Routing.Hash.{default_worker}
use fafo.Routing.Placement.{owner_of}
use fafo.Cluster.Claims.{Checkpoint, Claim, durable_claim, u64_max}
use fafo.Worker.State.{
  Worker, TransferMeta, TakeError, not_mine, take_failed, PendingPoll, Waiting, txn, take, Parked,
  Sent, granted, refused, failed, unshipped,
}
use fafo.Worker.Transfer.{release, admit}

abbrev pub say : Worker → List Sent → Worker
say w messages = record w { sent = w.sent ++ messages }

-- The transactions of a queue, in order.
unfoldable pub txns_of : List Waiting → List ℕ
txns_of [] = []
txns_of (txn t ∷ queue) = t ∷ txns_of queue
txns_of (take taker resp ∷ queue) = txns_of queue

-- The takes of a queue, refused with one error.
unfoldable pub refuse_takes : TakeError → List Waiting → List Sent
refuse_takes e [] = []
refuse_takes e (txn t ∷ queue) = refuse_takes e queue
refuse_takes e (take taker resp ∷ queue) = refused resp e ∷ refuse_takes e queue

abbrev pub first_of : List ℕ → List ℕ
first_of [] = []
first_of (t ∷ ts) = t ∷ []

abbrev set_queue : Worker → Bytes → List Waiting → Worker
set_queue w object [] = w
set_queue w object (e ∷ queue) = record w { queues = insert object (e ∷ queue) w.queues }

-- The object stays here: the takes in its queue are refused, the transactions stay, and the first may
-- run.
unfoldable pub keep_here : Worker → Bytes → List Waiting → List ℕ × Worker
unfolding txns_of refuse_takes
keep_here w object queue =
    let txns = txns_of queue in
    (first_of txns, set_queue (say w (refuse_takes take_failed queue)) object (map txn txns))

-- One participant of `fail_txn` without what its queue then serves: the transaction leaves the queue.
unfoldable pub leave_queue : ℕ → List Waiting → List Waiting
leave_queue t [] = []
leave_queue t (take taker resp ∷ queue) = take taker resp ∷ leave_queue t queue
leave_queue t (txn u ∷ queue) =
    let rest = leave_queue t queue in if nat_beq u t then rest else txn u ∷ rest

-- `list.retain(|p| !(p.conn == conn && p.frame == frame))`
unfoldable pub retain_polls : ℕ → ℕ → List PendingPoll → List PendingPoll
retain_polls conn frame [] = []
retain_polls conn frame (p ∷ list) =
    let rest = retain_polls conn frame list in
    if nat_beq p.conn conn && nat_beq p.frame frame then rest else p ∷ rest

abbrev store_polls : Worker → Bytes → List PendingPoll → Worker
store_polls w object [] = record w { polls = remove object w.polls }
store_polls w object (p ∷ list) = record w { polls = insert object (p ∷ list) w.polls }

unfoldable pub cancel_poll : Worker → Bytes → ℕ → ℕ → Worker
unfolding retain_polls
cancel_poll w object conn frame = elim (lookup object w.polls) [
  | none ↦ w
  | some list ↦ store_polls w object (retain_polls conn frame list)
]

-- A transaction is parked on a take of the object: the deed may be on its way.
abbrev pub awaits : Bytes → Parked → Bool
awaits object p = p.taking && (elim (get_elem? p.participants p.acquired) as (λ x. Bool) [
  | none ↦ false
  | some o ↦ bytes_beq o object
])

abbrev values {ℓ κ} : {A : Type ℓ} {B : Type κ} → Map A B → List B
values m = map (λ p. p.1) m

abbrev pub deed_in_flight : Worker → Bytes → Bool
deed_in_flight w object = any (awaits object) (values w.parked)

-- The generation at which the `Take` handler adopts an object that it does not hold.
unfoldable pub adopt_generation : Worker → Bytes → Claim → Option ℕ
adopt_generation w object (Claim.owned v g) = if nat_beq v w.id then some g else none
adopt_generation w object (Claim.transit v g) = if nat_beq v w.id then some g else none
adopt_generation w object Claim.unclaimed =
    if nat_beq (default_worker object w.routing.logical) w.id then some 1 else none

abbrev other_than : ℕ → ℕ → Option ℕ
other_than me v = if nat_beq v me then none else some v

-- The hint of a refusal.
unfoldable pub hint_of : Worker → Bytes → Claim → Option ℕ
hint_of w object (Claim.owned v g) =
    if nat_beq v u64_max then other_than w.id (owner_of w.routing object) else some v
hint_of w object (Claim.transit v g) =
    if nat_beq v u64_max then other_than w.id (owner_of w.routing object) else some v
hint_of w object Claim.unclaimed = other_than w.id (owner_of w.routing object)

abbrev is_transit : Claim → Bool
is_transit (Claim.transit v g) = true
is_transit _ = false

-- `m.arrived_at = 0`, unless the claim was a handoff
unfoldable pub settle_in : Worker → Bytes → Claim → Worker
settle_in w object claim = if is_transit claim then w else elim (lookup object w.meta) [
  | none ↦ w
  | some m ↦ record w { meta = insert object (record m { arrived_at = 0 }) w.meta }
]

abbrev pub queue_of : Worker → Bytes → List Waiting
queue_of w object = elim (lookup object w.queues) as (λ x. List Waiting) [ none ↦ [] | some q ↦ q ]

module _ (to_vec : Checkpoint → Bytes) (from_slice : Bytes → Option Checkpoint)
    (file_len : Bytes → Option ℕ) (listening : ℕ → Bool) (log_primary : Bool) where
  -- The answer to the take at the head, after `release`.
  unfoldable pub after_release :
      Bytes → ℕ → ℕ → List Waiting → Option TransferMeta × Worker → Io (List ℕ × Worker)
  unfolding keep_here admit txns_of refuse_takes
  after_release object taker resp queue (none, w) =
      ret (keep_here (say w (refused resp take_failed ∷ [])) object queue)
  after_release object taker resp queue (some tm, w) =
      if listening resp
      then ret (txns_of queue, say w (granted resp tm ∷ refuse_takes (not_mine (some taker)) queue))
      else (do
        r ←
            admit to_vec from_slice log_primary w object
              (record tm { generation = tm.generation + 1 })
        ret (keep_here r.1 object queue))

  -- `none` is the `unreachable!` of a head that is no take.
  unfoldable pub grant_front : Worker → Bytes → Option (Io (List ℕ × Worker))
  unfolding after_release release
  grant_front w object = elim (queue_of w object) [
    | [] ↦ none
    | txn t ∷ queue ↦ none
    | take taker resp ∷ queue ↦ some (
        release to_vec file_len (record w { queues = remove object w.queues }) object (some taker)
        >>= after_release object taker resp queue)
  ]

  abbrev unreachable : Worker → Option (Io (List ℕ × Worker)) → Io (List ℕ × Worker)
  unreachable w none = ret ([], w)
  unreachable w (some m) = m

  unfoldable pub service_front : Worker → Bytes → Io (List ℕ × Worker)
  unfolding grant_front
  service_front w object = elim (queue_of w object) [
    | [] ↦ ret ([], w)
    | txn t ∷ queue ↦ ret (t ∷ [], w)
    | take taker resp ∷ queue ↦
        if unshipped w object then ret ([], w) else unreachable w (grant_front w object)
  ]

  -- The queue gets the take, and is served if it is alone in it.
  unfoldable pub enqueue_take : Worker → Bytes → ℕ → ℕ → Io (List ℕ × Worker)
  unfolding service_front
  enqueue_take w object taker resp =
      let queue = queue_of w object ++ take taker resp ∷ [] in
      let w' = record w { queues = insert object queue w.queues } in
      elim (queue_of w object) [ [] ↦ service_front w' object | e ∷ q ↦ ret ([], w') ]

  -- A take of an object that is not in `owned`: adopt it by the durable claim, or refuse.
  unfoldable pub adopt_claim : Worker → Bytes → Claim → Io (Bool × Worker)
  unfolding adopt_generation admit settle_in
  adopt_claim w object claim = elim (adopt_generation w object claim) [
    | none ↦ ret (false, w)
    | some g ↦ (do
      r ←
          admit to_vec from_slice log_primary w object
            (record { settled = false; home = w.id; visit = none; generation = g })
      ret (r.0, if r.0 then settle_in r.1 object claim else r.1))
  ]

  unfoldable pub handle_take : Worker → Bytes → ℕ → ℕ → Io (List ℕ × Worker)
  unfolding enqueue_take adopt_claim hint_of
  handle_take w object taker resp =
      if is_some (lookup object w.owned)
      then enqueue_take w object taker resp
      else if deed_in_flight w object
      then ret ([], say w (refused resp take_failed ∷ []))
      else (do
        claim ← durable_claim from_slice object
        r ← adopt_claim w object claim
        if r.0
            then enqueue_take r.1 object taker resp
            else ret ([], say r.1 (refused resp (not_mine (hint_of r.1 object claim)) ∷ [])))

  unfoldable pub handle_adopt : Worker → Bytes → TransferMeta → Io Worker
  unfolding admit
  handle_adopt w object tm = do r ← admit to_vec from_slice log_primary w object tm; ret r.1

  -- A participant's queue without the transaction: it goes when it is empty, and is served else.
  unfoldable pub store_left : Worker → Bytes → List Waiting → Io (List ℕ × Worker)
  unfolding service_front
  store_left w object [] = ret ([], record w { queues = remove object w.queues })
  store_left w object (e ∷ queue) =
      service_front (record w { queues = insert object (e ∷ queue) w.queues }) object

  unfoldable pub leave_queues : ℕ → List Bytes → Worker → Io (List ℕ × Worker)
  unfolding store_left leave_queue
  leave_queues t [] w = ret ([], w)
  leave_queues t (object ∷ objects) w = do
    let left : Io (List ℕ × Worker) = elim (lookup object w.queues) [
      | none ↦ ret ([], w)
      | some queue ↦ store_left w object (leave_queue t queue)
    ]
    r ← left
    rest ← leave_queues t objects r.1
    ret (r.0 ++ rest.0, rest.1)

  unfoldable pub fail_txn : ℕ → Worker → Io (List ℕ × Worker)
  unfolding leave_queues
  fail_txn t w = elim (lookup ⦃e = nat_eq⦄ t w.parked) [
    | none ↦ ret ([], w)
    | some p ↦ (do
      r ← leave_queues t p.participants (record w { parked = remove ⦃e = nat_eq⦄ t w.parked })
      ret (r.0, say r.1 (failed p.resp ∷ [])))
  ]
