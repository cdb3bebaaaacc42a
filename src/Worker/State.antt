-- ===== src/Worker/State.antt =====
-- worker.rs, the state of a `Worker` with the parts of its node that it reads and writes. A reply
-- channel is a number; what is sent is logged in `sent`. A JSON value is its text. A connection to
-- SQLite is not modelled: `objects` says which objects have one.
use fafo.Prelude.{
  ℕ, ◌-◌, Bool, false, ◌||◌, Option, none, some, List, ◌++◌, map, nat_eq, nat_beq, any, Map, lookup,
  remove,
}
use fafo.Prelude.Bytes.{Bytes, codes, bytes_eq, bytes_beq}
use fafo.Store.{is_some}
use fafo.Delta.{Manifest}
use fafo.Disk.{DiskLedger}
use fafo.Routing.Placement.{Routing, owner_of}
use fafo.Cluster.Requests.{Op}

pub record VisitInfo : Type 0 where
  pub worker : ℕ
  pub count : ℕ
  pub last : ℕ

pub record TransferMeta : Type 0 where
  pub settled : Bool
  pub home : ℕ
  pub visit : Option VisitInfo
  pub generation : ℕ

pub data TakeError : Type 0 where
  not_mine : (hint : Option ℕ) → TakeError
  take_failed : TakeError

pub record Meta : Type 0 where
  pub arrived_at : ℕ
  pub return_to : Option ℕ
  pub visit : Option VisitInfo

pub record PendingPoll : Type 0 where
  pub conn : ℕ
  pub frame : ℕ
  pub sql : Bytes
  pub params : List Bytes
  pub durable : Bool
  pub baseline : Option Bytes
  pub resp : ℕ

-- An entry of an object's queue.
pub data Waiting : Type 0 where
  txn : ℕ → Waiting
  take : (taker resp : ℕ) → Waiting

pub record Parked : Type 0 where
  pub participants : List Bytes
  pub ops : List (Op Bytes)
  pub read_only : Bool
  pub optimistic : Bool
  pub resp : ℕ
  pub acquired : ℕ
  pub taking : Bool
  pub activating : Bool
  pub crossed : Bool

-- A waiter is the reply channel of a transaction.
pub record AppliedTxn : Type 0 where
  pub participants : List Bytes
  pub waiter : Option ℕ

-- What goes out on a reply channel. The texts of errors are left out.
pub data Sent : Type 0 where
  granted : (resp : ℕ) → TransferMeta → Sent
  refused : (resp : ℕ) → TakeError → Sent
  failed : (resp : ℕ) → Sent
  acked : (resp : ℕ) → Sent

pub record Worker : Type 0 where
  pub id : ℕ
  pub live_dir : Bytes
  pub owned : Map Bytes ℕ
  pub transit : Map Bytes (ℕ × ℕ)
  pub objects : Map Bytes (Unit {0})
  pub meta : Map Bytes Meta
  pub queues : Map Bytes (List Waiting)
  pub parked : Map ℕ Parked
  pub dirty : Map Bytes ℕ
  pub dirty_bytes : ℕ
  pub pending_txns : List AppliedTxn
  pub manifests : Map Bytes Manifest
  pub log_seq : Map Bytes ℕ
  pub inflight : Option (List Bytes)
  pub polls : Map Bytes (List PendingPoll)
  pub needs_service : List Bytes
  -- of the node
  pub routing : Routing
  pub disk : DiskLedger
  pub clock : ℕ
  pub hysteresis : ℕ
  pub sent : List Sent

unfoldable pub owns : Worker → Bytes → Bool
owns w object = nat_beq (owner_of w.routing object) w.id

-- `live_dir.join(format!("{id}.db"))`
unfoldable pub live_path : Worker → Bytes → Bytes
live_path w object = w.live_dir ++ (codes "/" ++ (object ++ codes ".db"))

unfoldable pub fail_polls : Worker → Bytes → Worker
fail_polls w object = elim (lookup object w.polls) [
  | none ↦ w
  | some list ↦ record w {
    polls = remove object w.polls;
    sent = w.sent ++ map (λ (p : PendingPoll). failed p.resp) list;
  }
]

unfoldable pub unshipped : Worker → Bytes → Bool
unshipped w object =
    is_some (lookup object w.dirty)
    || (elim w.inflight [ none ↦ false | some boat ↦ any (bytes_beq object) boat ])

-- `if let Some(bytes) = self.dirty.remove(id)`, with the saturating subtraction
unfoldable pub clean : Worker → Bytes → Worker
clean w object = elim (lookup object w.dirty) [
  | none ↦ w
  | some bytes ↦ record w { dirty = remove object w.dirty; dirty_bytes = w.dirty_bytes - bytes }
]
