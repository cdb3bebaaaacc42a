-- ===== src/Worker/Ship/Landing.antt =====
-- worker.rs, `ship_task` from its answer on: promotion, compaction and the clean-up of a boat that
-- committed, the rollback of one that did not, and what is told to the waiters and to the worker.
use fafo.Prelude.{ℕ, Bool, true, false, Option, none, some, List, [], ◌∷◌, map, leb, if◌then◌else◌}
use fafo.Prelude.Bytes.{Bytes}
use fafo.Store.{is_some}
use fafo.Objlog.Io.{Io, ret, ◌>>=◌, ◌>>◌, put?, list?, delete?, attempt}
use fafo.Objlog.Protocol.{clear_entry, compact}
use fafo.Delta.{change_counter}
use fafo.Delta.Keys.{delta_key, delta_prefix, parse_delta_counter}
use fafo.Cluster.Leases.{Guarded, verify_leases}
use fafo.Worker.State.{Sent, acked, failed}
use fafo.Worker.Ship.{
  ShipItem, snapshot, delta, ShipDone, Harbour, Voyage, TxnRecord, staging_id, staging_key,
  object_key, txn_key, payload_bytes, boat_bytes, inline_max_bytes, log_compact_keep, voyage,
}

abbrev pub promoted_key : ShipItem → Bytes
promoted_key item = elim item.payload [
  | snapshot bytes gc ↦ object_key item.object
  | delta counter bytes ↦ delta_key item.object counter
]

-- The objects that were not promoted.
unfoldable pub promote_items : List ShipItem → Io (List Bytes)
promote_items [] = ret []
promote_items (item ∷ items) = do
  r ← attempt (put? (promoted_key item) (payload_bytes item.payload))
  rest ← promote_items items
  ret (if is_some r then rest else item.object ∷ rest)

unfoldable pub compact_all : List Bytes → Io (Unit {0})
unfolding compact
compact_all [] = ret tt
compact_all (object ∷ objects) = attempt (compact object log_compact_keep) >> compact_all objects

unfoldable pub delete_staged : Bytes → List ShipItem → Io (Unit {0})
unfolding staging_key
delete_staged id [] = ret tt
delete_staged id (item ∷ items) = attempt (delete? (staging_key item id)) >> delete_staged id items

-- The superseded deltas among the listed keys.
unfoldable pub delete_deltas : Bytes → ℕ → List Bytes → Io (Unit {0})
delete_deltas object base [] = ret tt
delete_deltas object base (key ∷ keys) =
    let rest = delete_deltas object base keys in
    elim (parse_delta_counter key object) [
      | none ↦ rest
      | some c ↦ if leb c base then attempt (delete? key) >> rest else rest
    ]

unfoldable pub delete_listed : Bytes → ℕ → Option (List Bytes) → Io (Unit {0})
unfolding delete_deltas
delete_listed object base none = ret tt
delete_listed object base (some keys) = delete_deltas object base keys

unfoldable pub gc_item : ShipItem → Io (Unit {0})
unfolding delete_listed
gc_item item = elim item.payload [
  | delta counter bytes ↦ ret tt
  | snapshot bytes gc ↦
      if gc
      then (do
        keys ← attempt (list? (delta_prefix item.object))
        delete_listed item.object (change_counter bytes) keys)
      else ret tt
]

unfoldable pub gc_items : List ShipItem → Io (Unit {0})
unfolding gc_item
gc_items [] = ret tt
gc_items (item ∷ items) = gc_item item >> gc_items items

unfoldable pub roll_back : Bytes → List (Bytes × ℕ) → Io (Unit {0})
unfolding clear_entry
roll_back id [] = ret tt
roll_back id ((object, seq) ∷ made) = attempt (clear_entry object seq id) >> roll_back id made

-- What a boat says and does: the replies to its waiters, its report to the worker, and the leases.
pub record Shipped : Type 0 where
  pub sent : List Sent
  pub done : ShipDone
  pub guarded : Guarded

abbrev pub objects_of : List ShipItem → List Bytes
objects_of items = map (λ (item : ShipItem). item.object) items

-- After the acknowledgement.
unfoldable pub settle_boat :
    Harbour → List ShipItem → Bool → Guarded → Bool → Io (List Bytes × Guarded)
unfolding promote_items verify_leases compact_all delete_staged gc_items
settle_boat node items inline guarded true = do
  checked ← verify_leases guarded node.mono_after node.wall_after
  if checked.0 then compact_all (objects_of items) else ret tt
  ret ([], checked.1)
settle_boat node items inline guarded false = do
  let id = staging_id node
  unpromoted ← promote_items items
  elim unpromoted [
    | [] ↦ (do
      if inline then ret tt else delete_staged id items
      attempt (delete? (txn_key id))
      gc_items items)
    | object ∷ objects ↦ ret tt
  ]
  ret (unpromoted, guarded)

unfoldable pub land : Harbour → List ShipItem → List ℕ → Bool → Bool → Voyage → Io Shipped
unfolding settle_boat roll_back delete_staged
land node items waiters inline log_primary boat = do
  let objects = objects_of items
  if boat.ok
      then (do
        settled ← settle_boat node items inline boat.guarded log_primary
        ret (record {
          sent = map acked waiters;
          done = record { objects = objects; ok = true; unpromoted = settled.0; rebased = none };
          guarded = settled.1;
        }))
      else (do
        roll_back (staging_id node) boat.prewritten
        if inline then ret tt else delete_staged (staging_id node) items
        ret (record {
          sent = map failed waiters;
          done = record { objects = objects; ok = false; unpromoted = []; rebased = boat.rebased };
          guarded = boat.guarded;
        }))

module _ (ledger_keys : Bytes → Option (List Bytes)) (to_vec : TxnRecord → Bytes) where
  unfoldable pub ship_task : Bool → Harbour → List ShipItem → List ℕ → Io Shipped
  unfolding land
  ship_task log_primary node items waiters = do
    let inline = leb (boat_bytes items) inline_max_bytes
    boat ← voyage ledger_keys to_vec log_primary node items inline
    land node items waiters inline log_primary boat
