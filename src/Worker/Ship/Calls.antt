-- ===== src/Worker/Ship/Calls.antt =====
-- worker.rs, that the parts of a boat's landing return, whatever the store does.
use fafo.Prelude.{
  ℕ, Bool, true, false, Option, none, some, List, [], ◌∷◌, leb, if◌then◌else◌, inl, inr,
  Option-cases,
}
use fafo.Prelude.Bytes.{Bytes}
use fafo.Objlog.Io.{ret, ◌>>◌, attempt, put?, list?, delete?}
use fafo.Objlog.Yields.{Yields, Anything, Yields-bind, attempt-Yields, skip, tried, branch}
use fafo.Objlog.Protocol.{clear_entry, compact}
use fafo.Delta.Keys.{delta_prefix, parse_delta_counter}
use fafo.Cluster.Leases.{Guarded, verify_leases}
use fafo.Worker.Ship.{
  ShipItem, ShipPayload, snapshot, delta, Harbour, staging_id, staging_key, log_compact_keep,
  payload_bytes, txn_key,
}
use fafo.Worker.Ship.Landing.{
  promote_items, promoted_key, compact_all, delete_staged, delete_deltas, delete_listed, gc_item,
  gc_items, roll_back, objects_of, settle_boat,
}

compact_all-Yields : (objects : List Bytes) → Yields Anything (compact_all objects)
unfolding compact_all
compact_all-Yields [] = tt
compact_all-Yields (object ∷ objects) =
    tried Anything (compact object log_compact_keep) (compact_all objects)
      (compact_all-Yields objects)

pub delete_staged-Yields :
    (id : Bytes) (items : List ShipItem) → Yields Anything (delete_staged id items)
unfolding delete_staged
delete_staged-Yields id [] = tt
delete_staged-Yields id (item ∷ items) =
    tried Anything (delete? (staging_key item id)) (delete_staged id items)
      (delete_staged-Yields id items)

pub roll_back-Yields : (id : Bytes) (made : List (Bytes × ℕ)) → Yields Anything (roll_back id made)
unfolding roll_back
roll_back-Yields id [] = tt
roll_back-Yields id ((object, seq) ∷ made) =
    tried Anything (clear_entry object seq id) (roll_back id made) (roll_back-Yields id made)

promote_items-Yields : (items : List ShipItem) → Yields Anything (promote_items items)
unfolding promote_items
promote_items-Yields [] = tt
promote_items-Yields (item ∷ items) =
    Yields-bind Anything Anything (attempt (put? (promoted_key item) (payload_bytes item.payload)))
      _ (attempt-Yields (put? (promoted_key item) (payload_bytes item.payload)))
      (λ r h.
        Yields-bind Anything Anything (promote_items items) _ (promote_items-Yields items)
          (λ rest u. tt))

delete_deltas-Yields :
    (object : Bytes) (base : ℕ) (keys : List Bytes)
    → Yields Anything (delete_deltas object base keys)
unfolding delete_deltas parse_delta_counter
delete_deltas-Yields object base [] = tt
delete_deltas-Yields object base (key ∷ keys) =
    let rest = delete_deltas-Yields object base keys in
    elim (Option-cases (parse_delta_counter key object)) [
      | inl n ↦ rw n rest
      | inr (c, e) ↦ rw e (
          branch Anything (leb c base) _ _
            (tried Anything (delete? key) (delete_deltas object base keys) rest) rest)
    ]

delete_listed-Yields :
    (object : Bytes) (base : ℕ) (keys : Option (List Bytes))
    → Yields Anything (delete_listed object base keys)
unfolding delete_listed
delete_listed-Yields object base none = tt
delete_listed-Yields object base (some keys) = delete_deltas-Yields object base keys

gc_item-Yields : (item : ShipItem) → Yields Anything (gc_item item)
unfolding gc_item
gc_item-Yields item =
    elim item.payload
      as (λ (p : ShipPayload). Yields Anything (gc_item (record item { payload = p }))) [
        | delta counter bytes ↦ tt
        | snapshot bytes gc ↦
            branch Anything gc _ _
              (Yields-bind Anything Anything (attempt (list? (delta_prefix item.object))) _
                (attempt-Yields (list? (delta_prefix item.object)))
                (λ keys h. delete_listed-Yields item.object _ keys))
              tt
      ]

gc_items-Yields : (items : List ShipItem) → Yields Anything (gc_items items)
unfolding gc_items
gc_items-Yields [] = tt
gc_items-Yields (item ∷ items) =
    skip Anything (gc_item item) (gc_items items) (gc_item-Yields item) (gc_items-Yields items)

pub verify_leases-Yields :
    (guarded : Guarded) (mono wall : ℕ) → Yields Anything (verify_leases guarded mono wall)
unfolding verify_leases
verify_leases-Yields guarded mono wall = λ listed. tt

cleanup-Yields :
    (node : Harbour) (items : List ShipItem) (inline : Bool) (unpromoted : List Bytes)
    → Yields {A = Unit {0}} Anything (elim unpromoted [
      | [] ↦
          (if inline then ret tt else delete_staged (staging_id node) items)
          >> (attempt (delete? (txn_key (staging_id node))) >> gc_items items)
      | object ∷ objects ↦ ret tt
    ])
cleanup-Yields node items inline (object ∷ objects) = tt
cleanup-Yields node items inline [] =
    skip Anything (if inline then ret tt else delete_staged (staging_id node) items) _
      (branch Anything inline _ _ tt (delete_staged-Yields (staging_id node) items))
      (tried Anything (delete? (txn_key (staging_id node))) (gc_items items)
        (gc_items-Yields items))

pub settle_boat-Yields :
    (node : Harbour) (items : List ShipItem) (inline : Bool) (guarded : Guarded)
    (log_primary : Bool)
    → Yields Anything (settle_boat node items inline guarded log_primary)
unfolding settle_boat
settle_boat-Yields node items inline guarded true =
    Yields-bind Anything Anything (verify_leases guarded node.mono_after node.wall_after) _
      (verify_leases-Yields guarded node.mono_after node.wall_after)
      (λ checked h.
        skip Anything (if checked.0 then compact_all (objects_of items) else ret tt) _
          (branch Anything checked.0 _ _ (compact_all-Yields (objects_of items)) tt) tt)
settle_boat-Yields node items inline guarded false =
    Yields-bind Anything Anything (promote_items items) _ (promote_items-Yields items)
      (λ unpromoted h. skip Anything _ _ (cleanup-Yields node items inline unpromoted) tt)
