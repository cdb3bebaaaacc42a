-- ===== src/Worker/Launch.antt =====
-- worker.rs, `maybe_launch`: which of the pending transactions go on the next boat, and its cargo.
-- The order in which a set is walked is that of its list. The parameters: `read`, what is in a live
-- file, and those of the payloads and the polls. The assertions of the simulator are left out.
pub mod Split
pub mod Whole
pub mod Left
use fafo.Prelude.{
  ℕ, zero, suc, ◌+◌, ◌≡◌, Bool, true, false, not, ◌&&◌, ◌||◌, Option, none, some, List, [], ◌∷◌,
  ◌++◌, map, leb, ltb, length, get_elem?, set, any, if◌then◌else◌, Map, lookup, insert, remove,
}
use fafo.Prelude.Bytes.{Bytes, bytes_eq}
use fafo.Store.{is_some, or_zero}
use fafo.Disk as Disk
use fafo.Grants.Hex.{Panics, returned, panicked}
use fafo.Delta.{Manifest}
use fafo.Worker.State.{Worker, AppliedTxn, Sent, failed, owns, live_path, fail_polls, clean}
use fafo.Worker.Revert.{has, revert_closure}
use fafo.Worker.Ship.{ShipItem}
use fafo.Worker.Boats.{ship_payload}
use fafo.Worker.Components.{txn_components}
use fafo.Worker.Polls.{OpResult, Fired, take_fired_polls}

-- `set.extend(objects)`
unfoldable pub extend : List Bytes → List Bytes → List Bytes
extend set [] = set
extend set (o ∷ objects) = extend (if has set o then set else o ∷ set) objects

abbrev pub participants_at : List AppliedTxn → ℕ → List Bytes
participants_at pending i = elim (get_elem? pending i) as (λ x. List Bytes) [
  | none ↦ []
  | some t ↦ t.participants
]

-- `comp_objects`
unfoldable pub component_objects : List AppliedTxn → List ℕ → List Bytes → List Bytes
unfolding extend
component_objects pending [] set = set
component_objects pending (i ∷ is) set =
    component_objects pending is (extend set (participants_at pending i))

abbrev pub bytes_of : Map Bytes ℕ → List Bytes → ℕ
bytes_of dirty [] = 0
bytes_of dirty (o ∷ objects) = or_zero (lookup o dirty) + bytes_of dirty objects

pub record Cut : Type 0 where
  pub selected : List ℕ
  pub boat_objects : List Bytes
  pub boat_bytes : ℕ
  pub leftover : List ℕ

abbrev pub no_boat : Cut
no_boat = record { selected = []; boat_objects = []; boat_bytes = 0; leftover = [] }

abbrev pub is_empty {ℓ} : {A : Type ℓ} → List A → Bool
is_empty [] = true
is_empty (x ∷ xs) = false

-- One component: it goes on the boat, or waits for the next.
unfoldable pub cut_one : List AppliedTxn → Map Bytes ℕ → ℕ → List ℕ → Cut → Cut
unfolding component_objects extend
cut_one pending dirty max_boat_bytes component b =
    let objects = component_objects pending component [] in
    if not (is_empty b.selected) && ltb max_boat_bytes (b.boat_bytes + bytes_of dirty objects)
    then record b { leftover = b.leftover ++ component }
    else record b {
      selected = b.selected ++ component;
      boat_objects = extend b.boat_objects objects;
      boat_bytes = b.boat_bytes + bytes_of dirty objects;
    }

unfoldable pub cut : List AppliedTxn → Map Bytes ℕ → ℕ → List (List ℕ) → Cut → Cut
unfolding cut_one
cut pending dirty max_boat_bytes [] b = b
cut pending dirty max_boat_bytes (c ∷ cs) b =
    cut pending dirty max_boat_bytes cs (cut_one pending dirty max_boat_bytes c b)

-- `pending[i].take()`
abbrev pub taken : List (Option AppliedTxn) → ℕ → Option AppliedTxn
taken pending i = elim (get_elem? pending i) as (λ x. Option AppliedTxn) [
  | none ↦ none
  | some t ↦ t
]

abbrev waiter_of : Option AppliedTxn → List ℕ
waiter_of none = []
waiter_of (some t) = elim t.waiter as (λ x. List ℕ) [ none ↦ [] | some resp ↦ resp ∷ [] ]

-- The waiters of the transactions on the boat, and what is left.
unfoldable pub board : List ℕ → List (Option AppliedTxn) → List ℕ × List (Option AppliedTxn)
board [] pending = ([], pending)
board (i ∷ is) pending =
    let rest = board is (set pending i none) in (waiter_of (taken pending i) ++ rest.0, rest.1)

-- `keep.sort_unstable()`
abbrev pub place_index : ℕ → List ℕ → List ℕ
place_index i [] = i ∷ []
place_index i (j ∷ js) = let rest = place_index i js in if leb i j then i ∷ j ∷ js else j ∷ rest

abbrev pub sort_indices : List ℕ → List ℕ
sort_indices [] = []
sort_indices (i ∷ is) = place_index i (sort_indices is)

abbrev kept_one : Option AppliedTxn → List AppliedTxn
kept_one none = []
kept_one (some t) = t ∷ []

unfoldable pub keep : List ℕ → List (Option AppliedTxn) → List AppliedTxn
keep [] pending = []
keep (i ∷ is) pending = kept_one (taken pending i) ++ keep is (set pending i none)

-- The boat takes its objects out of `dirty`.
unfoldable pub clean_all : Worker → List Bytes → Worker
unfolding clean
clean_all w [] = w
clean_all w (o ∷ objects) = clean_all (clean w o) objects

-- `self.dirty.keys().filter(|id| !self.owns(id))`
unfoldable pub orphaned : Worker → Map Bytes ℕ → List Bytes
unfolding owns
orphaned w [] = []
orphaned w ((o, bytes) ∷ dirty) = let rest = orphaned w dirty in if owns w o then rest else o ∷ rest

-- One object that cannot be read: it is reverted to what is durable.
unfoldable pub give_up_one : Worker → Bytes → Worker
unfolding fail_polls live_path
give_up_one w object =
    let served =
      if is_some (lookup object w.queues)
      then w.needs_service ++ object ∷ []
      else w.needs_service in
    let w1 = fail_polls (record w { needs_service = served }) object in
    record w1 {
      objects = remove object w1.objects;
      meta = remove object w1.meta;
      manifests = remove object w1.manifests;
      disk = Disk.drop_file w1.disk (live_path w1 object);
    }

unfoldable pub give_up : Worker → List Bytes → Worker
unfolding give_up_one
give_up w [] = w
give_up w (o ∷ objects) = give_up (give_up_one w o) objects

-- What leaves: the tasks of the boat are spawned with it.
pub record Boat : Type 0 where
  pub items : List ShipItem
  pub waiters : List ℕ

module _ (hash_page : Bytes → ℕ) (log_primary : Bool) (read : Bytes → Option Bytes) where
  -- The cargo, `none` where a file cannot be read; an object that is not live is a panic.
  unfoldable pub load :
      Worker → List Bytes → List ShipItem → Panics (Option (List ShipItem) × Worker)
  unfolding ship_payload live_path
  load w [] items = returned (some items, w)
  load w (o ∷ objects) items = elim (lookup o w.objects) [
    | none ↦ panicked
    | some live ↦ elim (read (live_path w o)) [
      | none ↦ returned (none, w)
      | some bytes ↦
          let r = ship_payload hash_page log_primary w.manifests o bytes in
          load (record w { manifests = r.1 }) objects
            (items
              ++ record { object = o; payload = r.0; expected_seq = or_zero (lookup o w.log_seq) }
                ∷ [])
    ]
  ]

  module _ (to_vec : List OpResult → Bytes) (query : Bytes → Bytes → List Bytes → Option OpResult)
      (listening : ℕ → Bool) (images : Map Bytes Bytes) where
    -- The durable polls that this boat satisfies wait for it.
    unfoldable pub fire_durable : Worker → List Bytes → List ℕ × Worker
    unfolding take_fired_polls
    fire_durable w [] = ([], w)
    fire_durable w (o ∷ objects) =
        let r = take_fired_polls to_vec query listening images w o true in
        let rest = fire_durable r.1 objects in (map (λ (f : Fired). f.resp) r.0 ++ rest.0, rest.1)

    -- The boat, loaded or not.
    unfoldable pub depart :
        List Bytes → List ℕ → Option (List ShipItem) × Worker → Option Boat × Worker
    unfolding give_up fire_durable
    depart objects waiters (none, w) =
        let w1 = give_up w objects in
        (none, record w1 { sent = w1.sent ++ map (λ (resp : ℕ). failed resp) waiters })
    depart objects waiters (some items, w) =
        let fired = fire_durable w objects in
        (
          some (record { items = items; waiters = waiters ++ fired.0 }),
          record (fired.1) { inflight = some objects },
        )

    abbrev pub and_depart :
        List Bytes
        → List ℕ
        → Panics (Option (List ShipItem) × Worker)
        → Panics (Option Boat × Worker)
    and_depart objects waiters (returned r) = returned (depart objects waiters r)
    and_depart objects waiters panicked = panicked

    -- The launch, when no boat is out.
    unfoldable pub launch : ℕ → Worker → Panics (Option Boat × Worker)
    unfolding txn_components cut board keep clean_all load depart
    launch max_boat_bytes w =
        let pending = w.pending_txns in
        let b = cut pending w.dirty max_boat_bytes (txn_components pending) no_boat in
        let aboard = board b.selected (map some pending) in
        let w1 = record w { pending_txns = keep (sort_indices b.leftover) aboard.1 } in
        and_depart b.boat_objects aboard.0 (load (clean_all w1 b.boat_objects) b.boat_objects [])

    abbrev revert_orphans : Worker → List Bytes → Worker
    revert_orphans w [] = w
    revert_orphans w (o ∷ objects) = revert_closure w (o ∷ objects)

    unfoldable pub maybe_launch : ℕ → Worker → Panics (Option Boat × Worker)
    unfolding orphaned revert_closure launch
    maybe_launch max_boat_bytes w =
        let w1 = revert_orphans w (orphaned w w.dirty) in
        if is_some w1.inflight || is_empty w1.pending_txns
        then returned (none, w1)
        else launch max_boat_bytes w1
