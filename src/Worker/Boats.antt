-- ===== src/Worker/Boats.antt =====
-- worker.rs, what a worker puts on a boat and does when it is back: `ship_payload`, and of
-- `on_ship_done` the surrender of an object that a peer has won and the repair of objects that were
-- committed and not promoted; and `maybe_return_home`, up to the message that it sends. The page
-- hash and the length of a file are parameters.
pub mod Payload
pub mod Surrender
use fafo.Prelude.{
  ℕ, ◌+◌, ◌-◌, ◌*◌, ◌/◌, ◌≡◌, Bool, true, false, not, ◌&&◌, ◌||◌, Option, none, some, List, [], ◌∷◌,
  ◌++◌, map, nat_beq, leb, ltb, length, if◌then◌else◌, Map, lookup, insert, remove,
}
use fafo.Prelude.Bytes.{Bytes, bytes_eq}
use fafo.Store.{is_some, or_zero}
use fafo.Objlog.Io.{Io, ret, ◌>>=◌}
use fafo.Delta.{Manifest, Delta, manifest_of, diff, encode}
use fafo.Cluster.Claims.{Checkpoint, Claim, durable_claim, u64_max}
use fafo.Worker.State.{
  Worker, TransferMeta, Meta, AppliedTxn, fail_polls, unshipped, clean, owns, live_path,
}
use fafo.Worker.Transfer.{release}
use fafo.Worker.Ship.{ShipPayload, snapshot, delta}

abbrev pub delta_min_bytes : ℕ
delta_min_bytes = 65536

abbrev pub compact_chain : ℕ
compact_chain = 16

abbrev pub compact_fraction_denom : ℕ
compact_fraction_denom = 3

abbrev pub delta_size : List (ℕ × Bytes) → ℕ
delta_size [] = 0
delta_size ((page, bytes) ∷ pages) = length bytes + delta_size pages

module _ (hash_page : Bytes → ℕ) where
  -- The payload against a manifest that is there, and the manifest after it.
  unfoldable pub against : Manifest → Bytes → ShipPayload × Manifest
  unfolding diff encode
  against m bytes =
      let (m', d) = diff hash_page m bytes in
      if ltb compact_chain (m'.chain_len + 1)
        || ltb (length bytes / compact_fraction_denom) (delta_size d.pages)
      then (snapshot bytes true, record m' { chain_len = 0 })
      else (delta d.counter (encode d), record m' { chain_len = m'.chain_len + 1 })

  unfoldable pub ship_payload :
      Bool → Map Bytes Manifest → Bytes → Bytes → ShipPayload × Map Bytes Manifest
  unfolding against manifest_of
  ship_payload log_primary manifests object bytes =
      if log_primary
      then (snapshot bytes false, manifests)
      else if ltb (length bytes) delta_min_bytes
      then (snapshot bytes (is_some (lookup object manifests)), manifests)
      else elim (lookup object manifests) [
        | none ↦ (snapshot bytes false, insert object (manifest_of hash_page bytes 0) manifests)
        | some m ↦ let r = against m bytes in (r.0, insert object r.1 manifests)
      ]

-- `w != self.id && w != usize::MAX && g >= my_gen` of a claim
unfoldable pub winner : Worker → Bytes → Claim → Option ℕ
winner w object (Claim.owned v g) =
    if not (nat_beq v w.id) && (not (nat_beq v u64_max) && leb (or_zero (lookup object w.owned)) g)
    then some v
    else none
winner w object (Claim.transit v g) =
    if not (nat_beq v w.id) && (not (nat_beq v u64_max) && leb (or_zero (lookup object w.owned)) g)
    then some v
    else none
winner w object Claim.unclaimed = none

-- The surrender of the object to the worker that holds it durably.
unfoldable pub relinquish : Worker → Bytes → ℕ → Worker
unfolding clean fail_polls
relinquish w object v =
    let w1 =
      clean
        (record w {
          owned = remove object w.owned;
          log_seq = remove object w.log_seq;
          meta = remove object w.meta;
          manifests = remove object w.manifests;
        })
        object in
    let w2 = fail_polls (record w1 { objects = remove object w1.objects }) object in
    let r = w2.routing in
    record w2 { routing = record r { exceptions = insert object v r.exceptions } }

abbrev pub surrender : Worker → Bytes → Option ℕ → Worker
surrender w object none = w
surrender w object (some v) = relinquish w object v

-- What a boat that is back makes of the object whose prewrite it lost.
unfoldable pub reconcile_rebased : (Bytes → Option Checkpoint) → Worker → Option Bytes → Io Worker
unfolding winner relinquish durable_claim
reconcile_rebased from_slice w none = ret w
reconcile_rebased from_slice w (some object) = do
  claim ← durable_claim from_slice object
  ret (surrender w object (winner w object claim))

-- `*s += 1` for the objects of a boat that landed, under the primary log
unfoldable pub advance_seqs : List Bytes → Map Bytes ℕ → Map Bytes ℕ
advance_seqs [] seqs = seqs
advance_seqs (object ∷ objects) seqs =
    advance_seqs objects (elim (lookup object seqs) as (λ x. Map Bytes ℕ) [
      | none ↦ seqs
      | some s ↦ insert object (s + 1) seqs
    ])

-- An object that was committed and not promoted: it is dirty again, and ships whole.
unfoldable pub repair_one : (Bytes → Option ℕ) → Worker → Bytes → Worker
unfolding live_path
repair_one file_len w object =
    let w1 = record w { manifests = remove object w.manifests } in
    let live =
      if is_some (lookup object w1.objects) then file_len (live_path w1 object) else none in
    elim (lookup object w1.dirty) [
      | some bytes ↦ w1
      | none ↦ record w1 {
        dirty = insert object (or_zero live) w1.dirty;
        dirty_bytes = w1.dirty_bytes + or_zero live;
      }
    ]

unfoldable pub repair_all : (Bytes → Option ℕ) → Worker → List Bytes → Worker
unfolding repair_one
repair_all file_len w [] = w
repair_all file_len w (object ∷ objects) =
    repair_all file_len (repair_one file_len w object) objects

unfoldable pub repair : (Bytes → Option ℕ) → Worker → List Bytes → Worker
unfolding repair_all
repair file_len w [] = w
repair file_len w (object ∷ objects) =
    let w' = repair_all file_len w (object ∷ objects) in
    record w' {
      pending_txns =
          w'.pending_txns ++ record { participants = object ∷ objects; waiter = none } ∷ [];
    }

abbrev home_of : Worker → Bytes → Option ℕ
home_of w object = elim (lookup object w.meta) as (λ x. Option ℕ) [
  | none ↦ none
  | some m ↦ m.return_to
]

-- The deed that goes home, with the home that it is for: `none` where the object stays.
unfoldable pub going_home : ℕ → Option TransferMeta × Worker → Option (ℕ × TransferMeta) × Worker
going_home home (none, w) = (none, w)
going_home home (some tm, w) = (some (home, record tm { settled = false; home = home }), w)

unfoldable pub maybe_return_home :
    (Checkpoint → Bytes)
    → (Bytes → Option ℕ)
    → Worker
    → Bytes
    → Io (Option (ℕ × TransferMeta) × Worker)
unfolding unshipped owns release going_home
maybe_return_home to_vec file_len w object =
    if unshipped w object then ret (none, w) else elim (home_of w object) [
      | none ↦ ret (none, w)
      | some home ↦
          if nat_beq home w.id || not (owns w object)
          then ret (none, w)
          else (do r ← release to_vec file_len w object (some home); ret (going_home home r))
    ]
