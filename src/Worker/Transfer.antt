-- ===== src/Worker/Transfer.antt =====
-- worker.rs, the transfer of an object between workers: `release`, `admit` and `checkpoint`. The
-- parameters: serde_json for checkpoints, the length of a file, and the switch `log_primary`.
pub mod Generations
pub mod Admission
use fafo.Prelude.{
  ℕ, ◌+◌, ◌-◌, ◌≡◌, max, Bool, true, false, not, ◌&&◌, ◌||◌, Option, none, some, List, [], ◌∷◌,
  ◌++◌, map, nat_beq, leb, ltb, nat_eq, if◌then◌else◌, any, get_elem?, Map, lookup, insert, remove,
  ◌==◌,
}
use fafo.Prelude.Bytes.{Bytes, codes, bytes_eq, bytes_beq}
use fafo.Store.{is_some, or_zero}
use fafo.Objlog.Io.{Io, ret, ◌>>=◌, ◌>>◌, put?, attempt}
use fafo.Objlog.Protocol.{committed_seq}
use fafo.Disk as Disk
use fafo.Routing.Hash.{default_worker}
use fafo.Routing.Placement.{Routing, owner_of, crowded}
use fafo.Cluster.Claims.{Checkpoint, Claim, durable_claim, u64_max}
use fafo.Cluster.Leases.{decimal}
use fafo.Worker.State.{
  Worker, TransferMeta, TakeError, not_mine, take_failed, Meta, VisitInfo, Waiting, txn, take,
  Parked, Sent, granted, refused, live_path, fail_polls, unshipped,
}

abbrev pub rehome_after : ℕ
rehome_after = 3

abbrev pub visit_window : ℕ
visit_window = 1000

unfoldable pub checkpoint_key : ℕ → Bytes
checkpoint_key worker = codes "_worker/" ++ (decimal worker ++ codes ".json")

-- `Option::max`, where `None` is the least.
abbrev pub max_option : Option ℕ → Option ℕ → Option ℕ
max_option none b = b
max_option (some a) none = some a
max_option (some a) (some b) = some (max a b)

abbrev pub transit_generation : Option (ℕ × ℕ) → Option ℕ
transit_generation none = none
transit_generation (some (to, g)) = some g

-- The highest generation that the worker holds or has granted.
unfoldable pub known : Worker → Bytes → Option ℕ
known w object = max_option (lookup object w.owned) (transit_generation (lookup object w.transit))

-- `map.insert` or `map.remove`, to put back what was there.
abbrev pub restore {ℓ} : {A : Type ℓ} → Bytes → Option A → Map Bytes A → Map Bytes A
restore object none m = remove object m
restore object (some a) m = insert object a m

-- The routing map's entry of an object that goes to a worker.
unfoldable pub route : Worker → Bytes → ℕ → Worker
route w object target =
    let r = w.routing in
    record w {
      routing = record r {
        exceptions =
            if nat_beq (default_worker object r.logical) target
            then remove object r.exceptions
            else insert object target r.exceptions;
      };
    }

-- The deed that `release` makes out of what the worker knew of the object's stay.
unfoldable pub deed : Worker → ℕ → Option Meta → TransferMeta
deed w generation none = record {
  settled = ltb 0 w.hysteresis;
  home = w.id;
  visit = none;
  generation = generation;
}
deed w generation (some m) = record {
  settled =
      is_some m.return_to || (ltb 0 w.hysteresis && leb w.hysteresis (w.clock - m.arrived_at));
  home = elim m.return_to [ none ↦ w.id | some home ↦ home ];
  visit = m.visit;
  generation = generation;
}

-- The state in which `release` renounces: neither the object nor its old marker, but the new one.
unfoldable pub renounce : Worker → Bytes → ℕ → ℕ → Worker
renounce w object dest generation = record w {
  owned = remove object w.owned;
  transit = insert object (dest, generation) w.transit;
}

unfoldable pub next_generation : Worker → Bytes → ℕ
unfolding known
next_generation w object = or_zero (known w object) + 1

-- `new_owner.unwrap_or(self.id)`
abbrev pub target : Worker → Option ℕ → ℕ
target w none = w.id
target w (some dest) = dest

abbrev route_to : Worker → Bytes → Option ℕ → Worker
route_to w object none = w
route_to w object (some target) = route w object target

-- The state and the deed after a renunciation that is durable.
unfoldable pub hand_over :
    (Bytes → Option ℕ) → Worker → Bytes → Option ℕ → ℕ → TransferMeta × Worker
unfolding fail_polls deed route live_path
hand_over file_len w object new_owner generation =
    let w1 = fail_polls w object in
    let path = live_path w1 object in
    let w2 = record w1 {
      objects = remove object w1.objects;
      manifests = remove object w1.manifests;
      disk = Disk.set_cache w1.disk path (file_len path) w1.id;
      meta = remove object w1.meta;
    } in
    (deed w generation (lookup object w.meta), route_to w2 object new_owner)

-- `v.worker == self.id && now >= v.last && now - v.last <= VISIT_WINDOW`
abbrev pub visits_of : Worker → Option VisitInfo → ℕ
visits_of w none = 1
visits_of w (some v) =
    if nat_beq v.worker w.id && (leb v.last w.clock && leb (w.clock - v.last) visit_window)
    then v.count + 1
    else 1

-- The `Meta` of an admitted object.
unfoldable pub admitted_meta : Worker → TransferMeta → Meta
admitted_meta w tm =
    let visits = visits_of w tm.visit in
    let stays : Meta = record { arrived_at = w.clock; return_to = none; visit = none } in
    let visiting : Meta = record {
      arrived_at = w.clock;
      return_to = some tm.home;
      visit = some (record { worker = w.id; count = visits; last = w.clock });
    } in
    if tm.settled
    then (if ltb visits rehome_after || crowded w.routing w.id then visiting else stays)
    else record { arrived_at = w.clock; return_to = none; visit = tm.visit }

-- `tm.generation <= cur`, where something is known
abbrev pub stale : Option ℕ → ℕ → Bool
stale none generation = false
stale (some cur) generation = leb generation cur

-- `Claim::Transit(w, g) | Claim::Owned(w, g) if w == self.id && g == tm.generation`
abbrev pub names : Claim → ℕ → ℕ → Bool
names (Claim.owned w g) id generation = nat_beq w id && nat_beq g generation
names (Claim.transit w g) id generation = nat_beq w id && nat_beq g generation
names Claim.unclaimed id generation = false

module _ (to_vec : Checkpoint → Bytes) where
  unfoldable pub checkpoint : Worker → Io (Unit {0})
  unfolding checkpoint_key
  checkpoint w =
      put? (checkpoint_key w.id) (to_vec (record { owned = w.owned; transit = w.transit }))

  -- `release` after the write of its checkpoint; `w` is the worker before, `w1` as it renounces.
  unfoldable pub conclude :
      (Bytes → Option ℕ)
      → Worker
      → Worker
      → Bytes
      → Option ℕ
      → ℕ
      → Option (Unit {0})
      → Io (Option TransferMeta × Worker)
  unfolding hand_over
  conclude file_len w w1 object new_owner generation (some done) =
      let r = hand_over file_len w1 object new_owner generation in ret (some r.0, r.1)
  conclude file_len w w1 object new_owner generation none = ret (
    none,
    record w1 {
      owned = restore object (lookup object w.owned) w1.owned;
      transit = restore object (lookup object w.transit) w1.transit;
    },
  )

  -- `none` is the refused transfer.
  unfoldable pub release :
      (Bytes → Option ℕ) → Worker → Bytes → Option ℕ → Io (Option TransferMeta × Worker)
  unfolding checkpoint renounce next_generation conclude
  release file_len w object new_owner =
      let generation = next_generation w object in
      let w1 = renounce w object (target w new_owner) generation in
      attempt (checkpoint w1) >>= conclude file_len w w1 object new_owner generation

  -- The drop of a connection whose base may have moved: the next use activates again.
  unfoldable pub refresh : Bool → Bytes → Worker → Io Worker
  unfolding committed_seq
  refresh log_primary object w =
      if log_primary && not (is_some (lookup object w.dirty))
      then (do
        seq ← attempt (committed_seq object)
        ret (record w {
          objects = remove object w.objects;
          log_seq = insert object (or_zero seq) w.log_seq;
        }))
      else ret w

  -- `admit` from the removal of the marker to its checkpoint, whose error is dropped.
  unfoldable pub settle : Bytes → Worker → Io Worker
  unfolding route checkpoint
  settle object w =
      let w' = route (record w { transit = remove object w.transit }) object w.id in
      attempt (checkpoint w') >> ret w'

  -- What `admit` does once the deed is good.
  unfoldable pub accept : Bool → Worker → Bytes → TransferMeta → Io Worker
  unfolding admitted_meta refresh settle
  accept log_primary w object tm =
      let w1 = record w {
        meta = insert object (admitted_meta w tm) w.meta;
        owned = insert object tm.generation w.owned;
      } in
      refresh log_primary object w1 >>= settle object

  module _ (from_slice : Bytes → Option Checkpoint) where
    -- The reconciliation of a phantom transit: `none` where the deed is refused.
    unfoldable pub reconcile : Bool → Worker → Bytes → ℕ → Io (Option Worker)
    unfolding durable_claim
    reconcile log_primary w object generation =
        if log_primary && not (is_some (lookup object w.owned))
        then (do
          claim ← durable_claim from_slice object
          if names claim w.id generation
              then ret (some (record w { transit = remove object w.transit }))
              else ret none)
        else ret none

    unfoldable pub admit : Bool → Worker → Bytes → TransferMeta → Io (Bool × Worker)
    unfolding known reconcile accept
    admit log_primary w object tm = do
      let open_to =
          if stale (known w object) tm.generation
          then reconcile log_primary w object tm.generation
          else ret (some w)
      good ← open_to
      elim good [
        | none ↦ ret (false, w)
        | some w' ↦ (do w'' ← accept log_primary w' object tm; ret (true, w''))
      ]
