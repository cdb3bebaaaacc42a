-- ===== src/Worker/Complete.antt =====
-- worker.rs, `run_and_complete`: a transaction that heads all its queues runs, is answered or waits
-- for a boat, and gives its queues back. The transaction's poll and capability are arguments. The
-- parameters are those of the parts; `connect` opens a connection on an image.
pub mod Account
use fafo.Prelude.{
  ℕ, ◌+◌, ◌≡◌, Bool, true, false, not, ◌&&◌, Option, none, some, List, [], ◌∷◌, ◌++◌, map, leb,
  nat_eq, if◌then◌else◌, Map, lookup, insert, remove,
}
use fafo.Prelude.Bytes.{Bytes, bytes_eq}
use fafo.Store.{is_some, or_zero}
use fafo.Disk as Disk
use fafo.Grants.Hex.{Panics}
use fafo.Grants.Tokens.{Capability}
use fafo.Objlog.Io.{Io, ret, ◌>>=◌}
use fafo.Cluster.Claims.{Checkpoint}
use fafo.Worker.State.{
  Worker, Parked, Meta, AppliedTxn, Waiting, Sent, acked, failed, PendingPoll, TransferMeta,
  live_path, unshipped,
}
use fafo.Worker.Queues.{say, queue_of, service_front}
use fafo.Worker.Boats.{maybe_return_home}
use fafo.Worker.Polls.{
  OpResult, poll_hash, poll_ready, take_fired_polls, answer_fired, refresh_if_stale, install_fold,
  refold_clean_base, refresh_stale_poll,
}
use fafo.Worker.Launch.{Boat, maybe_launch}
use fafo.Worker.Execute.{Sqlite, Applied, applied, Conns, set_conn, apply}
use fafo.Worker.Dirty.{enter_meta, mark_dirty, enlist}

pub record PollOpts : Type 0 where
  pub durable : Bool
  pub baseline : Option Bytes
  pub conn : ℕ
  pub frame : ℕ

-- The deeds of objects that go home, and the transactions that may run now.
pub record Freed : Type 0 where
  pub worker : Worker
  pub ready : List ℕ
  pub homing : List (ℕ × TransferMeta)

module _ {C : Type 0} (sqlite : Sqlite C) (connect : Bytes → C)
    (results_to_vec : List OpResult → Bytes) (query : Bytes → Bytes → List Bytes → Option OpResult)
    (opens : Bytes → Bytes → Bool) (listening : ℕ → Bool) (file_len : Bytes → Option ℕ)
    (log_primary : Bool) where
  abbrev State : Type 0
  State = Worker × Conns sqlite

  -- The images that the live connections show.
  abbrev shown : Worker → Conns sqlite → Map Bytes Bytes
  shown w conns = map (λ (e : Bytes × Unit {0}). (e.0, sqlite.image (conns e.0))) w.objects

  -- The connection of an object that was installed anew.
  abbrev reconnect : Bool → Conns sqlite → Bytes → Map Bytes Bytes → Conns sqlite
  reconnect false conns o images = conns
  reconnect true conns o images = elim (lookup o images) as (λ x. Conns sqlite) [
    | none ↦ conns
    | some image ↦ set_conn sqlite conns o (connect image)
  ]

  -- A clean participant shows the committed truth before it is read or written.
  unfoldable pub catch_up_one : Bool → State → Bytes → Io State
  unfolding refresh_if_stale refold_clean_base
  catch_up_one true (w, conns) o = do
    r ← refresh_if_stale opens (w, shown w conns) o
    ret (r.1.0, reconnect r.0 conns o r.1.1)
  catch_up_one false (w, conns) o = do
    r ← refold_clean_base opens (w, shown w conns) o
    ret (r.1.0, reconnect r.0 conns o r.1.1)

  unfoldable pub catch_up : Bool → State → List Bytes → Io State
  unfolding catch_up_one
  catch_up read_only s [] = ret s
  catch_up read_only s (o ∷ os) = do s' ← catch_up_one read_only s o; catch_up read_only s' os

  -- Polls that do not wait for durability fire on what was just written.
  unfoldable pub fire_now : Conns sqlite → Worker → List Bytes → Worker
  unfolding take_fired_polls answer_fired
  fire_now conns w [] = w
  fire_now conns w (o ∷ os) =
      fire_now conns
        (answer_fired results_to_vec query listening
          (take_fired_polls results_to_vec query listening (shown w conns) w o false))
        os

  -- A poll that does not fire parks.
  unfoldable pub park : Worker → Parked → PollOpts → Worker
  park w p po = elim p.participants [
    | [] ↦ w
    | object ∷ os ↦ elim p.ops [
      | [] ↦ w
      | op ∷ ops ↦
          let list = elim (lookup object w.polls) as (λ x. List PendingPoll) [
            | none ↦ []
            | some list ↦ list
          ] in
          record w {
            polls =
                insert object
                  (list
                    ++ record {
                      conn = po.conn;
                      frame = po.frame;
                      sql = op.sql;
                      params = op.params;
                      durable = po.durable;
                      baseline = po.baseline;
                      resp = p.resp;
                    }
                      ∷ [])
                  w.polls;
          }
    ]
  ]

  -- The refreshed poll's answer, if it fires now.
  unfoldable pub after_refresh : Parked → PollOpts → Bool × Worker → Worker
  unfolding park
  after_refresh p po (true, w) = say w (acked p.resp ∷ [])
  after_refresh p po (false, w) = park w p po

  -- A poll is judged at the serialization point; a durable one only on durable state.
  unfoldable pub serve_poll : State → Parked → PollOpts → List OpResult → Io State
  unfolding poll_hash poll_ready refresh_stale_poll after_refresh park
  serve_poll (w, conns) p po results = elim p.participants [
    | [] ↦ ret (w, conns)
    | object ∷ os ↦
        let hash = poll_hash results_to_vec results in
        if not (po.durable && unshipped w object) && poll_ready po.baseline results hash
        then ret (say w (acked p.resp ∷ []), conns)
        else if po.durable && (log_primary && not (unshipped w object))
        then elim p.ops [
          | [] ↦ ret (park w p po, conns)
          | op ∷ ops ↦ (do
            r ←
                refresh_stale_poll results_to_vec query listening opens (w, shown w conns) object
                  po.baseline op
            ret (after_refresh p po (is_some r.0, r.2.0), reconnect r.1 conns object r.2.1))
        ]
        else ret (park w p po, conns)
  ]

  -- A write that changed nothing durable is answered now; another is enlisted for a boat.
  unfoldable pub settle_write : ℕ → Conns sqlite → Worker → Parked → List Bytes → Worker
  unfolding mark_dirty enlist fire_now
  settle_write max_unshipped conns w p [] =
      fire_now conns (say w (acked p.resp ∷ [])) p.participants
  settle_write max_unshipped conns w p (o ∷ os) =
      fire_now conns
        (enlist max_unshipped (mark_dirty file_len w (o ∷ os)) p.optimistic p.resp (o ∷ os))
        p.participants

  unfoldable pub settle : ℕ → Parked → Option PollOpts → Applied × Worker × Conns sqlite → Io State
  unfolding serve_poll settle_write
  settle max_unshipped p poll (applied results changed, w, conns) =
      if p.read_only
      then elim poll [
        | some po ↦ serve_poll (w, conns) p po results
        | none ↦ ret (say w (acked p.resp ∷ []), conns)
      ]
      else ret (settle_write max_unshipped conns w p changed, conns)
  settle max_unshipped p poll (e, w, conns) = ret (say w (failed p.resp ∷ []), conns)

  module _ (to_vec : Checkpoint → Bytes) (from_slice : Bytes → Option Checkpoint) where
    -- The queue after its head is popped: an object whose queue is empty may go home.
    unfoldable pub pop_head : Worker → Bytes → List Waiting → Io Freed
    unfolding maybe_return_home service_front
    pop_head w o [] = do
      r ← maybe_return_home to_vec file_len (record w { queues = remove o w.queues }) o
      ret (record {
        worker = r.1;
        ready = [];
        homing = elim r.0 as (λ x. List (ℕ × TransferMeta)) [ none ↦ [] | some h ↦ h ∷ [] ];
      })
    pop_head w o (e ∷ queue) = do
      r ←
          service_front to_vec from_slice file_len listening log_primary
            (record w { queues = insert o (e ∷ queue) w.queues }) o
      ret (record { worker = r.1; ready = r.0; homing = [] })

    abbrev tail_of : List Waiting → List Waiting
    tail_of [] = []
    tail_of (e ∷ queue) = queue

    unfoldable pub leave_heads : Worker → List Bytes → Io Freed
    unfolding pop_head
    leave_heads w [] = ret (record { worker = w; ready = []; homing = [] })
    leave_heads w (o ∷ os) = do
      let first : Io Freed = elim (lookup o w.queues) [
        | none ↦ ret (record { worker = w; ready = []; homing = [] })
        | some queue ↦ pop_head w o (tail_of queue)
      ]
      f ← first
      rest ← leave_heads f.worker os
      ret (record rest { ready = f.ready ++ rest.ready; homing = f.homing ++ rest.homing })

    -- The run, the ready transactions and the homing deeds, and the launch. `none` is the panic on a
    -- transaction that is not parked.
    unfoldable pub run_and_complete :
        (Bytes → ℕ)
        → (Bytes → Option Bytes)
        → (max_unshipped max_boat_bytes : ℕ) → Option PollOpts
        → Option Capability
        → State
        → ℕ
        → Option (Io (Panics (Option Boat × Worker) × Freed × Conns sqlite))
    unfolding enter_meta catch_up apply settle leave_heads maybe_launch
    run_and_complete hash_page read max_unshipped max_boat_bytes poll cap (w, conns) t =
        elim (lookup ⦃e = nat_eq⦄ t w.parked) [
          | none ↦ none
          | some p ↦ some do
            let w1 =
                enter_meta (record w { parked = remove ⦃e = nat_eq⦄ t w.parked }) p.participants
            s ←
                if log_primary
                then catch_up p.read_only (w1, conns) p.participants
                else ret (w1, conns)
            s' ←
                settle max_unshipped p poll
                  (apply sqlite s.0 s.1 p.participants p.ops p.read_only cap)
            f ← leave_heads s'.0 p.participants
            ret (
              maybe_launch hash_page log_primary read results_to_vec query listening
                  (shown f.worker s'.1) max_boat_bytes f.worker,
              f,
              s'.1,
            )
        ]
