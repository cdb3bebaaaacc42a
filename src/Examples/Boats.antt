-- ===== src/Examples/Boats.antt =====
-- The theorems on the boats of worker.rs at concrete inputs.
use fafo.Prelude.{
  ℕ, zero, suc, ◌+◌, ◌≤◌, ◌<◌, ◌≡◌, refl, Bool, true, false, Option, none, some, List, [], ◌∷◌, ◌⊎◌,
  arith, All, Map, lookup, remove, insert,
}
use fafo.Prelude.Bytes.{Bytes, codes, bytes_eq}
use fafo.Store.{MemInner, empty_store, put}
use fafo.Objlog.Io.{run, Schedule}
use fafo.Objlog.Outcome.{decision}
use fafo.Worker.State.{Worker, TransferMeta, acked, granted, take}
use fafo.Worker.Transfer.{admit, known}
use fafo.Worker.Ship.{
  ShipItem, ShipPayload, snapshot, delta, TxnRecord, Harbour, ShipDone, staging_id,
}
use fafo.Worker.Ship.Landing.{Shipped, ship_task}
use fafo.Worker.Ship.Answers.{Answered, ship_task-answers}
use fafo.Worker.Ship.Committed.{ship_task-commits}
use fafo.Worker.Revert.{reverted_by, revert_closure}
use fafo.Worker.Revert.Closed.{Within}
use fafo.Worker.Revert.Whole.{Spared, Reverted, revert_closure-whole}
use mathlib.Core.List.{Memᴰ}
use fafo.Worker.Boats.Surrender.{on_rebased, on_rebased-forges}
use fafo.Cluster.Claims.{Checkpoint, Claim, durable_claim}
use fafo.Examples.Workers.{blank, no_file, doc, resting, owner}

abbrev no_ledger : Bytes → Option (List Bytes)
no_ledger image = none

abbrev no_record : TxnRecord → Bytes
no_record txn = []

abbrev harbour : Harbour
harbour = record {
  tag = codes "n1";
  ship_seq = 0;
  born = 5;
  ttl_ms = 100;
  mono = 1;
  wall = 2;
  mono_after = 3;
  wall_after = 4;
  guarded = record { epochs = []; verified = (0, 0); fenced = false };
}

abbrev cargo : List ShipItem
cargo = record { object = doc; payload = snapshot (codes "image") false; expected_seq = 0 } ∷ []

ship_task-answers_example :
    (r : Shipped) × ((run
        (ship_task no_ledger no_record false harbour cargo (9 ∷ []))
        []
        empty_store).0
      ≡ some r)
    × Answered cargo (9 ∷ []) r
ship_task-answers_example =
    ship_task-answers no_ledger no_record false harbour cargo (9 ∷ []) [] empty_store

abbrev landed : Shipped
landed = record {
  sent = acked 9 ∷ [];
  done = record { objects = doc ∷ []; ok = true; unpromoted = []; rebased = none };
  guarded = record { epochs = []; verified = (3, 4); fenced = false };
}

ship_task-run :
    (run (ship_task no_ledger no_record true harbour cargo (9 ∷ [])) [] empty_store).0 ≡ some landed
unfolding fafo.Objlog.Entry.fold fafo.Objlog.Io.attempt fafo.Objlog.Io.◌>>=◌
    fafo.Objlog.Keys.base_prefix fafo.Objlog.Keys.log_key fafo.Objlog.Keys.outcome_key
    fafo.Objlog.Keys.padded fafo.Objlog.Keys.parse_log_seq fafo.Prelude.Bytes.bytes_beq
    fafo.Store.bytes_lt fafo.Store.create fafo.Store.effects fafo.Store.list fafo.Worker.Ship.voyage
    lookup run ship_task fafo.Cluster.Leases.decimal fafo.Objlog.Entry.body_of
    fafo.Objlog.Entry.decode_entry fafo.Objlog.Entry.tag_of fafo.Objlog.Entry.valid_utf8
    fafo.Objlog.Protocol.entry_at fafo.Objlog.Protocol.is_one fafo.Prelude.Words.from_be_bytes
    fafo.Prelude.Words.to_be_bytes fafo.Store.get
ship_task-run = refl

ship_task-commits_example :
    decision
      (run (ship_task no_ledger no_record true harbour cargo (9 ∷ [])) [] empty_store).1
      (staging_id harbour)
    ≡ some true
ship_task-commits_example =
    ship_task-commits no_ledger no_record harbour cargo (9 ∷ []) [] empty_store {r = landed} tt
      ship_task-run refl

-- Two pending transactions share an object with each other; a third stands alone.
abbrev busy : Worker
busy = record (resting 0) {
  objects = (doc, tt) ∷ (codes "b", tt) ∷ [];
  dirty = (doc, 4) ∷ (codes "b", 6) ∷ [];
  dirty_bytes = 10;
  pending_txns =
      record { participants = doc ∷ codes "b" ∷ []; waiter = some 1 }
      ∷ record { participants = codes "c" ∷ []; waiter = some 2 }
      ∷ [];
}

revert_closure-whole_example :
    let w' = revert_closure busy (doc ∷ []) in
    let reverted = reverted_by busy.pending_txns (doc ∷ []) in
    Within (doc ∷ []) reverted
    × All (Spared reverted w'.pending_txns) busy.pending_txns
    × Reverted reverted busy w'
revert_closure-whole_example = revert_closure-whole busy (doc ∷ [])

-- The owner's boat sank; a take of worker 1 waits, and worker 2 has won the object at generation 4.
abbrev sunk : Worker
sunk = record owner { queues = (doc, take 1 50 ∷ []) ∷ [] }

abbrev won_by_two : Bytes → Option Checkpoint
won_by_two bytes = some (record { owned = (doc, 4) ∷ []; transit = [] })

abbrev ledger_of_two : MemInner
ledger_of_two = put empty_store (codes "_worker/2.json") (codes "{}")

abbrev everyone : ℕ → Bool
everyone resp = true

two_has_it : (run (durable_claim won_by_two doc) [] ledger_of_two).0 ≡ some (Claim.owned 2 4)
unfolding run durable_claim fafo.Objlog.Io.◌>>=◌ fafo.Store.list fafo.Store.effects put
    fafo.Store.bytes_lt fafo.Cluster.Claims.parse_checkpoint_key fafo.Prelude.Bytes.strip_suffix
    fafo.Objlog.Keys.parse_u64 fafo.Store.get lookup
two_has_it = refl

on_rebased-forges_example :
    (ready : List ℕ) × (w' : Worker) × (tm : TransferMeta) × (taker' : Worker) × ((run
        (on_rebased blank won_by_two no_file everyone true sunk doc)
        []
        ledger_of_two).0
      ≡ some (ready, w'))
    × Memᴰ (granted 50 tm) w'.sent
    × (tm.generation ≡ 1)
    × ((run (admit blank won_by_two true (resting 1) doc tm) [] empty_store).0
        ≡ some (true, taker'))
    × (lookup doc taker'.owned ≡ some 1)
unfolding lookup fafo.Prelude.Bytes.bytes_beq known
on_rebased-forges_example =
    on_rebased-forges blank won_by_two no_file everyone true sunk (resting 1) doc 3 2 4 1 50 []
      ledger_of_two empty_store [] refl refl refl refl two_has_it (omega arith) (omega arith)
      (omega arith) refl
