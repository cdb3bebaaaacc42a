-- ===== src/Examples/Workers.antt =====
-- The theorems on worker.rs at concrete inputs.
use fafo.Prelude.{
  ℕ, zero, suc, ◌+◌, ◌≤◌, ◌<◌, ◌≡◌, refl, true, false, Option, none, some, List, [], ◌∷◌, ◌⊎◌,
  arith, All, Map, lookup, remove, insert, nat_beq, some_inj, sym, if◌then◌else◌,
}
use mathlib.Core.List.{Memᴰ}
use fafo.Prelude.Bytes.{Bytes, codes, bytes_eq}
use fafo.Store.{empty_store}
use fafo.Objlog.Io.{run, Schedule}
use fafo.Cluster.Claims.{Checkpoint}
use fafo.Worker.State.{Worker, TransferMeta}
use fafo.Worker.Transfer.{known, route, admitted_meta, hand_over, renounce, release, admit, target}
use fafo.Worker.Transfer.Generations.{Renounced, Kept, release_renounces}
use fafo.Prelude.{nat_beq}
use fafo.Worker.Handoff.{System, set_worker, cut, delivered, Steps, start, next}
use fafo.Worker.Handoff.Single.{UpTo}
use fafo.Worker.Handoff.Unique.{single_owner}

-- Parameters: checkpoints that are never read, no files, no ledgers.
abbrev pub blank : Checkpoint → Bytes
blank c = codes "{}"

abbrev pub unread : Bytes → Option Checkpoint
unread b = none

abbrev pub no_file : Bytes → Option ℕ
no_file path = none

abbrev pub doc : Bytes
doc = codes "doc"

abbrev pub resting : ℕ → Worker
resting i = record {
  id = i;
  live_dir = codes "live";
  owned = [];
  transit = [];
  objects = [];
  meta = [];
  queues = [];
  parked = [];
  dirty = [];
  dirty_bytes = 0;
  pending_txns = [];
  manifests = [];
  log_seq = [];
  inflight = none;
  polls = [];
  needs_service = [];
  routing = record { logical = 4; blocks = 1; exceptions = []; addrs = [] };
  disk = record { budget = 100; used = 0; seq = 0; files = [] };
  clock = 7;
  hysteresis = 5;
  sent = [];
}

abbrev pub owner : Worker
owner = record (resting 0) { owned = (doc, 3) ∷ [] }

release_renounces_example :
    let r = run (release blank no_file owner doc (some 1)) [] empty_store in
    Renounced blank no_file owner doc (target owner (some 1)) r ⊎ Kept blank no_file owner r
release_renounces_example = release_renounces blank no_file owner doc (some 1) [] empty_store

abbrev deed_of_four : TransferMeta
deed_of_four = record { settled = true; home = 0; visit = none; generation = 4 }

-- Its marker is of that deed, so the worker asks the ledger.
abbrev marked : Worker
marked = record (resting 1) { transit = (doc, (2, 4)) ∷ [] }

-- Worker 0 hands the object to worker 1.
abbrev line_up : ℕ → Worker
line_up zero = owner
line_up (suc i) = resting (suc i)

abbrev before : System
before = record { workers = line_up; deeds = [] }

abbrev giver : Worker
giver = renounce owner doc 1 4

abbrev handed : TransferMeta × Worker
handed = hand_over no_file giver doc (some 1) 4

abbrev between : System
between = record { workers = set_worker 0 handed.1 before.workers; deeds = (1, handed.0) ∷ [] }

abbrev receiver : Worker
receiver =
    route
      (record (resting 1) {
        meta = insert doc (admitted_meta (resting 1) handed.0) [];
        owned = (doc, 4) ∷ [];
      })
      doc 1

abbrev after : System
after = record { workers = set_worker 1 receiver between.workers; deeds = between.deeds }

release-run :
    (run (release blank no_file (before.workers 0) doc (some 1)) [] empty_store).0
    ≡ some (some handed.0, handed.1)
unfolding run release fafo.Objlog.Io.◌>>=◌ fafo.Objlog.Io.attempt lookup
    fafo.Prelude.Bytes.bytes_beq
release-run = refl

admit-run :
    (run (admit blank unread false (between.workers 1) doc handed.0) [] empty_store).0
    ≡ some (true, receiver)
unfolding run admit fafo.Objlog.Io.◌>>=◌ lookup fafo.Objlog.Io.attempt insert remove hand_over
    renounce
admit-run = refl

handoff : Steps blank unread no_file doc before after
unfolding lookup fafo.Prelude.Bytes.bytes_beq
handoff =
    next before between after
      (next before before between (start before)
        (cut before 0 1 3 handed.0 handed.1 [] empty_store refl release-run))
      (delivered between 1 handed.0 true receiver [] empty_store (Memᴰ.head refl) admit-run)

owner_before : (i h : ℕ) → lookup doc (before.workers i).owned ≡ some h → (h ≡ 3) × (i ≡ 0)
unfolding lookup fafo.Prelude.Bytes.bytes_beq
owner_before zero h e = (some_inj (sym e), refl)
owner_before (suc i) h e = absurd (ground arith)

known_before : (i : ℕ) → UpTo (known (before.workers i) doc) 3
unfolding known lookup fafo.Prelude.Bytes.bytes_beq
known_before zero = omega arith
known_before (suc i) = tt

owner_after : lookup doc (after.workers 1).owned ≡ some 4
unfolding lookup route fafo.Prelude.Bytes.bytes_beq
owner_after = refl

single_owner_example :
    ((j k : ℕ) → lookup doc (after.workers j).owned ≡ some k → (j ≡ 1) × (k ≡ 4))
    × ((j : ℕ) → UpTo (known (after.workers j) doc) 4)
    × ((j : ℕ) (tm : TransferMeta) → Memᴰ (j, tm) after.deeds → tm.generation ≤ 4)
single_owner_example =
    single_owner blank unread no_file doc before after 3 0 refl owner_before known_before handoff 1
      4 owner_after
