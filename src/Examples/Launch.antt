-- ===== src/Examples/Launch.antt =====
-- The theorems on launches, execution and polls of worker.rs at concrete inputs.
use fafo.Prelude.{
  if◌then◌else◌, not, ℕ, zero, suc, ◌+◌, ◌≤◌, ◌<◌, ◌≡◌, refl, Bool, true, false, Option, none, some,
  List, [], ◌∷◌, arith, All, Map, lookup, map,
}
use fafo.Prelude.Bytes.{bytes_beq, Bytes, codes, bytes_eq}
use fafo.Cluster.Requests.{Op}
use fafo.Worker.State.{Worker, AppliedTxn}
use fafo.Worker.Components.{txn_components}
use fafo.Worker.Components.Groups.{IsPartition, txn_components-IsPartition}
use fafo.Grants.Hex.{Panics, returned, panicked}
use fafo.Worker.Polls.{OpResult, rows, affected, take_fired_polls}
use fafo.Worker.Polls.Firing.{
  fired_on, parked_on, failed_on, polls_of, Justified, take_fired_polls_settles,
}
use fafo.Worker.Execute.{Sqlite, apply, commit_failed}
use fafo.Worker.Execute.Atomic.{
  IsTransactional, Distinct, AllPlain, AllOrNothing, apply-AllOrNothing,
}
use fafo.Worker.Launch.{Boat, launch}
use fafo.Worker.Launch.Whole.{next_boat, IsWholeBoat, next_boat-IsWholeBoat}
use fafo.Worker.Launch.Left.{Ashore, launch-Ashore}
use fafo.Worker.Complete.Account.{
  IsAccounted, DirtyOp, mark, ship, revert, lose, dirty_run, dirty_run-IsAccounted,
}
use fafo.Examples.Workers.{resting, no_file}

-- The first and the last share an object; the second stands alone.
abbrev three_pending : List AppliedTxn
three_pending =
    record { participants = codes "a" ∷ codes "b" ∷ []; waiter = some 1 }
    ∷ record { participants = codes "c" ∷ []; waiter = none }
    ∷ record { participants = codes "b" ∷ codes "d" ∷ []; waiter = some 2 }
    ∷ []

abbrev unshipped_bytes : Map Bytes ℕ
unshipped_bytes = (codes "a", 5) ∷ (codes "b", 7) ∷ (codes "c", 9) ∷ []

three_groups : txn_components three_pending ≡ (0 ∷ 2 ∷ []) ∷ (1 ∷ []) ∷ []
unfolding txn_components lookup fafo.Prelude.insert fafo.Prelude.Bytes.bytes_beq
three_groups = refl

txn_components-IsPartition_example : IsPartition three_pending (txn_components three_pending)
txn_components-IsPartition_example = txn_components-IsPartition three_pending

next_boat-IsWholeBoat_example :
    IsWholeBoat three_pending unshipped_bytes 10 (next_boat three_pending unshipped_bytes 10)
next_boat-IsWholeBoat_example = next_boat-IsWholeBoat three_pending unshipped_bytes 10

abbrev laden : Worker
laden = record (resting 0) {
  objects = (codes "a", tt) ∷ (codes "b", tt) ∷ (codes "c", tt) ∷ (codes "d", tt) ∷ [];
  dirty = unshipped_bytes;
  dirty_bytes = 21;
  pending_txns = three_pending;
}

abbrev page_sum : Bytes → ℕ
page_sum page = 0

abbrev live_bytes : Bytes → Option Bytes
live_bytes path = some path

abbrev no_json : List OpResult → Bytes
no_json results = []

abbrev echo : Bytes → Bytes → List Bytes → Option OpResult
echo image sql params = some (rows (sql ∷ []))

abbrev open_channel : ℕ → Bool
open_channel r = true

abbrev sent_out : Panics (Option Boat × Worker)
sent_out = launch page_sum true live_bytes no_json echo open_channel [] 10 laden

abbrev boat_of : Panics (Option Boat × Worker) → Boat
boat_of (returned (some boat, w)) = boat
boat_of (returned (none, w)) = record { items = []; waiters = [] }
boat_of panicked = record { items = []; waiters = [] }

abbrev worker_of : Panics (Option Boat × Worker) → Worker
worker_of (returned (boat, w)) = w
worker_of panicked = laden

goes_out : sent_out ≡ returned (some (boat_of sent_out), worker_of sent_out)
unfolding launch lookup fafo.Prelude.insert fafo.Prelude.Bytes.bytes_beq fafo.Prelude.remove
goes_out = refl

launch-Ashore_example :
    (objects : List Bytes) × ((worker_of sent_out).inflight ≡ some objects)
    × Ashore page_sum true live_bytes no_json echo open_channel [] (worker_of sent_out) objects
launch-Ashore_example =
    launch-Ashore page_sum true live_bytes no_json echo open_channel [] 10 laden
      (worker_of sent_out) (boat_of sent_out) goes_out

-- A database: what is committed, what a transaction made of it, and the autocommit mode. A commit of
-- `bad` fails, as on a deferred constraint.
record ToyDb : Type 0 where
  pub committed : Bytes
  pub working : Bytes
  pub auto : Bool

abbrev toy_run : ToyDb → Bytes → ToyDb
toy_run c sql = record {
  committed = if c.auto then sql else c.committed;
  working = sql;
  auto = c.auto;
}

abbrev toy_commit : Bool → ToyDb → Bool × ToyDb
toy_commit true c = (false, c)
toy_commit false c = (true, record { committed = c.working; working = c.working; auto = true })

abbrev toy : Sqlite ToyDb
toy = record {
  image = λ c. c.committed;
  readonly = λ c sql. some false;
  run_op = λ gate c sql params. (some (affected 1), toy_run c sql);
  begin = λ c. (true, record { committed = c.committed; working = c.committed; auto = false });
  commit = λ c. toy_commit (bytes_beq c.working (codes "bad")) c;
  rollback = λ c. record { committed = c.committed; working = c.committed; auto = true };
  counter = λ c. none;
}

toy-commit_closes :
    (b : Bool) (c : ToyDb) → (toy_commit b c).0 ≡ true → (toy_commit b c).1.auto ≡ true
toy-commit_closes true c h = cc
toy-commit_closes false c h = refl

toy-failed_keeps :
    (b : Bool) (c : ToyDb) → (toy_commit b c).0 ≡ false → (toy_commit b c).1.committed ≡ c.committed
toy-failed_keeps true c h = refl
toy-failed_keeps false c h = cc

abbrev toy_laws : IsTransactional toy
toy_laws = record {
  autocommit = λ c. c.auto;
  plain = λ sql. not (bytes_beq sql (codes "COMMIT"));
  begin_keeps = λ c. refl;
  begin_opens = λ c h. refl;
  run_keeps = λ gate c sql params within plain. rw within refl;
  run_stays = λ gate c sql params result within plain h. within;
  rollback_keeps = λ c. refl;
  rollback_closes = λ c. refl;
  commit_closes = λ c h. toy-commit_closes (bytes_beq c.working (codes "bad")) c h;
  failed_keeps = λ c h. toy-failed_keeps (bytes_beq c.working (codes "bad")) c h;
}

abbrev empty_conns : Bytes → ToyDb
empty_conns o = record { committed = []; working = []; auto = true }

-- The commit on the first object succeeds, that on the second fails.
abbrev two_writes : List (Op Bytes)
two_writes =
    record { object = codes "a"; sql = codes "x"; params = [] }
    ∷ record { object = codes "b"; sql = codes "bad"; params = [] }
    ∷ []

abbrev both : List Bytes
both = codes "a" ∷ codes "b" ∷ []

a_b-Distinct : Distinct toy toy_laws both
unfolding bytes_beq
a_b-Distinct = (refl, (refl, tt))

two_writes-AllPlain : AllPlain toy toy_laws both two_writes
unfolding bytes_beq
two_writes-AllPlain = ((refl, refl), ((refl, refl), tt))

second_fails :
    (apply toy laden empty_conns both two_writes false none).0 ≡ commit_failed (codes "b" ∷ [])
unfolding apply bytes_beq lookup
second_fails = refl

apply-AllOrNothing_example :
    AllOrNothing toy toy_laws laden empty_conns both two_writes none
      (apply toy laden empty_conns both two_writes false none)
apply-AllOrNothing_example =
    apply-AllOrNothing toy toy_laws laden empty_conns both two_writes none a_b-Distinct
      two_writes-AllPlain

-- A worker with two polls on an object, one of each durability.
abbrev polled : Worker
polled = record laden {
  polls =
      (
        codes "a",
        record {
          conn = 1;
          frame = 1;
          sql = codes "q";
          params = [];
          durable = false;
          baseline = none;
          resp = 8;
        }
            ∷ record {
              conn = 1;
              frame = 2;
              sql = codes "q";
              params = [];
              durable = true;
              baseline = none;
              resp = 9;
            }
            ∷ [],
      )
      ∷ [];
}

abbrev one_image : Map Bytes Bytes
one_image = (codes "a", codes "image") ∷ []

here : lookup (codes "a") one_image ≡ some (codes "image")
unfolding lookup fafo.Prelude.Bytes.bytes_beq
here = refl

take_fired_polls_settles_example :
    let (fired, w') =
      take_fired_polls no_json echo open_channel one_image polled (codes "a") false in
    (fired_on 8 fired
        + parked_on 8 (polls_of no_json echo open_channel w' (codes "a"))
        + failed_on 8 w'.sent
      ≡ parked_on 8 (polls_of no_json echo open_channel polled (codes "a"))
        + failed_on 8 polled.sent)
    × All
        (Justified no_json echo open_channel
          (codes "image")
          false
          (polls_of no_json echo open_channel polled (codes "a")))
        fired
take_fired_polls_settles_example =
    take_fired_polls_settles no_json echo open_channel one_image polled (codes "a") false
      (codes "image") 8 here refl

laden-IsAccounted : IsAccounted laden
unfolding lookup fafo.Prelude.Bytes.bytes_beq
laden-IsAccounted = record { counted = refl; single = (refl, (refl, (refl, tt))) }

abbrev a_day : List DirtyOp
a_day =
    mark (codes "d" ∷ [])
    ∷ ship (codes "a" ∷ [])
    ∷ revert (codes "b" ∷ [])
    ∷ lose (codes "c") 3
    ∷ []

dirty_run-IsAccounted_example : IsAccounted (dirty_run no_file a_day laden)
dirty_run-IsAccounted_example = dirty_run-IsAccounted no_file a_day laden laden-IsAccounted
