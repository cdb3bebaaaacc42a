-- ===== src/Worker/Revert.antt =====
-- worker.rs, `revert_closure`: what a boat that sank takes with it. The reverted objects, a set in
-- the source, are a list; the polls' and waiters' errors are logged in `sent`.
pub mod Closed
pub mod Whole
use fafo.Prelude.{
  ℕ, zero, suc, ◌+◌, ◌-◌, ◌≡◌, Bool, true, false, not, ◌||◌, Option, none, some, List, [], ◌∷◌,
  ◌++◌, any, length, if◌then◌else◌, Map, lookup, insert, remove,
}
use fafo.Prelude.Bytes.{Bytes, bytes_eq, bytes_beq}
use fafo.Store.{is_some}
use fafo.Disk as Disk
use fafo.Worker.State.{Worker, AppliedTxn, Sent, failed, fail_polls, live_path, clean}

abbrev pub has : List Bytes → Bytes → Bool
has reverted object = any (bytes_beq object) reverted

-- `t.participants.iter().any(|p| reverted.contains(p))`
abbrev pub hit : List Bytes → List Bytes → Bool
hit reverted participants = any (has reverted) participants

-- `for p in &t.participants { grew |= reverted.insert(p.clone()) }`
unfoldable pub add_all : List Bytes → Bool × List Bytes → Bool × List Bytes
add_all [] (grew, reverted) = (grew, reverted)
add_all (p ∷ ps) (grew, reverted) =
    add_all ps (if has reverted p then (grew, reverted) else (true, p ∷ reverted))

-- One pass of the loop over the pending transactions.
unfoldable pub sweep : List AppliedTxn → Bool × List Bytes → Bool × List Bytes
unfolding add_all
sweep [] state = state
sweep (t ∷ ts) (grew, reverted) = sweep ts (
    if hit reverted t.participants
    then add_all t.participants (grew, reverted)
    else (grew, reverted))

-- The loop, on fuel.
unfoldable pub spread : ℕ → List AppliedTxn → List Bytes → List Bytes
unfolding sweep
spread zero pending reverted = reverted
spread (suc fuel) pending reverted =
    let (grew, more) = sweep pending (false, reverted) in
    let rest = spread fuel pending more in if grew then rest else more

abbrev pub participants_of : List AppliedTxn → List Bytes
participants_of [] = []
participants_of (t ∷ ts) = t.participants ++ participants_of ts

-- Every pass but the last adds a participant.
unfoldable pub reverted_by : List AppliedTxn → List Bytes → List Bytes
unfolding spread
reverted_by pending seed = spread (suc (length (participants_of pending))) pending seed

-- `retain_mut`: what stays, and the waiters of what goes.
unfoldable pub retained : List Bytes → List AppliedTxn → List AppliedTxn
retained reverted [] = []
retained reverted (t ∷ ts) =
    let rest = retained reverted ts in if hit reverted t.participants then rest else t ∷ rest

abbrev pub waiter_of : Option ℕ → List Sent
waiter_of none = []
waiter_of (some resp) = failed resp ∷ []

unfoldable pub bereaved : List Bytes → List AppliedTxn → List Sent
bereaved reverted [] = []
bereaved reverted (t ∷ ts) =
    let rest = bereaved reverted ts in
    if hit reverted t.participants then waiter_of t.waiter ++ rest else rest

unfoldable pub revert_one : Worker → Bytes → Worker
unfolding fail_polls clean live_path
revert_one w object =
    let w1 = fail_polls w object in
    let w2 =
      clean
        (record w1 {
          objects = remove object w1.objects;
          meta = remove object w1.meta;
          manifests = remove object w1.manifests;
          log_seq = remove object w1.log_seq;
        })
        object in
    let served =
      if is_some (lookup object w2.queues)
      then w2.needs_service ++ object ∷ []
      else w2.needs_service in
    record w2 { disk = Disk.drop_file w2.disk (live_path w2 object); needs_service = served }

unfoldable pub revert_all : Worker → List Bytes → Worker
unfolding revert_one
revert_all w [] = w
revert_all w (object ∷ objects) = revert_all (revert_one w object) objects

unfoldable pub revert_closure : Worker → List Bytes → Worker
unfolding reverted_by retained bereaved revert_all
revert_closure w seed =
    let reverted = reverted_by w.pending_txns seed in
    revert_all
      (record w {
        pending_txns = retained reverted w.pending_txns;
        sent = w.sent ++ bereaved reverted w.pending_txns;
      })
      reverted
