-- ===== src/Worker/Ship/Committed.antt =====
-- worker.rs, when a boat is acknowledged: `ship_task` in the mode of the primary log.
use fafo.Prelude.{
  ℕ, ◌≡◌, refl, sym, ap, subst, ◌∙◌, Bool, true, false, Option, none, some, List, [], ◌∷◌, leb,
  if◌then◌else◌, All, some_inj,
}
use fafo.Prelude.Bytes.{Bytes}
use fafo.Store.{MemInner}
use fafo.Objlog.Io.{ret, run, Schedule, ◌>>=◌, attempt}
use fafo.Objlog.Keys.{outcome_key}
use fafo.Objlog.Spares.{SparesTurn}
use fafo.Objlog.Hoare.{IsGentle, Ensures, Ensures-bind, Ensures-if}
use fafo.Objlog.Runs.{run-split, run-map, run-attempt}
use fafo.Objlog.Gentle.{IsGentle-bind, IsGentle-attempt, if-IsGentle, compact-IsGentle}
use fafo.Objlog.Outcome.{decision, decision-run, commit_decides}
use fafo.Objlog.Protocol.{commit_txn, compact}
use fafo.Cluster.Leases.{Guarded, verify_leases}
use fafo.Worker.Ship.{
  ShipItem, Harbour, Voyage, TxnRecord, staging_id, stage_all, pass_gate, prewrite_all, sort_items,
  was_true, commit_boat, sail, voyage, log_compact_keep, inline_max_bytes, boat_bytes,
}
use fafo.Worker.Ship.Landing.{Shipped, compact_all, objects_of, settle_boat, land, ship_task}
use fafo.Worker.Ship.Answers.{land-ok}

-- A boat that is good has its transaction's outcome decided.
abbrev Decided : Bytes → Voyage → MemInner → Type 0
Decided id boat s = boat.ok ≡ true → decision s id ≡ some true

was_true_of : (o : Option Bool) → was_true o ≡ true → o ≡ some true
was_true_of none e = cc
was_true_of (some b) e = ap some e

-- The commit is the last call before the answer.
run_commit :
    {A : Type 0} (f : Bool → A) (id : Bytes) (ts : Schedule) (s : MemInner)
    → let r = run (commit_txn id) ts s in
      run ((attempt (commit_txn id) >>= λ won. ret (was_true won)) >>= λ ok. ret (f ok)) ts s
      ≡ (some (f (was_true r.0)), r.1)
run_commit f id ts s =
    rw
      (
        run-map (attempt (commit_txn id) >>= λ won. ret (was_true won)) f ts s,
        run-map (attempt (commit_txn id)) was_true ts s,
        run-attempt (commit_txn id) ts s,
      )
      refl

commit-Ensures :
    (id : Bytes) (f : Bool → Voyage)
    → ((b : Bool) → (f b).ok ≡ b)
    → Ensures
        (Decided id)
        ((attempt (commit_txn id) >>= λ won. ret (was_true won)) >>= λ ok. ret (f ok))
commit-Ensures id f faithful = record {
  at = λ ts s {a} h good.
      let r = run (commit_txn id) ts s in
      let e = run_commit f id ts s in
      let same : f (was_true r.0) ≡ a = some_inj (sym (ap (λ x. x.0) e) ∙ h) in
      let won : was_true r.0 ≡ true =
        sym (faithful (was_true r.0)) ∙ ap (λ (v : Voyage). v.ok) same ∙ good in
      subst (λ x. decision x id ≡ some true) (sym (ap (λ x. x.1) e))
        (commit_decides id ts s (was_true_of r.0 won));
}

fails-Ensures : (id : Bytes) (boat : Voyage) → boat.ok ≡ false → Ensures (Decided id) (ret boat)
unfolding run
fails-Ensures id boat bad = record { at = λ ts s {a} h good. cc }

-- The commit is tried only after prewrites that did not fail.
tried-Ensures :
    (failed : Bool) (id : Bytes) (f : Bool → Voyage)
    → ((b : Bool) → (f b).ok ≡ b)
    → Ensures (Decided id) (
        (if failed then ret false else (attempt (commit_txn id) >>= λ won. ret (was_true won)))
        >>= λ ok. ret (f ok))
unfolding ◌>>=◌
tried-Ensures true id f faithful = fails-Ensures id (f false) (faithful false)
tried-Ensures false id f faithful = commit-Ensures id f faithful

compact_all-IsGentle : (key : Bytes) (objects : List Bytes) → IsGentle key (compact_all objects)
unfolding compact_all
compact_all-IsGentle key [] = tt
compact_all-IsGentle key (object ∷ objects) =
    IsGentle-bind key (attempt (compact object log_compact_keep)) _
      (IsGentle-attempt key (compact object log_compact_keep)
        (compact-IsGentle key object log_compact_keep))
      (λ r. compact_all-IsGentle key objects)

verify_leases-IsGentle :
    (key : Bytes) (guarded : Guarded) (mono wall : ℕ)
    → IsGentle key (verify_leases guarded mono wall)
unfolding verify_leases
verify_leases-IsGentle key guarded mono wall = λ r. tt

settle_boat-IsGentle :
    (key : Bytes) (node : Harbour) (items : List ShipItem) (inline : Bool) (guarded : Guarded)
    → IsGentle key (settle_boat node items inline guarded true)
unfolding settle_boat
settle_boat-IsGentle key node items inline guarded =
    IsGentle-bind key (verify_leases guarded node.mono_after node.wall_after) _
      (verify_leases-IsGentle key guarded node.mono_after node.wall_after)
      (λ checked.
        IsGentle-bind key (if checked.0 then compact_all (objects_of items) else ret tt) _
          (if-IsGentle key checked.0 _ _ (compact_all-IsGentle key (objects_of items)) tt)
          (λ done. tt))

land-IsGentle :
    (key : Bytes) (node : Harbour) (items : List ShipItem) (waiters : List ℕ) (inline : Bool)
    (boat : Voyage)
    → boat.ok ≡ true
    → IsGentle key (land node items waiters inline true boat)
unfolding land
land-IsGentle key node items waiters inline boat good = rw good (
    IsGentle-bind key (settle_boat node items inline boat.guarded true) _
      (settle_boat-IsGentle key node items inline boat.guarded) (λ settled. tt))

module _ (ledger_keys : Bytes → Option (List Bytes)) (to_vec : TxnRecord → Bytes) where
  sail-Ensures :
      (node : Harbour) (items : List ShipItem) (inline : Bool) (guarded : Guarded)
      → Ensures (Decided (staging_id node)) (sail ledger_keys to_vec true node items inline guarded)
  unfolding sail commit_boat
  sail-Ensures node items inline guarded =
      Ensures-bind
        (prewrite_all ledger_keys (staging_id node) node.born node.ttl_ms (sort_items items)) _
        (λ made. tried-Ensures made.failed (staging_id node) _ (λ b. refl))

  voyage-Ensures :
      (node : Harbour) (items : List ShipItem) (inline : Bool)
      → Ensures (Decided (staging_id node)) (voyage ledger_keys to_vec true node items inline)
  unfolding voyage
  voyage-Ensures node items inline =
      Ensures-bind (if inline then ret true else stage_all (staging_id node) items) _ (λ staged.
        Ensures-bind (if staged then pass_gate node else ret (false, node.guarded)) _ (λ gate.
          Ensures-if gate.0 _ _ (sail-Ensures node items inline gate.1)
            (fails-Ensures (staging_id node) _ refl)))

  -- In the mode of the primary log, when a boat reports success and so acknowledges its waiters,
  -- the outcome key of its transaction holds the decision to commit, also at the end of all that the
  -- boat does after that. Other tasks may run in between and any call may fail, as long as no task
  -- puts, deletes or swaps that key.
  pub ship_task-commits :
      (node : Harbour) (items : List ShipItem) (waiters : List ℕ) (ts : Schedule) (s : MemInner)
      {r : Shipped}
      → All (SparesTurn (outcome_key (staging_id node))) ts
      → (run (ship_task ledger_keys to_vec true node items waiters) ts s).0 ≡ some r
      → r.done.ok ≡ true
      → decision
          (run (ship_task ledger_keys to_vec true node items waiters) ts s).1
          (staging_id node)
        ≡ some true
  unfolding ship_task
  ship_task-commits node items waiters ts s {r} q h good =
      let id = staging_id node in
      let inline = leb (boat_bytes items) inline_max_bytes in
      let first = voyage ledger_keys to_vec true node items inline in
      let (boat, ts', arrived, q', e) =
        run-split (outcome_key id) first (land node items waiters inline true) ts s q h in
      let ok : boat.ok ≡ true =
        sym (
          land-ok node items waiters inline true boat ts' (run first ts s).1
            (sym (ap (λ x. x.0) e) ∙ h))
        ∙ good in
      subst (λ x. decision x id ≡ some true) (sym (ap (λ x. x.1) e))
        (decision-run id (land node items waiters inline true boat) ts' (run first ts s).1
          (land-IsGentle (outcome_key id) node items waiters inline boat ok) q'
          ((voyage-Ensures node items inline).at ts s arrived ok))
