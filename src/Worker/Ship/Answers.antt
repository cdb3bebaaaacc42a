-- ===== src/Worker/Ship/Answers.antt =====
-- worker.rs, what `ship_task` answers, whatever the store does.
use fafo.Prelude.{
  ℕ, ◌≡◌, refl, sym, ap, Bool, true, false, Option, none, some, List, [], ◌∷◌, leb, if◌then◌else◌,
  map, ◌⊎◌, inl, inr, Bool-cases, some_inj, ◌∙◌,
}
use fafo.Prelude.Bytes.{Bytes}
use fafo.Store.{MemInner}
use fafo.Objlog.Io.{Io, ret, run, Schedule, attempt, put?}
use fafo.Objlog.Yields.{
  Yields, Anything, Yields-bind, Yields-weaken, attempt-Yields, run-Yields, skip, branch,
}
use fafo.Objlog.Protocol.{commit_txn, prewrite, fold_committed}
use fafo.Objlog.Entry.{entry_from_ship}
use fafo.Cluster.Leases.{Guarded, verify_leases}
use fafo.Worker.State.{acked, failed}
use fafo.Worker.Ship.{
  ShipItem, Harbour, Voyage, TxnRecord, staging_id, staging_key, stage_all, pass_gate, prewrite_all,
  after_prewrite, snapshot_regresses, sort_items, no_prewrites, commit_boat, sail, voyage,
  inline_max_bytes, boat_bytes, payload_bytes, is_snap, Prewrites, txn_key,
}
use fafo.Worker.Ship.Landing.{
  Shipped, delete_staged, roll_back, objects_of, settle_boat, land, ship_task,
}
use fafo.Worker.Ship.Calls.{
  delete_staged-Yields, roll_back-Yields, settle_boat-Yields, verify_leases-Yields,
}

-- The answer to every waiter is that of the boat, and the report is on its objects.
abbrev pub Answered : List ShipItem → List ℕ → Shipped → Type 0
Answered items waiters r =
    (r.done.objects ≡ objects_of items)
    × (((r.done.ok ≡ true) × (r.sent ≡ map acked waiters))
        ⊎ ((r.done.ok ≡ false) × (r.sent ≡ map failed waiters)))

-- What `land` answers follows the boat.
Follows : List ShipItem → List ℕ → Voyage → Shipped → Type 0
Follows items waiters boat r = (r.done.ok ≡ boat.ok) × Answered items waiters r

land-Yields :
    (node : Harbour) (items : List ShipItem) (waiters : List ℕ) (inline log_primary : Bool)
    (boat : Voyage)
    → Yields (Follows items waiters boat) (land node items waiters inline log_primary boat)
unfolding land Follows
land-Yields node items waiters inline log_primary boat = elim (Bool-cases boat.ok) [
  | inl good ↦ rw good (
      Yields-bind Anything _ (settle_boat node items inline boat.guarded log_primary) _
        (settle_boat-Yields node items inline boat.guarded log_primary)
        (λ settled h. (refl, (refl, inl (refl, refl)))))
  | inr bad ↦ rw bad (
      skip _ (roll_back (staging_id node) boat.prewritten) _
        (roll_back-Yields (staging_id node) boat.prewritten)
        (skip _ (if inline then ret tt else delete_staged (staging_id node) items) _
          (branch Anything inline _ _ tt (delete_staged-Yields (staging_id node) items))
          (refl, (refl, inr (refl, refl)))))
]

pub land-ok :
    (node : Harbour) (items : List ShipItem) (waiters : List ℕ) (inline log_primary : Bool)
    (boat : Voyage) (ts : Schedule) (s : MemInner) {r : Shipped}
    → (run (land node items waiters inline log_primary boat) ts s).0 ≡ some r
    → r.done.ok ≡ boat.ok
unfolding Follows
land-ok node items waiters inline log_primary boat ts s {r} h =
    let (a, e, f) =
      run-Yields (Follows items waiters boat) (land node items waiters inline log_primary boat)
        (land-Yields node items waiters inline log_primary boat) ts s in
    let same : a ≡ r = some_inj (sym e ∙ h) in sym (ap (λ (x : Shipped). x.done.ok) same) ∙ f.0

stage_all-Yields : (id : Bytes) (items : List ShipItem) → Yields Anything (stage_all id items)
unfolding stage_all
stage_all-Yields id [] = tt
stage_all-Yields id (item ∷ items) =
    Yields-bind Anything Anything
      (attempt (put? (staging_key item id) (payload_bytes item.payload))) _
      (attempt-Yields (put? (staging_key item id) (payload_bytes item.payload)))
      (λ r h.
        Yields-bind Anything Anything (stage_all id items) _ (stage_all-Yields id items)
          (λ rest u. tt))

pass_gate-Yields : (node : Harbour) → Yields Anything (pass_gate node)
unfolding pass_gate
pass_gate-Yields node =
    Yields-bind Anything Anything (verify_leases node.guarded node.mono node.wall) _
      (verify_leases-Yields node.guarded node.mono node.wall) (λ checked h. tt)

module _ (ledger_keys : Bytes → Option (List Bytes)) where
  snapshot_regresses-Yields :
      (object image : Bytes) → Yields Anything (snapshot_regresses ledger_keys object image)
  unfolding snapshot_regresses
  snapshot_regresses-Yields object image =
      Yields-bind Anything Anything (attempt (fold_committed object)) _
        (attempt-Yields (fold_committed object)) (λ folded h. tt)

  after_prewrite-Yields :
      (object : Bytes) (rest : Io Prewrites) (r : Option (Option ℕ))
      → Yields Anything rest
      → Yields Anything (after_prewrite ledger_keys object rest r)
  unfolding after_prewrite
  after_prewrite-Yields object rest none h = tt
  after_prewrite-Yields object rest (some none) h = tt
  after_prewrite-Yields object rest (some (some seq)) h =
      Yields-bind Anything Anything rest _ h (λ made u. tt)

  prewrite_all-Yields :
      (id : Bytes) (born ttl_ms : ℕ) (items : List ShipItem)
      → Yields Anything (prewrite_all ledger_keys id born ttl_ms items)
  unfolding prewrite_all
  prewrite_all-Yields id born ttl_ms [] = tt
  prewrite_all-Yields id born ttl_ms (item ∷ items) =
      let image = payload_bytes item.payload in
      let rest = prewrite_all ledger_keys id born ttl_ms items in
      let one =
        prewrite item.object id (entry_from_ship id born (is_snap item.payload) image)
          item.expected_seq born ttl_ms in
      Yields-bind Anything Anything
        (if is_snap item.payload
          then snapshot_regresses ledger_keys item.object image
          else ret false)
        _
        (branch Anything (is_snap item.payload) _ _ (snapshot_regresses-Yields item.object image)
          tt)
        (λ regress h. branch Anything regress _ _ tt (
          Yields-bind Anything Anything (attempt one) _ (attempt-Yields one) (λ r u.
            after_prewrite-Yields item.object rest r (prewrite_all-Yields id born ttl_ms items))))

  module _ (to_vec : TxnRecord → Bytes) (log_primary : Bool) where
    commit_boat-Yields :
        (id : Bytes) (items : List ShipItem) (inline : Bool)
        → Yields Anything (commit_boat ledger_keys to_vec log_primary id items inline)
    unfolding commit_boat
    commit_boat-Yields id items inline =
        branch Anything log_primary _ _
          (Yields-bind Anything Anything (attempt (commit_txn id)) _
            (attempt-Yields (commit_txn id)) (λ won h. tt))
          (Yields-bind Anything Anything (attempt (put? (txn_key id) _)) _
            (attempt-Yields (put? (txn_key id) _)) (λ r h. tt))

    sail-Yields :
        (node : Harbour) (items : List ShipItem) (inline : Bool) (guarded : Guarded)
        → Yields Anything (sail ledger_keys to_vec log_primary node items inline guarded)
    unfolding sail
    sail-Yields node items inline guarded =
        let id = staging_id node in
        let prewrites = prewrite_all ledger_keys id node.born node.ttl_ms (sort_items items) in
        Yields-bind Anything Anything (if log_primary then prewrites else ret no_prewrites) _
          (branch Anything log_primary _ _
            (prewrite_all-Yields id node.born node.ttl_ms (sort_items items)) tt)
          (λ made h.
            Yields-bind Anything Anything
              (if made.failed
                then ret false
                else commit_boat ledger_keys to_vec log_primary id items inline)
              _ (branch Anything made.failed _ _ tt (commit_boat-Yields id items inline))
              (λ ok u. tt))

    voyage-Yields :
        (node : Harbour) (items : List ShipItem) (inline : Bool)
        → Yields Anything (voyage ledger_keys to_vec log_primary node items inline)
    unfolding voyage
    voyage-Yields node items inline =
        Yields-bind Anything Anything
          (if inline then ret true else stage_all (staging_id node) items) _
          (branch Anything inline _ _ tt (stage_all-Yields (staging_id node) items))
          (λ staged h.
            Yields-bind Anything Anything
              (if staged then pass_gate node else ret (false, node.guarded)) _
              (branch Anything staged _ _ (pass_gate-Yields node) tt)
              (λ gate u. branch Anything gate.0 _ _ (sail-Yields node items inline gate.1) tt))

    -- `ship_task` always answers, whatever the store does: it reports on the objects of the boat, and
    -- acknowledges every waiter when it reports success, and fails every waiter when it does not.
    pub ship_task-answers :
        (node : Harbour) (items : List ShipItem) (waiters : List ℕ) (ts : Schedule) (s : MemInner)
        → (r : Shipped) × ((run
              (ship_task ledger_keys to_vec log_primary node items waiters)
              ts
              s).0
            ≡ some r)
          × Answered items waiters r
    unfolding ship_task Follows
    ship_task-answers node items waiters =
        let inline = leb (boat_bytes items) inline_max_bytes in
        run-Yields (Answered items waiters)
          (ship_task ledger_keys to_vec log_primary node items waiters)
          (Yields-bind Anything (Answered items waiters)
            (voyage ledger_keys to_vec log_primary node items inline)
            (land node items waiters inline log_primary) (voyage-Yields node items inline)
            (λ boat h.
              Yields-weaken (Follows items waiters boat) (Answered items waiters) _ (λ r f. f.1)
                (land-Yields node items waiters inline log_primary boat)))
