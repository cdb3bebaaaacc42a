-- ===== src/Worker/Durable.antt =====
-- worker.rs, `durable_read`: a read-only transaction on what the logs have committed. `connect` opens a
-- connection on an image, `none` when that fails.
use fafo.Prelude.{ℕ, true, false, Option, none, some, List, [], ◌∷◌, Map, lookup, insert}
use fafo.Prelude.Bytes.{Bytes, bytes_eq}
use fafo.Objlog.Io.{Io, ret, attempt, ◌>>=◌}
use fafo.Objlog.Protocol.{fold_committed}
use fafo.Cluster.Requests.{Op}
use fafo.Worker.Polls.{OpResult}
use fafo.Worker.Execute.{Sqlite, prepend}

module _ {C : Type 0} (sqlite : Sqlite C) (connect : Bytes → Option C) where
  abbrev opened : Option (Bytes × ℕ) → Option C
  opened none = none
  opened (some folded) = connect folded.0

  abbrev and_open : Bytes → Option (Map Bytes C) → Option C → Option (Map Bytes C)
  and_open id none c = none
  and_open id (some conns) none = none
  and_open id (some conns) (some c) = some (insert id c conns)

  -- The connections to the folds of the objects' logs.
  unfoldable pub open_all : List Bytes → Option (Map Bytes C) → Io (Option (Map Bytes C))
  open_all ids none = ret none
  open_all [] (some conns) = ret (some conns)
  open_all (id ∷ ids) (some conns) = do
    folded ← attempt (fold_committed id)
    open_all ids (and_open id (some conns) (opened folded))

  unfoldable pub query_all : Map Bytes C → List (Op Bytes) → Option (List OpResult)
  query_all conns [] = some []
  query_all conns (op ∷ ops) = elim (lookup op.object conns) [
    | none ↦ none
    | some c ↦ elim (sqlite.readonly c op.sql) [
      | none ↦ none
      | some false ↦ none
      | some true ↦
          let r = sqlite.run_op (λ action. true) c op.sql op.params in
          let rest = query_all (insert op.object r.1 conns) ops in
          elim r.0 [ none ↦ none | some result ↦ prepend result rest ]
    ]
  ]

  abbrev queried : List (Op Bytes) → Option (Map Bytes C) → Option (List OpResult)
  queried ops none = none
  queried ops (some conns) = query_all conns ops

  unfoldable pub durable_read : List Bytes → List (Op Bytes) → Io (Option (List OpResult))
  unfolding open_all query_all
  durable_read ids ops = do conns ← open_all ids (some []); ret (queried ops conns)
