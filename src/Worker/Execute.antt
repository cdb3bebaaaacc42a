-- ===== src/Worker/Execute.antt =====
-- worker.rs, the execution of a transaction: `cap_gate` and `apply`. SQLite is the parameter `Sqlite`,
-- a connection is of any type; `conns` gives the connection of each live object. An error's text is
-- left out.
pub mod Atomic
use fafo.Prelude.{
  ℕ, ◌≡◌, Bool, true, false, not, ◌&&◌, ◌||◌, Option, none, some, List, [], ◌∷◌, ◌++◌, map, nat_beq,
  any, all, if◌then◌else◌, lookup,
}
use fafo.Prelude.Bytes.{Bytes, codes, bytes_eq, bytes_beq}
use fafo.Store.{is_some}
use fafo.Grants.Tokens.{Capability}
use fafo.Grants.Verbs.{allows}
use fafo.Cluster.Requests.{Op}
use fafo.Worker.State.{Worker}
use fafo.Worker.Revert.{revert_closure}
use fafo.Worker.Polls.{OpResult}

-- `AuthAction`, as far as the gate tells its actions apart.
pub data Action : Type 0 where
  insert update delete read select function transaction savepoint recursive : Action
  pragma attach detach : Action
  other : Action

abbrev read_verbs : List Bytes
read_verbs = codes "read" ∷ codes "insert" ∷ codes "update" ∷ codes "delete" ∷ codes "ddl" ∷ []

-- `true` is `Authorization::Allow`.
unfoldable pub cap_gate : Capability → Bytes → Action → Bool
unfolding allows
cap_gate cap object insert = allows cap object (codes "insert")
cap_gate cap object update = allows cap object (codes "update")
cap_gate cap object delete = allows cap object (codes "delete")
cap_gate cap object read = any (allows cap object) read_verbs
cap_gate cap object select = true
cap_gate cap object function = true
cap_gate cap object transaction = true
cap_gate cap object savepoint = true
cap_gate cap object recursive = true
cap_gate cap object pragma = false
cap_gate cap object attach = false
cap_gate cap object detach = false
cap_gate cap object other = allows cap object (codes "ddl")

-- What the code uses of a connection. `image` is the content that is committed; `run_op` runs a
-- statement under an authorizer, `readonly` prepares it, and `counter` reads the file.
pub record Sqlite (C : Type 0) : Type 0 where
  pub image : C → Bytes
  pub readonly : C → Bytes → Option Bool
  pub run_op : (Action → Bool) → C → Bytes → List Bytes → Option OpResult × C
  pub begin : C → Bool × C
  pub commit : C → Bool × C
  pub rollback : C → C
  pub counter : C → Option ℕ

-- The result of `apply`.
pub data Applied : Type 0 where
  applied : List OpResult → (changed : List Bytes) → Applied
  -- a participant is gone; a read that is none, or that fails; no transaction begun
  missing bad_query not_begun : Applied
  op_failed : Applied
  commit_failed : (at : List Bytes) → Applied

unfoldable pub gate_of : Option Capability → Bytes → Action → Bool
unfolding cap_gate
gate_of none object action = true
gate_of (some cap) object action = cap_gate cap object action

abbrev pub opt_beq : Option ℕ → Option ℕ → Bool
opt_beq none none = true
opt_beq none (some b) = false
opt_beq (some a) none = false
opt_beq (some a) (some b) = nat_beq a b

abbrev pub prepend : OpResult → Option (List OpResult) → Option (List OpResult)
prepend result none = none
prepend result (some results) = some (result ∷ results)

module _ {C : Type 0} (sqlite : Sqlite C) where
  open sqlite use {readonly, run_op, begin, commit, rollback, counter}

  abbrev pub Conns : Type 0
  Conns = Bytes → C

  abbrev pub set_conn : Conns → Bytes → C → Conns
  set_conn conns object c o = if bytes_beq o object then c else conns o

  -- The queries of a read-only transaction, one after the other.
  unfoldable pub read_ops : Conns → List (Op Bytes) → Option (List OpResult) × Conns
  read_ops conns [] = (some [], conns)
  read_ops conns (op ∷ ops) = elim (readonly (conns op.object) op.sql) [
    | none ↦ (none, conns)
    | some false ↦ (none, conns)
    | some true ↦
        let r = run_op (λ action. true) (conns op.object) op.sql op.params in
        let rest = read_ops (set_conn conns op.object r.1) ops in
        elim r.0 [
          | none ↦ (none, set_conn conns op.object r.1)
          | some result ↦ (prepend result rest.0, rest.1)
        ]
  ]

  -- `false` when a BEGIN fails; those before it stay begun.
  unfoldable pub begin_all : Conns → List Bytes → Bool × Conns
  begin_all conns [] = (true, conns)
  begin_all conns (o ∷ os) =
      let r = begin (conns o) in
      let rest = begin_all (set_conn conns o r.1) os in
      if r.0 then rest else (false, set_conn conns o r.1)

  -- `none` when an operation fails.
  unfoldable pub run_ops :
      Option Capability → Conns → List (Op Bytes) → Option (List OpResult) × Conns
  unfolding gate_of
  run_ops cap conns [] = (some [], conns)
  run_ops cap conns (op ∷ ops) =
      let r = run_op (gate_of cap op.object) (conns op.object) op.sql op.params in
      let rest = run_ops cap (set_conn conns op.object r.1) ops in
      elim r.0 [
        | none ↦ (none, set_conn conns op.object r.1)
        | some result ↦ (prepend result rest.0, rest.1)
      ]

  unfoldable pub rollback_all : Conns → List Bytes → Conns
  rollback_all conns [] = conns
  rollback_all conns (o ∷ os) = rollback_all (set_conn conns o (rollback (conns o))) os

  -- The participants that were committed, and those from the failing one on.
  unfoldable pub commit_all : Conns → List Bytes → List Bytes × List Bytes × Conns
  commit_all conns [] = ([], [], conns)
  commit_all conns (o ∷ os) =
      let r = commit (conns o) in
      let rest = commit_all (set_conn conns o r.1) os in
      if r.0 then (o ∷ rest.0, rest.1, rest.2) else ([], o ∷ os, set_conn conns o r.1)

  -- `after != before || after.is_none()`
  unfoldable pub changed : Conns → Conns → List Bytes → List Bytes
  changed before after [] = []
  changed before after (o ∷ os) =
      let rest = changed before after os in
      if not (opt_beq (counter (after o)) (counter (before o))) || not (is_some (counter (after o)))
      then o ∷ rest
      else rest

  unfoldable pub finish :
      Worker
      → Conns
      → List OpResult
      → List Bytes
      → List Bytes × List Bytes × Conns
      → Applied × Worker × Conns
  unfolding changed revert_closure rollback_all
  finish w before results participants (done, [], conns) =
      (applied results (changed before conns participants), w, conns)
  finish w before results participants (done, at ∷ rest, conns) =
      (commit_failed (at ∷ rest), revert_closure w done, rollback_all conns (at ∷ rest))

  unfoldable pub after_ops :
      Worker → Conns → List Bytes → Option (List OpResult) × Conns → Applied × Worker × Conns
  unfolding rollback_all commit_all finish
  after_ops w before participants (none, conns) = (op_failed, w, rollback_all conns participants)
  after_ops w before participants (some results, conns) =
      finish w before results participants (commit_all conns participants)

  unfoldable pub after_begin :
      Worker
      → Conns
      → List Bytes
      → List (Op Bytes)
      → Option Capability
      → Bool × Conns
      → Applied × Worker × Conns
  unfolding run_ops after_ops
  after_begin w before participants ops cap (false, conns) = (not_begun, w, conns)
  after_begin w before participants ops cap (true, conns) =
      after_ops w before participants (run_ops cap conns ops)

  unfoldable pub after_reads : Worker → Option (List OpResult) × Conns → Applied × Worker × Conns
  after_reads w (none, conns) = (bad_query, w, conns)
  after_reads w (some results, conns) = (applied results [], w, conns)

  abbrev pub is_live : Worker → Bytes → Bool
  is_live w o = is_some (lookup o w.objects)

  unfoldable pub apply :
      Worker
      → Conns
      → List Bytes
      → List (Op Bytes)
      → Bool
      → Option Capability
      → Applied × Worker × Conns
  unfolding read_ops begin_all after_begin after_reads
  apply w conns participants ops read_only cap =
      if not (all (is_live w) participants)
      then (missing, w, conns)
      else if read_only
      then after_reads w (read_ops conns ops)
      else after_begin w conns participants ops cap (begin_all conns participants)
