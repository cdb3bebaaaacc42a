-- ===== src/Worker/Execute/Atomic.antt =====
-- worker.rs, that `apply` is all or nothing.
use fafo.Prelude.{
  ◌≡◌, refl, sym, ap, subst, ◌∙◌, Bool, true, false, not, ◌⊎◌, inl, inr, Option, none, some, List,
  [], ◌∷◌, arith, all, All, lookup, Bool-cases, Option-cases,
}
use fafo.Prelude.Bytes.{Bytes, bytes_eq, bytes_beq, bytes_beq_refl}
use fafo.Grants.Tokens.{Capability}
use fafo.Cluster.Requests.{Op}
use fafo.Worker.State.{Worker}
use fafo.Worker.Revert.{has}
use fafo.Worker.Revert.Whole.{revert_closure-whole}
use fafo.Worker.Polls.{OpResult}
use fafo.Worker.Execute.{
  Action, Sqlite, Applied, applied, missing, bad_query, not_begun, op_failed, commit_failed,
  gate_of, begin_all, run_ops, rollback_all, commit_all, finish, after_ops, after_begin, apply,
  set_conn, is_live,
}

-- What SQLite documents of transactions. A connection is in autocommit mode unless a transaction is
-- open; then a statement that succeeds, and is none that ends a transaction, commits nothing and
-- leaves the transaction open, and one that fails commits nothing. Outside of a transaction nothing is
-- promised: a statement there commits what it does. `plain` tells the statements that do not end a
-- transaction.
pub record IsTransactional {C : Type 0} (sqlite : Sqlite C) : Type 0 where
  pub autocommit : C → Bool
  pub plain : Bytes → Bool
  pub begin_keeps : (c : C) → sqlite.image (sqlite.begin c).1 ≡ sqlite.image c
  pub begin_opens : (c : C) → (sqlite.begin c).0 ≡ true → autocommit (sqlite.begin c).1 ≡ false
  pub run_keeps :
      (gate : Action → Bool) (c : C) (sql : Bytes) (params : List Bytes)
      → autocommit c ≡ false
      → plain sql ≡ true
      → sqlite.image (sqlite.run_op gate c sql params).1 ≡ sqlite.image c
  pub run_stays :
      (gate : Action → Bool) (c : C) (sql : Bytes) (params : List Bytes) (result : OpResult)
      → autocommit c ≡ false
      → plain sql ≡ true
      → (sqlite.run_op gate c sql params).0 ≡ some result
      → autocommit (sqlite.run_op gate c sql params).1 ≡ false
  pub rollback_keeps : (c : C) → sqlite.image (sqlite.rollback c) ≡ sqlite.image c
  pub rollback_closes : (c : C) → autocommit (sqlite.rollback c) ≡ true
  pub commit_closes : (c : C) → (sqlite.commit c).0 ≡ true → autocommit (sqlite.commit c).1 ≡ true
  pub failed_keeps :
      (c : C) → (sqlite.commit c).0 ≡ false → sqlite.image (sqlite.commit c).1 ≡ sqlite.image c

module _ {C : Type 0} (sqlite : Sqlite C) (tx : IsTransactional sqlite) where
  open sqlite use {image, run_op, begin, commit, rollback}

  -- The transaction of every participant is open, or closed.
  abbrev pub AllOpen : (Bytes → C) → List Bytes → Type 0
  AllOpen conns os = (o : Bytes) → has os o ≡ true → tx.autocommit (conns o) ≡ false

  abbrev pub AllClosed : (Bytes → C) → List Bytes → Type 0
  AllClosed conns os = (o : Bytes) → has os o ≡ true → tx.autocommit (conns o) ≡ true

  -- The operations are on the participants, and do not end the transaction.
  abbrev pub AllPlain : List Bytes → List (Op Bytes) → Type 0
  AllPlain os ops =
      All (λ (op : Op Bytes). (has os op.object ≡ true) × (tx.plain op.sql ≡ true)) ops

  -- Every connection has committed what it had.
  abbrev pub Same : (Bytes → C) → (Bytes → C) → Type 0
  Same conns conns' = (o : Bytes) → image (conns' o) ≡ image (conns o)

  set-Same :
      (conns : Bytes → C) (object : Bytes) (c : C)
      → image c ≡ image (conns object)
      → Same conns (set_conn sqlite conns object c)
  set-Same conns object c e o = elim (Bool-cases (bytes_beq o object)) [
    | inl y ↦ rw y (e ∙ ap (λ p. image (conns p)) (sym ((bytes_eq.eqb_iff o object).0 y)))
    | inr n ↦ rw n refl
  ]

  begin-Same : (conns : Bytes → C) (os : List Bytes) → Same conns (begin_all sqlite conns os).1
  unfolding begin_all
  begin-Same conns [] o = refl
  begin-Same conns (p ∷ os) o =
      let next = set_conn sqlite conns p (begin (conns p)).1 in
      let here = set-Same conns p (begin (conns p)).1 (tx.begin_keeps (conns p)) o in
      elim (Bool-cases (begin (conns p)).0) [
        | inl y ↦ rw y (begin-Same next os o ∙ here)
        | inr n ↦ rw n here
      ]

  -- Where one connection changed, the mode of all follows.
  mode_of_set :
      (conns : Bytes → C) (object : Bytes) (c : C) (m : Bool) (o : Bytes)
      → tx.autocommit c ≡ m
      → (bytes_beq o object ≡ false → tx.autocommit (conns o) ≡ m)
      → tx.autocommit (set_conn sqlite conns object c o) ≡ m
  mode_of_set conns object c m o e h = elim (Bool-cases (bytes_beq o object)) [
    | inl y ↦ rw y e
    | inr n ↦ rw n (h n)
  ]

  begin-keeps_open :
      (conns : Bytes → C) (os : List Bytes) (o : Bytes)
      → (begin_all sqlite conns os).0 ≡ true
      → tx.autocommit (conns o) ≡ false
      → tx.autocommit ((begin_all sqlite conns os).1 o) ≡ false
  unfolding begin_all
  begin-keeps_open conns [] o b h = h
  begin-keeps_open conns (p ∷ os) o b h = elim (Bool-cases (begin (conns p)).0) [
    | inl y ↦
        let next = set_conn sqlite conns p (begin (conns p)).1 in
        let b' : (begin_all sqlite next os).0 ≡ true = rw y at b in
        rw y (
          begin-keeps_open next os o b'
            (mode_of_set conns p (begin (conns p)).1 false o (tx.begin_opens (conns p) y) (λ n. h)))
    | inr n ↦ absurd (let stop : (begin_all sqlite conns (p ∷ os)).0 ≡ false = rw n refl in cc)
  ]

  begin-AllOpen :
      (conns : Bytes → C) (os : List Bytes)
      → (begin_all sqlite conns os).0 ≡ true
      → AllOpen (begin_all sqlite conns os).1 os
  unfolding begin_all
  begin-AllOpen conns [] b o m = absurd (ground arith)
  begin-AllOpen conns (p ∷ os) b o m = elim (Bool-cases (begin (conns p)).0) [
    | inl y ↦
        let next = set_conn sqlite conns p (begin (conns p)).1 in
        let b' : (begin_all sqlite next os).0 ≡ true = rw y at b in
        elim (Bool-cases (has os o)) [
          | inl later ↦ rw y (begin-AllOpen next os b' o later)
          | inr first ↦
              let here : bytes_beq o p ≡ true = ground arith in
              rw y (begin-keeps_open next os o b' (rw here (tx.begin_opens (conns p) y)))
        ]
    | inr n ↦ absurd (let stop : (begin_all sqlite conns (p ∷ os)).0 ≡ false = rw n refl in cc)
  ]

  run-Same :
      (cap : Option Capability) (conns : Bytes → C) (os : List Bytes) (ops : List (Op Bytes))
      → AllOpen conns os
      → AllPlain os ops
      → Same conns (run_ops sqlite cap conns ops).1
  unfolding run_ops
  run-Same cap conns os [] is_open p o = refl
  run-Same cap conns os (op ∷ ops) is_open ((on, plain), p) o =
      let gate = gate_of cap op.object in
      let c = conns op.object in
      let r = run_op gate c op.sql op.params in
      let next = set_conn sqlite conns op.object r.1 in
      let here =
        set-Same conns op.object r.1
          (tx.run_keeps gate c op.sql op.params (is_open op.object on) plain) o in
      elim (Option-cases r.0) [
        | inl n ↦ rw (n, run_ops) here
        | inr (result, e) ↦
            let still : AllOpen next os = λ q m.
              mode_of_set conns op.object r.1 false q
                (tx.run_stays gate c op.sql op.params result (is_open op.object on) plain e)
                (λ n. is_open q m) in
            rw (e, run_ops) (run-Same cap next os ops still p o ∙ here)
      ]

  rollback-Same : (conns : Bytes → C) (os : List Bytes) → Same conns (rollback_all sqlite conns os)
  unfolding rollback_all
  rollback-Same conns [] o = refl
  rollback-Same conns (p ∷ os) o =
      rollback-Same (set_conn sqlite conns p (rollback (conns p))) os o
      ∙ set-Same conns p (rollback (conns p)) (tx.rollback_keeps (conns p)) o

  rollback-keeps_closed :
      (conns : Bytes → C) (os : List Bytes) (o : Bytes)
      → tx.autocommit (conns o) ≡ true
      → tx.autocommit (rollback_all sqlite conns os o) ≡ true
  unfolding rollback_all
  rollback-keeps_closed conns [] o h = h
  rollback-keeps_closed conns (p ∷ os) o h =
      rollback-keeps_closed (set_conn sqlite conns p (rollback (conns p))) os o
        (mode_of_set conns p (rollback (conns p)) true o (tx.rollback_closes (conns p)) (λ n. h))

  rollback-AllClosed :
      (conns : Bytes → C) (os : List Bytes) → AllClosed (rollback_all sqlite conns os) os
  unfolding rollback_all
  rollback-AllClosed conns [] o m = absurd (ground arith)
  rollback-AllClosed conns (p ∷ os) o m =
      let next = set_conn sqlite conns p (rollback (conns p)) in
      elim (Bool-cases (has os o)) [
        | inl later ↦ rollback-AllClosed next os o later
        | inr first ↦
            let here : bytes_beq o p ≡ true = ground arith in
            rollback-keeps_closed next os o (rw here (tx.rollback_closes (conns p)))
      ]

  -- No name stands twice.
  abbrev pub Distinct : List Bytes → Type 0
  Distinct [] = Unit
  Distinct (o ∷ os) = (has os o ≡ false) × Distinct os

  -- After the commits: who is not among the committed has committed what it had; when none is left,
  -- all are committed.
  abbrev Committed : (Bytes → C) → List Bytes → List Bytes × List Bytes × (Bytes → C) → Type 0
  Committed conns os (done, [], conns') =
      ((o : Bytes) → has os o ≡ true → commit (conns o) ≡ (true, conns' o))
      × ((o : Bytes) → has os o ≡ false → conns' o ≡ conns o)
  Committed conns os (done, at ∷ rest, conns') =
      ((o : Bytes) → (has done o ≡ true) ⊎ (image (conns' o) ≡ image (conns o)))
      × ((o : Bytes)
          → has os o ≡ true
          → (tx.autocommit (conns' o) ≡ true) ⊎ (has (at ∷ rest) o ≡ true))
      × ((o : Bytes) → has os o ≡ false → conns' o ≡ conns o)

  pair_eq : {A B : Type 0} (x : A × B) (a : A) (b : B) → x.0 ≡ a → x.1 ≡ b → x ≡ (a, b)
  pair_eq (c, d) a b p q = cc

  Committed-after :
      (conns : Bytes → C) (p : Bytes) (os : List Bytes)
      (rest : List Bytes × List Bytes × (Bytes → C))
      → (commit (conns p)).0 ≡ true
      → has os p ≡ false
      → Committed (set_conn sqlite conns p (commit (conns p)).1) os rest
      → Committed conns (p ∷ os) (p ∷ rest.0, rest.1, rest.2)
  Committed-after conns p os (done, [], conns') y fresh h = (
    λ o m. elim (Bool-cases (bytes_beq o p)) [
      | inl e ↦
          let op : o ≡ p = (bytes_eq.eqb_iff o p).0 e in
          let now : conns' p ≡ (commit (conns p)).1 = rw (bytes_beq_refl p) at (h.1 p fresh) in
          subst (λ q. commit (conns q) ≡ (true, conns' q)) (sym op)
            (pair_eq (commit (conns p)) true (conns' p) y (sym now))
      | inr n ↦ rw n at (h.0 o (ground arith))
    ],
    λ o m. let n : bytes_beq o p ≡ false = ground arith in rw n at (h.1 o (ground arith)),
  )
  Committed-after conns p os (done, at ∷ rest, conns') y fresh (images, modes, kept) = (
    λ o. elim (images o) [
      | inl m ↦ inl (ground arith)
      | inr e ↦ elim (Bool-cases (bytes_beq o p)) [
        | inl here ↦ inl (ground arith)
        | inr n ↦ inr (e ∙ rw n refl)
      ]
    ],
    λ o m. elim (Bool-cases (has os o)) [
      | inl later ↦ modes o later
      | inr first ↦
          let here : bytes_beq o p ≡ true = ground arith in
          let same : conns' o ≡ (commit (conns p)).1 = kept o first ∙ rw here refl in
          inl (ap tx.autocommit same ∙ tx.commit_closes (conns p) y)
    ],
    λ o m. let n : bytes_beq o p ≡ false = ground arith in kept o (ground arith) ∙ rw n refl,
  )

  commit-Committed :
      (conns : Bytes → C) (os : List Bytes)
      → Distinct os
      → Committed conns os (commit_all sqlite conns os)
  unfolding commit_all
  commit-Committed conns [] d = (λ o h. cc, λ o h. refl)
  commit-Committed conns (p ∷ os) d = elim (Bool-cases (commit (conns p)).0) [
    | inr n ↦ rw n (
      λ o. inr (set-Same conns p (commit (conns p)).1 (tx.failed_keeps (conns p) n) o),
      λ o m. inr m,
      λ o m. let other : bytes_beq o p ≡ false = ground arith in rw other refl,
    )
    | inl y ↦ rw y (
        Committed-after conns p os
          (commit_all sqlite (set_conn sqlite conns p (commit (conns p)).1) os) y d.0
          (commit-Committed (set_conn sqlite conns p (commit (conns p)).1) os d.1))
  ]

  -- What became of a transaction. Applied, every participant has committed what the operations made of
  -- it. Refused or failed before the commits, no object has committed anything and the worker is as it
  -- was. Failed at a commit, each object is reverted or has committed nothing. No participant is left
  -- with an open transaction, but where a BEGIN failed.
  abbrev pub AllOrNothing :
      Worker
      → (Bytes → C)
      → List Bytes
      → List (Op Bytes)
      → Option Capability
      → Applied × Worker × (Bytes → C)
      → Type 0
  AllOrNothing w conns os ops cap (applied results changed, w', conns') =
      ((o : Bytes)
        → has os o ≡ true
        → commit ((run_ops sqlite cap (begin_all sqlite conns os).1 ops).1 o) ≡ (true, conns' o))
      × AllClosed conns' os
      × (w' ≡ w)
  AllOrNothing w conns os ops cap (commit_failed at, w', conns') =
      ((o : Bytes) → (lookup o w'.objects ≡ none) ⊎ (image (conns' o) ≡ image (conns o)))
      × AllClosed conns' os
  AllOrNothing w conns os ops cap (missing, w', conns') = Same conns conns' × (w' ≡ w)
  AllOrNothing w conns os ops cap (bad_query, w', conns') = Same conns conns' × (w' ≡ w)
  AllOrNothing w conns os ops cap (not_begun, w', conns') = Same conns conns' × (w' ≡ w)
  AllOrNothing w conns os ops cap (op_failed, w', conns') =
      Same conns conns' × AllClosed conns' os × (w' ≡ w)

  module _ (w : Worker) (conns : Bytes → C) (os : List Bytes) (ops : List (Op Bytes))
      (cap : Option Capability) where
    abbrev mid : Bytes → C
    mid = (run_ops sqlite cap (begin_all sqlite conns os).1 ops).1

    finish-AllOrNothing :
        (results : List OpResult) (r : List Bytes × List Bytes × (Bytes → C))
        → Same conns mid
        → Committed mid os r
        → AllOrNothing w conns os ops cap (finish sqlite w conns results os r)
    unfolding finish
    finish-AllOrNothing results (done, [], conns') same h = (
      h.0,
      λ o m.
          let made = h.0 o m in
          ap (λ (r : Bool × C). tx.autocommit r.1) (sym made)
          ∙ tx.commit_closes (mid o) (ap (λ (r : Bool × C). r.0) made),
      refl,
    )
    finish-AllOrNothing results (done, at ∷ rest, conns') same (images, modes, kept) = (
      λ o. elim (images o) [
        | inr e ↦ inr (rollback-Same conns' (at ∷ rest) o ∙ e ∙ same o)
        | inl m ↦
            let (into, spared, reverted) = revert_closure-whole w done in
            inl ((reverted o).0 ∙ rw (into o m) refl)
      ],
      λ o m. elim (modes o m) [
        | inl closed ↦ rollback-keeps_closed conns' (at ∷ rest) o closed
        | inr left ↦ rollback-AllClosed conns' (at ∷ rest) o left
      ],
    )

    ops-AllOrNothing :
        (r : Option (List OpResult))
        → Same conns mid
        → Distinct os
        → AllOrNothing w conns os ops cap (after_ops sqlite w conns os (r, mid))
    unfolding after_ops
    ops-AllOrNothing none same d =
        (λ o. rollback-Same mid os o ∙ same o, rollback-AllClosed mid os, refl)
    ops-AllOrNothing (some results) same d =
        finish-AllOrNothing results (commit_all sqlite mid os) same (commit-Committed mid os d)

    begun-AllOrNothing :
        (b : Bool)
        → (begin_all sqlite conns os).0 ≡ b
        → Distinct os
        → AllPlain os ops
        → AllOrNothing w conns os ops cap
            (after_begin sqlite w conns os ops cap (b, (begin_all sqlite conns os).1))
    unfolding after_begin
    begun-AllOrNothing false e d p = (begin-Same conns os, refl)
    begun-AllOrNothing true e d p =
        let begun = (begin_all sqlite conns os).1 in
        ops-AllOrNothing (run_ops sqlite cap begun ops).0
          (λ o. run-Same cap begun os ops (begin-AllOpen conns os e) p o ∙ begin-Same conns os o) d

    -- A write is all or nothing on its objects, which are distinct, where its operations are on these
    -- objects and do not end the transaction, and SQLite keeps what it documents: within an open
    -- transaction nothing is committed until a COMMIT succeeds. Applied, every participant has
    -- committed what the operations made of it. Refused or failed before the commits, nothing is
    -- committed anywhere and the worker is as it was. Failed at a COMMIT, each object is reverted or
    -- has committed nothing. But where a BEGIN failed, no participant is left in a transaction.
    pub apply-AllOrNothing :
        Distinct os
        → AllPlain os ops
        → AllOrNothing w conns os ops cap (apply sqlite w conns os ops false cap)
    unfolding apply
    apply-AllOrNothing d p = elim (Bool-cases (not (all (is_live sqlite w) os))) [
      | inl gone ↦ rw gone (λ o. refl, refl)
      | inr here ↦ rw here (begun-AllOrNothing (begin_all sqlite conns os).0 refl d p)
    ]
