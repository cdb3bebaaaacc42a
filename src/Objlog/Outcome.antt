-- ===== src/Objlog/Outcome.antt =====
-- The one atomic decision of objlog.rs, `commit_txn` against `abort_txn`, under any interleaving and
-- any failing calls.
use fafo.Prelude.{
  ◌≡◌, ◌≢◌, Bool, true, false, inl, inr, Option, none, some, List, arith, All, Option-cases,
}
use fafo.Prelude.Bytes.{Bytes, bytes_beq_refl, bytes_eq}
use fafo.Store as Store
use fafo.Store.{
  MemInner, Call, read, putting, deleting, creating, swapping, effect, effects, is_some, version,
}
use fafo.Store.Versions.{get-put}
use fafo.Objlog.Spares.{Spares, SparesTurn, effects-Spares}
use fafo.Objlog.Hoare.{IsGentle, run-IsGentle}
use fafo.Objlog.Keys.{outcome_key}
use fafo.Objlog.Io.{Io, ret, run, Schedule, next_turn, later, ◌>>=◌, attempt}
use fafo.Objlog.Protocol.{
  is_aborted, is_one, map_option, outcome, committed, commit_txn, abort_txn, committed_value,
  aborted_value,
}

-- What the store says of a transaction.
unfoldable pub decision : MemInner → Bytes → Option Bool
decision s txn = map_option is_one (Store.get s (outcome_key txn))

committed-true :
    (txn : Bytes) (ts : Schedule) (s : MemInner)
    → (run (committed txn) ts s).0 ≡ some true
    → decision (run (committed txn) ts s).1 txn ≡ some true
unfolding run committed decision ◌>>=◌ attempt
committed-true txn ts s h = ground arith

-- The last part of `abort_txn`.
outcome_read :
    (txn : Bytes) (ts : Schedule) (s : MemInner)
    → let r = run (outcome txn >>= λ o. ret (is_aborted o)) ts s in
      r.0 ≡ some true → decision r.1 txn ≡ some false
unfolding run outcome decision ◌>>=◌
outcome_read txn ts s h = ground arith

create_decides :
    (txn : Bytes) (s : MemInner) (v : Bytes)
    → (Store.create s (outcome_key txn) v).0 ≡ true
    → decision (Store.create s (outcome_key txn) v).1 txn ≡ some (is_one v)
unfolding Store.create decision
create_decides txn s v h =
    ground
      (arith, get-put s (outcome_key txn) (outcome_key txn) v, bytes_beq_refl (outcome_key txn))

pub commit_decides :
    (txn : Bytes) (ts : Schedule) (s : MemInner)
    → (run (commit_txn txn) ts s).0 ≡ some true
    → decision (run (commit_txn txn) ts s).1 txn ≡ some true
unfolding run commit_txn ◌>>=◌ is_one
commit_decides txn ts s h =
    let s1 = effects s (next_turn ts).before in
    ground (
      arith,
      create_decides txn s1 committed_value,
      committed-true txn (later ts) (Store.create s1 (outcome_key txn) committed_value).1,
    )

abort_decides :
    (txn : Bytes) (ts : Schedule) (s : MemInner)
    → (run (abort_txn txn) ts s).0 ≡ some true
    → decision (run (abort_txn txn) ts s).1 txn ≡ some false
unfolding run abort_txn ◌>>=◌ is_one
abort_decides txn ts s h =
    let s1 = effects s (next_turn ts).before in
    ground (
      arith,
      create_decides txn s1 aborted_value,
      outcome_read txn (later ts) (Store.create s1 (outcome_key txn) aborted_value).1,
    )

decision-effects :
    (txn : Bytes) (s : MemInner) (cs : List Call) {b : Bool}
    → All (Spares (outcome_key txn)) cs
    → decision s txn ≡ some b
    → decision (effects s cs) txn ≡ some b
unfolding decision
decision-effects txn s cs h d = elim (Option-cases (Store.get s (outcome_key txn))) [
  | inl n ↦ absurd (ground arith)
  | inr (v, e) ↦ rw (effects-Spares s (outcome_key txn) cs h e) (rw e at d)
]

pub committed-IsGentle : (key txn : Bytes) → IsGentle key (committed txn)
unfolding committed ◌>>=◌ attempt
committed-IsGentle key txn none = tt
committed-IsGentle key txn (some o) = tt

commit_txn-IsGentle : (key txn : Bytes) → IsGentle key (commit_txn txn)
unfolding commit_txn ◌>>=◌
commit_txn-IsGentle key txn none = tt
commit_txn-IsGentle key txn (some true) = tt
commit_txn-IsGentle key txn (some false) = committed-IsGentle key txn

after_read-IsGentle :
    (key : Bytes) (txn : Bytes) → IsGentle key (outcome txn >>= λ o. ret (is_aborted o))
unfolding outcome ◌>>=◌
after_read-IsGentle key txn none = tt
after_read-IsGentle key txn (some o) = tt

abort_txn-IsGentle : (key txn : Bytes) → IsGentle key (abort_txn txn)
unfolding abort_txn ◌>>=◌
abort_txn-IsGentle key txn none = tt
abort_txn-IsGentle key txn (some true) = tt
abort_txn-IsGentle key txn (some false) = after_read-IsGentle key txn

pub decision-run :
    (txn : Bytes) {A : Type 0} (m : Io A) (ts : Schedule) (s : MemInner) {b : Bool}
    → IsGentle (outcome_key txn) m
    → All (SparesTurn (outcome_key txn)) ts
    → decision s txn ≡ some b
    → decision (run m ts s).1 txn ≡ some b
unfolding decision
decision-run txn m ts s g q d = elim (Option-cases (Store.get s (outcome_key txn))) [
  | inl n ↦ absurd (ground arith)
  | inr (v, e) ↦ rw (run-IsGentle (outcome_key txn) m ts s g q e) (rw e at d)
]

-- A commit that reports success finds the transaction decided as committed at that moment, and the
-- decision stays whatever calls follow that do not put, delete or swap the outcome key. It holds
-- whatever other tasks do during the commit, and whichever of its calls fail or lose their answer.
pub commit_final :
    (txn : Bytes) (ts : Schedule) (s : MemInner) (cs : List Call)
    → (run (commit_txn txn) ts s).0 ≡ some true
    → All (Spares (outcome_key txn)) cs
    → decision (effects (run (commit_txn txn) ts s).1 cs) txn ≡ some true
commit_final txn ts s cs p h = decision-effects txn _ cs h (commit_decides txn ts s p)

-- After an abort that reported success, no commit of the transaction reports success: not after any
-- calls of other tasks, nor with any such calls between its own, as long as none of these puts,
-- deletes or swaps the outcome key. A resumed zombie cannot disagree with the peer that aborted it.
pub abort_excludes_commit :
    (txn : Bytes) (ts ts' : Schedule) (s : MemInner) (cs : List Call)
    → (run (abort_txn txn) ts s).0 ≡ some true
    → All (Spares (outcome_key txn)) cs
    → All (SparesTurn (outcome_key txn)) ts'
    → (run (commit_txn txn) ts' (effects (run (abort_txn txn) ts s).1 cs)).0 ≢ some true
abort_excludes_commit txn ts ts' s cs p h q won =
    let s1 = effects (run (abort_txn txn) ts s).1 cs in
    let stays : decision (run (commit_txn txn) ts' s1).1 txn ≡ some false =
      decision-run txn (commit_txn txn) ts' s1 (commit_txn-IsGentle (outcome_key txn) txn) q
        (decision-effects txn _ cs h (abort_decides txn ts s p)) in
    cc (stays, commit_decides txn ts' s1 won)

-- After a commit that reported success, no abort of the transaction reports success, under the same
-- conditions: a resolver cannot take back what was acknowledged.
pub commit_excludes_abort :
    (txn : Bytes) (ts ts' : Schedule) (s : MemInner) (cs : List Call)
    → (run (commit_txn txn) ts s).0 ≡ some true
    → All (Spares (outcome_key txn)) cs
    → All (SparesTurn (outcome_key txn)) ts'
    → (run (abort_txn txn) ts' (effects (run (commit_txn txn) ts s).1 cs)).0 ≢ some true
commit_excludes_abort txn ts ts' s cs p h q won =
    let s1 = effects (run (commit_txn txn) ts s).1 cs in
    let stays : decision (run (abort_txn txn) ts' s1).1 txn ≡ some true =
      decision-run txn (abort_txn txn) ts' s1 (abort_txn-IsGentle (outcome_key txn) txn) q
        (decision-effects txn _ cs h (commit_decides txn ts s p)) in
    cc (stays, abort_decides txn ts' s1 won)
