-- ===== src/Objlog/Prewrite.antt =====
-- objlog.rs, `prewrite`, and the rollback of `delete_if_txn`.
use fafo.Prelude.{
  ℕ, zero, suc, ◌+◌, ◌≤◌, ◌≡◌, ◌≢◌, refl, sym, ap, subst, some_inj, ◌-◌, ◌∙◌, Bool, true, false,
  ◌⊎◌, inl, inr, Option, none, some, List, [], ◌∷◌, arith, if◌then◌else◌, nat_beq, leb, Bool-cases,
  Option-cases,
}
use fafo.Prelude.Bytes.{Bytes, bytes_beq, bytes_beq_iff, bytes_beq_refl}
use fafo.Store as Store
use fafo.Store.{MemInner, Call, putting, deleting, creating, effects}
use fafo.Store.Versions.{get-delete}
use fafo.Objlog.Spares.{get-create}
use fafo.Objlog.Hoare.{Ensures, Ensures-bind, Ensures-if, Ensures-create, Ensures-get}
use fafo.Objlog.Keys.{log_key, outcome_key}
use fafo.Objlog.Entry.{LogEntry, decode_entry}
use fafo.Objlog.Io.{Io, ret, run, Turn, Schedule, Fault, quiet, ◌>>=◌}
use fafo.Objlog.Protocol.{
  is_one, belongs, held_by, occupied, delete_if_txn, contend, prewrite_within, prewrite,
  committed_seq, abort_txn, outcome,
}
use fafo.Objlog.Outcome.{decision}

-- The slot that a prewrite reports is the next one, and holds an entry of this transaction.
abbrev pub HoldsSlot : Bytes → Bytes → ℕ → Option ℕ → MemInner → Type 0
HoldsSlot id txn expected none s = Unit
HoldsSlot id txn expected (some seq) s =
    (seq ≡ expected + 1) × (belongs (Store.get s (log_key id seq)) txn ≡ true)

module _ (id txn entry : Bytes) (expected : ℕ) (ours : belongs (some entry) txn ≡ true) where
  abbrev Slot : Option ℕ → MemInner → Type 0
  Slot = HoldsSlot id txn expected

  Ensures-none : Ensures Slot (ret none)
  unfolding run
  Ensures-none = record { at = λ ts s p. subst (λ a. Slot a s) (some_inj p) tt }

  contend-Ensures :
      (key : Bytes) (held : LogEntry) (now_ms ttl_ms : ℕ) (retry : Io (Option ℕ))
      → Ensures Slot retry
      → Ensures Slot (contend key held now_ms ttl_ms retry)
  unfolding contend
  contend-Ensures key held now_ms ttl_ms retry h =
      Ensures-bind (outcome held.txn) _ λ o. after_outcome o
    where
      taken : Ensures Slot (delete_if_txn key held.txn >>= λ _. retry)
      taken = Ensures-bind (delete_if_txn key held.txn) _ (λ _. h)

      after_outcome :
          (o : Option Bool)
          → Ensures Slot (elim o [
            | some decided ↦
                if decided then ret none else (delete_if_txn key held.txn >>= λ _. retry)
            | none ↦
                if leb (now_ms - held.born) ttl_ms
                then ret none
                else (abort_txn held.txn >>= λ won.
                    if won then (delete_if_txn key held.txn >>= λ _. retry) else ret none)
          ])
      after_outcome (some decided) = Ensures-if decided _ _ Ensures-none taken
      after_outcome none =
          Ensures-if (leb (now_ms - held.born) ttl_ms) _ _ Ensures-none
            (Ensures-bind (abort_txn held.txn) _ (λ won. Ensures-if won _ _ taken Ensures-none))

  reports :
      (ts : Schedule) (s : MemInner) (bytes : Bytes) {a : Option ℕ}
      → Store.get s (log_key id (expected + 1)) ≡ some bytes
      → belongs (some bytes) txn ≡ true
      → (run (ret (some (expected + 1))) ts s).0 ≡ some a
      → Slot a s
  unfolding run
  reports ts s bytes there mine p = subst (λ a. Slot a s) (some_inj p) (refl, rw there mine)

  occupied-Ensures :
      (now_ms ttl_ms : ℕ) (retry : Io (Option ℕ))
      → Ensures Slot retry
      → let key = log_key id (expected + 1) in
        (o : Option Bytes) (ts : Schedule) (s : MemInner) (a : Option ℕ)
        → Store.get s key ≡ o
        → (run (occupied key txn (expected + 1) now_ms ttl_ms retry o) ts s).0 ≡ some a
        → Slot a (run (occupied key txn (expected + 1) now_ms ttl_ms retry o) ts s).1
  unfolding occupied held_by run
  occupied-Ensures now_ms ttl_ms retry h none ts s a there p = h.at ts s p
  occupied-Ensures now_ms ttl_ms retry h (some bytes) ts s a there p =
      decoded (decode_entry bytes) refl p
    where
      key : Bytes
      key = log_key id (expected + 1)

      decoded :
          (d : Option LogEntry)
          → decode_entry bytes ≡ d
          → (run (held_by key txn (expected + 1) now_ms ttl_ms retry d) ts s).0 ≡ some a
          → Slot a (run (held_by key txn (expected + 1) now_ms ttl_ms retry d) ts s).1
      decoded none e p = Ensures-none.at ts s p
      decoded (some held) e p = elim (Bool-cases (bytes_beq held.txn txn)) [
        | inl q ↦
            rw (q, held_by)
              (reports ts s bytes there (unfold belongs in rw (e, belongs) q)
                (rw (q, held_by) at p))
        | inr q ↦
            rw (q, held_by)
              ((contend-Ensures key held now_ms ttl_ms retry h).at ts s (rw (q, held_by) at p))
      ]

  prewrite_within-Ensures :
      (n now_ms ttl_ms : ℕ)
      → Ensures Slot (prewrite_within n id (expected + 1) txn entry now_ms ttl_ms)
  unfolding prewrite_within
  prewrite_within-Ensures zero now_ms ttl_ms = Ensures-none
  prewrite_within-Ensures (suc n) now_ms ttl_ms =
      Ensures-create (log_key id (expected + 1)) entry _
        (λ ts s a there p. unfold run in reports ts s entry there ours p)
        (Ensures-get (log_key id (expected + 1)) _
          (occupied-Ensures now_ms ttl_ms _ (prewrite_within-Ensures n now_ms ttl_ms)))

-- A prewrite, of an entry of its own transaction, that reports a sequence number reports the one
-- after the expected one, and at that moment the log slot there holds an entry of this transaction:
-- its own, or the one of an earlier try. It holds whatever other tasks do at any call and whichever
-- calls fail.
pub prewrite_holds_slot :
    (id txn entry : Bytes) (expected now_ms ttl_ms : ℕ) (ts : Schedule) (s : MemInner) {seq : ℕ}
    → belongs (some entry) txn ≡ true
    → (run (prewrite id txn entry expected now_ms ttl_ms) ts s).0 ≡ some (some seq)
    → let s' = (run (prewrite id txn entry expected now_ms ttl_ms) ts s).1 in
      (seq ≡ expected + 1) × (belongs (Store.get s' (log_key id seq)) txn ≡ true)
unfolding prewrite
prewrite_holds_slot id txn entry expected now_ms ttl_ms ts s ours p =
    (Ensures-bind (committed_seq id) _ (λ current.
        Ensures-if (nat_beq current expected) _ _
          (prewrite_within-Ensures id txn entry expected ours 64 now_ms ttl_ms)
          (Ensures-none id txn entry expected ours))).at
      ts s p

-- Another task's turn between the read and the delete of `delete_if_txn`: it takes the slot over for
-- its own transaction, and commits.
abbrev pub raced : Bytes → Bytes → Bytes → Turn
raced key winner entry = record {
  before = deleting key ∷ creating key entry ∷ creating (outcome_key winner) (1 ∷ []) ∷ [];
  fault = Fault.sound;
}

-- The rollback is not atomic. Where the slot holds an entry of `txn`, and between the read and the
-- delete another task takes the slot over with its own entry and commits its transaction, undecided
-- before, the delete still runs, succeeds, and erases the entry of the committed transaction.
pub delete_if_txn_race :
    (key txn winner entry : Bytes) (s : MemInner)
    → belongs (Store.get s key) txn ≡ true
    → Store.get s (outcome_key winner) ≡ none
    → key ≢ outcome_key winner
    → let before_delete = effects s (raced key winner entry).before in
      let after = run (delete_if_txn key txn) (quiet ∷ raced key winner entry ∷ []) s in
      (Store.get before_delete key ≡ some entry)
      × (decision before_delete winner ≡ some true)
      × (after.0 ≡ some tt)
      × (Store.get after.1 key ≡ none)
      × (decision after.1 winner ≡ some true)
unfolding effects run delete_if_txn ◌>>=◌ decision is_one Store.get belongs fafo.Prelude.lookup
delete_if_txn_race key txn winner entry s mine fresh apart =
    let out = outcome_key winner in
    let s1 = Store.delete s key in
    let s2 = (Store.create s1 key entry).1 in
    let s3 = (Store.create s2 out (1 ∷ [])).1 in
    let there : Store.get s3 key ≡ some entry = ground (
      arith,
      get-delete s key key,
      get-create s1 key key entry,
      get-create s2 out key (1 ∷ []),
      bytes_beq_iff out key,
      bytes_beq_refl key,
    ) in
    let decided : Store.get s3 out ≡ some (1 ∷ []) = ground (
      arith,
      get-delete s key out,
      get-create s1 key out entry,
      get-create s2 out out (1 ∷ []),
      bytes_beq_iff key out,
      bytes_beq_refl out,
    ) in
    rw (mine, there, decided)
      (
        refl,
        refl,
        refl,
        rw (get-delete s3 key key, bytes_beq_refl key) refl,
        rw (get-delete s3 key out) (ground (arith, bytes_beq_iff key out)),
      )
