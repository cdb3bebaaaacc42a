-- ===== src/Worker/Complete/Account.antt =====
-- worker.rs, the account of unshipped bytes: `dirty_bytes` is the sum over `dirty`, which
-- `maybe_launch` asserts.
use fafo.Prelude.{
  ℕ, ◌+◌, ◌≡◌, refl, sym, ap, subst, ◌∙◌, inl, inr, Option, none, some, List, [], ◌∷◌, ◌++◌, arith,
  Bool-cases, Option-cases, Map, IsMap, insert-IsMap, remove-IsMap, lookup, insert, remove,
}
use fafo.Prelude.Bytes.{Bytes, bytes_eq, bytes_beq}
use fafo.Worker.State.{Worker, clean, fail_polls}
use fafo.Worker.Revert.{reverted_by, retained, bereaved, revert_one, revert_all, revert_closure}
use fafo.Worker.Revert.Whole.{fail_polls-keeps}
use fafo.Worker.Boats.{repair_one, repair_all, relinquish}
use fafo.Worker.Launch.{clean_all}
use fafo.Worker.Dirty.{mark_one, mark_dirty}

abbrev pub sum_of : Map Bytes ℕ → ℕ
sum_of [] = 0
sum_of ((o, bytes) ∷ m) = bytes + sum_of m

-- The account is right, and no object stands twice in `dirty`.
pub record IsAccounted (w : Worker) : Type 0 where
  pub counted : w.dirty_bytes ≡ sum_of w.dirty
  pub single : IsMap w.dirty

sum-insert :
    (o : Bytes) (bytes : ℕ) (m : Map Bytes ℕ)
    → lookup o m ≡ none
    → sum_of (insert o bytes m) ≡ bytes + sum_of m
unfolding insert lookup
sum-insert o bytes [] h = refl
sum-insert o bytes ((p, b) ∷ m) h = elim (Bool-cases (bytes_beq p o)) [
  | inl y ↦ absurd (ground arith)
  | inr n ↦ rw n (omega (arith, sum-insert o bytes m (rw n at h)))
]

remove_absent : (o : Bytes) (m : Map Bytes ℕ) → lookup o m ≡ none → sum_of (remove o m) ≡ sum_of m
unfolding remove lookup
remove_absent o [] h = refl
remove_absent o ((p, b) ∷ m) h = elim (Bool-cases (bytes_beq p o)) [
  | inl y ↦ absurd (ground arith)
  | inr n ↦ rw n (omega (arith, remove_absent o m (rw n at h)))
]

sum-remove :
    (o : Bytes) (bytes : ℕ) (m : Map Bytes ℕ)
    → IsMap m
    → lookup o m ≡ some bytes
    → sum_of (remove o m) + bytes ≡ sum_of m
unfolding remove lookup
sum-remove o bytes [] u h = absurd (ground arith)
sum-remove o bytes ((p, b) ∷ m) u h = elim (Bool-cases (bytes_beq p o)) [
  | inl y ↦
      let op : p ≡ o = (bytes_eq.eqb_iff p o).0 y in
      let gone : lookup o m ≡ none = subst (λ z. lookup z m ≡ none) op u.0 in
      rw y (ground (arith, remove_absent o m gone))
  | inr n ↦ rw n (omega (arith, sum-remove o bytes m u.1 (rw n at h)))
]

clean-IsAccounted : (w : Worker) (o : Bytes) → IsAccounted w → IsAccounted (clean w o)
unfolding clean
clean-IsAccounted w o a = elim (Option-cases (lookup o w.dirty)) [
  | inl n ↦ rw (n, clean) a
  | inr (bytes, e) ↦
      rw (e, clean)
        (record {
          counted = omega (arith, a.counted, sum-remove o bytes w.dirty a.single e);
          single = remove-IsMap o w.dirty a.single;
        })
]

mark_one-IsAccounted :
    (file_len : Bytes → Option ℕ) (w : Worker) (o : Bytes)
    → IsAccounted w
    → IsAccounted (mark_one file_len w o)
unfolding mark_one
mark_one-IsAccounted file_len w o a = elim (Option-cases (lookup o w.dirty)) [
  | inr (bytes, e) ↦ rw (e, mark_one) a
  | inl n ↦
      rw (n, mark_one)
        (record {
          counted = omega (arith, a.counted, sum-insert o _ w.dirty n);
          single = insert-IsMap o _ w.dirty a.single;
        })
]

-- A worker with the same account.
same_account :
    (w v : Worker)
    → v.dirty ≡ w.dirty
    → v.dirty_bytes ≡ w.dirty_bytes
    → IsAccounted w
    → IsAccounted v
same_account w v d b a = record {
  counted = b ∙ a.counted ∙ ap sum_of (sym d);
  single = subst IsMap (sym d) a.single;
}

fail_polls-bytes : (w : Worker) (o : Bytes) → (fail_polls w o).dirty_bytes ≡ w.dirty_bytes
unfolding fail_polls
fail_polls-bytes w o = elim (Option-cases (lookup o w.polls)) [
  | inl n ↦ rw (n, fail_polls) refl
  | inr (list, e) ↦ rw (e, fail_polls) refl
]

fail_polls-IsAccounted : (w : Worker) (o : Bytes) → IsAccounted w → IsAccounted (fail_polls w o)
fail_polls-IsAccounted w o =
    same_account w (fail_polls w o) (fail_polls-keeps w o).1 (fail_polls-bytes w o)

revert_one-IsAccounted : (w : Worker) (o : Bytes) → IsAccounted w → IsAccounted (revert_one w o)
unfolding revert_one
revert_one-IsAccounted w o a =
    let w1 = fail_polls w o in
    let w2 = record w1 {
      objects = remove o w1.objects;
      meta = remove o w1.meta;
      manifests = remove o w1.manifests;
      log_seq = remove o w1.log_seq;
    } in
    same_account (clean w2 o) (revert_one w o) refl refl
      (clean-IsAccounted w2 o (same_account w1 w2 refl refl (fail_polls-IsAccounted w o a)))

revert_all-IsAccounted :
    (w : Worker) (os : List Bytes) → IsAccounted w → IsAccounted (revert_all w os)
unfolding revert_all
revert_all-IsAccounted w [] a = a
revert_all-IsAccounted w (o ∷ os) a =
    revert_all-IsAccounted (revert_one w o) os (revert_one-IsAccounted w o a)

revert_closure-IsAccounted :
    (w : Worker) (seed : List Bytes) → IsAccounted w → IsAccounted (revert_closure w seed)
unfolding revert_closure
revert_closure-IsAccounted w seed a =
    let reverted = reverted_by w.pending_txns seed in
    let v = record w {
      pending_txns = retained reverted w.pending_txns;
      sent = w.sent ++ bereaved reverted w.pending_txns;
    } in
    revert_all-IsAccounted v reverted (same_account w v refl refl a)

clean_all-IsAccounted :
    (w : Worker) (os : List Bytes) → IsAccounted w → IsAccounted (clean_all w os)
unfolding clean_all
clean_all-IsAccounted w [] a = a
clean_all-IsAccounted w (o ∷ os) a = clean_all-IsAccounted (clean w o) os (clean-IsAccounted w o a)

mark_dirty-IsAccounted :
    (file_len : Bytes → Option ℕ) (w : Worker) (os : List Bytes)
    → IsAccounted w
    → IsAccounted (mark_dirty file_len w os)
unfolding mark_dirty
mark_dirty-IsAccounted file_len w [] a = a
mark_dirty-IsAccounted file_len w (o ∷ os) a =
    mark_dirty-IsAccounted file_len (mark_one file_len w o) os (mark_one-IsAccounted file_len w o a)

repair_one-IsAccounted :
    (file_len : Bytes → Option ℕ) (w : Worker) (o : Bytes)
    → IsAccounted w
    → IsAccounted (repair_one file_len w o)
unfolding repair_one
repair_one-IsAccounted file_len w o a = elim (Option-cases (lookup o w.dirty)) [
  | inr (bytes, e) ↦
      rw (e, repair_one)
        (same_account w (record w { manifests = remove o w.manifests }) refl refl a)
  | inl n ↦
      rw (n, repair_one)
        (record {
          counted = omega (arith, a.counted, sum-insert o _ w.dirty n);
          single = insert-IsMap o _ w.dirty a.single;
        })
]

repair_all-IsAccounted :
    (file_len : Bytes → Option ℕ) (w : Worker) (os : List Bytes)
    → IsAccounted w
    → IsAccounted (repair_all file_len w os)
unfolding repair_all
repair_all-IsAccounted file_len w [] a = a
repair_all-IsAccounted file_len w (o ∷ os) a =
    repair_all-IsAccounted file_len (repair_one file_len w o) os
      (repair_one-IsAccounted file_len w o a)

relinquish-IsAccounted :
    (w : Worker) (o : Bytes) (v : ℕ) → IsAccounted w → IsAccounted (relinquish w o v)
unfolding relinquish
relinquish-IsAccounted w o v a =
    let w0 = record w {
      owned = remove o w.owned;
      log_seq = remove o w.log_seq;
      meta = remove o w.meta;
      manifests = remove o w.manifests;
    } in
    let w1 = clean w0 o in
    let w2 = record w1 { objects = remove o w1.objects } in
    same_account (fail_polls w2 o) (relinquish w o v) refl refl (
      fail_polls-IsAccounted w2 o
        (same_account w1 w2 refl refl (clean-IsAccounted w0 o (same_account w w0 refl refl a))))

-- What changes the unshipped bytes of a worker.
pub data DirtyOp : Type 0 where
  -- a write is applied; a boat takes its objects along; a boat sinks; what was committed and not
  -- promoted ships again; an object that a peer has won is given up
  mark ship revert mend : List Bytes → DirtyOp
  lose : Bytes → ℕ → DirtyOp

unfoldable pub dirty_run : (Bytes → Option ℕ) → List DirtyOp → Worker → Worker
dirty_run file_len [] w = w
dirty_run file_len (mark os ∷ ops) w = dirty_run file_len ops (mark_dirty file_len w os)
dirty_run file_len (ship os ∷ ops) w = dirty_run file_len ops (clean_all w os)
dirty_run file_len (revert seed ∷ ops) w = dirty_run file_len ops (revert_closure w seed)
dirty_run file_len (mend os ∷ ops) w = dirty_run file_len ops (repair_all file_len w os)
dirty_run file_len (lose o v ∷ ops) w = dirty_run file_len ops (relinquish w o v)

-- Whatever writes, launches, reverts, repairs and surrenders follow one another, `dirty_bytes` stays
-- the sum of what is dirty, and no object stands twice in `dirty`: the assertion of `maybe_launch`
-- holds.
pub dirty_run-IsAccounted :
    (file_len : Bytes → Option ℕ) (ops : List DirtyOp) (w : Worker)
    → IsAccounted w
    → IsAccounted (dirty_run file_len ops w)
unfolding dirty_run
dirty_run-IsAccounted file_len [] w a = a
dirty_run-IsAccounted file_len (mark os ∷ ops) w a =
    dirty_run-IsAccounted file_len ops (mark_dirty file_len w os)
      (mark_dirty-IsAccounted file_len w os a)
dirty_run-IsAccounted file_len (ship os ∷ ops) w a =
    dirty_run-IsAccounted file_len ops (clean_all w os) (clean_all-IsAccounted w os a)
dirty_run-IsAccounted file_len (revert seed ∷ ops) w a =
    dirty_run-IsAccounted file_len ops (revert_closure w seed) (revert_closure-IsAccounted w seed a)
dirty_run-IsAccounted file_len (mend os ∷ ops) w a =
    dirty_run-IsAccounted file_len ops (repair_all file_len w os)
      (repair_all-IsAccounted file_len w os a)
dirty_run-IsAccounted file_len (lose o v ∷ ops) w a =
    dirty_run-IsAccounted file_len ops (relinquish w o v) (relinquish-IsAccounted w o v a)
