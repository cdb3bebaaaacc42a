-- ===== src/Worker/Boats/Surrender.antt =====
-- worker.rs, what a worker still grants of an object that it has just surrendered: the sunk branch of
-- `on_ship_done`.
use fafo.Prelude.{
  ℕ, ◌≡◌, ◌≢◌, ◌≤◌, arith, nat_beq, leb, refl, ap, ◌∙◌, Bool, true, false, Option, none, some, List,
  [], ◌∷◌, ◌++◌, Option-cases, lookup, remove, Map, lookup-remove, some_inj, Bool-cases, inl, inr,
}
use mathlib.Core.List.{Memᴰ}
use fafo.Prelude.Bytes.{Bytes, bytes_eq, bytes_beq, bytes_beq_refl}
use fafo.Store.{MemInner, or_zero}
use fafo.Objlog.Io.{
  Io, ret, fail, get, list, create, delete, put, get_range, run, Schedule, ◌>>=◌, attempt,
}
use fafo.Cluster.Claims.{Checkpoint, Claim, durable_claim, u64_max}
use fafo.Worker.State.{
  Worker, TransferMeta, Waiting, Sent, granted, not_mine, take, clean, fail_polls, unshipped,
}
use fafo.Worker.Transfer.{
  known, stale, next_generation, renounce, hand_over, release, admit, conclude, checkpoint,
}
use fafo.Worker.Transfer.Generations.{hand_over-generation}
use fafo.Worker.Transfer.Admission.{Admitted, admit_decides}
use fafo.Worker.Queues.{service_front, grant_front, after_release, txns_of, refuse_takes, say}
use fafo.Worker.Revert.{reverted_by, revert_one, revert_all, revert_closure}
use fafo.Worker.Boats.{winner, relinquish, reconcile_rebased, surrender}

-- `on_ship_done` for a boat that sank because the prewrite of its only object lost: the surrender, the
-- revert, and the serving of the object's queue. `maybe_launch` comes before the serving; it changes
-- neither claims nor queues.
module _ (to_vec : Checkpoint → Bytes) (from_slice : Bytes → Option Checkpoint)
    (file_len : Bytes → Option ℕ) (listening : ℕ → Bool) (log_primary : Bool) where
  pub on_rebased : Worker → Bytes → Io (List ℕ × Worker)
  unfolding reconcile_rebased revert_closure service_front
  on_rebased w object = do
    w1 ← reconcile_rebased from_slice (record w { inflight = none }) (some object)
    service_front to_vec from_slice file_len listening log_primary (revert_closure w1 (object ∷ []))
        object

-- What decides a grant, apart from what is dirty.
record Standing : Type 0 where
  pub owned : Map Bytes ℕ
  pub transit : Map Bytes (ℕ × ℕ)
  pub queues : Map Bytes (List Waiting)
  pub inflight : Option (List Bytes)

abbrev standing : Worker → Standing
standing w = record {
  owned = w.owned;
  transit = w.transit;
  queues = w.queues;
  inflight = w.inflight;
}

fail_polls-standing : (w : Worker) (o : Bytes) → standing (fail_polls w o) ≡ standing w
unfolding fail_polls
fail_polls-standing w o = elim (Option-cases (lookup o w.polls)) [
  | inl n ↦ rw (n, fail_polls) refl
  | inr (polls, e) ↦ rw (e, fail_polls) refl
]

fail_polls-dirty : (w : Worker) (o : Bytes) → (fail_polls w o).dirty ≡ w.dirty
unfolding fail_polls
fail_polls-dirty w o = elim (Option-cases (lookup o w.polls)) [
  | inl n ↦ rw (n, fail_polls) refl
  | inr (polls, e) ↦ rw (e, fail_polls) refl
]

clean-standing : (w : Worker) (o : Bytes) → standing (clean w o) ≡ standing w
unfolding clean
clean-standing w o = elim (Option-cases (lookup o w.dirty)) [
  | inl n ↦ rw (n, clean) refl
  | inr (b, e) ↦ rw (e, clean) refl
]

clean-keeps_clean :
    (w : Worker) (o object : Bytes)
    → lookup object w.dirty ≡ none
    → lookup object (clean w o).dirty ≡ none
unfolding clean
clean-keeps_clean w o object h = elim (Option-cases (lookup o w.dirty)) [
  | inl n ↦ rw (n, clean) h
  | inr (b, e) ↦
      rw (e, clean)
        (lookup-remove o object w.dirty
          ∙ elim (Bool-cases (bytes_beq o object)) [ inl y ↦ rw y refl | inr n ↦ rw n h ])
]

clean_self : (w : Worker) (o : Bytes) → lookup o (clean w o).dirty ≡ none
unfolding clean
clean_self w o = elim (Option-cases (lookup o w.dirty)) [
  | inl n ↦ rw (n, clean) n
  | inr (b, e) ↦ rw (e, clean) (lookup-remove o o w.dirty ∙ rw (bytes_beq_refl o) refl)
]

-- A worker that stands as given, and whose object is clean.
abbrev Stands : Worker → Bytes → Standing → Type 0
Stands w object st = (standing w ≡ st) × (lookup object w.dirty ≡ none)

revert_one-Stands :
    (w : Worker) (o object : Bytes) (st : Standing)
    → Stands w object st
    → Stands (revert_one w o) object st
unfolding revert_one
revert_one-Stands w o object st (same, cleaned) =
    let w1 = fail_polls w o in
    let w2 = record w1 {
      objects = remove o w1.objects;
      meta = remove o w1.meta;
      manifests = remove o w1.manifests;
      log_seq = remove o w1.log_seq;
    } in
    (
      clean-standing w2 o ∙ fail_polls-standing w o ∙ same,
      clean-keeps_clean w2 o object
          (ap (λ (d : Map Bytes ℕ). lookup object d) (fail_polls-dirty w o) ∙ cleaned),
    )

revert_all-Stands :
    (w : Worker) (os : List Bytes) (object : Bytes) (st : Standing)
    → Stands w object st
    → Stands (revert_all w os) object st
unfolding revert_all
revert_all-Stands w [] object st h = h
revert_all-Stands w (o ∷ os) object st h =
    revert_all-Stands (revert_one w o) os object st (revert_one-Stands w o object st h)

-- The worker after the surrender and the revert.
surrendered-Stands :
    (w : Worker) (object : Bytes) (v : ℕ)
    → Stands
        (revert_closure (relinquish w object v) (object ∷ []))
        object
        (record (standing w) { owned = remove object w.owned })
unfolding relinquish revert_closure
surrendered-Stands w object v =
    let w0 = record w {
      owned = remove object w.owned;
      log_seq = remove object w.log_seq;
      meta = remove object w.meta;
      manifests = remove object w.manifests;
    } in
    let w1 = clean w0 object in
    let w2 = record w1 { objects = remove object w1.objects } in
    let gone = relinquish w object v in
    revert_all-Stands _ (reverted_by gone.pending_txns (object ∷ [])) object _ (
      fail_polls-standing w2 object ∙ clean-standing w0 object,
      ap (λ (d : Map Bytes ℕ). lookup object d) (fail_polls-dirty w2 object) ∙ clean_self w0 object,
    )

first_generation :
    (w : Worker) (object : Bytes)
    → lookup object w.owned ≡ none
    → lookup object w.transit ≡ none
    → next_generation w object ≡ 1
unfolding next_generation known
first_generation w object p q = rw (p, q) refl

-- A worker that knows nothing of the object takes any deed of it.
taken_blank :
    (log_primary : Bool) (taker : Worker) (object : Bytes) (tm : TransferMeta)
    (claim : Option Claim) (r : Bool × Worker)
    → known taker object ≡ none
    → Admitted log_primary taker object tm claim r
    → (taker' : Worker) × (r ≡ (true, taker')) × (lookup object taker'.owned ≡ some tm.generation)
taken_blank log_primary taker object tm claim (true, w') blank (h, why) =
    (w', refl, (h object).0 ∙ rw (bytes_beq_refl object) refl)
taken_blank log_primary taker object tm claim (false, w') blank (same, old, why) =
    let fresh : stale (known taker object) tm.generation ≡ false = rw blank refl in cc

-- A run without other tasks, of a program that always returns, followed by two others.
run-quiet :
    {A B C : Type 0} (m : Io A) (f : A → Io B) (g : B → Io C) (s : MemInner) (a : A)
    → (run m [] s).0 ≡ some a
    → run ((m >>= f) >>= g) [] s ≡ run (f a >>= g) [] (run m [] s).1
unfolding run ◌>>=◌
run-quiet (ret b) f g s a e = let same : b ≡ a = some_inj e in rw same refl
run-quiet fail f g s a e = cc
run-quiet (get k h) f g s a e = run-quiet (h _) f g _ a e
run-quiet (list k h) f g s a e = run-quiet (h _) f g _ a e
run-quiet (create k b h) f g s a e = run-quiet (h _) f g _ a e
run-quiet (delete k h) f g s a e = run-quiet (h _) f g _ a e
run-quiet (put k b h) f g s a e = run-quiet (h _) f g _ a e
run-quiet (get_range k n l h) f g s a e = run-quiet (h _) f g _ a e

mem_in_the_middle : (xs : List Sent) (x : Sent) (ys : List Sent) → Memᴰ x (xs ++ x ∷ ys)
mem_in_the_middle [] x ys = Memᴰ.head refl
mem_in_the_middle (y ∷ xs) x ys = Memᴰ.tail (mem_in_the_middle xs x ys)

not_shipped :
    (w : Worker) (object : Bytes)
    → lookup object w.dirty ≡ none
    → w.inflight ≡ none
    → unshipped w object ≡ false
unfolding unshipped
not_shipped w object d i = rw (d, i) refl

module _ (to_vec : Checkpoint → Bytes) (from_slice : Bytes → Option Checkpoint)
    (file_len : Bytes → Option ℕ) (listening : ℕ → Bool) (log_primary : Bool) where
  -- The grant that the queue's head gets.
  abbrev Granted : ℕ → Io (List ℕ × Worker) → MemInner → Type 0
  Granted resp m s =
      (ready : List ℕ) × (w' : Worker) × (tm : TransferMeta) × ((run m [] s).0 ≡ some (ready, w'))
      × Memᴰ (granted resp tm) w'.sent
      × (tm.generation ≡ 1)

  front :
      (w : Worker) (object : Bytes) (dest resp : ℕ) (queue : List Waiting)
      → lookup object w.queues ≡ some (take dest resp ∷ queue)
      → unshipped w object ≡ false
      → service_front to_vec from_slice file_len listening log_primary w object ≡ (
          release to_vec file_len (record w { queues = remove object w.queues }) object (some dest)
          >>= after_release to_vec from_slice file_len listening log_primary object dest resp queue)
  unfolding service_front grant_front
  front w object dest resp queue head shipped =
      rw (head, service_front, shipped) (rw (head, grant_front) refl)

  served :
      (w : Worker) (object : Bytes) (dest resp : ℕ) (queue : List Waiting) (s : MemInner)
      → lookup object w.owned ≡ none
      → lookup object w.transit ≡ none
      → listening resp ≡ true
      → Granted resp
          (release to_vec file_len w object (some dest)
            >>= after_release to_vec from_slice file_len listening log_primary object dest resp
                queue)
          s
  unfolding after_release release conclude checkpoint run attempt ◌>>=◌
  served w object dest resp queue s free blank there =
      let g = next_generation w object in
      let w1 = renounce w object dest g in
      let r = hand_over file_len w1 object (some dest) g in
      (
        txns_of queue,
        say r.1 (granted resp r.0 ∷ refuse_takes (not_mine (some dest)) queue),
        r.0,
        rw (there, run) refl,
        mem_in_the_middle r.1.sent (granted resp r.0) (refuse_takes (not_mine (some dest)) queue),
        hand_over-generation file_len w1 object (some dest) g
            ∙ first_generation w object free blank,
      )

  -- A worker that owns an object at some generation, has no marker of it and a take at the head of its
  -- queue, and whose boat sank because its prewrite lost to a worker whose durable claim outranks its
  -- own: it surrenders the object, and in the same handler grants it to the taker, with a deed of
  -- generation 1, although the durable claim of the winner has a generation that is not below its own.
  -- A worker that knows nothing of the object takes the deed. No other task is at work in the handler.
  pub on_rebased-forges :
      (w taker : Worker) (object : Bytes) (g v winning dest resp : ℕ) (queue : List Waiting)
      (s s' : MemInner) (ts : Schedule)
      → lookup object w.owned ≡ some g
      → lookup object w.transit ≡ none
      → lookup object w.queues ≡ some (take dest resp ∷ queue)
      → listening resp ≡ true
      → (run (durable_claim from_slice object) [] s).0 ≡ some (Claim.owned v winning)
      → v ≢ w.id
      → v ≢ u64_max
      → g ≤ winning
      → known taker object ≡ none
      → (ready : List ℕ) × (w' : Worker) × (tm : TransferMeta) × (taker' : Worker) × ((run
            (on_rebased to_vec from_slice file_len listening log_primary w object)
            []
            s).0
          ≡ some (ready, w'))
        × Memᴰ (granted resp tm) w'.sent
        × (tm.generation ≡ 1)
        × ((run (admit to_vec from_slice log_primary taker object tm) ts s').0
            ≡ some (true, taker'))
        × (lookup object taker'.owned ≡ some 1)
  unfolding on_rebased reconcile_rebased winner run ◌>>=◌
  on_rebased-forges w taker object g v winning dest resp queue s s' ts mine free head there claim
        other valid outranked blank =
      let w0 = record w { inflight = none } in
      let gone = revert_closure (relinquish w0 object v) (object ∷ []) in
      let (stands, cleaned) = surrendered-Stands w0 object v in
      let none_owned : lookup object gone.owned ≡ none =
        ap (λ (st : Standing). lookup object st.owned) stands
        ∙ lookup-remove object object w.owned
        ∙ rw (bytes_beq_refl object) refl in
      let no_marker : lookup object gone.transit ≡ none =
        ap (λ (st : Standing). lookup object st.transit) stands ∙ free in
      let waits : lookup object gone.queues ≡ some (take dest resp ∷ queue) =
        ap (λ (st : Standing). lookup object st.queues) stands ∙ head in
      let shipped : unshipped gone object ≡ false =
        not_shipped gone object cleaned (ap (λ (st : Standing). st.inflight) stands) in
      let end = (run (durable_claim from_slice object) [] s).1 in
      let wins : winner w0 object (Claim.owned v winning) ≡ some v =
        let a : nat_beq v w.id ≡ false = ground arith in
        let b : nat_beq v u64_max ≡ false = ground arith in
        let c : leb (or_zero (lookup object w.owned)) winning ≡ true = rw mine (ground arith) in
        rw (a, b, c) refl in
      let serve = λ (x : Option ℕ).
        (run
          (service_front to_vec from_slice file_len listening log_primary
            (revert_closure (surrender w0 object x) (object ∷ [])) object)
          [] end).0 in
      let (ready, w', tm, e, mem, one) =
        served (record gone { queues = remove object gone.queues }) object dest resp queue end
          none_owned no_marker there in
      let (r, e', what) = admit_decides to_vec from_slice log_primary taker object tm ts s' in
      let (taker', is, got) = taken_blank log_primary taker object tm _ r blank what in
      (
        ready,
        w',
        tm,
        taker',
        ap (λ (p : Option (List ℕ × Worker) × MemInner). p.0)
              (run-quiet (durable_claim from_slice object) _ _ s (Claim.owned v winning) claim)
            ∙ ap serve wins
            ∙ ap (λ (m : Io (List ℕ × Worker)). (run m [] end).0)
                (front gone object dest resp queue waits shipped)
            ∙ e,
        mem,
        one,
        e' ∙ ap some is,
        got ∙ ap some one,
      )
