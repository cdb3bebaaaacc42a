-- ===== src/Worker/Revert/Whole.antt =====
-- worker.rs, what `revert_closure` does to the worker.
use fafo.Prelude.{
  ℕ, ◌≡◌, refl, sym, ap, subst, ◌∙◌, true, false, ◌⊎◌, inl, inr, none, List, [], ◌∷◌, arith,
  if◌then◌else◌, Bool-cases, Option-cases, All, Map, lookup, remove, lookup-remove,
}
use mathlib.Core.List.{Memᴰ}
use fafo.Prelude.Bytes.{Bytes, bytes_eq, bytes_beq, bytes_beq_iff}
use fafo.Worker.State.{Worker, AppliedTxn, fail_polls, clean}
use fafo.Worker.Revert.{has, hit, reverted_by, retained, revert_one, revert_all, revert_closure}
use fafo.Worker.Revert.Closed.{Within, Closed, reverted_by-Closed}

-- The state of a reverted object: no connection, nothing dirty; of another: as it was.
abbrev pub Reverted : List Bytes → Worker → Worker → Type 0
Reverted reverted w w' =
    (o : Bytes)
    → (lookup o w'.objects ≡ (if has reverted o then none else lookup o w.objects))
      × (lookup o w'.dirty ≡ (if has reverted o then none else lookup o w.dirty))

pub fail_polls-keeps :
    (w : Worker) (object : Bytes)
    → ((fail_polls w object).objects ≡ w.objects)
      × ((fail_polls w object).dirty ≡ w.dirty)
      × ((fail_polls w object).pending_txns ≡ w.pending_txns)
unfolding fail_polls
fail_polls-keeps w object = elim (Option-cases (lookup object w.polls)) [
  | inl n ↦ rw (n, fail_polls) (refl, refl, refl)
  | inr (list, e) ↦ rw (e, fail_polls) (refl, refl, refl)
]

clean_already :
    (object o : Bytes) (m : Map Bytes ℕ)
    → lookup object m ≡ none
    → lookup o m ≡ (if bytes_beq object o then none else lookup o m)
clean_already object o m n = elim (Bool-cases (bytes_beq object o)) [
  | inl y ↦ rw y (ap (λ x. lookup x m) (sym ((bytes_beq_iff object o).0 y)) ∙ n)
  | inr d ↦ rw d refl
]

pub clean-keeps :
    (w : Worker) (object : Bytes)
    → ((clean w object).objects ≡ w.objects)
      × ((clean w object).pending_txns ≡ w.pending_txns)
      × ((o : Bytes)
          → lookup o (clean w object).dirty
            ≡ (if bytes_beq object o then none else lookup o w.dirty))
unfolding clean
clean-keeps w object = elim (Option-cases (lookup object w.dirty)) [
  | inl n ↦ rw (n, clean) (refl, refl, λ o. clean_already object o w.dirty n)
  | inr (b, e) ↦ rw (e, clean) (refl, refl, λ o. lookup-remove object o w.dirty)
]

beq_sym : (a b : Bytes) → bytes_beq a b ≡ bytes_beq b a
beq_sym a b = ground (arith, bytes_beq_iff a b, bytes_beq_iff b a)

revert_one-Reverted :
    (w : Worker) (object : Bytes)
    → ((o : Bytes)
        → (lookup o (revert_one w object).objects
            ≡ (if bytes_beq o object then none else lookup o w.objects))
          × (lookup o (revert_one w object).dirty
              ≡ (if bytes_beq o object then none else lookup o w.dirty)))
      × ((revert_one w object).pending_txns ≡ w.pending_txns)
unfolding revert_one
revert_one-Reverted w object =
    let (objects, dirty, pending) = fail_polls-keeps w object in
    let w1 = fail_polls w object in
    let w2 = record w1 {
      objects = remove object w1.objects;
      meta = remove object w1.meta;
      manifests = remove object w1.manifests;
      log_seq = remove object w1.log_seq;
    } in
    let (objects', pending', dirty') = clean-keeps w2 object in
    (
      λ o. (
        ap (lookup o) objects'
            ∙ lookup-remove object o w1.objects
            ∙ rw (objects, beq_sym object o) refl,
        dirty' o ∙ rw (dirty, beq_sym object o) refl,
      ),
      pending' ∙ pending,
    )

revert_all-Reverted :
    (w : Worker) (objects : List Bytes)
    → Reverted objects w (revert_all w objects)
      × ((revert_all w objects).pending_txns ≡ w.pending_txns)
unfolding revert_all
revert_all-Reverted w [] = (λ o. (refl, refl), refl)
revert_all-Reverted w (object ∷ objects) =
    let (first, p) = revert_one-Reverted w object in
    let (rest, q) = revert_all-Reverted (revert_one w object) objects in
    (λ o. (ground (arith, (rest o).0, (first o).0), ground (arith, (rest o).1, (first o).1)), q ∙ p)

-- A transaction that was pending: it stays, untouched by the reverts; or all of it is reverted.
abbrev pub Spared : List Bytes → List AppliedTxn → AppliedTxn → Type 0
Spared reverted left t =
    (Memᴰ t left × (hit reverted t.participants ≡ false))
    ⊎ All (λ p. has reverted p ≡ true) t.participants

Spared-more :
    (reverted : List Bytes) (left : List AppliedTxn) (u : AppliedTxn) (ts : List AppliedTxn)
    → All (Spared reverted left) ts
    → All (Spared reverted (u ∷ left)) ts
Spared-more reverted left u [] h = tt
Spared-more reverted left u (t ∷ ts) (inl (m, free), rest) =
    (inl (Memᴰ.tail m, free), Spared-more reverted left u ts rest)
Spared-more reverted left u (t ∷ ts) (inr all, rest) =
    (inr all, Spared-more reverted left u ts rest)

retained-Spared :
    (reverted : List Bytes) (pending : List AppliedTxn)
    → Closed reverted pending
    → All (Spared reverted (retained reverted pending)) pending
unfolding retained
retained-Spared reverted [] h = tt
retained-Spared reverted (t ∷ ts) (whole, h) = elim (Bool-cases (hit reverted t.participants)) [
  | inl y ↦
      let gone : retained reverted (t ∷ ts) ≡ retained reverted ts = rw y refl in
      subst (λ left. All (Spared reverted left) (t ∷ ts)) (sym gone)
        (inr (whole y), retained-Spared reverted ts h)
  | inr n ↦
      let stays : retained reverted (t ∷ ts) ≡ t ∷ retained reverted ts = rw n refl in
      subst (λ left. All (Spared reverted left) (t ∷ ts)) (sym stays)
        (
          inl (Memᴰ.head refl, n),
          Spared-more reverted (retained reverted ts) t ts (retained-Spared reverted ts h),
        )
]

-- A boat's objects are reverted, with a set of objects that tears no transaction: a pending
-- transaction either stays and has no participant in the set, or all its participants are in it.
-- Objects in the set end with no connection and nothing dirty, and all others are as they were.
pub revert_closure-whole :
    (w : Worker) (seed : List Bytes)
    → let w' = revert_closure w seed in
      let reverted = reverted_by w.pending_txns seed in
      Within seed reverted
      × All (Spared reverted w'.pending_txns) w.pending_txns
      × Reverted reverted w w'
unfolding revert_closure
revert_closure-whole w seed =
    let reverted = reverted_by w.pending_txns seed in
    let (into, closed) = reverted_by-Closed w.pending_txns seed in
    let (state, pending) = revert_all-Reverted _ reverted in
    (into, rw pending (retained-Spared reverted w.pending_txns closed), state)
