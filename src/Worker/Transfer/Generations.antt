-- ===== src/Worker/Transfer/Generations.antt =====
-- worker.rs, what `release` and `admit` do to the claims of a worker, under any schedule of the store.
use fafo.Prelude.{
  ℕ, ◌≡◌, refl, sym, ap, subst, ◌∙◌, ◌⊎◌, inl, inr, Option, none, some, arith, Map, lookup, insert,
  remove, lookup-insert, lookup-remove, Option-cases,
}
use fafo.Prelude.Bytes.{Bytes, bytes_eq, bytes_beq_iff, bytes_beq_refl}
use fafo.Store as Store
use fafo.Store.{MemInner, effects, is_some, or_zero}
use fafo.Store.Versions.{get-put}
use fafo.Objlog.Io.{run, Schedule, next_turn, later}
use fafo.Objlog.Hoare.{run-attempt-put}
use fafo.Cluster.Claims.{Checkpoint}
use fafo.Worker.State.{Worker, TransferMeta, Meta, fail_polls}
use fafo.Worker.Transfer.{
  checkpoint_key, deed, restore, route, renounce, next_generation, hand_over, checkpoint, conclude,
  release, target,
}

abbrev pub claims_view : Worker → Checkpoint
claims_view w = record { owned = w.owned; transit = w.transit }

-- Two workers claim the same.
abbrev pub SameClaims : Worker → Worker → Type 0
SameClaims w w' =
    (o : Bytes)
    → (lookup o w'.owned ≡ lookup o w.owned) × (lookup o w'.transit ≡ lookup o w.transit)

pub fail_polls-claims :
    (w : Worker) (object : Bytes) → claims_view (fail_polls w object) ≡ claims_view w
unfolding fail_polls
fail_polls-claims w object = elim (Option-cases (lookup object w.polls)) [
  | inl n ↦ rw (n, fail_polls) refl
  | inr (list, e) ↦ rw (e, fail_polls) refl
]

hand_over-claims :
    (file_len : Bytes → Option ℕ) (w : Worker) (object : Bytes) (to : Option ℕ) (g : ℕ)
    → claims_view (hand_over file_len w object to g).1 ≡ claims_view w
unfolding hand_over route
hand_over-claims file_len w object none g = fail_polls-claims w object
hand_over-claims file_len w object (some to) g = fail_polls-claims w object

deed-generation : (w : Worker) (g : ℕ) (m : Option Meta) → (deed w g m).generation ≡ g
unfolding deed
deed-generation w g none = refl
deed-generation w g (some m) = refl

pub hand_over-generation :
    (file_len : Bytes → Option ℕ) (w : Worker) (object : Bytes) (to : Option ℕ) (g : ℕ)
    → (hand_over file_len w object to g).0.generation ≡ g
unfolding hand_over
hand_over-generation file_len w object to g = deed-generation w g (lookup object w.meta)

restore-remove {ℓ} :
    {A : Type ℓ} (object o : Bytes) (m : Map Bytes A)
    → lookup o (restore object (lookup object m) (remove object m)) ≡ lookup o m
restore-remove object o m = elim (Option-cases (lookup object m)) [
  | inl n ↦ rw n (
      ground (
        arith,
        lookup-remove object o (remove object m),
        lookup-remove object o m,
        bytes_beq_iff object o,
      ))
  | inr (a, e) ↦ rw e (
      ground (
        arith,
        lookup-insert object o a (remove object m),
        lookup-remove object o m,
        bytes_beq_iff object o,
      ))
]

restore-insert {ℓ} :
    {A : Type ℓ} (object o : Bytes) (x : A) (m : Map Bytes A)
    → lookup o (restore object (lookup object m) (insert object x m)) ≡ lookup o m
restore-insert object o x m = elim (Option-cases (lookup object m)) [
  | inl n ↦ rw n (
      ground (
        arith,
        lookup-remove object o (insert object x m),
        lookup-insert object o x m,
        bytes_beq_iff object o,
      ))
  | inr (a, e) ↦ rw e (
      ground (
        arith,
        lookup-insert object o a (insert object x m),
        lookup-insert object o x m,
        bytes_beq_iff object o,
      ))
]

module _ (to_vec : Checkpoint → Bytes) (file_len : Bytes → Option ℕ) where
  -- A deed was cut: it has the next generation, and the worker has renounced, in memory and durably.
  abbrev pub Renounced :
      Worker → Bytes → ℕ → Option (Option TransferMeta × Worker) × MemInner → Type 0
  Renounced w object dest r =
      (tm : TransferMeta) × (w' : Worker) × (r.0 ≡ some (some tm, w'))
      × (tm.generation ≡ next_generation w object)
      × (w'.owned ≡ remove object w.owned)
      × (w'.transit ≡ insert object (dest, next_generation w object) w.transit)
      × (Store.get r.1 (checkpoint_key w.id) ≡ some (to_vec (claims_view w')))

  -- No deed was cut: the worker claims what it claimed.
  abbrev pub Kept : Worker → Option (Option TransferMeta × Worker) × MemInner → Type 0
  Kept w r = (w' : Worker) × (r.0 ≡ some (none, w')) × SameClaims w w'

  written : (s : MemInner) (k v : Bytes) → Store.get (Store.put s k v) k ≡ some v
  written s k v = rw (get-put s k k v, bytes_beq_refl k) refl

  renounced :
      (w : Worker) (object : Bytes) (new_owner : Option ℕ) (dest : ℕ) (ts : Schedule) (s : MemInner)
      → let w1 = renounce w object dest (next_generation w object) in
        Renounced w object dest (
          run
            (conclude to_vec file_len w w1 object new_owner (next_generation w object) (some tt))
            ts
            (Store.put s (checkpoint_key w.id) (to_vec (claims_view w1))))
  unfolding conclude run renounce
  renounced w object new_owner dest ts s =
      let g = next_generation w object in
      let w1 = renounce w object dest g in
      let r = hand_over file_len w1 object new_owner g in
      let same = hand_over-claims file_len w1 object new_owner g in
      (
        r.0,
        r.1,
        refl,
        hand_over-generation file_len w1 object new_owner g,
        ap (λ (c : Checkpoint). c.owned) same,
        ap (λ (c : Checkpoint). c.transit) same,
        written s (checkpoint_key w.id) (to_vec (claims_view w1))
            ∙ ap (λ c. some (to_vec c)) (sym same),
      )

  kept :
      (w : Worker) (object : Bytes) (new_owner : Option ℕ) (dest g : ℕ) (ts : Schedule)
      (s : MemInner)
      → let w1 = renounce w object dest g in
        Kept w (run (conclude to_vec file_len w w1 object new_owner g none) ts s)
  unfolding conclude run renounce
  kept w object new_owner dest g ts s =
      (_, refl, λ o. (restore-remove object o w.owned, restore-insert object o (dest, g) w.transit))

  -- `release` always returns, whatever the store does: either with a deed of the next generation,
  -- after a checkpoint that holds its claims without the object and with the marker of the handoff
  -- is in the store; or with no deed, and then its claims are what they were.
  pub release_renounces :
      (w : Worker) (object : Bytes) (new_owner : Option ℕ) (ts : Schedule) (s : MemInner)
      → let r = run (release to_vec file_len w object new_owner) ts s in
        Renounced w object (target w new_owner) r ⊎ Kept w r
  unfolding release checkpoint
  release_renounces w object new_owner ts s =
      let g = next_generation w object in
      let dest = target w new_owner in
      let w1 = renounce w object dest g in
      let key = checkpoint_key w1.id in
      let s1 = effects s (next_turn ts).before in
      let finish = conclude to_vec file_len w w1 object new_owner g in
      let goal = λ (r : Option (Option TransferMeta × Worker) × MemInner).
        Renounced w object dest r ⊎ Kept w r in
      elim (run-attempt-put key (to_vec (claims_view w1)) finish ts s) [
        | inl e ↦ subst goal (sym e) (inl (renounced w object new_owner dest (later ts) s1))
        | inr (inl e) ↦ subst goal (sym e) (inr (kept w object new_owner dest g (later ts) s1))
        | inr (inr e) ↦ subst goal (sym e) (
            inr (
              kept w object new_owner dest g (later ts)
                (Store.put s1 key (to_vec (claims_view w1)))))
      ]
