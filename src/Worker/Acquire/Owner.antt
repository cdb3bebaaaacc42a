-- ===== src/Worker/Acquire/Owner.antt =====
-- worker.rs, that `advance` leads the routing map back to what the worker owns.
use fafo.Prelude.{
  ℕ, ◌≡◌, refl, sym, ap, ◌∙◌, true, nat_beq, nat_beq_iff, Bool-cases, Option-cases, inl, inr,
  lookup, insert, lookup-insert,
}
use fafo.Prelude.Bytes.{Bytes, bytes_eq, bytes_beq_refl}
use fafo.Store.{is_some}
use fafo.Routing.Placement.{owner_of}
use fafo.Worker.State.{Worker}
use fafo.Worker.Acquire.{reconcile_owner, with_exceptions}

owner_of-insert :
    (w : Worker) (object : Bytes) (v : ℕ)
    → owner_of (with_exceptions w (insert object v w.routing.exceptions)).routing object ≡ v
unfolding owner_of
owner_of-insert w object v =
    rw (lookup-insert object object v w.routing.exceptions, bytes_beq_refl object) refl

-- Whether the worker acts as the owner of an object and whether the routing map then names it are
-- the same, whatever the map named before; a worker that has the object in `owned` acts as its owner.
pub reconcile_owner-agrees :
    (w : Worker) (object : Bytes)
    → let r = reconcile_owner w object in
      (r.0 ≡ nat_beq (owner_of r.1.routing object) w.id)
      × (is_some (lookup object w.owned) ≡ true → r.0 ≡ true)
unfolding reconcile_owner
reconcile_owner-agrees w object = elim (Bool-cases (is_some (lookup object w.owned))) [
  | inl mine ↦ elim (Bool-cases (nat_beq (owner_of w.routing object) w.id)) [
    | inl here ↦ rw (mine, here) (sym here, λ e. refl)
    | inr away ↦
        rw (mine, away)
          (
            sym (
                ap (λ v. nat_beq v w.id) (owner_of-insert w object w.id)
                ∙ (nat_beq_iff w.id w.id).1 refl),
            λ e. refl,
          )
  ]
  | inr not_mine ↦ elim (Option-cases (lookup object w.routing.exceptions)) [
    | inl n ↦ rw (not_mine, n) (refl, λ e. cc)
    | inr (v, e) ↦ elim (Bool-cases (nat_beq v w.id)) [
      | inl self ↦ rw (not_mine, e, self) (refl, λ e. cc)
      | inr other ↦ rw (not_mine, e, other) (refl, λ e. cc)
    ]
  ]
]
