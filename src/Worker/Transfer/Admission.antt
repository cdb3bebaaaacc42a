-- ===== src/Worker/Transfer/Admission.antt =====
-- worker.rs, which deeds `admit` takes and what it makes of the claims of the worker.
use fafo.Prelude.{
  ℕ, ◌≡◌, refl, sym, subst, some_inj, ap, ◌∙◌, Bool, true, false, not, ◌&&◌, ◌⊎◌, inl, inr, Option,
  none, some, List, [], ◌∷◌, arith, if◌then◌else◌, Map, lookup, insert, remove, lookup-insert,
  lookup-remove, Bool-cases, Option-cases,
}
use fafo.Prelude.Bytes.{Bytes, bytes_eq, bytes_beq}
use fafo.Store.{MemInner, is_some}
use fafo.Objlog.Io.{
  Io, ret, fail, get, list, create, delete, put, get_range, run, later, Schedule, ◌>>=◌, attempt,
}
use fafo.Objlog.Yields.{Yields, Anything, Yields-bind, Yields-weaken, attempt-Yields, run-Yields}
use fafo.Objlog.Protocol.{committed_seq}
use fafo.Cluster.Claims.{
  Checkpoint, Claim, durable_claim, claims_of, consider_found, parse_checkpoint_key,
}
use fafo.Worker.State.{Worker, TransferMeta}
use fafo.Worker.Transfer.{
  known, stale, names, route, checkpoint, refresh, settle, accept, reconcile, admit, admitted_meta,
}

-- The worker claims the object at the deed's generation, with no marker left, and claims the rest as
-- before.
abbrev pub Holds : Worker → Bytes → ℕ → Worker → Type 0
Holds w object g w' =
    (o : Bytes)
    → (lookup o w'.owned ≡ (if bytes_beq object o then some g else lookup o w.owned))
      × (lookup o w'.transit ≡ (if bytes_beq object o then none else lookup o w.transit))

-- What the durable ledger told names the worker at the generation.
abbrev pub Named : Option Claim → ℕ → ℕ → Type 0
Named claim id g = (claim ≡ some (Claim.owned id g)) ⊎ (claim ≡ some (Claim.transit id g))

-- What `admit` answers, where `claim` is what it was told when it read the durable claim: the deed is
-- newer than all that is known, or the mode is that of the primary log, the worker does not own the
-- object, and the claim names the worker at the deed's generation; then the worker holds the object.
-- Else the deed is stale, nothing changes, and one of these three does not hold.
abbrev pub Admitted : Bool → Worker → Bytes → TransferMeta → Option Claim → Bool × Worker → Type 0
Admitted log_primary w object tm claim (true, w') =
    Holds w object tm.generation w'
    × ((stale (known w object) tm.generation ≡ false)
        ⊎ ((log_primary ≡ true) × (lookup object w.owned ≡ none) × Named claim w.id tm.generation))
Admitted log_primary w object tm claim (false, w') =
    (w' ≡ w)
    × (stale (known w object) tm.generation ≡ true)
    × ((log_primary && not (is_some (lookup object w.owned)) ≡ false)
        ⊎ ¬ Named claim w.id tm.generation)

-- Two workers claim the same.
abbrev SameMaps : Worker → Worker → Type 0
SameMaps w w' = (w'.owned ≡ w.owned) × (w'.transit ≡ w.transit)

claims_of-Yields :
    (from_slice : Bytes → Option Checkpoint) (object : Bytes) (keys : List Bytes)
    (best : Option Claim)
    → Yields Anything (claims_of from_slice object keys best)
unfolding claims_of parse_checkpoint_key
claims_of-Yields from_slice object [] best = tt
claims_of-Yields from_slice object (key ∷ keys) best =
    elim (Option-cases (parse_checkpoint_key key)) [
      | inl n ↦ rw n (claims_of-Yields from_slice object keys best)
      | inr (w, e) ↦ rw e (λ found.
          claims_of-Yields from_slice object keys (consider_found from_slice object w best found))
    ]

pub durable_claim-Yields :
    (from_slice : Bytes → Option Checkpoint) (object : Bytes)
    → Yields Anything (durable_claim from_slice object)
unfolding durable_claim
durable_claim-Yields from_slice object none = tt
durable_claim-Yields from_slice object (some keys) =
    Yields-bind Anything Anything (claims_of from_slice object keys none) _
      (claims_of-Yields from_slice object keys none) (λ a h. tt)

none_of {ℓ} : {A : Type ℓ} (o : Option A) → is_some o ≡ false → o ≡ none
none_of none e = refl
none_of (some a) e = cc

left_of : (a b : Bool) → a && not b ≡ true → a ≡ true
left_of true b e = refl
left_of false b e = e

right_of : (a b : Bool) → a && not b ≡ true → b ≡ false
right_of a true e = ground arith
right_of a false e = refl

names-Named : (claim : Claim) (id g : ℕ) → names claim id g ≡ true → Named (some claim) id g
names-Named (Claim.owned v h) id g y =
    let a : v ≡ id = ground arith in let b : h ≡ g = ground arith in inl cc
names-Named (Claim.transit v h) id g y =
    let a : v ≡ id = ground arith in let b : h ≡ g = ground arith in inr cc
names-Named Claim.unclaimed id g y = absurd (ground arith)

Named-self : (claim : Claim) (id g : ℕ) → Named (some claim) id g → names claim id g ≡ true
Named-self claim id g (inl e) = ap (λ c. names c id g) (some_inj e) ∙ ground arith
Named-self claim id g (inr e) = ap (λ c. names c id g) (some_inj e) ∙ ground arith

not-Named : (claim : Claim) (id g : ℕ) → names claim id g ≡ false → ¬ Named (some claim) id g
not-Named claim id g n h = let y = Named-self claim id g h in cc

-- A run of a program that always returns, followed by two others.
run-then :
    {A B C : Type 0} (m : Io A) (f : A → Io B) (g : B → Io C) (ts : Schedule) (s : MemInner)
    → Yields Anything m
    → (a : A) × (ts' : Schedule) × ((run m ts s).0 ≡ some a)
      × (run ((m >>= f) >>= g) ts s ≡ run (f a >>= g) ts' (run m ts s).1)
unfolding run ◌>>=◌
run-then (ret a) f g ts s y = (a, ts, refl, refl)
run-then fail f g ts s y = absurd y
run-then (get k h) f g ts s y = run-then (h _) f g (later ts) _ (y _)
run-then (list k h) f g ts s y = run-then (h _) f g (later ts) _ (y _)
run-then (create k b h) f g ts s y = run-then (h _) f g (later ts) _ (y _)
run-then (delete k h) f g ts s y = run-then (h _) f g (later ts) _ (y _)
run-then (put k b h) f g ts s y = run-then (h _) f g (later ts) _ (y _)
run-then (get_range k n l h) f g ts s y = run-then (h _) f g (later ts) _ (y _)

none_twice {ℓ} :
    {A : Type ℓ} (c : Bool) (o : Option A)
    → (if c then none else (if c then none else o)) ≡ (if c then none else o)
none_twice true o = refl
none_twice false o = refl

-- The claims after the acceptance, whichever marker was dropped before.
holds :
    (w w' : Worker) (object : Bytes) (g : ℕ)
    → w'.owned ≡ insert object g w.owned
    → (t : Map Bytes (ℕ × ℕ)) → (t ≡ w.transit) ⊎ (t ≡ remove object w.transit)
    → w'.transit ≡ remove object t
    → Holds w object g w'
holds w w' object g p t q r = λ o. (
  rw (p, lookup-insert object o g w.owned) refl,
  elim q [
    | inl same ↦ rw (r, same, lookup-remove object o w.transit) refl
    | inr gone ↦
        rw
          (
            r,
            gone,
            lookup-remove object o (remove object w.transit),
            lookup-remove object o w.transit,
          )
          (none_twice (bytes_beq object o) (lookup o w.transit))
  ],
)

module _ (to_vec : Checkpoint → Bytes) where
  refresh-Yields :
      (log_primary : Bool) (object : Bytes) (w : Worker)
      → Yields (SameMaps w) (refresh to_vec log_primary object w)
  unfolding refresh
  refresh-Yields log_primary object w =
      elim (Bool-cases (log_primary && not (is_some (lookup object w.dirty)))) [
        | inl t ↦ rw t (
            Yields-bind Anything (SameMaps w) (attempt (committed_seq object)) _
              (attempt-Yields (committed_seq object)) (λ a h. (refl, refl)))
        | inr f ↦ rw f (refl, refl)
      ]

  settle-Yields :
      (object : Bytes) (w : Worker)
      → Yields
          (λ w'. (w'.owned ≡ w.owned) × (w'.transit ≡ remove object w.transit))
          (settle to_vec object w)
  unfolding settle route
  settle-Yields object w =
      let w1 = route (record w { transit = remove object w.transit }) object w.id in
      Yields-bind Anything _ (attempt (checkpoint to_vec w1)) _
        (attempt-Yields (checkpoint to_vec w1)) (λ a h. (refl, refl))

  accept-Yields :
      (log_primary : Bool) (w : Worker) (object : Bytes) (tm : TransferMeta)
      → Yields
          (λ w'.
            (w'.owned ≡ insert object tm.generation w.owned)
            × (w'.transit ≡ remove object w.transit))
          (accept to_vec log_primary w object tm)
  unfolding accept
  accept-Yields log_primary w object tm =
      let w1 = record w {
        meta = insert object (admitted_meta w tm) w.meta;
        owned = insert object tm.generation w.owned;
      } in
      Yields-bind (SameMaps w1) _ (refresh to_vec log_primary object w1) (settle to_vec object)
        (refresh-Yields log_primary object w1)
        (λ a h.
          Yields-weaken _ _ (settle to_vec object a)
            (λ w' e. (e.0 ∙ h.0, e.1 ∙ ap (remove object) h.1)) (settle-Yields object a))

  module _ (from_slice : Bytes → Option Checkpoint) where
    -- What the deed meets: it is stale and refused, it is new, or what is known is a phantom.
    abbrev Opened : Bool → Worker → Bytes → ℕ → Option Claim → Option Worker → Type 0
    Opened log_primary w object g claim none =
        (stale (known w object) g ≡ true)
        × ((log_primary && not (is_some (lookup object w.owned)) ≡ false) ⊎ ¬ Named claim w.id g)
    Opened log_primary w object g claim (some w') =
        ((w' ≡ w) × (stale (known w object) g ≡ false))
        ⊎ ((w' ≡ record w { transit = remove object w.transit })
            × (log_primary ≡ true)
            × (lookup object w.owned ≡ none)
            × Named claim w.id g)

    abbrev finish : Bool → Worker → Bytes → TransferMeta → Option Worker → Io (Bool × Worker)
    finish log_primary w object tm good = elim good [
      | none ↦ ret (false, w)
      | some w' ↦ accept to_vec log_primary w' object tm >>= λ w''. ret (true, w'')
    ]

    finish-Yields :
        (log_primary : Bool) (w : Worker) (object : Bytes) (tm : TransferMeta)
        (claim : Option Claim) (good : Option Worker)
        → Opened log_primary w object tm.generation claim good
        → Yields
            (λ r. Admitted log_primary w object tm claim r)
            (finish log_primary w object tm good)
    finish-Yields log_primary w object tm claim none st = (refl, st.0, st.1)
    finish-Yields log_primary w object tm claim (some w') why =
        Yields-bind _ _ (accept to_vec log_primary w' object tm) _
          (accept-Yields log_primary w' object tm)
          (λ w'' e. elim why [
            | inl (same, new) ↦ (
              holds w w'' object tm.generation
                  (e.0 ∙ ap (λ (v : Worker). insert object tm.generation v.owned) same) w'.transit
                  (inl (ap (λ (v : Worker). v.transit) same)) e.1,
              inl new,
            )
            | inr (same, lp, free, named) ↦ (
              holds w w'' object tm.generation
                  (e.0 ∙ ap (λ (v : Worker). insert object tm.generation v.owned) same) w'.transit
                  (inr (ap (λ (v : Worker). v.transit) same)) e.1,
              inr (lp, free, named),
            )
          ])

    -- The result of a run that is known.
    abbrev Decided : Bool → Worker → Bytes → TransferMeta → Schedule → MemInner → Type 0
    Decided log_primary w object tm ts s =
        (r : Bool × Worker) × ((run (admit to_vec from_slice log_primary w object tm) ts s).0
          ≡ some r)
        × Admitted log_primary w object tm (run (durable_claim from_slice object) ts s).0 r

    answered :
        (log_primary : Bool) (w : Worker) (object : Bytes) (tm : TransferMeta) (claim : Claim)
        (ts : Schedule) (s : MemInner)
        → stale (known w object) tm.generation ≡ true
        → log_primary && not (is_some (lookup object w.owned)) ≡ true
        → (r : Bool × Worker) × ((run
              ((if names claim w.id tm.generation
                  then ret (some (record w { transit = remove object w.transit }))
                  else ret none)
                >>= finish log_primary w object tm)
              ts
              s).0
            ≡ some r)
          × Admitted log_primary w object tm (some claim) r
    unfolding ◌>>=◌
    answered log_primary w object tm claim ts s old ask =
        elim (Bool-cases (names claim w.id tm.generation)) [
          | inl y ↦ rw y (
              run-Yields (Admitted log_primary w object tm (some claim)) _
                (finish-Yields log_primary w object tm (some claim)
                  (some (record w { transit = remove object w.transit }))
                  (inr (
                    refl,
                    left_of _ _ ask,
                    none_of _ (right_of _ _ ask),
                    names-Named claim w.id tm.generation y,
                  )))
                ts s)
          | inr n ↦ rw n (
              run-Yields (Admitted log_primary w object tm (some claim)) _
                (finish-Yields log_primary w object tm (some claim) none
                  (old, inr (not-Named claim w.id tm.generation n)))
                ts s)
        ]

    -- A stale deed, when the durable claim is asked.
    asked :
        (log_primary : Bool) (w : Worker) (object : Bytes) (tm : TransferMeta) (ts : Schedule)
        (s : MemInner)
        → stale (known w object) tm.generation ≡ true
        → log_primary && not (is_some (lookup object w.owned)) ≡ true
        → Decided log_primary w object tm ts s
    unfolding admit reconcile ◌>>=◌
    asked log_primary w object tm ts s old ask =
        let g = tm.generation in
        let answer = λ (claim : Claim).
          if names claim w.id g
          then ret (some (record w { transit = remove object w.transit }))
          else ret none in
        let (claim, ts', told, splits) =
          run-then (durable_claim from_slice object) answer (finish log_primary w object tm) ts s
            (durable_claim-Yields from_slice object) in
        let end = (run (durable_claim from_slice object) ts s).1 in
        let (r, e, what) = answered log_primary w object tm claim ts' end old ask in
        rw (old, ask)
          (
            r,
            ap (λ (x : Option (Bool × Worker) × MemInner). x.0) splits ∙ e,
            subst (λ c. Admitted log_primary w object tm c r) (sym told) what,
          )

    pub admit_decides :
        (log_primary : Bool) (w : Worker) (object : Bytes) (tm : TransferMeta) (ts : Schedule)
        (s : MemInner)
        → (r : Bool × Worker) × ((run (admit to_vec from_slice log_primary w object tm) ts s).0
            ≡ some r)
          × Admitted log_primary w object tm (run (durable_claim from_slice object) ts s).0 r
    unfolding admit reconcile ◌>>=◌
    admit_decides log_primary w object tm ts s =
        let claim = (run (durable_claim from_slice object) ts s).0 in
        elim (Bool-cases (stale (known w object) tm.generation)) [
          | inr new ↦ rw new (
              run-Yields (Admitted log_primary w object tm claim) _
                (finish-Yields log_primary w object tm claim (some w) (inl (refl, new))) ts s)
          | inl old ↦ elim (Bool-cases (log_primary && not (is_some (lookup object w.owned)))) [
            | inl ask ↦ asked log_primary w object tm ts s old ask
            | inr idle ↦
                rw (old, idle)
                  (run-Yields (Admitted log_primary w object tm claim) _
                    (finish-Yields log_primary w object tm claim none (old, inl idle)) ts s)
          ]
        ]
