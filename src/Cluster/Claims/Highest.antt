-- ===== src/Cluster/Claims/Highest.antt =====
-- cluster.rs, `durable_claim`: the claim that it answers is the highest of the checkpoints.
use fafo.Prelude.{
  ℕ, ◌≡◌, refl, sym, ap, subst, ◌∙◌, ◌>>=◌, false, ◌⊎◌, inl, inr, Option, none, some, List, [], ◌∷◌,
  arith, nat_eq, lookup, Bool-cases, Option-cases, some_inj,
}
use fafo.Prelude.Bytes.{Bytes, codes, bytes_eq}
use fafo.Objlog.Io.{run, ret}
use fafo.Objlog.Hoare.{run_quiet-bind}
use fafo.Store as Store
use fafo.Store.{MemInner, effects}
use fafo.Cluster.Claims.{
  Checkpoint, Claim, parse_checkpoint_key, outranks, consider, consider_checkpoint, consider_found,
  claims_of, durable_claim, or_unclaimed,
}

-- No claim of the two is higher than the best one.
abbrev NotBeaten : Claim → Option Claim → Type 0
NotBeaten d none = ⊥
NotBeaten d (some b) = outranks d b ≡ false

consider-keeps :
    (best : Option Claim) (c d : Claim) → NotBeaten d best → NotBeaten d (consider best c)
unfolding consider outranks
consider-keeps none c d h = elim h [ ]
consider-keeps (some b) c d h = ground arith

consider-covers : (best : Option Claim) (c : Claim) → NotBeaten c (consider best c)
unfolding consider outranks
consider-covers none c = ground arith
consider-covers (some b) c = ground arith

consider-one_of :
    (best : Option Claim) (c : Claim) → (consider best c ≡ best) ⊎ (consider best c ≡ some c)
unfolding consider
consider-one_of none c = inr refl
consider-one_of (some b) c = elim (Bool-cases (outranks c b)) [
  | inl p ↦ rw p (inr refl)
  | inr p ↦ rw p (inl refl)
]

-- How the best claim so far changes: it is beaten by none that it covered before nor by those of
-- `P`, and if it changes it becomes one of these.
abbrev Improves : (Claim → Type 0) → Option Claim → Option Claim → Type 0
Improves P best best' =
    ((d : Claim) → NotBeaten d best → NotBeaten d best')
    × ((d : Claim) → P d → NotBeaten d best')
    × ((best' ≡ best) ⊎ ((c : Claim) × (best' ≡ some c) × P c))

Improves-none :
    (P : Claim → Type 0) (best : Option Claim) → ((d : Claim) → P d → ⊥) → Improves P best best
Improves-none P best h = (λ d n. n, λ d p. elim (h d p) [ ], inl refl)

Improves-consider :
    (P : Claim → Type 0) (best : Option Claim) (c : Claim)
    → P c
    → ((d : Claim) → P d → d ≡ c)
    → Improves P best (consider best c)
Improves-consider P best c p only = (
  λ d. consider-keeps best c d,
  λ d q. subst (λ x. NotBeaten x (consider best c)) (sym (only d q)) (consider-covers best c),
  elim (consider-one_of best c) [ inl e ↦ inl e | inr e ↦ inr (c, e, p) ],
)

Improves-then :
    (P Q R : Claim → Type 0) (a b c : Option Claim)
    → ((d : Claim) → R d → P d ⊎ Q d)
    → ((d : Claim) → P d ⊎ Q d → R d)
    → Improves P a b
    → Improves Q b c
    → Improves R a c
Improves-then P Q R a b c split join h k = (
  λ d n. k.0 d (h.0 d n),
  λ d r. elim (split d r) [ inl p ↦ k.0 d (h.1 d p) | inr q ↦ k.1 d q ],
  elim k.2 [
    | inr (x, e, q) ↦ inr (x, e, join x (inr q))
    | inl same ↦ elim h.2 [
      | inl e ↦ inl (same ∙ e)
      | inr (x, e, p) ↦ inr (x, same ∙ e, join x (inl p))
    ]
  ],
)

Improves-iff :
    (P R : Claim → Type 0) (a b : Option Claim)
    → ((d : Claim) → R d → P d)
    → ((d : Claim) → P d → R d)
    → Improves P a b
    → Improves R a b
Improves-iff P R a b split join h = (
  h.0,
  λ d r. h.1 d (split d r),
  elim h.2 [ inl e ↦ inl e | inr (x, e, p) ↦ inr (x, e, join x p) ],
)

-- What one worker's checkpoint says of the object.
abbrev OwnedBy : Bytes → ℕ → Checkpoint → Claim → Type 0
OwnedBy object w cp d = (g : ℕ) × (lookup object cp.owned ≡ some g) × (d ≡ Claim.owned w g)

abbrev GivenBy : Bytes → Checkpoint → Claim → Type 0
GivenBy object cp d =
    (x : ℕ × ℕ) × (lookup object cp.transit ≡ some x) × (d ≡ Claim.transit x.0 x.1)

checkpoint-Improves :
    (object : Bytes) (w : ℕ) (cp : Checkpoint) (best : Option Claim)
    → Improves
        (λ d. OwnedBy object w cp d ⊎ GivenBy object cp d)
        best
        (consider_checkpoint object w cp best)
unfolding consider_checkpoint
checkpoint-Improves object w cp best =
    Improves-then (OwnedBy object w cp) (GivenBy object cp) _ best _ _ (λ d r. r) (λ d r. r)
      (of_owned (lookup object cp.owned) refl) (of_transit _ (lookup object cp.transit) refl)
  where
    of_owned :
        (o : Option ℕ)
        → lookup object cp.owned ≡ o
        → Improves
            (OwnedBy object w cp)
            best
            (elim o [ none ↦ best | some g ↦ consider best (Claim.owned w g) ])
    of_owned none e = Improves-none _ best (λ d p. cc (e, p.1))
    of_owned (some g) e =
        Improves-consider _ best (Claim.owned w g) (g, e, refl)
          (λ d p. p.2 ∙ ap (Claim.owned w) (some_inj (sym p.1 ∙ e)))

    of_transit :
        (b : Option Claim) (o : Option (ℕ × ℕ))
        → lookup object cp.transit ≡ o
        → Improves
            (GivenBy object cp)
            b
            (elim o [ none ↦ b | some (to, g) ↦ consider b (Claim.transit to g) ])
    of_transit b none e = Improves-none _ b (λ d p. cc (e, p.1))
    of_transit b (some (to, g)) e =
        Improves-consider _ b (Claim.transit to g) ((to, g), e, refl)
          (λ d p. p.2 ∙ ap (λ (x : ℕ × ℕ). Claim.transit x.0 x.1) (some_inj (sym p.1 ∙ e)))

module _ (from_slice : Bytes → Option Checkpoint) (s : MemInner) (object : Bytes) where
  -- The checkpoint under a key of the store, with the worker that the key names.
  abbrev pub checkpoint_at : Bytes → Option (ℕ × Checkpoint)
  checkpoint_at key = do
    w ← parse_checkpoint_key key
    bytes ← Store.get s key
    cp ← from_slice bytes
    some (w, cp)

  -- Some checkpoint of the list makes the claim.
  abbrev pub ClaimedIn : List Bytes → Claim → Type 0
  ClaimedIn [] d = ⊥
  ClaimedIn (key ∷ keys) d =
      ((w : ℕ) × (cp : Checkpoint) × (checkpoint_at key ≡ some (w, cp))
        × (OwnedBy object w cp d ⊎ GivenBy object cp d))
      ⊎ ClaimedIn keys d

  -- One key of the loop.
  key-Improves :
      (key : Bytes) (w : ℕ) (best : Option Claim)
      → parse_checkpoint_key key ≡ some w
      → Improves
          (λ d. ClaimedIn (key ∷ []) d)
          best
          (consider_found from_slice object w best (some (Store.get s key)))
  unfolding consider_found
  key-Improves key w best parsed = at_blob (Store.get s key) refl
    where
      at_blob :
          (o : Option Bytes)
          → Store.get s key ≡ o
          → Improves
              (λ d. ClaimedIn (key ∷ []) d)
              best
              (consider_found from_slice object w best (some o))
      at_blob none e =
          Improves-none _ best (λ d r. elim r [ inl p ↦ cc (rw (parsed, e) at p.2) | inr n ↦ n ])
      at_blob (some bytes) e = at_checkpoint (from_slice bytes) refl
        where
          at_checkpoint :
              (o : Option Checkpoint)
              → from_slice bytes ≡ o
              → Improves
                  (λ d. ClaimedIn (key ∷ []) d)
                  best
                  (elim o [ none ↦ best | some cp ↦ consider_checkpoint object w cp best ])
          at_checkpoint none q =
              Improves-none _ best
                (λ d r. elim r [ inl p ↦ cc (rw (parsed, e, q) at p.2) | inr n ↦ n ])
          at_checkpoint (some cp) q =
              Improves-iff _ _ best _
                (λ d r. elim r [
                  | inl p ↦
                      subst
                        (λ (x : ℕ × Checkpoint). OwnedBy object x.0 x.1 d ⊎ GivenBy object x.1 d)
                        (sym (some_inj (rw (parsed, e, q) at p.2))) p.3
                  | inr n ↦ elim n [ ]
                ])
                (λ d r. inl (w, cp, rw (parsed, e, q) refl, r))
                (checkpoint-Improves object w cp best)

  claims_of-Improves :
      (keys : List Bytes) (best : Option Claim)
      → (best' : Option Claim) × (run (claims_of from_slice object keys best) [] s
          ≡ (some best', s))
        × Improves (ClaimedIn keys) best best'
  unfolding claims_of run effects
  claims_of-Improves [] best = (best, refl, Improves-none _ best (λ d n. n))
  claims_of-Improves (key ∷ keys) best = elim (Option-cases (parse_checkpoint_key key)) [
    | inl n ↦
        let (best', e, i) = claims_of-Improves keys best in
        (
          best',
          rw (n, claims_of) e,
          Improves-iff _ _ best best' (λ d r. elim r [ inl p ↦ cc (rw n at p.2) | inr k ↦ k ])
              (λ d r. inr r) i,
        )
    | inr (w, p) ↦
        let (best', e, i) =
          claims_of-Improves keys
            (consider_found from_slice object w best (some (Store.get s key))) in
        (
          best',
          rw (p, claims_of) e,
          Improves-then _ _ _ best _ best' (λ d r. elim r [ inl x ↦ inl (inl x) | inr x ↦ inr x ])
              (λ d r. elim r [ inl (inl x) ↦ inl x | inl (inr n) ↦ elim n [ ] | inr x ↦ inr x ])
              (key-Improves key w best p) i,
        )
  ]

  -- With the store quiet and sound, `durable_claim` leaves the store alone and answers a claim that
  -- none of the listed checkpoints outranks; and it is one of theirs, or they make none.
  pub durable_claim_highest :
      (c : Claim) × (run (durable_claim from_slice object) [] s ≡ (some c, s))
      × ((d : Claim) → ClaimedIn (Store.list s (codes "_worker/")) d → outranks d c ≡ false)
      × (ClaimedIn (Store.list s (codes "_worker/")) c
          ⊎ ((c ≡ Claim.unclaimed)
              × ((d : Claim) → ClaimedIn (Store.list s (codes "_worker/")) d → ⊥)))
  unfolding durable_claim run effects
  durable_claim_highest =
      let keys = Store.list s (codes "_worker/") in
      let (best', e, i) = claims_of-Improves keys none in
      let ran =
        run_quiet-bind (claims_of from_slice object keys none)
          (λ best. ret (or_unclaimed from_slice best)) s e in
      settled best' i ran
    where
      keys : List Bytes
      keys = Store.list s (codes "_worker/")

      settled :
          (best' : Option Claim)
          → Improves (ClaimedIn keys) none best'
          → run (durable_claim from_slice object) [] s ≡ (some (or_unclaimed from_slice best'), s)
          → (c : Claim) × (run (durable_claim from_slice object) [] s ≡ (some c, s))
            × ((d : Claim) → ClaimedIn keys d → outranks d c ≡ false)
            × (ClaimedIn keys c ⊎ ((c ≡ Claim.unclaimed) × ((d : Claim) → ClaimedIn keys d → ⊥)))
      settled none i ran = (Claim.unclaimed, ran, λ d k. elim (i.1 d k) [ ], inr (refl, i.1))
      settled (some c) i ran = (
        c,
        ran,
        i.1,
        inl (elim i.2 [
          | inl e ↦ absurd (ground arith)
          | inr (x, e, k) ↦ subst (ClaimedIn keys) (sym (some_inj e)) k
        ]),
      )
