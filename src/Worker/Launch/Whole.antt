-- ===== src/Worker/Launch/Whole.antt =====
-- worker.rs, the cut of a boat in `maybe_launch`: it never tears a transaction from another that
-- shares an object with it.
use fafo.Prelude.{
  ℕ, zero, suc, ◌≡◌, ◌<◌, refl, sym, subst, true, false, ◌⊎◌, inl, inr, List, [], ◌∷◌, ◌++◌, arith,
  not, ◌&&◌, ◌+◌, ltb, length, Bool-cases, Map, some_inj,
}
use mathlib.Core.List.{Memᴰ}
use fafo.Prelude.Bytes.{Bytes, bytes_eq}
use fafo.Worker.State.{AppliedTxn}
use fafo.Worker.Revert.{has}
use fafo.Worker.Components.{txn_components}
use fafo.Worker.Components.Links.{Linked, shares, back}
use fafo.Worker.Components.Groups.{Stands, txn_components-IsPartition, mem_of_left}
use fafo.Worker.Launch.{
  extend, participants_at, component_objects, bytes_of, Cut, no_boat, is_empty, cut_one, cut,
}
use fafo.Worker.Launch.Split.{
  mem_append, mem_of_right, has-extend_old, has-extend_new, has-extend_only, component-new,
  component-only, touches_at, has_of_mem, mem_of_has,
}

-- The transaction at the index has been put on the boat or left for the next.
abbrev Placed : Cut → ℕ → Type 0
Placed b i = Memᴰ i b.selected ⊎ Memᴰ i b.leftover

Stands-cases :
    (c : List ℕ) (cs : List (List ℕ)) (s i : ℕ)
    → Stands (c ∷ cs) s i
    → Memᴰ i c ⊎ ((r : ℕ) × Stands cs r i)
Stands-cases c cs zero i (d, e, m) = inl (subst (λ z. Memᴰ i z) (sym (some_inj e)) m)
Stands-cases c cs (suc s) i st = inr (s, st)

-- No two of different components are linked.
abbrev Separate : List AppliedTxn → List (List ℕ) → Type 0
Separate pending cs = (s s' k j : ℕ) → Stands cs s k → Stands cs s' j → Linked pending k j → s ≡ s'

-- The cut on the way, with the components that are still to come.
record IsCut (pending : List AppliedTxn) (cs : List (List ℕ)) (b : Cut) : Type 0 where
  whole : (i j : ℕ) → Memᴰ i b.selected → Memᴰ j b.leftover → Linked pending i j → ⊥
  ahead : (i s j : ℕ) → Placed b i → Stands cs s j → Linked pending i j → ⊥
  aboard :
      (i : ℕ) (o : Bytes)
      → Memᴰ i b.selected
      → Memᴰ o (participants_at pending i)
      → has b.boat_objects o ≡ true
  only :
      (o : Bytes)
      → has b.boat_objects o ≡ true
      → (i : ℕ) × Memᴰ i b.selected × Memᴰ o (participants_at pending i)
  started : (j : ℕ) → Memᴰ j b.leftover → (i : ℕ) × Memᴰ i b.selected

module _ (pending : List AppliedTxn) (dirty : Map Bytes ℕ) (max_boat_bytes : ℕ) where
  abbrev left_one : List ℕ → Cut → Cut
  left_one c b = record b { leftover = b.leftover ++ c }

  abbrev taken_one : List ℕ → Cut → Cut
  taken_one c b =
      let objects = component_objects pending c [] in
      record b {
        selected = b.selected ++ c;
        boat_objects = extend b.boat_objects objects;
        boat_bytes = b.boat_bytes + bytes_of dirty objects;
      }

  first_selected : (b : Cut) → not (is_empty b.selected) ≡ true → (i : ℕ) × Memᴰ i b.selected
  first_selected b h = first b.selected h
    where
      first : (is : List ℕ) → not (is_empty is) ≡ true → (i : ℕ) × Memᴰ i is
      first [] h = cc
      first (i ∷ is) h = (i, Memᴰ.head refl)

  left-IsCut :
      (c : List ℕ) (cs : List (List ℕ)) (b : Cut)
      → Separate pending (c ∷ cs)
      → not (is_empty b.selected) ≡ true
      → IsCut pending (c ∷ cs) b
      → IsCut pending cs (left_one c b)
  left-IsCut c cs b sep busy h = record {
    whole = λ i j mi mj l. elim (mem_append b.leftover c j mj) [
      | inl old ↦ h.whole i j mi old l
      | inr new ↦ h.ahead i 0 j (inl mi) (c, refl, new) l
    ];
    ahead = λ i s j pl st l. elim pl [
      | inl mi ↦ h.ahead i (suc s) j (inl mi) st l
      | inr mi ↦ elim (mem_append b.leftover c i mi) [
        | inl old ↦ h.ahead i (suc s) j (inr old) st l
        | inr new ↦ let e = sep 0 (suc s) i j (c, refl, new) st l in absurd (omega arith)
      ]
    ];
    aboard = h.aboard;
    only = h.only;
    started = λ j m. first_selected b busy;
  }

  taken-IsCut :
      (c : List ℕ) (cs : List (List ℕ)) (b : Cut)
      → Separate pending (c ∷ cs)
      → IsCut pending (c ∷ cs) b
      → IsCut pending cs (taken_one c b)
  taken-IsCut c cs b sep h =
      let objects = component_objects pending c [] in
      record {
        whole = λ i j mi mj l. elim (mem_append b.selected c i mi) [
          | inl old ↦ h.whole i j old mj l
          | inr new ↦ h.ahead j 0 i (inr mj) (c, refl, new) (back l)
        ];
        ahead = λ i s j pl st l. elim pl [
          | inr mi ↦ h.ahead i (suc s) j (inr mi) st l
          | inl mi ↦ elim (mem_append b.selected c i mi) [
            | inl old ↦ h.ahead i (suc s) j (inl old) st l
            | inr new ↦ let e = sep 0 (suc s) i j (c, refl, new) st l in absurd (omega arith)
          ]
        ];
        aboard = λ i o mi mo. elim (mem_append b.selected c i mi) [
          | inl old ↦ has-extend_old b.boat_objects objects o (h.aboard i o old mo)
          | inr new ↦
              has-extend_new b.boat_objects objects o
                (mem_of_has objects o (component-new pending c [] i o new mo))
        ];
        only = λ o y. elim (has-extend_only b.boat_objects objects o y) [
          | inl old ↦ let (i, mi, mo) = h.only o old in (i, mem_of_left b.selected c mi, mo)
          | inr new ↦ elim (component-only pending c [] o (has_of_mem objects o new)) [
            | inl no_way ↦ cc
            | inr (i, mi, mo) ↦ (i, mem_of_right b.selected c mi, mo)
          ]
        ];
        started = λ j m. let (i, mi) = h.started j m in (i, mem_of_left b.selected c mi);
      }

  cut_one-IsCut :
      (c : List ℕ) (cs : List (List ℕ)) (b : Cut)
      → Separate pending (c ∷ cs)
      → IsCut pending (c ∷ cs) b
      → IsCut pending cs (cut_one pending dirty max_boat_bytes c b)
        × ((i : ℕ) → Placed b i ⊎ Memᴰ i c → Placed (cut_one pending dirty max_boat_bytes c b) i)
  unfolding cut_one
  cut_one-IsCut c cs b sep h =
      elim (Bool-cases (
        not (is_empty b.selected)
        && ltb max_boat_bytes (b.boat_bytes + bytes_of dirty (component_objects pending c [])))) [
          | inl full ↦ rw full (
            left-IsCut c cs b sep (ground arith) h,
            λ i p. elim p [
              | inl (inl m) ↦ inl m
              | inl (inr m) ↦ inr (mem_of_left b.leftover c m)
              | inr m ↦ inr (mem_of_right b.leftover c m)
            ],
          )
          | inr room ↦ rw room (
            taken-IsCut c cs b sep h,
            λ i p. elim p [
              | inl (inl m) ↦ inl (mem_of_left b.selected c m)
              | inl (inr m) ↦ inr m
              | inr m ↦ inl (mem_of_right b.selected c m)
            ],
          )
        ]

  cut-IsCut :
      (cs : List (List ℕ)) (b : Cut)
      → Separate pending cs
      → IsCut pending cs b
      → IsCut pending [] (cut pending dirty max_boat_bytes cs b)
        × ((i : ℕ)
            → Placed b i ⊎ ((s : ℕ) × Stands cs s i)
            → Placed (cut pending dirty max_boat_bytes cs b) i)
  unfolding cut
  cut-IsCut [] b sep h = (h, λ i p. elim p [ inl q ↦ q | inr (s, st) ↦ cc ])
  cut-IsCut (c ∷ cs) b sep h =
      let (one, kept) = cut_one-IsCut c cs b sep h in
      let apart : Separate pending cs =
        λ s s' k j st st' l. let e = sep (suc s) (suc s') k j st st' l in omega (arith) in
      let (all, placed) = cut-IsCut cs (cut_one pending dirty max_boat_bytes c b) apart one in
      (
        all,
        λ i p. elim p [
          | inl q ↦ placed i (inl (kept i (inl q)))
          | inr (s, st) ↦ elim (Stands-cases c cs s i st) [
            | inl m ↦ placed i (inl (kept i (inr m)))
            | inr later ↦ placed i (inr later)
          ]
        ],
      )

  nothing-IsCut : (cs : List (List ℕ)) → IsCut pending cs no_boat
  nothing-IsCut cs = record {
    whole = λ i j mi mj l. elim mi [ ];
    ahead = λ i s j pl st l. elim pl [ inl m ↦ elim m [ ] | inr m ↦ elim m [ ] ];
    aboard = λ i o mi mo. elim mi [ ];
    only = λ o y. cc;
    started = λ j m. elim m [ ];
  }

  -- The cut of the pending transactions.
  abbrev pub next_boat : Cut
  next_boat = cut pending dirty max_boat_bytes (txn_components pending) no_boat

  -- A boat: every transaction goes on it or is left, all objects of those that go are on it and no
  -- object of those that are left, and one goes if there is one.
  pub record IsWholeBoat (b : Cut) : Type 0 where
    pub every : (i : ℕ) → i < length pending → Placed b i
    pub aboard :
        (i : ℕ) (o : Bytes)
        → Memᴰ i b.selected
        → Memᴰ o (participants_at pending i)
        → has b.boat_objects o ≡ true
    pub ashore :
        (j : ℕ) (o : Bytes)
        → Memᴰ j b.leftover
        → Memᴰ o (participants_at pending j)
        → has b.boat_objects o ≡ false
    pub sails : 0 < length pending → (i : ℕ) × Memᴰ i b.selected

  -- The boat that is cut out of the pending transactions is whole, whatever the limit on its bytes:
  -- every transaction goes on it or is left for the next, all objects of those that go are on it and
  -- no object of those that are left is, and at least one goes if any is pending.
  pub next_boat-IsWholeBoat : IsWholeBoat next_boat
  next_boat-IsWholeBoat =
      let part = txn_components-IsPartition pending in
      let (c, placed) =
        cut-IsCut (txn_components pending) no_boat
          (λ s s' k j a b l. (part.together s s' k j a b).1 l)
          (nothing-IsCut (txn_components pending)) in
      let every = λ (i : ℕ) (lt : i < length pending). placed i (inr (part.every i lt)) in
      record {
        every = every;
        aboard = c.aboard;
        ashore = λ j o mj mo. elim (Bool-cases (has next_boat.boat_objects o)) [
          | inr n ↦ n
          | inl y ↦
              let (i, mi, mo') = c.only o y in
              absurd (
                c.whole i j mi mj
                  (shares o (touches_at pending i o mo') (touches_at pending j o mo)))
        ];
        sails = λ lt. elim (every 0 lt) [ inl m ↦ (0, m) | inr m ↦ c.started 0 m ];
      }
