-- ===== src/Worker/Components/Groups.antt =====
-- worker.rs, that `txn_components` gives a partition of the pending transactions, by which of them
-- are linked.
use fafo.Prelude.{
  ℕ, zero, suc, ◌+◌, ◌-◌, ◌≤◌, ◌<◌, ◌≡◌, refl, sym, ap, subst, ◌∙◌, ◌↔◌, ◌⊎◌, none, some, List, [],
  ◌∷◌, ◌++◌, arith, nat_eq, nat_beq, some_inj, Bool-cases, inl, inr, if◌then◌else◌, length,
  length-append, get_elem?, Map, lookup, insert, lookup-insert, Option-cases,
}
use mathlib.Core.List.{Memᴰ}
use fafo.Worker.State.{AppliedTxn}
use fafo.Worker.Components.{
  find, Grouping, push_at, place, group, txn_components, indices, find_fuel, link_txns,
}
use fafo.Worker.Components.Forest.{IsForest, find_lem}
use fafo.Worker.Components.Links.{Linked}
use fafo.Worker.Components.Joined.{Joined, link_txns-Joined}

-- The component at a slot has the transaction.
abbrev pub Stands : List (List ℕ) → ℕ → ℕ → Type 0
Stands components slot k = (c : List ℕ) × (get_elem? components slot ≡ some c) × Memᴰ k c

mem-snoc : {A : Type 0} (xs : List A) (y x : A) → Memᴰ x (xs ++ y ∷ []) → Memᴰ x xs ⊎ (x ≡ y)
mem-snoc [] y x (Memᴰ.head e) = inr e
mem-snoc [] y x (Memᴰ.tail m) = elim m [ ]
mem-snoc (z ∷ xs) y x (Memᴰ.head e) = inl (Memᴰ.head e)
mem-snoc (z ∷ xs) y x (Memᴰ.tail m) = elim (mem-snoc xs y x m) [
  | inl h ↦ inl (Memᴰ.tail h)
  | inr e ↦ inr e
]

pub mem_of_left : {A : Type 0} (xs ys : List A) {x : A} → Memᴰ x xs → Memᴰ x (xs ++ ys)
mem_of_left [] ys m = elim m [ ]
mem_of_left (z ∷ xs) ys (Memᴰ.head e) = Memᴰ.head e
mem_of_left (z ∷ xs) ys (Memᴰ.tail m) = Memᴰ.tail (mem_of_left xs ys m)

mem_last : {A : Type 0} (xs : List A) (y : A) → Memᴰ y (xs ++ y ∷ [])
mem_last [] y = Memᴰ.head refl
mem_last (z ∷ xs) y = Memᴰ.tail (mem_last xs y)

length-push_at : (slot i : ℕ) (cs : List (List ℕ)) → length (push_at slot i cs) ≡ length cs
length-push_at slot i [] = refl
length-push_at zero i (c ∷ cs) = refl
length-push_at (suc slot) i (c ∷ cs) = ap suc (length-push_at slot i cs)

-- What is pushed stands in its slot, all else stays, and nothing else comes.
push_at-new :
    (slot i : ℕ) (cs : List (List ℕ)) → slot < length cs → Stands (push_at slot i cs) slot i
push_at-new slot i [] h = elim h [ ]
push_at-new zero i (c ∷ cs) h = (c ++ i ∷ [], refl, mem_last c i)
push_at-new (suc slot) i (c ∷ cs) h = push_at-new slot i cs (omega arith)

push_at-old :
    (slot i : ℕ) (cs : List (List ℕ)) (s k : ℕ) → Stands cs s k → Stands (push_at slot i cs) s k
push_at-old slot i [] s k h = h
push_at-old zero i (c ∷ cs) zero k (d, e, m) =
    (c ++ i ∷ [], refl, mem_of_left c (i ∷ []) (subst (λ z. Memᴰ k z) (sym (some_inj e)) m))
push_at-old zero i (c ∷ cs) (suc s) k h = h
push_at-old (suc slot) i (c ∷ cs) zero k h = h
push_at-old (suc slot) i (c ∷ cs) (suc s) k h = push_at-old slot i cs s k h

push_at-only :
    (slot i : ℕ) (cs : List (List ℕ)) (s k : ℕ)
    → Stands (push_at slot i cs) s k
    → Stands cs s k ⊎ ((s ≡ slot) × (k ≡ i))
push_at-only slot i [] s k h = inl h
push_at-only zero i (c ∷ cs) zero k (d, e, m) =
    elim (mem-snoc c i k (subst (λ z. Memᴰ k z) (sym (some_inj e)) m)) [
      | inl old ↦ inl (c, refl, old)
      | inr new ↦ inr (refl, new)
    ]
push_at-only zero i (c ∷ cs) (suc s) k h = inl h
push_at-only (suc slot) i (c ∷ cs) zero k h = inl h
push_at-only (suc slot) i (c ∷ cs) (suc s) k h = elim (push_at-only slot i cs s k h) [
  | inl old ↦ inl old
  | inr (a, b) ↦ inr (ap suc a, b)
]

mem_nil : (k : ℕ) → Memᴰ k [] → ⊥
mem_nil k m = elim m [ ]

Stands-wider : (cs : List (List ℕ)) (s k : ℕ) → Stands cs s k ↔ Stands (cs ++ [] ∷ []) s k
Stands-wider [] zero k =
    (λ h. cc, λ h. absurd (mem_nil k (subst (λ z. Memᴰ k z) (sym (some_inj h.1)) h.2)))
Stands-wider [] (suc s) k = (λ h. cc, λ h. cc)
Stands-wider (c ∷ cs) zero k = (λ h. h, λ h. h)
Stands-wider (c ∷ cs) (suc s) k = Stands-wider cs s k

-- The transactions below `i` are in the slots of their roots.
record IsGrouping (root : ℕ → ℕ) (i : ℕ) (s : Grouping) : Type 0 where
  slot_in : (r slot : ℕ) → lookup ⦃e = nat_eq⦄ r s.0 ≡ some slot → slot < length s.1
  apart :
      (r q slot : ℕ)
      → lookup ⦃e = nat_eq⦄ r s.0 ≡ some slot
      → lookup ⦃e = nat_eq⦄ q s.0 ≡ some slot
      → r ≡ q
  filed :
      (k : ℕ)
      → k < i
      → (slot : ℕ) × (lookup ⦃e = nat_eq⦄ (root k) s.0 ≡ some slot) × Stands s.1 slot k
  only : (slot k : ℕ) → Stands s.1 slot k → (lookup ⦃e = nat_eq⦄ (root k) s.0 ≡ some slot) × (k < i)

-- A slot that there is takes the next transaction.
old_slot :
    (root : ℕ → ℕ) (i slot : ℕ) (slots : Map ℕ ℕ) (cs : List (List ℕ))
    → IsGrouping root i (slots, cs)
    → lookup ⦃e = nat_eq⦄ (root i) slots ≡ some slot
    → IsGrouping root (suc i) (slots, push_at slot i cs)
old_slot root i slot slots cs g here = record {
  slot_in = λ r s e. omega (arith, g.slot_in r s e, length-push_at slot i cs);
  apart = g.apart;
  filed = λ k lt. elim (Bool-cases (nat_beq k i)) [
    | inl y ↦
        let ki : k ≡ i = ground arith in
        (
          slot,
          subst (λ z. lookup ⦃e = nat_eq⦄ (root z) slots ≡ some slot) (sym ki) here,
          subst (Stands (push_at slot i cs) slot) (sym ki)
              (push_at-new slot i cs (g.slot_in (root i) slot here)),
        )
    | inr n ↦ let (s, e, st) = g.filed k (ground arith) in (s, e, push_at-old slot i cs s k st)
  ];
  only = λ s k st. elim (push_at-only slot i cs s k st) [
    | inl old ↦ let (e, lt) = g.only s k old in (e, omega arith)
    | inr (a, b) ↦ (
      subst (λ z. lookup ⦃e = nat_eq⦄ (root z) slots ≡ some s) (sym b)
          (subst (λ z. lookup ⦃e = nat_eq⦄ (root i) slots ≡ some z) (sym a) here),
      omega arith,
    )
  ];
}

-- A root with no slot gets one, an empty one at the end.
new_slot :
    (root : ℕ → ℕ) (i r : ℕ) (slots : Map ℕ ℕ) (cs : List (List ℕ))
    → IsGrouping root i (slots, cs)
    → lookup ⦃e = nat_eq⦄ r slots ≡ none
    → IsGrouping root i (insert ⦃e = nat_eq⦄ r (length cs) slots, cs ++ [] ∷ [])
new_slot root i r slots cs g none_yet =
    let at : (q : ℕ)
        → lookup ⦃e = nat_eq⦄ q (insert ⦃e = nat_eq⦄ r (length cs) slots)
          ≡ (if nat_beq r q then some (length cs) else lookup ⦃e = nat_eq⦄ q slots) =
      λ q. lookup-insert ⦃e = nat_eq⦄ r q (length cs) slots in
    let long = length-append cs ([] ∷ []) in
    let kept : (q s : ℕ)
        → lookup ⦃e = nat_eq⦄ q slots ≡ some s
        → lookup ⦃e = nat_eq⦄ q (insert ⦃e = nat_eq⦄ r (length cs) slots) ≡ some s =
      λ q s e. elim (Bool-cases (nat_beq r q)) [
        | inl y ↦ let rq : r ≡ q = ground arith in cc (ap (λ z. lookup ⦃e = nat_eq⦄ z slots) rq)
        | inr n ↦ rw (at q) (rw n e)
      ] in
    record {
      slot_in = λ q s e. ground (arith, at q, g.slot_in q s);
      apart = λ q u s e d. ground (arith, at q, at u, g.slot_in q s, g.slot_in u s, g.apart q u s);
      filed = λ k lt.
          let (s, e, st) = g.filed k lt in (s, kept (root k) s e, (Stands-wider cs s k).0 st);
      only = λ s k st.
          let (e, lt) = g.only s k ((Stands-wider cs s k).1 st) in (kept (root k) s e, lt);
    }

place-IsGrouping :
    (root : ℕ → ℕ) (i : ℕ) (s : Grouping)
    → IsGrouping root i s
    → IsGrouping root (suc i) (place (root i) i s)
unfolding place
place-IsGrouping root i (slots, cs) g = elim (Option-cases (lookup ⦃e = nat_eq⦄ (root i) slots)) [
  | inr (slot, here) ↦ rw (here, place) (old_slot root i slot slots cs g here)
  | inl none_yet ↦
      let long : length (cs ++ [] ∷ []) - 1 ≡ length cs =
        omega (arith, length-append cs ([] ∷ [])) in
      rw (none_yet, place)
        (rw long (
          old_slot root i (length cs) (insert ⦃e = nat_eq⦄ (root i) (length cs) slots)
            (cs ++ [] ∷ []) (new_slot root i (root i) slots cs g none_yet)
            (ground (arith, lookup-insert ⦃e = nat_eq⦄ (root i) (root i) (length cs) slots))))
]

group-IsGrouping :
    {size bound : ℕ} {root height : ℕ → ℕ} (fuel i count : ℕ) (p : List ℕ) (s : Grouping)
    → IsForest size bound root height p
    → bound < fuel
    → i + count ≤ size
    → IsGrouping root i s
    → IsGrouping root (i + count) (group fuel p (indices i count) s)
unfolding group
group-IsGrouping {root} fuel i zero p s f enough within g =
    subst (λ z. IsGrouping root z s) (omega arith) g
group-IsGrouping {root} fuel i (suc count) p s f enough within g =
    let found = find_lem fuel p i f (omega arith) (omega (arith, f.low i)) in
    let here = place-IsGrouping root i s g in
    let rest =
      group-IsGrouping fuel (suc i) count (find fuel p i).0 (place (root i) i s) found.0 enough
        (omega arith) here in
    let q = (find fuel p i).0 in
    subst
      (λ r. IsGrouping root (i + suc count) (group fuel q (indices (suc i) count) (place r i s)))
      (sym found.1)
      (subst (λ z. IsGrouping root z (group fuel q (indices (suc i) count) (place (root i) i s)))
        (omega arith) rest)

-- A partition of the indices of the pending transactions: every one stands in a component, no other
-- index does, and two of them stand in the same component exactly when they are linked.
pub record IsPartition (pending : List AppliedTxn) (components : List (List ℕ)) : Type 0 where
  pub every : (k : ℕ) → k < length pending → (slot : ℕ) × Stands components slot k
  pub inside : (slot k : ℕ) → Stands components slot k → k < length pending
  pub together :
      (slot slot' k j : ℕ)
      → Stands components slot k
      → Stands components slot' j
      → (slot ≡ slot') ↔ Linked pending k j

grouped-IsPartition :
    (pending : List AppliedTxn) (p : List ℕ) (j : Joined pending p) (s : Grouping)
    → IsGrouping j.root (length pending) s
    → IsPartition pending s.1
grouped-IsPartition pending p j s g = record {
  every = λ k lt. let (slot, e, st) = g.filed k lt in (slot, st);
  inside = λ slot k st. (g.only slot k st).1;
  together = λ slot slot' k i sk si. (
    λ same. (j.root_iff k i).0 (
        g.apart (j.root k) (j.root i) slot (g.only slot k sk).0 (
          subst (λ z. lookup ⦃e = nat_eq⦄ (j.root i) s.0 ≡ some z) (sym same)
            (g.only slot' i si).0)),
    λ l. some_inj (
        sym (g.only slot k sk).0
        ∙ ap (λ z. lookup ⦃e = nat_eq⦄ z s.0) ((j.root_iff k i).1 l)
        ∙ (g.only slot' i si).0),
  );
}

nothing-IsGrouping : (root : ℕ → ℕ) → IsGrouping root 0 ([], [])
unfolding lookup
nothing-IsGrouping root = record {
  slot_in = λ r s e. cc;
  apart = λ r q s e d. cc;
  filed = λ k lt. elim lt [ ];
  only = λ s k st. cc;
}

-- The components of the pending transactions are a partition of them, in which two stand together
-- exactly when a chain leads from one to the other, of transactions that share an object with the
-- next. The fuel of `find` is always enough.
pub txn_components-IsPartition :
    (pending : List AppliedTxn) → IsPartition pending (txn_components pending)
unfolding txn_components
txn_components-IsPartition pending =
    let n = length pending in
    let p = (link_txns (find_fuel pending) 0 pending (indices 0 n, [])).0 in
    let j = link_txns-Joined pending in
    let s = group (find_fuel pending) p (indices 0 n) ([], []) in
    let all =
      group-IsGrouping (find_fuel pending) 0 n p ([], []) j.forest (omega arith) (omega arith)
        (nothing-IsGrouping j.root) in
    grouped-IsPartition pending p j s (subst (λ z. IsGrouping j.root z s) (omega arith) all)
