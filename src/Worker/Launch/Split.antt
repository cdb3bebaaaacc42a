-- ===== src/Worker/Launch/Split.antt =====
-- worker.rs, the sets of objects in `maybe_launch`.
use fafo.Prelude.{
  ℕ, zero, suc, ◌≡◌, refl, ap, subst, true, ◌⊎◌, inl, inr, List, [], ◌∷◌, ◌++◌, arith, Bool-cases,
  if◌then◌else◌,
}
use mathlib.Core.List.{Memᴰ}
use fafo.Prelude.Bytes.{Bytes, bytes_eq, bytes_beq}
use fafo.Worker.State.{AppliedTxn}
use fafo.Worker.Revert.{has}
use fafo.Worker.Components.Links.{Touches}
use fafo.Worker.Launch.{extend, participants_at, component_objects}

pub mem_append : {A : Type 0} (xs ys : List A) (x : A) → Memᴰ x (xs ++ ys) → Memᴰ x xs ⊎ Memᴰ x ys
mem_append [] ys x m = inr m
mem_append (y ∷ xs) ys x (Memᴰ.head e) = inl (Memᴰ.head e)
mem_append (y ∷ xs) ys x (Memᴰ.tail m) = elim (mem_append xs ys x m) [
  | inl h ↦ inl (Memᴰ.tail h)
  | inr h ↦ inr h
]

pub mem_of_right : {A : Type 0} (xs ys : List A) {x : A} → Memᴰ x ys → Memᴰ x (xs ++ ys)
mem_of_right [] ys m = m
mem_of_right (y ∷ xs) ys m = Memᴰ.tail (mem_of_right xs ys m)

-- A set after `extend` has what it had and what was added, and nothing else.
pub has-extend_old :
    (set objects : List Bytes) (o : Bytes) → has set o ≡ true → has (extend set objects) o ≡ true
unfolding extend
has-extend_old set [] o h = h
has-extend_old set (p ∷ objects) o h =
    has-extend_old (if has set p then set else p ∷ set) objects o (ground arith)

pub has-extend_new :
    (set objects : List Bytes) (o : Bytes) → Memᴰ o objects → has (extend set objects) o ≡ true
unfolding extend
has-extend_new set [] o m = elim m [ ]
has-extend_new set (p ∷ objects) o (Memᴰ.head e) =
    has-extend_old (if has set p then set else p ∷ set) objects o
      (ground (arith, ap (has set) e, bytes_eq.eqb_iff o p))
has-extend_new set (p ∷ objects) o (Memᴰ.tail m) =
    has-extend_new (if has set p then set else p ∷ set) objects o m

pub has-extend_only :
    (set objects : List Bytes) (o : Bytes)
    → has (extend set objects) o ≡ true
    → (has set o ≡ true) ⊎ Memᴰ o objects
unfolding extend
has-extend_only set [] o h = inl h
has-extend_only set (p ∷ objects) o h =
    elim (has-extend_only (if has set p then set else p ∷ set) objects o h) [
      | inr m ↦ inr (Memᴰ.tail m)
      | inl old ↦ elim (Bool-cases (has set p)) [
        | inl y ↦ inl (ground arith)
        | inr n ↦ elim (Bool-cases (bytes_beq o p)) [
          | inl e ↦ inr (Memᴰ.head ((bytes_eq.eqb_iff o p).0 e))
          | inr d ↦ inl (ground arith)
        ]
      ]
    ]

pub mem_of_has : (set : List Bytes) (o : Bytes) → has set o ≡ true → Memᴰ o set
mem_of_has [] o h = absurd (ground arith)
mem_of_has (p ∷ set) o h = elim (Bool-cases (bytes_beq o p)) [
  | inl e ↦ Memᴰ.head ((bytes_eq.eqb_iff o p).0 e)
  | inr d ↦ Memᴰ.tail (mem_of_has set o (ground arith))
]

pub has_of_mem : (set : List Bytes) (o : Bytes) → Memᴰ o set → has set o ≡ true
has_of_mem [] o m = elim m [ ]
has_of_mem (p ∷ set) o (Memᴰ.head e) = ground (arith, bytes_eq.eqb_iff o p)
has_of_mem (p ∷ set) o (Memᴰ.tail m) = ground (arith, has_of_mem set o m)

-- The objects of a component are those of its transactions.
component-old :
    (pending : List AppliedTxn) (is : List ℕ) (set : List Bytes) (o : Bytes)
    → has set o ≡ true
    → has (component_objects pending is set) o ≡ true
unfolding component_objects
component-old pending [] set o h = h
component-old pending (i ∷ is) set o h =
    component-old pending is (extend set (participants_at pending i)) o
      (has-extend_old set (participants_at pending i) o h)

pub component-new :
    (pending : List AppliedTxn) (is : List ℕ) (set : List Bytes) (i : ℕ) (o : Bytes)
    → Memᴰ i is
    → Memᴰ o (participants_at pending i)
    → has (component_objects pending is set) o ≡ true
unfolding component_objects
component-new pending [] set i o m mo = elim m [ ]
component-new pending (j ∷ is) set i o (Memᴰ.head e) mo =
    component-old pending is (extend set (participants_at pending j)) o (
      has-extend_new set (participants_at pending j) o
        (subst (λ k. Memᴰ o (participants_at pending k)) e mo))
component-new pending (j ∷ is) set i o (Memᴰ.tail m) mo =
    component-new pending is (extend set (participants_at pending j)) i o m mo

pub component-only :
    (pending : List AppliedTxn) (is : List ℕ) (set : List Bytes) (o : Bytes)
    → has (component_objects pending is set) o ≡ true
    → (has set o ≡ true) ⊎ ((i : ℕ) × Memᴰ i is × Memᴰ o (participants_at pending i))
unfolding component_objects
component-only pending [] set o h = inl h
component-only pending (i ∷ is) set o h =
    elim (component-only pending is (extend set (participants_at pending i)) o h) [
      | inr (j, m, mo) ↦ inr (j, Memᴰ.tail m, mo)
      | inl old ↦ elim (has-extend_only set (participants_at pending i) o old) [
        | inl first ↦ inl first
        | inr mo ↦ inr (i, Memᴰ.head refl, mo)
      ]
    ]

pub touches_at :
    (pending : List AppliedTxn) (i : ℕ) (o : Bytes)
    → Memᴰ o (participants_at pending i)
    → Touches pending i o
touches_at [] i o m = elim m [ ]
touches_at (t ∷ ts) zero o m = (t, refl, m)
touches_at (t ∷ ts) (suc i) o m = touches_at ts i o m
