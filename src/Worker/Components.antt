-- ===== src/Worker/Components.antt =====
-- worker.rs, `txn_components`: the pending transactions in groups that must land together, by a
-- union-find over their indices. `find` is on fuel: a chain of parents is no longer than the number
-- of unions, so the number of all participants is enough. An index out of bounds, a panic in the
-- source, is its own parent; none is ever looked up.
pub mod Forest
pub mod Links
pub mod Linking
pub mod Joined
pub mod Groups
use fafo.Prelude.{
  ℕ, zero, suc, ◌+◌, ◌-◌, Option, none, some, List, [], ◌∷◌, ◌++◌, nat_eq, nat_beq, length,
  get_elem?, set, if◌then◌else◌, Map, lookup, insert,
}
use fafo.Prelude.Bytes.{Bytes, bytes_eq}
use fafo.Worker.State.{AppliedTxn}
use fafo.Worker.Revert.{participants_of}

abbrev pub parent_of : List ℕ → ℕ → ℕ
parent_of parent i = elim (get_elem? parent i) as (λ x. ℕ) [ none ↦ i | some j ↦ j ]

-- With the compression of the path.
unfoldable pub find : ℕ → List ℕ → ℕ → List ℕ × ℕ
find zero parent i = (parent, i)
find (suc fuel) parent i =
    let deeper = find fuel parent (parent_of parent i) in
    let compressed = set deeper.0 i deeper.1 in
    if nat_beq (parent_of parent i) i
    then (parent, parent_of parent i)
    else (compressed, parent_of compressed i)

unfoldable pub unite : ℕ → List ℕ → ℕ → ℕ → List ℕ
unfolding find
unite fuel parent i j = let a = find fuel parent i in let b = find fuel a.0 j in set b.0 a.1 b.1

-- The parents, and for each object the first transaction that has it.
abbrev pub Linking : Type 0
Linking = List ℕ × Map Bytes ℕ

unfoldable pub link_object : ℕ → ℕ → Bytes → Linking → Linking
unfolding unite
link_object fuel i object (parent, first_txn_with) = elim (lookup object first_txn_with) [
  | none ↦ (parent, insert object i first_txn_with)
  | some j ↦ (unite fuel parent i j, first_txn_with)
]

unfoldable pub link_objects : ℕ → ℕ → List Bytes → Linking → Linking
unfolding link_object
link_objects fuel i [] s = s
link_objects fuel i (object ∷ objects) s = link_objects fuel i objects (link_object fuel i object s)

unfoldable pub link_txns : ℕ → ℕ → List AppliedTxn → Linking → Linking
unfolding link_objects
link_txns fuel i [] s = s
link_txns fuel i (txn ∷ txns) s =
    link_txns fuel (suc i) txns (link_objects fuel i txn.participants s)

-- `(start..start + count)`
abbrev pub indices : ℕ → ℕ → List ℕ
indices start zero = []
indices start (suc count) = start ∷ indices (suc start) count

-- The slots of the roots, and the components.
abbrev pub Grouping : Type 0
Grouping = Map ℕ ℕ × List (List ℕ)

-- `components[slot].push(i)`
abbrev pub push_at : ℕ → ℕ → List (List ℕ) → List (List ℕ)
push_at slot i [] = []
push_at zero i (c ∷ cs) = (c ++ i ∷ []) ∷ cs
push_at (suc slot) i (c ∷ cs) = c ∷ push_at slot i cs

unfoldable pub place : ℕ → ℕ → Grouping → Grouping
place root i (slot_of_root, components) = elim (lookup ⦃e = nat_eq⦄ root slot_of_root) [
  | some slot ↦ (slot_of_root, push_at slot i components)
  | none ↦
      let wider = components ++ [] ∷ [] in
      let slot = length wider - 1 in
      (insert ⦃e = nat_eq⦄ root slot slot_of_root, push_at slot i wider)
]

unfoldable pub group : ℕ → List ℕ → List ℕ → Grouping → Grouping
unfolding find place
group fuel parent [] s = s
group fuel parent (i ∷ is) s = let r = find fuel parent i in group fuel r.0 is (place r.1 i s)

-- Every union lengthens a chain by one parent at most.
abbrev pub find_fuel : List AppliedTxn → ℕ
find_fuel pending = suc (length (participants_of pending))

unfoldable pub txn_components : List AppliedTxn → List (List ℕ)
unfolding link_txns group
txn_components pending =
    let n = length pending in
    let linked = link_txns (find_fuel pending) 0 pending (indices 0 n, []) in
    (group (find_fuel pending) linked.0 (indices 0 n) ([], [])).1
