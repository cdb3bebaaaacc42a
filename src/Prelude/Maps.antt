-- ===== src/Prelude/Maps.antt =====
-- `Map<K, V>` of lib.rs as an association list with at most one entry for a key.
use mathlib.Core.Path.{◌≡◌, refl, ap}
use mathlib.Core.List.{List, [], ◌∷◌, Memᴰ}
use mathlib.Core.Logic.{inl, inr}
use mathlib.Core.Option.{Option, none, some}
use native.Mathlib.Omega.{arith}
use fafo.Prelude.Tests.{Bool-cases, Eq, ◌==◌, if◌then◌else◌}

abbrev pub Map {ℓ κ} : Type ℓ → Type κ → Type (ℓ ⊔ κ)
Map K V = List (K × V)

module _ {ℓ κ} {K : Type ℓ} {V : Type κ} ⦃e : Eq K⦄ where
  -- `map.get(k)`
  unfoldable pub lookup : K → Map K V → Option V
  lookup k ((j, v) ∷ entries) = if j == k then some v else lookup k entries
  lookup k [] = none

  -- `map.insert(k, v)`, in place where the key is there
  unfoldable pub insert : K → V → Map K V → Map K V
  insert k v ((j, old) ∷ entries) =
      if j == k then (k, v) ∷ entries else (j, old) ∷ insert k v entries
  insert k v [] = (k, v) ∷ []

  -- `map.remove(k)`
  unfoldable pub remove : K → Map K V → Map K V
  remove k [] = []
  remove k ((j, old) ∷ entries) =
      let rest = remove k entries in if j == k then rest else (j, old) ∷ rest

  pub lookup-insert :
      (k j : K) (v : V) (entries : Map K V)
      → lookup j (insert k v entries) ≡ (if k == j then some v else lookup j entries)
  unfolding lookup insert
  lookup-insert k j v [] = refl
  lookup-insert k j v ((i, old) ∷ entries) =
      ground (arith, e.eqb_iff k j, e.eqb_iff i k, e.eqb_iff i j, lookup-insert k j v entries)

  pub lookup-remove :
      (k j : K) (entries : Map K V)
      → lookup j (remove k entries) ≡ (if k == j then none else lookup j entries)
  unfolding lookup remove
  lookup-remove k j [] = ground arith
  lookup-remove k j ((i, old) ∷ entries) =
      ground (arith, e.eqb_iff k j, e.eqb_iff i k, e.eqb_iff i j, lookup-remove k j entries)

module _ {ℓ κ} {K : Type ℓ} {V : Type κ} ⦃e : Eq K⦄ where
  -- No key stands twice.
  abbrev pub IsMap : Map K V → Type κ
  IsMap [] = Unit
  IsMap ((k, v) ∷ entries) = (lookup k entries ≡ none) × IsMap entries

  pub insert-IsMap :
      (k : K) (v : V) (entries : Map K V) → IsMap entries → IsMap (insert k v entries)
  unfolding insert lookup
  insert-IsMap k v [] h = (refl, tt)
  insert-IsMap k v ((j, old) ∷ entries) h = elim (Bool-cases (j == k)) [
    | inl p ↦ rw p (rw (← (e.eqb_iff j k).0 p) h)
    | inr p ↦ rw p (
      ground (arith, lookup-insert k j v entries, e.eqb_iff j k, e.eqb_iff k j),
      insert-IsMap k v entries h.1,
    )
  ]

  pub remove-IsMap : (k : K) (entries : Map K V) → IsMap entries → IsMap (remove k entries)
  unfolding remove
  remove-IsMap k [] h = tt
  remove-IsMap k ((j, old) ∷ entries) h = elim (Bool-cases (j == k)) [
    | inl p ↦ rw p (remove-IsMap k entries h.1)
    | inr p ↦ rw p (ground (arith, lookup-remove k j entries), remove-IsMap k entries h.1)
  ]

  -- Iteration and lookup agree.
  pub lookup_of_mem :
      (entries : Map K V) {k : K} {v : V}
      → IsMap entries
      → Memᴰ (k, v) entries
      → lookup k entries ≡ some v
  unfolding lookup
  lookup_of_mem [] h p = elim p [ ]
  lookup_of_mem ((j, old) ∷ entries) {k} {v} h (Memᴰ.head p) =
      ground (arith, ap (λ (x : K × V). x.0) p, ap (λ (x : K × V). x.1) p, e.eqb_iff j k)
  lookup_of_mem ((j, old) ∷ entries) {k} {v} h (Memᴰ.tail p) =
      ground (arith, h.0, lookup_of_mem entries h.1 p, e.eqb_iff j k)

  pub mem_of_lookup :
      (k : K) (entries : Map K V) {v : V} → lookup k entries ≡ some v → Memᴰ (k, v) entries
  unfolding lookup
  mem_of_lookup k [] h = cc
  mem_of_lookup k ((j, old) ∷ entries) {v} h = elim (Bool-cases (j == k)) [
    | inl p ↦ Memᴰ.head (ground (arith, e.eqb_iff j k))
    | inr p ↦ Memᴰ.tail (mem_of_lookup k entries (ground arith))
  ]

pub ruleset map_laws = (lookup-insert, lookup-remove)
