-- ===== src/Routing/Placement/Pressure.antt =====
-- The pressure cap of cluster.rs, `crowded`: it never shuts out every worker.
use native.Mathlib.Nat.{mul-le-mul_left, lt-mul-div-succ}
use fafo.Prelude.{
  ℕ, zero, suc, ◌+◌, ◌*◌, ◌/◌, ◌≤◌, ◌<◌, ◌≡◌, refl, false, ◌⊎◌, inl, inr, [], ◌∷◌, arith, ltb, leb,
  leb→le, if◌then◌else◌, max, length, Map, Bool-cases,
}
use fafo.Prelude.Bytes.{Bytes}
use fafo.Routing.Placement.{Routing, load_of, exception_load, crowded}

-- The load of the workers below `n` together.
loads_below : ℕ → Map Bytes ℕ → ℕ
loads_below zero m = 0
loads_below (suc n) m = load_of m n + loads_below n m

loads_below-cons :
    (n : ℕ) (o : Bytes) (w : ℕ) (m : Map Bytes ℕ)
    → loads_below n ((o, w) ∷ m) ≡ (if ltb w n then 1 else 0) + loads_below n m
unfolding loads_below load_of
loads_below-cons zero o w m = ground arith
loads_below-cons (suc n) o w m = ground (arith, loads_below-cons n o w m)

loads_below-nil : (n : ℕ) → loads_below n [] ≡ 0
unfolding loads_below load_of
loads_below-nil zero = refl
loads_below-nil (suc n) = omega (arith, loads_below-nil n)

loads_below-le : (n : ℕ) (m : Map Bytes ℕ) → loads_below n m ≤ length m
loads_below-le n [] = omega (arith, loads_below-nil n)
loads_below-le n ((o, w) ∷ m) = ground (arith, loads_below-cons n o w m, loads_below-le n m)

abbrev cap_of : Routing → ℕ
cap_of r = max (2 * length r.exceptions / r.logical) 4

-- Either a worker below `n` is not crowded, or they all hold the cap.
first_uncrowded :
    (r : Routing) (n : ℕ)
    → ((w : ℕ) × (w < n) × (crowded r w ≡ false)) ⊎ (n * cap_of r ≤ loads_below n r.exceptions)
unfolding loads_below crowded exception_load
first_uncrowded r zero = inr (omega arith)
first_uncrowded r (suc n) = elim (first_uncrowded r n) [
  | inl (w, l, c) ↦ inl (w, omega arith, c)
  | inr all ↦ elim (Bool-cases (leb (cap_of r) (load_of r.exceptions n))) [
    | inl full ↦ inr (omega (arith, leb→le _ _ full))
    | inr free ↦ inl (n, omega arith, free)
  ]
]

cap_exceeds : (L t q cap : ℕ) → 0 < L → q ≡ 2 * t / L → q ≤ cap → 4 ≤ cap → L * cap ≤ t → ⊥
cap_exceeds L t q cap h e p4 p q4 =
    let above : 2 * t < L * (2 * t / L + 1) = lt-mul-div-succ (2 * t) h in
    omega (arith, mul-le-mul_left L p4, mul-le-mul_left L p, rw (← e) at above)

-- However the migrated objects are spread over the workers, of which there is one at least, some
-- worker is not crowded.
pub some_worker_uncrowded :
    (r : Routing) → 0 < r.logical → (w : ℕ) × (w < r.logical) × (crowded r w ≡ false)
some_worker_uncrowded r h = elim (first_uncrowded r r.logical) [
  | inl found ↦ found
  | inr all ↦ absurd (
      cap_exceeds r.logical (length r.exceptions) _ (cap_of r) h refl (omega arith) (omega arith)
        (omega (arith, loads_below-le r.logical r.exceptions)))
]
