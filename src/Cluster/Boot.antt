-- ===== src/Cluster/Boot.antt =====
-- cluster.rs, `start`: the ownership that a booting node reads out of the checkpoints. Each checkpoint
-- comes with the worker that its key names, in the order of the listing.
use fafo.Prelude.{
  ℕ, ◌≤◌, ◌<◌, ◌≡◌, refl, sym, ap, subst, ◌∙◌, Bool, true, ◌&&◌, ◌||◌, ◌⊎◌, inl, inr, Option, none,
  some, List, [], ◌∷◌, arith, ltb, nat_beq, nat_eq, if◌then◌else◌, All, Map, lookup, insert,
  lookup-insert, Bool-cases, Option-cases,
}
use fafo.Prelude.Bytes.{Bytes, bytes_eq, bytes_beq, bytes_beq_iff, bytes_beq_refl}
use fafo.Routing.Hash.{default_worker}
use fafo.Cluster.Claims.{Checkpoint}

-- `generation > prev_g || (generation == prev_g && w < prev_w)`
abbrev supersedes : ℕ → ℕ → ℕ → ℕ → Bool
supersedes w g prev_w prev_g = ltb prev_g g || (nat_beq g prev_g && ltb w prev_w)

-- One claim of a checkpoint, against the claims so far.
unfoldable pub keep_claim : ℕ → Bytes → ℕ → Map Bytes (ℕ × ℕ) → Map Bytes (ℕ × ℕ)
keep_claim w object g gens = elim (lookup object gens) [
  | none ↦ insert object (w, g) gens
  | some (prev_w, prev_g) ↦ if supersedes w g prev_w prev_g then insert object (w, g) gens else gens
]

unfoldable pub note_owned : ℕ → Map Bytes ℕ → Map Bytes (ℕ × ℕ) → Map Bytes (ℕ × ℕ)
unfolding keep_claim
note_owned w [] gens = gens
note_owned w ((object, g) ∷ owned) gens = note_owned w owned (keep_claim w object g gens)

-- `claim_gens`
unfoldable pub claim_gens : List (ℕ × Checkpoint) → Map Bytes (ℕ × ℕ) → Map Bytes (ℕ × ℕ)
unfolding note_owned
claim_gens [] gens = gens
claim_gens ((w, cp) ∷ rest) gens = claim_gens rest (note_owned w cp.owned gens)

-- `exceptions`, from the claims: the objects that are away from their hash home.
unfoldable pub boot_exceptions : ℕ → Map Bytes (ℕ × ℕ) → Map Bytes ℕ → Map Bytes ℕ
boot_exceptions logical [] exceptions = exceptions
boot_exceptions logical ((object, (w, g)) ∷ gens) exceptions =
    let rest = boot_exceptions logical gens exceptions in
    let moved = boot_exceptions logical gens (insert object w exceptions) in
    if nat_beq (default_worker object logical) w then rest else moved

-- `boot_owned`, from the claims: the objects of each worker.
unfoldable pub boot_owned : Map Bytes (ℕ × ℕ) → Map ℕ (Map Bytes ℕ) → Map ℕ (Map Bytes ℕ)
boot_owned [] owned = owned
boot_owned ((object, (w, g)) ∷ gens) owned =
    let so_far : Map Bytes ℕ = elim (lookup w owned) [ none ↦ [] | some m ↦ m ] in
    boot_owned gens (insert w (insert object g so_far) owned)

-- The claim kept is of a later handoff, or of the same one by a worker that is numbered no higher.
abbrev pub Covered : ℕ → ℕ → Option (ℕ × ℕ) → Type 0
Covered w g none = ⊥
Covered w g (some (kept_w, kept_g)) = (g < kept_g) ⊎ ((g ≡ kept_g) × (kept_w ≤ w))

-- Every claim of a checkpoint's is covered by the claim kept for its object.
abbrev pub AllCovered : Map Bytes (ℕ × ℕ) → ℕ × Checkpoint → Type 0
AllCovered gens (w, cp) = All (λ (e : Bytes × ℕ). Covered w e.1 (lookup e.0 gens)) cp.owned

stored :
    (object : Bytes) (x : ℕ × ℕ) (gens : Map Bytes (ℕ × ℕ))
    → lookup object (insert object x gens) ≡ some x
stored object x gens = rw (lookup-insert object object x gens, bytes_beq_refl object) refl

-- A better claim for one object covers what was covered.
insert-Covered :
    (object : Bytes) (w g : ℕ) (gens : Map Bytes (ℕ × ℕ)) (v : ℕ) (other : Bytes) (h : ℕ)
    → (object ≡ other → Covered v h (some (w, g)))
    → Covered v h (lookup other gens)
    → Covered v h (lookup other (insert object (w, g) gens))
insert-Covered object w g gens v other h better c = elim (Bool-cases (bytes_beq object other)) [
  | inl e ↦
      rw (lookup-insert object other (w, g) gens, e) (better ((bytes_beq_iff object other).0 e))
  | inr e ↦ rw (lookup-insert object other (w, g) gens, e) c
]

-- A claim that was covered stays so when another one is noted.
keep_claim-Covered :
    (w : ℕ) (object : Bytes) (g : ℕ) (gens : Map Bytes (ℕ × ℕ)) (v : ℕ) (other : Bytes) (h : ℕ)
    → Covered v h (lookup other gens)
    → Covered v h (lookup other (keep_claim w object g gens))
unfolding keep_claim
keep_claim-Covered w object g gens v other h c = elim (Option-cases (lookup object gens)) [
  | inl n ↦
      rw (n, keep_claim)
        (insert-Covered object w g gens v other h
          (λ same. elim (subst (Covered v h) (sym (ap (λ o. lookup o gens) same) ∙ n) c) [ ]) c)
  | inr (prev, p) ↦ elim (Bool-cases (supersedes w g prev.0 prev.1)) [
    | inl s ↦
        rw (p, s, keep_claim)
          (insert-Covered object w g gens v other h
            (λ same.
              overtaken w g prev v h s
                (subst (Covered v h) (sym (ap (λ o. lookup o gens) same) ∙ p) c))
            c)
    | inr s ↦ rw (p, s, keep_claim) c
  ]
]
  where
    overtaken :
        (w g : ℕ) (prev : ℕ × ℕ) (v h : ℕ)
        → supersedes w g prev.0 prev.1 ≡ true
        → Covered v h (some prev)
        → Covered v h (some (w, g))
    overtaken w g prev v h s c = ground arith

-- A claim is covered once it is noted.
keep_claim_covers :
    (w : ℕ) (object : Bytes) (g : ℕ) (gens : Map Bytes (ℕ × ℕ))
    → Covered w g (lookup object (keep_claim w object g gens))
unfolding keep_claim
keep_claim_covers w object g gens = elim (Option-cases (lookup object gens)) [
  | inl n ↦ rw (n, keep_claim) (rw (stored object (w, g) gens) (inr (refl, omega arith)))
  | inr (prev, p) ↦ elim (Bool-cases (supersedes w g prev.0 prev.1)) [
    | inl s ↦ rw (p, s, keep_claim) (rw (stored object (w, g) gens) (inr (refl, omega arith)))
    | inr s ↦ rw (p, s, keep_claim) (rw p (ground arith))
  ]
]

note_owned-Covered :
    (w : ℕ) (owned : Map Bytes ℕ) (gens : Map Bytes (ℕ × ℕ)) (v : ℕ) (other : Bytes) (h : ℕ)
    → Covered v h (lookup other gens)
    → Covered v h (lookup other (note_owned w owned gens))
unfolding note_owned
note_owned-Covered w [] gens v other h c = c
note_owned-Covered w ((object, g) ∷ owned) gens v other h c =
    note_owned-Covered w owned (keep_claim w object g gens) v other h
      (keep_claim-Covered w object g gens v other h c)

claim_gens-Covered :
    (cps : List (ℕ × Checkpoint)) (gens : Map Bytes (ℕ × ℕ)) (v : ℕ) (other : Bytes) (h : ℕ)
    → Covered v h (lookup other gens)
    → Covered v h (lookup other (claim_gens cps gens))
unfolding claim_gens
claim_gens-Covered [] gens v other h c = c
claim_gens-Covered ((w, cp) ∷ cps) gens v other h c =
    claim_gens-Covered cps (note_owned w cp.owned gens) v other h
      (note_owned-Covered w cp.owned gens v other h c)

note_owned_covers :
    (w : ℕ) (owned : Map Bytes ℕ) (gens : Map Bytes (ℕ × ℕ)) (cps : List (ℕ × Checkpoint))
    → All
        (λ (e : Bytes × ℕ). Covered w e.1 (lookup e.0 (claim_gens cps (note_owned w owned gens))))
        owned
unfolding note_owned
note_owned_covers w [] gens cps = tt
note_owned_covers w ((object, g) ∷ owned) gens cps = (
  claim_gens-Covered cps (note_owned w owned (keep_claim w object g gens)) w object g (
      note_owned-Covered w owned (keep_claim w object g gens) w object g
        (keep_claim_covers w object g gens)),
  note_owned_covers w owned (keep_claim w object g gens) cps,
)

claim_gens_from :
    (cps : List (ℕ × Checkpoint)) (gens : Map Bytes (ℕ × ℕ))
    → All (AllCovered (claim_gens cps gens)) cps
unfolding claim_gens
claim_gens_from [] gens = tt
claim_gens_from ((w, cp) ∷ cps) gens =
    (note_owned_covers w cp.owned gens cps, claim_gens_from cps (note_owned w cp.owned gens))

-- At boot, every claim of every checkpoint is covered by the one claim kept for its object: a claim
-- of a later handoff, or of the same handoff by a worker numbered no higher.
pub claim_gens_highest : (cps : List (ℕ × Checkpoint)) → All (AllCovered (claim_gens cps [])) cps
claim_gens_highest cps = claim_gens_from cps []
