-- ===== src/Worker/Revert/Closed.antt =====
-- worker.rs, that `revert_closure` never tears a transaction.
use fafo.Prelude.{
  ℕ, zero, suc, ◌+◌, ◌≤◌, ◌<◌, ◌≡◌, refl, sym, ap, subst, ◌∙◌, Bool, true, false, ◌⊎◌, inl, inr,
  List, [], ◌∷◌, ◌++◌, length, arith, if◌then◌else◌, Bool-cases, All,
}
use mathlib.Core.List.{Memᴰ}
use fafo.Prelude.Bytes.{Bytes, bytes_eq, bytes_beq_refl}
use fafo.Worker.State.{AppliedTxn}
use fafo.Worker.Revert.{has, hit, add_all, sweep, spread, participants_of, reverted_by}

-- The one set is in the other.
abbrev pub Within : List Bytes → List Bytes → Type 0
Within a b = (o : Bytes) → has a o ≡ true → has b o ≡ true

-- How many of the names are not in the set.
missing : List Bytes → List Bytes → ℕ
missing reverted [] = 0
missing reverted (p ∷ ps) =
    let rest = missing reverted ps in if has reverted p then rest else rest + 1

missing-Within : (a b : List Bytes) (ps : List Bytes) → Within a b → missing b ps ≤ missing a ps
unfolding missing
missing-Within a b [] h = omega arith
missing-Within a b (p ∷ ps) h = ground (arith, missing-Within a b ps h, h p)

missing_less :
    (a b : List Bytes) (ps : List Bytes) (p : Bytes)
    → Within a b
    → Memᴰ p ps
    → has a p ≡ false
    → has b p ≡ true
    → missing b ps < missing a ps
unfolding missing
missing_less a b [] p h m n y = elim m [ ]
missing_less a b (q ∷ ps) p h (Memᴰ.head e) n y =
    ground (arith, missing-Within a b ps h, ap (has a) e, ap (has b) e)
missing_less a b (q ∷ ps) p h (Memᴰ.tail m) n y = ground (arith, missing_less a b ps p h m n y, h q)

missing_le : (a ps : List Bytes) → missing a ps ≤ length ps
unfolding missing
missing_le a [] = omega arith
missing_le a (p ∷ ps) = ground (arith, missing_le a ps)

-- What a pass does to its state: the set grows, and when it reports so a name is no longer missing.
abbrev Progress : List Bytes → Bool × List Bytes → Bool × List Bytes → Type 0
Progress all s s' =
    Within s.1 s'.1
    × (s'.0 ≡ false → s' ≡ s)
    × (s'.0 ≡ true → (s.0 ≡ true) ⊎ (missing s'.1 all < missing s.1 all))

Progress-refl : (all : List Bytes) (s : Bool × List Bytes) → Progress all s s
Progress-refl all s = (λ o h. h, λ e. refl, λ e. inl e)

Progress-trans :
    (all : List Bytes) (a b c : Bool × List Bytes)
    → Progress all a b
    → Progress all b c
    → Progress all a c
Progress-trans all a b c (h, same, less) (h', same', less') = (
  λ o m. h' o (h o m),
  λ e. same' e ∙ same (sym (ap (λ x. x.0) (same' e)) ∙ e),
  λ e. elim (less' e) [
    | inl g ↦ elim (less g) [
      | inl g' ↦ inl g'
      | inr lt ↦ let le = missing-Within b.1 c.1 all h' in inr (omega arith)
    ]
    | inr lt ↦ let le = missing-Within a.1 b.1 all h in inr (omega arith)
  ],
)

abbrev add_one : Bytes → Bool × List Bytes → Bool × List Bytes
add_one p (grew, reverted) = if has reverted p then (grew, reverted) else (true, p ∷ reverted)

add_one-Progress :
    (all : List Bytes) (p : Bytes) (s : Bool × List Bytes)
    → Memᴰ p all
    → Progress all s (add_one p s) × (has (add_one p s).1 p ≡ true)
add_one-Progress all p (grew, reverted) m = elim (Bool-cases (has reverted p)) [
  | inl y ↦ rw y (Progress-refl all (grew, reverted), y)
  | inr n ↦
      let into : Within reverted (p ∷ reverted) = λ o h. ground (arith) in
      let here : has (p ∷ reverted) p ≡ true = ground (arith, bytes_beq_refl p) in
      rw n
        ((into, λ e. cc, λ e. inr (missing_less reverted (p ∷ reverted) all p into m n here)), here)
]

add_all-Progress :
    (all ps : List Bytes) (s : Bool × List Bytes)
    → All (λ p. Memᴰ p all) ps
    → Progress all s (add_all ps s) × All (λ p. has (add_all ps s).1 p ≡ true) ps
unfolding add_all
add_all-Progress all [] (grew, reverted) h = (Progress-refl all (grew, reverted), tt)
add_all-Progress all (p ∷ ps) (grew, reverted) h =
    let s1 = add_one p (grew, reverted) in
    let (first, here) = add_one-Progress all p (grew, reverted) h.0 in
    let (rest, there) = add_all-Progress all ps s1 h.1 in
    (Progress-trans all (grew, reverted) s1 (add_all ps s1) first rest, (rest.0 p here, there))

-- Where a transaction is hit, all its participants are reverted.
abbrev pub Closed : List Bytes → List AppliedTxn → Type 0
Closed reverted pending =
    All
      (λ (t : AppliedTxn).
        hit reverted t.participants ≡ true → All (λ p. has reverted p ≡ true) t.participants)
      pending

-- The names of the transactions are among `all`.
abbrev Named : List Bytes → List AppliedTxn → Type 0
Named all pending = All (λ (t : AppliedTxn). All (λ p. Memᴰ p all) t.participants) pending

abbrev sweep_one : AppliedTxn → Bool × List Bytes → Bool × List Bytes
sweep_one t (grew, reverted) =
    if hit reverted t.participants
    then add_all t.participants (grew, reverted)
    else (grew, reverted)

sweep_one-Progress :
    (all : List Bytes) (t : AppliedTxn) (s : Bool × List Bytes)
    → All (λ p. Memᴰ p all) t.participants
    → Progress all s (sweep_one t s)
      × (hit s.1 t.participants ≡ true → All (λ p. has (sweep_one t s).1 p ≡ true) t.participants)
sweep_one-Progress all t (grew, reverted) h = elim (Bool-cases (hit reverted t.participants)) [
  | inl y ↦ let (a, b) = add_all-Progress all t.participants (grew, reverted) h in rw y (a, λ e. b)
  | inr n ↦ rw n (Progress-refl all (grew, reverted), λ e. cc)
]

sweep-Progress :
    (all : List Bytes) (ts : List AppliedTxn) (s : Bool × List Bytes)
    → Named all ts
    → Progress all s (sweep ts s) × ((sweep ts s).0 ≡ false → Closed s.1 ts)
unfolding sweep
sweep-Progress all [] (grew, reverted) h = (Progress-refl all (grew, reverted), λ e. tt)
sweep-Progress all (t ∷ ts) (grew, reverted) h =
    let s1 = sweep_one t (grew, reverted) in
    let (first, whole) = sweep_one-Progress all t (grew, reverted) h.0 in
    let (rest, closed) = sweep-Progress all ts s1 h.1 in
    (
      Progress-trans all (grew, reverted) s1 (sweep ts s1) first rest,
      λ e.
          let same : s1 ≡ (grew, reverted) = first.1 (sym (ap (λ x. x.0) (rest.1 e)) ∙ e) in
          (
            λ y.
                subst (λ (x : Bool × List Bytes). All (λ p. has x.1 p ≡ true) t.participants) same
                  (whole y),
            subst (λ (x : Bool × List Bytes). Closed x.1 ts) same (closed e),
          ),
    )

spread-Closed :
    (all : List Bytes) (fuel : ℕ) (pending : List AppliedTxn) (reverted : List Bytes)
    → Named all pending
    → missing reverted all < fuel
    → Within reverted (spread fuel pending reverted) × Closed (spread fuel pending reverted) pending
unfolding spread
spread-Closed all zero pending reverted h lt = absurd (omega arith)
spread-Closed all (suc fuel) pending reverted h lt =
    let s = sweep pending (false, reverted) in
    let (progress, closed) = sweep-Progress all pending (false, reverted) h in
    elim (Bool-cases s.0) [
      | inl grew ↦
          let (into, same, less) = progress in
          let lt' : missing s.1 all < fuel = elim (less grew) [
            | inl no_way ↦ cc
            | inr l ↦ omega arith
          ] in
          let (more, whole) = spread-Closed all fuel pending s.1 h lt' in
          rw grew (λ o m. more o (into o m), whole)
      | inr stopped ↦
          let (into, same, less) = progress in
          let kept : reverted ≡ s.1 = sym (ap (λ x. x.1) (same stopped)) in
          rw stopped (into, subst (λ r. Closed r pending) kept (closed stopped))
    ]

mem_after {ℓ} : {A : Type ℓ} (ys zs : List A) {x : A} → Memᴰ x zs → Memᴰ x (ys ++ zs)
mem_after [] zs m = m
mem_after (y ∷ ys) zs m = Memᴰ.tail (mem_after ys zs m)

mem-left {ℓ} :
    {A : Type ℓ} (xs ys : List A) (zs : List A)
    → All (λ p. Memᴰ p zs) xs
    → All (λ p. Memᴰ p (ys ++ zs)) xs
mem-left [] ys zs h = tt
mem-left (x ∷ xs) ys zs h = (mem_after ys zs h.0, mem-left xs ys zs h.1)

mem_self {ℓ} : {A : Type ℓ} (xs ys : List A) → All (λ p. Memᴰ p (xs ++ ys)) xs
mem_self [] ys = tt
mem_self (x ∷ xs) ys = (Memᴰ.head refl, mem-left xs (x ∷ []) (xs ++ ys) (mem_self xs ys))

Named-after :
    (ps : List Bytes) (all : List Bytes) (pending : List AppliedTxn)
    → Named all pending
    → Named (ps ++ all) pending
Named-after ps all [] h = tt
Named-after ps all (t ∷ ts) h = (mem-left t.participants ps all h.0, Named-after ps all ts h.1)

all-Named : (pending : List AppliedTxn) → Named (participants_of pending) pending
all-Named [] = tt
all-Named (t ∷ ts) = (
  mem_self t.participants (participants_of ts),
  Named-after t.participants (participants_of ts) ts (all-Named ts),
)

pub reverted_by-Closed :
    (pending : List AppliedTxn) (seed : List Bytes)
    → Within seed (reverted_by pending seed) × Closed (reverted_by pending seed) pending
unfolding reverted_by
reverted_by-Closed pending seed =
    spread-Closed (participants_of pending) (suc (length (participants_of pending))) pending seed
      (all-Named pending) (omega (arith, missing_le seed (participants_of pending)))
