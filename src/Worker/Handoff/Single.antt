-- ===== src/Worker/Handoff/Single.antt =====
-- worker.rs, what a deed that is cut, taken or refused does to the claims of all workers on an object.
use fafo.Prelude.{
  ℕ, ◌+◌, ◌≤◌, ◌<◌, ◌≡◌, ◌≢◌, refl, sym, ap, subst, ◌∙◌, false, ◌⊎◌, inl, inr, Option, none, some,
  [], ◌∷◌, arith, nat_beq, nat_beq_iff, lookup, insert, remove, lookup-insert, lookup-remove,
  Bool-cases,
}
use mathlib.Core.List.{Memᴰ}
use fafo.Prelude.Bytes.{Bytes, bytes_eq, bytes_beq_refl}
use fafo.Worker.State.{Worker, TransferMeta}
use fafo.Worker.Transfer.{known, stale, max_option, transit_generation, next_generation}
use fafo.Worker.Transfer.Generations.{SameClaims}
use fafo.Worker.Transfer.Admission.{Holds}
use fafo.Worker.Handoff.{System, set_worker}

abbrev pub UpTo : Option ℕ → ℕ → Type 0
UpTo none g = Unit
UpTo (some k) g = k ≤ g

abbrev pub Reaches : Option ℕ → ℕ → Type 0
Reaches none g = ⊥
Reaches (some k) g = g ≤ k

-- What the claims of a worker on an object say: what it owns, and the highest generation.
abbrev pub Facts : Bytes → Worker → Option ℕ → Option ℕ → Type 0
Facts object w own k = (lookup object w.owned ≡ own) × (known w object ≡ k)

-- A deed of the highest generation is for `d`; a lower one is spent at the worker that it is for.
abbrev pub Spent : Bytes → ℕ → ℕ → (ℕ → Worker) → ℕ → ℕ → Type 0
Spent object g d ws i x = ((x ≡ g) × (i ≡ d)) ⊎ ((x < g) × Reaches (known (ws i) object) x)

-- The highest generation is `g`, for the worker `d`: nothing known is higher; a deed of it is for
-- `d`, and a lower deed is already spent at the worker that it is for; only `d` may own the object.
abbrev pub Single : Bytes → ℕ → ℕ → System → Type 0
Single object g d sys =
    ((i : ℕ) → UpTo (known (sys.workers i) object) g)
    × ((i : ℕ) (tm : TransferMeta)
        → Memᴰ (i, tm) sys.deeds
        → Spent object g d sys.workers i tm.generation)
    × ((i h : ℕ) → lookup object (sys.workers i).owned ≡ some h → (h ≡ g) × (i ≡ d))

known_of :
    (object : Bytes) (w : Worker) (own : Option ℕ) (t : Option (ℕ × ℕ))
    → lookup object w.owned ≡ own
    → lookup object w.transit ≡ t
    → known w object ≡ max_option own (transit_generation t)
unfolding known
known_of object w own t p q = rw (p, q) refl

spent-not_admitted : (k : Option ℕ) (g : ℕ) → stale k g ≡ false → Reaches k g → ⊥
spent-not_admitted none g new h = h
spent-not_admitted (some k) g new h = ground arith

owner_knows :
    (g : ℕ) (t : Option ℕ) → UpTo (max_option (some g) t) g → max_option (some g) t ≡ some g
owner_knows g none le = refl
owner_knows g (some k) le = ap some (omega arith)

-- The next generation of an owner that nobody is ahead of.
pub next_of_owner :
    (object : Bytes) (w : Worker) (g : ℕ)
    → lookup object w.owned ≡ some g
    → UpTo (known w object) g
    → next_generation w object ≡ g + 1
unfolding next_generation
next_of_owner object w g own le =
    let e = known_of object w (some g) (lookup object w.transit) own refl in
    rw e (
      rw (owner_knows g (transit_generation (lookup object w.transit)) (subst (λ k. UpTo k g) e le))
        refl)

UpTo-weaken : (k : Option ℕ) (g : ℕ) → UpTo k g → UpTo k (g + 1)
UpTo-weaken none g h = tt
UpTo-weaken (some k) g h = ground arith

pub not_in_nil {ℓ} : {A : Type ℓ} (a : A) → Memᴰ a [] → ⊥
not_in_nil a p = elim p [ ]

-- What a renunciation leaves.
pub renounced-Facts :
    (object : Bytes) (w w' : Worker) (dest g : ℕ)
    → w'.owned ≡ remove object w.owned
    → w'.transit ≡ insert object (dest, g) w.transit
    → Facts object w' none (some g)
renounced-Facts object w w' dest g p q =
    let own : lookup object w'.owned ≡ none =
      rw (p, lookup-remove object object w.owned, bytes_beq_refl object) refl in
    let tr : lookup object w'.transit ≡ some (dest, g) =
      rw (q, lookup-insert object object (dest, g) w.transit, bytes_beq_refl object) refl in
    (own, known_of object w' none (some (dest, g)) own tr)

-- What an admission leaves.
pub Holds-Facts :
    (object : Bytes) (w w' : Worker) (g : ℕ)
    → Holds w object g w'
    → Facts object w' (some g) (some g)
Holds-Facts object w w' g h =
    let own : lookup object w'.owned ≡ some g = (h object).0 ∙ rw (bytes_beq_refl object) refl in
    let tr : lookup object w'.transit ≡ none = (h object).1 ∙ rw (bytes_beq_refl object) refl in
    (own, known_of object w' (some g) none own tr)

pub same-Facts :
    (object : Bytes) (w w' : Worker)
    → SameClaims w w'
    → Facts object w' (lookup object w.owned) (known w object)
same-Facts object w w' same = (
  (same object).0,
  known_of object w' (lookup object w.owned) (lookup object w.transit) (same object).0
        (same object).1
      ∙ sym (known_of object w (lookup object w.owned) (lookup object w.transit) refl refl),
)

-- What holds of the workers after one of them changed.
pub at :
    (P : ℕ → Worker → Type 0) (i : ℕ) (w' : Worker) (ws : ℕ → Worker) (j : ℕ)
    → P i w'
    → (i ≢ j → P j (ws j))
    → P j (set_worker i w' ws j)
at P i w' ws j here there = elim (Bool-cases (nat_beq i j)) [
  | inl same ↦ rw same (subst (λ k. P k w') ((nat_beq_iff i j).0 same) here)
  | inr other ↦ rw other (there (λ e. ground (arith, nat_beq_iff i j)))
]

pub bounded :
    (object : Bytes) (g d : ℕ) (ws : ℕ → Worker) (j x y : ℕ)
    → y ≡ g
    → Spent object g d ws j x
    → x ≤ y
bounded object g d ws j x y e (inl (same, there)) = omega arith
bounded object g d ws j x y e (inr (lt, past)) = omega arith

-- What a worker knew, it knows after a step that makes it know no less.
still :
    (object : Bytes) (x : ℕ) (i : ℕ) (w' : Worker) (ws : ℕ → Worker) (j : ℕ)
    → (Reaches (known (ws i) object) x → Reaches (known w' object) x)
    → Reaches (known (ws j) object) x
    → Reaches (known (set_worker i w' ws j) object) x
still object x i w' ws j grows =
    at (λ j w. Reaches (known (ws j) object) x → Reaches (known w object) x) i w' ws j grows
      (λ n a. a)

still-Spent :
    (object : Bytes) (g d x : ℕ) (i : ℕ) (w' : Worker) (ws : ℕ → Worker) (j : ℕ)
    → (Reaches (known (ws i) object) x → Reaches (known w' object) x)
    → Spent object g d ws j x
    → Spent object g d (set_worker i w' ws) j x
still-Spent object g d x i w' ws j grows (inl e) = inl e
still-Spent object g d x i w' ws j grows (inr (lt, past)) =
    inr (lt, still object x i w' ws j grows past)

-- A worker that knows what it knew, and owns what it owned, keeps the system single.
pub unchanged :
    (object : Bytes) (g d : ℕ) (sys : System) (i : ℕ) (w' : Worker)
    → Single object g d sys
    → Facts object w' (lookup object (sys.workers i).owned) (known (sys.workers i) object)
    → Single object g d (record { workers = set_worker i w' sys.workers; deeds = sys.deeds })
unchanged object g d sys i w' (most, spent, own) (o, k) = (
  λ j.
      at (λ j w. UpTo (known w object) g) i w' sys.workers j
        (subst (λ x. UpTo x g) (sym k) (most i)) (λ n. most j),
  λ j tm p.
      still-Spent object g d tm.generation i w' sys.workers j
        (subst (λ x. Reaches x tm.generation) (sym k)) (spent j tm p),
  λ j h.
      at (λ j w. lookup object w.owned ≡ some h → (h ≡ g) × (j ≡ d)) i w' sys.workers j
        (λ e. own i h (sym o ∙ e)) (λ n. own j h),
)

deeds_after :
    (object : Bytes) (g d dest : ℕ) (tm : TransferMeta) (w' : Worker) (sys : System) (i : ℕ)
    → tm.generation ≡ g + 1
    → i ≡ d
    → known w' object ≡ some (g + 1)
    → ((j : ℕ) (tm' : TransferMeta)
        → Memᴰ (j, tm') sys.deeds
        → Spent object g d sys.workers j tm'.generation)
    → (j : ℕ) (tm' : TransferMeta) → Memᴰ (j, tm') ((dest, tm) ∷ sys.deeds)
    → Spent object (g + 1) dest (set_worker i w' sys.workers) j tm'.generation
deeds_after object g d dest tm w' sys i gen here k spent j tm' (Memᴰ.head e) =
    inl
      (ap (λ (x : ℕ × TransferMeta). x.1.generation) e ∙ gen, ap (λ (x : ℕ × TransferMeta). x.0) e)
deeds_after object g d dest tm w' sys i gen here k spent j tm' (Memᴰ.tail p) =
    elim (spent j tm' p) [
      | inl (same, there) ↦ inr (
        ground arith,
        subst (λ y. Reaches (known (set_worker i w' sys.workers y) object) tm'.generation)
            (here ∙ sym there)
            (at (λ y w. Reaches (known w object) tm'.generation) i w' sys.workers i
              (subst (λ x. Reaches x tm'.generation) (sym k) (omega arith))
              (λ n. elim (n refl) [ ])),
      )
      | inr (lt, past) ↦ inr (
        ground arith,
        still object tm'.generation i w' sys.workers j
            (λ a. subst (λ x. Reaches x tm'.generation) (sym k) (omega arith)) past,
      )
    ]

-- An owner that cut a deed: the generation is one higher, for the worker of the deed.
pub after_cut :
    (object : Bytes) (g d : ℕ) (sys : System) (i dest h : ℕ) (tm : TransferMeta) (w' : Worker)
    → Single object g d sys
    → lookup object (sys.workers i).owned ≡ some h
    → tm.generation ≡ g + 1
    → Facts object w' none (some (g + 1))
    → Single object
        (g + 1)
        dest
        (record { workers = set_worker i w' sys.workers; deeds = (dest, tm) ∷ sys.deeds })
after_cut object g d sys i dest h tm w' (most, spent, own) mine gen (o, k) =
    let (same, here) = own i h mine in
    (
      λ j.
          at (λ j w. UpTo (known w object) (g + 1)) i w' sys.workers j
            (subst (λ x. UpTo x (g + 1)) (sym k) (ground arith))
            (λ n. UpTo-weaken (known (sys.workers j) object) g (most j)),
      λ j tm' p. deeds_after object g d dest tm w' sys i gen here k spent j tm' p,
      λ j x.
          at (λ j w. lookup object w.owned ≡ some x → (x ≡ g + 1) × (j ≡ dest)) i w' sys.workers j
            (λ e. cc) (λ n e. elim (n (here ∙ sym (own j x e).1)) [ ]),
    )

-- A worker that took a deed that is not stale.
pub after_admission :
    (object : Bytes) (g d : ℕ) (sys : System) (i : ℕ) (tm : TransferMeta) (w' : Worker)
    → Single object g d sys
    → Memᴰ (i, tm) sys.deeds
    → stale (known (sys.workers i) object) tm.generation ≡ false
    → Facts object w' (some tm.generation) (some tm.generation)
    → Single object g d (record { workers = set_worker i w' sys.workers; deeds = sys.deeds })
after_admission object g d sys i tm w' (most, spent, own) p new (o, k) = elim (spent i tm p) [
  | inr (lt, past) ↦
      elim (spent-not_admitted (known (sys.workers i) object) tm.generation new past) [ ]
  | inl (same, here) ↦ (
    λ j.
        at (λ j w. UpTo (known w object) g) i w' sys.workers j
          (subst (λ x. UpTo x g) (sym k) (ground arith)) (λ n. most j),
    λ j tm' q.
        still-Spent object g d tm'.generation i w' sys.workers j
          (λ a.
            subst (λ x. Reaches x tm'.generation) (sym k)
              (bounded object g d sys.workers j tm'.generation tm.generation same (spent j tm' q)))
          (spent j tm' q),
    λ j h.
        at (λ j w. lookup object w.owned ≡ some h → (h ≡ g) × (j ≡ d)) i w' sys.workers j
          (λ e. (ground arith, here)) (λ n. own j h),
  )
]
