-- ===== src/Worker/Handoff/Back.antt =====
-- worker.rs, that a deed that is taken back leaves the system of the handoff single.
use fafo.Prelude.{
  some_inj, List, ℕ, ◌+◌, ◌≡◌, refl, sym, subst, ◌∙◌, inl, inr, Option, none, some, ◌∷◌, arith,
  lookup,
}
use mathlib.Core.List.{Memᴰ}
use fafo.Prelude.Bytes.{Bytes, bytes_eq}
use fafo.Worker.State.{Worker, TransferMeta}
use fafo.Worker.Transfer.{known}
use fafo.Worker.Handoff.{System, set_worker}
use fafo.Worker.Handoff.Single.{UpTo, Reaches, Facts, Spent, Single, at}

UpTo-later : (k : Option ℕ) (g : ℕ) → UpTo k g → UpTo k (g + 2)
UpTo-later none g h = tt
UpTo-later (some k) g h = omega (arith, h)

-- A deed that is never sent.
pub unsent :
    (object : Bytes) (g d : ℕ) (ws : ℕ → Worker) (x : ℕ × TransferMeta)
    (deeds : List (ℕ × TransferMeta))
    → Single object g d (record { workers = ws; deeds = x ∷ deeds })
    → Single object g d (record { workers = ws; deeds = deeds })
unsent object g d ws x deeds (most, spent, own) = (most, λ j tm p. spent j tm (Memᴰ.tail p), own)

-- An owner that took its own deed back, at two generations more.
pub after_return :
    (object : Bytes) (g d : ℕ) (sys : System) (i h : ℕ) (w' : Worker)
    → Single object g d sys
    → lookup object (sys.workers i).owned ≡ some h
    → Facts object w' (some (g + 2)) (some (g + 2))
    → Single object (g + 2) i (record { workers = set_worker i w' sys.workers; deeds = sys.deeds })
after_return object g d sys i h w' (most, spent, own) mine (o, k) =
    let (same, here) = own i h mine in
    (
      λ j.
          at (λ j w. UpTo (known w object) (g + 2)) i w' sys.workers j
            (subst (λ x. UpTo x (g + 2)) (sym k) (omega arith))
            (λ n. UpTo-later (known (sys.workers j) object) g (most j)),
      λ j tm p.
          let x = tm.generation in
          inr (
            elim (spent j tm p) [ inl (e, f) ↦ omega (arith, e) | inr (lt, r) ↦ omega (arith, lt) ],
            at (λ j w. Spent object g d sys.workers j x → Reaches (known w object) x) i w'
                sys.workers j
                (λ q.
                  subst (λ z. Reaches z x) (sym k)
                    (elim q [ inl (e, f) ↦ omega (arith, e) | inr (lt, r) ↦ omega (arith, lt) ]))
                (λ n q. elim q [ inl (e, f) ↦ elim (n (here ∙ sym f)) [ ] | inr (lt, r) ↦ r ])
                (spent j tm p),
          ),
      λ j x.
          at (λ j w. lookup object w.owned ≡ some x → (x ≡ g + 2) × (j ≡ i)) i w' sys.workers j
            (λ e. (some_inj (sym e ∙ o), refl)) (λ n e. elim (n (here ∙ sym (own j x e).1)) [ ]),
    )
