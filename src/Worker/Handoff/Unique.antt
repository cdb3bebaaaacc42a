-- ===== src/Worker/Handoff/Unique.antt =====
-- worker.rs, that the handoffs of an object leave at most one worker in possession of it.
use fafo.Prelude.{
  arith, ℕ, ◌+◌, ◌≤◌, ◌≡◌, sym, ap, subst, ◌∙◌, Bool, true, false, ◌⊎◌, inl, inr, Option, none,
  some, [], lookup,
}
use mathlib.Core.List.{Memᴰ}
use mathlib.Core.Path.{ap₂}
use fafo.Prelude.Bytes.{Bytes, bytes_eq}
use fafo.Store.{MemInner}
use fafo.Objlog.Io.{run, Schedule}
use fafo.Cluster.Claims.{Checkpoint, Claim, durable_claim}
use fafo.Worker.State.{Worker, TransferMeta}
use fafo.Worker.Transfer.{known, stale, next_generation, release, admit}
use fafo.Worker.Transfer.Generations.{release_renounces}
use fafo.Worker.Transfer.Admission.{Admitted, admit_decides}
use fafo.Worker.Handoff.Back.{after_return, unsent}
use fafo.Worker.Handoff.{
  set_worker, System, Step, cut, held, taken_back, delivered, Steps, start, next,
}
use fafo.Worker.Handoff.Single.{
  UpTo, Facts, Spent, Single, next_of_owner, not_in_nil, renounced-Facts, Holds-Facts, same-Facts,
  bounded, unchanged, after_cut, after_admission,
}

module _ (to_vec : Checkpoint → Bytes) (from_slice : Bytes → Option Checkpoint)
    (file_len : Bytes → Option ℕ) (object : Bytes) where
  cut-Facts :
      (w w' : Worker) (dest : ℕ) (tm : TransferMeta) (ts : Schedule) (s : MemInner)
      → (run (release to_vec file_len w object (some dest)) ts s).0 ≡ some (some tm, w')
      → (tm.generation ≡ next_generation w object)
        × Facts object w' none (some (next_generation w object))
  cut-Facts w w' dest tm ts s done =
      elim (release_renounces to_vec file_len w object (some dest) ts s) [
        | inl (tm1, w1, e, gen, own, mark, dur) ↦
            let same : tm1 ≡ tm = cc in
            let now : w1 ≡ w' = cc in
            subst
              (λ (r : TransferMeta × Worker).
                (r.0.generation ≡ next_generation w object)
                × Facts object r.1 none (some (next_generation w object)))
              (ap₂ (λ a b. (a, b)) same now)
              (gen, renounced-Facts object w w1 dest (next_generation w object) own mark)
        | inr (w1, e, same) ↦ cc
      ]

  held-Facts :
      (w w' : Worker) (dest : ℕ) (ts : Schedule) (s : MemInner)
      → (run (release to_vec file_len w object (some dest)) ts s).0 ≡ some (none, w')
      → Facts object w' (lookup object w.owned) (known w object)
  held-Facts w w' dest ts s done =
      elim (release_renounces to_vec file_len w object (some dest) ts s) [
        | inl (tm1, w1, e, gen, own, mark, dur) ↦ cc
        | inr (w1, e, same) ↦
            let now : w1 ≡ w' = cc in
            subst (λ v. Facts object v (lookup object w.owned) (known w object)) now
              (same-Facts object w w1 same)
      ]

  admit-Facts :
      (w w' : Worker) (tm : TransferMeta) (c : Bool) (ts : Schedule) (s : MemInner)
      → (run (admit to_vec from_slice false w object tm) ts s).0 ≡ some (c, w')
      → ((stale (known w object) tm.generation ≡ false)
          × Facts object w' (some tm.generation) (some tm.generation))
        ⊎ (w' ≡ w)
  admit-Facts w w' tm c ts s done =
      let ((c1, w1), e, what) = admit_decides to_vec from_slice false w object tm ts s in
      let now : (c1, w1) ≡ (c, w') = cc in
      let claim = (run (durable_claim from_slice object) ts s).0 in
      decided w w' tm c claim (subst (Admitted false w object tm claim) now what)
    where
      decided :
          (w w' : Worker) (tm : TransferMeta) (c : Bool) (claim : Option Claim)
          → Admitted false w object tm claim (c, w')
          → ((stale (known w object) tm.generation ≡ false)
              × Facts object w' (some tm.generation) (some tm.generation))
            ⊎ (w' ≡ w)
      decided w w' tm true claim (h, inl new) = inl (new, Holds-Facts object w w' tm.generation h)
      decided w w' tm true claim (h, inr (on, free, named)) = cc
      decided w w' tm false claim (same, old, why) = inr same

  -- One step keeps the system single.
  Step-Single :
      (a b : System)
      → Step to_vec from_slice file_len object a b
      → (g d : ℕ) → Single object g d a
      → (h : ℕ) × (e : ℕ) × Single object h e b
  Step-Single a b (cut sys i dest h tm w' ts s mine done) g d inv =
      let (gen, facts) = cut-Facts (sys.workers i) w' dest tm ts s done in
      let owner = inv.2 i h mine in
      let g' : next_generation (sys.workers i) object ≡ g + 1 =
        next_of_owner object (sys.workers i) g (mine ∙ ap some owner.0) (inv.0 i) in
      (
        g + 1,
        dest,
        after_cut object g d sys i dest h tm w' inv mine (gen ∙ g')
            (subst (λ x. Facts object w' none (some x)) g' facts),
      )
  Step-Single a b (held sys i dest w' ts s done) g d inv =
      (g, d, unchanged object g d sys i w' inv (held-Facts (sys.workers i) w' dest ts s done))
  Step-Single a b (taken_back sys i dest h tm c w' w'' ts ts' s s' mine done back) g d inv =
      let (gen, facts) = cut-Facts (sys.workers i) w' dest tm ts s done in
      let owner = inv.2 i h mine in
      let g' : next_generation (sys.workers i) object ≡ g + 1 =
        next_of_owner object (sys.workers i) g (mine ∙ ap some owner.0) (inv.0 i) in
      let renounced = subst (λ x. Facts object w' none (some x)) g' facts in
      let again : TransferMeta = record tm { generation = tm.generation + 1 } in
      let two : again.generation ≡ g + 2 = ap (λ x. x + 1) (gen ∙ g') ∙ omega arith in
      elim (admit-Facts w' w'' again c ts' s' back) [
        | inl (new, taken) ↦ (
          g + 2,
          i,
          after_return object g d sys i h w'' inv mine
              (subst (λ x. Facts object w'' (some x) (some x)) two taken),
        )
        | inr same ↦ (
          g + 1,
          dest,
          unsent object (g + 1) dest (set_worker i w'' sys.workers) (dest, tm) sys.deeds
              (after_cut object g d sys i dest h tm w'' inv mine (gen ∙ g')
                (subst (λ v. Facts object v none (some (g + 1))) (sym same) renounced)),
        )
      ]
  Step-Single a b (delivered sys i tm c w' ts s p done) g d inv =
      elim (admit-Facts (sys.workers i) w' tm c ts s done) [
        | inl (new, facts) ↦ (g, d, after_admission object g d sys i tm w' inv p new facts)
        | inr same ↦ (
          g,
          d,
          unchanged object g d sys i w' inv
              (ap (λ (v : Worker). lookup object v.owned) same, ap (λ v. known v object) same),
        )
      ]

  Steps-Single :
      (a b : System)
      → Steps to_vec from_slice file_len object a b
      → (g d : ℕ) → Single object g d a
      → (h : ℕ) × (e : ℕ) × Single object h e b
  Steps-Single a b (start sys) g d inv = (g, d, inv)
  Steps-Single a c (next a' b c' rest step) g d inv =
      let (h, e, inv') = Steps-Single a' b rest g d inv in Step-Single b c' step h e inv'

  -- In a system whose steps are these alone, in the mode without the primary log: an owner releases the
  -- object to a worker, and the write of its checkpoint is confirmed or not; an owner takes the deed of
  -- such a release back at the next generation, as its taker is gone; a deed that was cut and sent
  -- arrives. No worker restarts, surrenders the object, or adopts it on a durable claim. The start is
  -- one where at most one worker owns the object, no worker knows a higher generation and no deed is in
  -- flight; a deed may arrive in any order, any number of times, or never. Then at any time at most one
  -- worker owns the object, and no worker knows and no deed has a higher generation than the owner's.
  pub single_owner :
      (a b : System) (g d : ℕ)
      → a.deeds ≡ []
      → ((i h : ℕ) → lookup object (a.workers i).owned ≡ some h → (h ≡ g) × (i ≡ d))
      → ((i : ℕ) → UpTo (known (a.workers i) object) g)
      → Steps to_vec from_slice file_len object a b
      → (i h : ℕ) → lookup object (b.workers i).owned ≡ some h
      → ((j k : ℕ) → lookup object (b.workers j).owned ≡ some k → (j ≡ i) × (k ≡ h))
        × ((j : ℕ) → UpTo (known (b.workers j) object) h)
        × ((j : ℕ) (tm : TransferMeta) → Memᴰ (j, tm) b.deeds → tm.generation ≤ h)
  single_owner a b g d empty one most steps i h mine =
      let none_pending : (j : ℕ) (tm : TransferMeta)
          → Memᴰ (j, tm) a.deeds
          → Spent object g d a.workers j tm.generation =
        λ j tm p. elim (not_in_nil (j, tm) (subst (Memᴰ (j, tm)) empty p)) [ ] in
      let (x, e, (top, spent, own)) = Steps-Single a b steps g d (most, none_pending, one) in
      let (same, here) = own i h mine in
      (
        λ j k owned. let (q, there) = own j k owned in (there ∙ sym here, q ∙ sym same),
        λ j. subst (UpTo (known (b.workers j) object)) (sym same) (top j),
        λ j tm p. bounded object x e b.workers j tm.generation h same (spent j tm p),
      )
