-- ===== src/Worker/Launch/Left.antt =====
-- worker.rs, what `maybe_launch` leaves pending when a boat goes out.
use fafo.Prelude.{
  ℕ, zero, suc, ◌≡◌, refl, sym, ap, subst, ◌∙◌, Bool, true, false, ◌⊎◌, inl, inr, List, [], ◌∷◌,
  ◌++◌, Option, none, some, some_inj, get_elem?, set, map, leb, Bool-cases, Option-cases, All, Map,
  lookup,
}
use mathlib.Core.List.{Memᴰ}
use fafo.Prelude.Bytes.{Bytes, bytes_eq}
use fafo.Grants.Hex.{Panics, returned, panicked}
use fafo.Store.{or_zero}
use fafo.Worker.State.{Worker, AppliedTxn, clean, live_path}
use fafo.Worker.Revert.{has}
use fafo.Worker.Revert.Whole.{clean-keeps}
use fafo.Worker.Ship.{ShipItem}
use fafo.Worker.Boats.{ship_payload}
use fafo.Worker.Polls.{OpResult, take_fired_polls, after_sift}
use fafo.Worker.Launch.{
  Boat, participants_at, taken, kept_one, place_index, sort_indices, keep, board, clean_all, load,
  fire_durable, depart, and_depart, launch,
}
use fafo.Worker.Launch.Split.{mem_append}
use fafo.Worker.Launch.Whole.{next_boat, next_boat-IsWholeBoat}

-- The slots hold transactions of the list, at their indices.
abbrev Slots : List AppliedTxn → List (Option AppliedTxn) → Type 0
Slots pending slots =
    (i : ℕ) (t : AppliedTxn) → taken slots i ≡ some t → get_elem? pending i ≡ some t

Slots-map : (pending : List AppliedTxn) → Slots pending (map some pending)
Slots-map [] i t e = cc
Slots-map (u ∷ us) zero t e = e
Slots-map (u ∷ us) (suc i) t e = Slots-map us i t e

taken-set :
    (slots : List (Option AppliedTxn)) (k i : ℕ) (t : AppliedTxn)
    → taken (set slots k none) i ≡ some t
    → taken slots i ≡ some t
taken-set [] k i t e = e
taken-set (s ∷ slots) zero zero t e = cc
taken-set (s ∷ slots) zero (suc i) t e = e
taken-set (s ∷ slots) (suc k) zero t e = e
taken-set (s ∷ slots) (suc k) (suc i) t e = taken-set slots k i t e

Slots-set :
    (pending : List AppliedTxn) (slots : List (Option AppliedTxn)) (k : ℕ)
    → Slots pending slots
    → Slots pending (set slots k none)
Slots-set pending slots k h i t e = h i t (taken-set slots k i t e)

board-Slots :
    (pending : List AppliedTxn) (is : List ℕ) (slots : List (Option AppliedTxn))
    → Slots pending slots
    → Slots pending (board is slots).1
unfolding board
board-Slots pending [] slots h = h
board-Slots pending (i ∷ is) slots h =
    board-Slots pending is (set slots i none) (Slots-set pending slots i h)

-- What is kept stands at one of the indices.
keep_from :
    (pending : List AppliedTxn) (is : List ℕ) (slots : List (Option AppliedTxn)) (t : AppliedTxn)
    → Slots pending slots
    → Memᴰ t (keep is slots)
    → (i : ℕ) × Memᴰ i is × (get_elem? pending i ≡ some t)
unfolding keep
keep_from pending [] slots t h m = elim m [ ]
keep_from pending (i ∷ is) slots t h m =
    elim (mem_append (kept_one (taken slots i)) (keep is (set slots i none)) t m) [
      | inr later ↦
          let (j, mj, e) =
            keep_from pending is (set slots i none) t (Slots-set pending slots i h) later in
          (j, Memᴰ.tail mj, e)
      | inl now ↦ elim (Option-cases (taken slots i)) [
        | inl n ↦ absurd (nothing t (subst (λ z. Memᴰ t (kept_one z)) n now))
        | inr (u, e) ↦
            let tu : t ≡ u = only t u (subst (λ z. Memᴰ t (kept_one z)) e now) in
            (i, Memᴰ.head refl, h i t (e ∙ ap some (sym tu)))
      ]
    ]
  where
    nothing : (t : AppliedTxn) → Memᴰ t [] → ⊥
    nothing t m = elim m [ ]

    only : (t u : AppliedTxn) → Memᴰ t (u ∷ []) → t ≡ u
    only t u (Memᴰ.head e) = e
    only t u (Memᴰ.tail m) = elim m [ ]

head_or : {A : Type 0} {x y : A} {ys : List A} → Memᴰ x (y ∷ ys) → (x ≡ y) ⊎ Memᴰ x ys
head_or (Memᴰ.head e) = inl e
head_or (Memᴰ.tail m) = inr m

mem-place_index : (i : ℕ) (js : List ℕ) (k : ℕ) → Memᴰ k (place_index i js) → Memᴰ k (i ∷ js)
mem-place_index i [] k m = m
mem-place_index i (j ∷ js) k m = elim (Bool-cases (leb i j)) [
  | inl y ↦ rw y at m
  | inr n ↦
      let m' : Memᴰ k (j ∷ place_index i js) = rw n at m in
      elim (head_or m') [
        | inl e ↦ Memᴰ.tail (Memᴰ.head e)
        | inr later ↦ elim (head_or (mem-place_index i js k later)) [
          | inl e ↦ Memᴰ.head e
          | inr old ↦ Memᴰ.tail (Memᴰ.tail old)
        ]
      ]
]

mem-sort_indices : (is : List ℕ) (k : ℕ) → Memᴰ k (sort_indices is) → Memᴰ k is
mem-sort_indices [] k m = m
mem-sort_indices (i ∷ is) k m = elim (head_or (mem-place_index i (sort_indices is) k m)) [
  | inl e ↦ Memᴰ.head e
  | inr later ↦ Memᴰ.tail (mem-sort_indices is k later)
]

-- What follows the cut leaves the pending transactions alone.
clean_all-keeps : (w : Worker) (os : List Bytes) → (clean_all w os).pending_txns ≡ w.pending_txns
unfolding clean_all
clean_all-keeps w [] = refl
clean_all-keeps w (o ∷ os) = clean_all-keeps (clean w o) os ∙ (clean-keeps w o).1

all_of : {A : Type 0} (P : A → Type 0) (xs : List A) → ((x : A) → Memᴰ x xs → P x) → All P xs
all_of P [] h = tt
all_of P (x ∷ xs) h = (h x (Memᴰ.head refl), all_of P xs (λ y m. h y (Memᴰ.tail m)))

participants_at_lem :
    (pending : List AppliedTxn) (i : ℕ) (t : AppliedTxn)
    → get_elem? pending i ≡ some t
    → participants_at pending i ≡ t.participants
participants_at_lem [] i t e = cc
participants_at_lem (u ∷ us) zero t e = ap (λ (v : AppliedTxn). v.participants) (some_inj e)
participants_at_lem (u ∷ us) (suc i) t e = participants_at_lem us i t e

returned_inj : {A : Type 0} {a b : A} → returned a ≡ returned b → a ≡ b
returned_inj e = cc

module _ (hash_page : Bytes → ℕ) (log_primary : Bool) (read : Bytes → Option Bytes) where
  load-keeps :
      (w : Worker) (os : List Bytes) (items : List ShipItem) (r : Option (List ShipItem) × Worker)
      → load hash_page log_primary read w os items ≡ returned r
      → r.1.pending_txns ≡ w.pending_txns
  unfolding load
  load-keeps w [] items r h =
      ap (λ (x : Option (List ShipItem) × Worker). x.1.pending_txns) (sym (returned_inj h))
  load-keeps w (o ∷ os) items r h = elim (Option-cases (lookup o w.objects)) [
    | inl n ↦ absurd (cc (rw (n, load) at h))
    | inr (u, live) ↦ elim (Option-cases (read (live_path w o))) [
      | inl gone ↦
          let h' : returned (none, w) ≡ returned r = rw (gone, load) at (rw (live, load) at h) in
          ap (λ (x : Option (List ShipItem) × Worker). x.1.pending_txns) (sym (returned_inj h'))
      | inr (bytes, e) ↦
          let p = ship_payload hash_page log_primary w.manifests o bytes in
          load-keeps (record w { manifests = p.1 }) os
            (items
              ++ record { object = o; payload = p.0; expected_seq = or_zero (lookup o w.log_seq) }
                ∷ [])
            r (rw (e, load) at (rw (live, load) at h))
    ]
  ]

  module _ (to_vec : List OpResult → Bytes) (query : Bytes → Bytes → List Bytes → Option OpResult)
      (listening : ℕ → Bool) (images : Map Bytes Bytes) where
    take-keeps :
        (w : Worker) (o : Bytes)
        → (take_fired_polls to_vec query listening images w o true).1.pending_txns ≡ w.pending_txns
    unfolding take_fired_polls after_sift
    take-keeps w o = elim (Option-cases (lookup o w.polls)) [
      | inl n ↦ rw (n, take_fired_polls) refl
      | inr (list, e) ↦ elim (Option-cases (lookup o images)) [
        | inl n ↦ rw (e, take_fired_polls) (rw (n, take_fired_polls) refl)
        | inr (image, i) ↦ rw (e, take_fired_polls) (rw (i, take_fired_polls) refl)
      ]
    ]

    fire-keeps :
        (w : Worker) (os : List Bytes)
        → (fire_durable hash_page log_primary read to_vec query listening images w
            os).1.pending_txns
          ≡ w.pending_txns
    unfolding fire_durable
    fire-keeps w [] = refl
    fire-keeps w (o ∷ os) =
        fire-keeps (take_fired_polls to_vec query listening images w o true).1 os ∙ take-keeps w o

    departed :
        (objects : List Bytes) (waiters : List ℕ) (l : Panics (Option (List ShipItem) × Worker))
        (boat : Boat) (w' : Worker)
        → and_depart hash_page log_primary read to_vec query listening images objects waiters l
          ≡ returned (some boat, w')
        → (x : Option (List ShipItem) × Worker) × (l ≡ returned x)
          × (w'.inflight ≡ some objects)
          × (w'.pending_txns ≡ x.1.pending_txns)
    unfolding depart
    departed objects waiters panicked boat w' h = cc
    departed objects waiters (returned (none, x)) boat w' h =
        absurd (cc (ap (λ (r : Option Boat × Worker). r.0) (returned_inj h)))
    departed objects waiters (returned (some items, x)) boat w' h =
        let e = ap (λ (r : Option Boat × Worker). r.1) (returned_inj h) in
        (
          (some items, x),
          refl,
          ap (λ (v : Worker). v.inflight) (sym e),
          ap (λ (v : Worker). v.pending_txns) (sym e) ∙ fire-keeps x objects,
        )

    -- The worker with the boat out: what is pending shares no object with it.
    abbrev pub Ashore : Worker → List Bytes → Type 0
    Ashore w objects =
        All (λ (t : AppliedTxn). All (λ o. has objects o ≡ false) t.participants) w.pending_txns

    -- When `maybe_launch` sends a boat out, no transaction that stays pending has an object that is in
    -- flight: a boat that sinks or lands never splits it from another.
    pub launch-Ashore :
        (max_boat_bytes : ℕ) (w w' : Worker) (boat : Boat)
        → launch hash_page log_primary read to_vec query listening images max_boat_bytes w
          ≡ returned (some boat, w')
        → (objects : List Bytes) × (w'.inflight ≡ some objects) × Ashore w' objects
    unfolding launch
    launch-Ashore max_boat_bytes w w' boat h =
        let pending = w.pending_txns in
        let b = next_boat pending w.dirty max_boat_bytes in
        let aboard = board b.selected (map some pending) in
        let w1 = record w { pending_txns = keep (sort_indices b.leftover) aboard.1 } in
        let w2 = clean_all w1 b.boat_objects in
        let l = load hash_page log_primary read w2 b.boat_objects [] in
        let (x, lx, flying, same) = departed b.boat_objects aboard.0 l boat w' h in
        let left : w'.pending_txns ≡ keep (sort_indices b.leftover) aboard.1 =
          same ∙ load-keeps w2 b.boat_objects [] x lx ∙ clean_all-keeps w1 b.boat_objects in
        let slots = board-Slots pending b.selected (map some pending) (Slots-map pending) in
        let cut_lem = next_boat-IsWholeBoat pending w.dirty max_boat_bytes in
        (
          b.boat_objects,
          flying,
          all_of (λ (t : AppliedTxn). All (λ o. has b.boat_objects o ≡ false) t.participants)
              w'.pending_txns
              (λ t m.
                let (i, mi, e) =
                  keep_from pending (sort_indices b.leftover) aboard.1 t slots
                    (subst (Memᴰ t) left m) in
                all_of (λ o. has b.boat_objects o ≡ false) t.participants
                  (λ o mo.
                    cut_lem.ashore i o (mem-sort_indices b.leftover i mi)
                      (subst (Memᴰ o) (sym (participants_at_lem pending i t e)) mo))),
        )
