-- ===== src/Net/Take/Doors.antt =====
-- worker.rs, how `take_task` ends and at which doors it knocks.
use fafo.Prelude.{
  ℕ, zero, suc, ◌+◌, ◌≡◌, ◌≢◌, ◌≤◌, refl, Bool, true, false, Option, none, some, List, [], ◌∷◌,
  ◌++◌, ◌⊎◌, inl, inr, arith, nat_eq, nat_beq, Bool-cases, Option-cases, All,
}
use fafo.Prelude.Bytes.{Bytes}
use fafo.Routing.Placement.{addr_of_worker}
use fafo.Worker.State.{TransferMeta, TakeError}
use fafo.Worker.Acquire.{TakenResult, got, already_local, take_error}
use fafo.Net.Rpc.{Outcome, ok, err, Request, taken_over}
use fafo.Net.Task.{Act, Net, ret, Always, Always-bind, Always-weaken, World, run, run-Always, ◌>>=◌}
use fafo.Net.Submit.{Node, hosts, block_at, resolve_addr, ensure_local_sender}
use fafo.Net.Take.{
  take_retries, Told, adopt, taken, Door, knock, ours, next_door, Tried, after_call, ask_peer, ask,
  hint_after, local_deed, conclude, try_door, knock_on, take_task,
}

-- A knock: a take of a worker of this node, or of one at a peer. How many of them an action is.
abbrev pub knocks : Act → ℕ
knocks (Act.take v o u) = 1
knocks (Act.call base (Request.take v o u)) = 1
knocks (Act.call base (Request.txn t)) = 0
knocks (Act.call base (Request.adopt v o m)) = 0
knocks (Act.submit v t) = 0
knocks (Act.lease b) = 0
knocks (Act.claim o) = 0
knocks (Act.durable t) = 0

abbrev pub knocks_in : List Act → ℕ
knocks_in [] = 0
knocks_in (a ∷ h) = knocks a + knocks_in h

-- The knock is for this object, on behalf of this worker, and not at its own door.
abbrev pub IsFit : ℕ → Bytes → Act → Type 0
IsFit me object (Act.take v o u) = (v ≢ me) × (o ≡ object) × (u ≡ me)
IsFit me object (Act.call base (Request.take v o u)) = (v ≢ me) × (o ≡ object) × (u ≡ me)
IsFit me object (Act.call base (Request.txn t)) = Unit
IsFit me object (Act.call base (Request.adopt v o m)) = Unit
IsFit me object (Act.submit v t) = Unit
IsFit me object (Act.lease b) = Unit
IsFit me object (Act.claim o) = Unit
IsFit me object (Act.durable t) = Unit

module _ (me : ℕ) (object : Bytes) where
  -- At most `k` knocks more than before, and fit ones.
  abbrev Knocked : ℕ → List Act → List Act → Type 0
  Knocked k past h =
      (knocks_in h ≤ knocks_in past + k) × (All (IsFit me object) past → All (IsFit me object) h)

  snoc-Knocked :
      (k : ℕ) (past : List Act) (a : Act)
      → knocks a ≤ k
      → IsFit me object a
      → Knocked k past (past ++ a ∷ [])
  snoc-Knocked k [] a le fit = (omega arith, λ h. (fit, tt))
  snoc-Knocked k (b ∷ past) a le fit =
      let r = snoc-Knocked k past a le fit in (omega arith, λ h. (h.0, r.1 h.1))

  abbrev Does : {A : Type 0} → ℕ → List Act → Net A → Type 0
  Does k past m = Always (λ h a. Knocked k past h) past m

  Does-then :
      {A B : Type 0} (k l : ℕ) (past : List Act) (m : Net A) (f : A → Net B)
      → Does k past m
      → ((h : List Act) (a : A) → Does l h (f a))
      → Does (k + l) past (m >>= f)
  Does-then k l past m f d e =
      Always-bind (λ h a. Knocked k past h) (λ h a. Knocked (k + l) past h) m f past d
        (λ g a q.
          Always-weaken (λ h b. Knocked l g h) (λ h b. Knocked (k + l) past h) (f a) g
            (λ h b p. (omega arith, λ fit. p.1 (q.1 fit))) (e g a))

  rests : (past : List Act) → Knocked 0 past past
  rests past = (omega arith, λ h. h)

  resolve-Does : (past : List Act) (node : Node) (w : ℕ) → Does 0 past (resolve_addr node w)
  unfolding resolve_addr
  resolve-Does past node w = λ x. snoc-Knocked 0 past (Act.lease (block_at node w)) (omega arith) tt

  ensure-Does : (past : List Act) (node : Node) (w : ℕ) → Does 0 past (ensure_local_sender node w)
  unfolding ensure_local_sender
  ensure-Does past node w = elim (Bool-cases (hosts node w)) [
    | inl y ↦ rw y (rests past)
    | inr n ↦ rw n (λ x. snoc-Knocked 0 past (Act.lease (block_at node w)) (omega arith) tt)
  ]

  next-Does :
      (past : List Act) (node : Node) (chase : Option ℕ)
      → Does 0 past (next_door node me object chase)
  unfolding next_door
  next-Does past node none = rests past
  next-Does past node (some h) = elim (Bool-cases (nat_beq h me)) [
    | inl y ↦ rw y (λ x. snoc-Knocked 0 past (Act.claim object) (omega arith) tt)
    | inr n ↦ rw n (rests past)
  ]

  after-Does :
      (past : List Act) (node : Node) (owner : ℕ)
      (r : Outcome (Outcome TransferMeta TakeError) Bytes)
      → Does 0 past (after_call node owner r)
  unfolding after_call
  after-Does past node owner (ok r) = rests past
  after-Does past node owner (err e) =
      Does-then 0 0 past (resolve_addr node owner) (λ r. ret (none, r.1))
        (resolve-Does past node owner) (λ h r. rests h)

  peer-Does :
      (past : List Act) (owner : ℕ) (r : Option Bytes × Node)
      → owner ≢ me
      → Does 1 past (ask_peer me object owner r)
  unfolding ask_peer
  peer-Does past owner (none, node) ne = (omega arith, λ h. h)
  peer-Does past owner (some addr, node) ne = λ x.
      let act = Act.call addr (Request.take owner object me) in
      let made = snoc-Knocked 1 past act (omega arith) (ne, refl, refl) in
      Always-weaken (λ h a. Knocked 0 (past ++ act ∷ []) h) (λ h a. Knocked 1 past h)
        (after_call node owner (taken_over x)) (past ++ act ∷ [])
        (λ h a p. (omega arith, λ fit. p.1 (made.1 fit)))
        (after-Does (past ++ act ∷ []) node owner (taken_over x))

  ask-Does :
      (past : List Act) (owner : ℕ) (here : Bool × Node)
      → owner ≢ me
      → Does 1 past (ask me object owner here)
  unfolding ask
  ask-Does past owner (true, node) ne =
      λ x. snoc-Knocked 1 past (Act.take owner object me) (omega arith) (ne, refl, refl)
  ask-Does past owner (false, node) ne = elim (Option-cases (addr_of_worker node.routing owner)) [
    | inr (addr, e) ↦ rw (e, ask) (peer-Does past owner (some addr, node) ne)
    | inl e ↦
        rw (e, ask)
          (Does-then 0 1 past (resolve_addr node owner) (λ r. ask_peer me object owner r)
            (resolve-Does past node owner) (λ h r. peer-Does h owner r ne))
  ]

  -- How a take ends: with one answer, before which comes, at most, the deed of the worker's own claim.
  abbrev pub Concluded : List Told → Type 0
  Concluded told =
      ((from : ℕ) × (r : TakenResult) × (told ≡ taken from r ∷ []))
      ⊎ ((g : ℕ) × (told ≡ adopt object (local_deed me g) ∷ taken me already_local ∷ []))

  abbrev Ends : ℕ → List Act → Net (List Told × Node) → Type 0
  Ends k past m = Always (λ h r. Knocked k past h × Concluded r.0) past m

  Does-end :
      {A : Type 0} (k l n : ℕ) (past : List Act) (m : Net A) (f : A → Net (List Told × Node))
      → k + l ≤ n
      → Does k past m
      → ((h : List Act) (a : A) → Ends l h (f a))
      → Ends n past (m >>= f)
  Does-end k l n past m f le d e =
      Always-bind (λ h a. Knocked k past h) (λ h r. Knocked n past h × Concluded r.0) m f past d
        (λ g a q.
          Always-weaken (λ h r. Knocked l g h × Concluded r.0)
            (λ h r. Knocked n past h × Concluded r.0) (f a) g
            (λ h r p. ((omega arith, λ fit. p.0.1 (q.1 fit)), p.1)) (e g a))

  conclude-Ends :
      (k : ℕ) (past : List Act) (owner : ℕ) (rest : Option ℕ → Node → Net (List Told × Node))
      (tried : Tried × Node)
      → ((h : List Act) (chase : Option ℕ) (node : Node) → Ends k h (rest chase node))
      → Ends k past (conclude owner rest tried)
  unfolding conclude
  conclude-Ends k past owner rest (some (ok meta), node) ih =
      ((omega arith, λ h. h), inl (owner, got meta, refl))
  conclude-Ends k past owner rest (some (err e), node) ih = ih past (hint_after (some (err e))) node
  conclude-Ends k past owner rest (none, node) ih = ih past none node

  door-Ends :
      (k : ℕ) (past : List Act) (node : Node) (rest : Option ℕ → Node → Net (List Told × Node))
      (door : Door)
      → ((h : List Act) (chase : Option ℕ) (node : Node) → Ends k h (rest chase node))
      → Ends (suc k) past (try_door me object node rest door)
  unfolding try_door
  door-Ends k past node rest (ours g) ih = ((omega arith, λ h. h), inr (g, refl))
  door-Ends k past node rest (knock owner) ih = elim (Bool-cases (nat_beq owner me)) [
    | inl y ↦ rw y ((omega arith, λ h. h), inl (me, already_local, refl))
    | inr n ↦
        let ne : owner ≢ me = λ e. ground arith in
        rw n (
          Does-end 0 (suc k) (suc k) past (ensure_local_sender node owner)
            (λ here. ask me object owner here >>= (λ tried. conclude owner rest tried))
            (omega arith) (ensure-Does past node owner)
            (λ h here.
              Does-end 1 k (suc k) h (ask me object owner here) (λ tried. conclude owner rest tried)
                (omega arith) (ask-Does h owner here ne)
                (λ g tried. conclude-Ends k g owner rest tried ih)))
  ]

  knock_on-Ends :
      (tries : ℕ) (past : List Act) (chase : Option ℕ) (node : Node)
      → Ends tries past (knock_on tries me object chase node)
  unfolding knock_on
  knock_on-Ends zero past chase node = ((omega arith, λ h. h), inl (me, take_error, refl))
  knock_on-Ends (suc tries) past chase node =
      Does-end 0 (suc tries) (suc tries) past (next_door node me object chase)
        (λ door. try_door me object node (knock_on tries me object) door) (omega arith)
        (next-Does past node chase)
        (λ h door.
          door-Ends tries h node (knock_on tries me object) door
            (λ g chase' node'. knock_on-Ends tries g chase' node'))

  -- Whatever workers, peers and the ledger answer, a take ends: the worker that asked is told one
  -- result, before which comes at most the deed of its own durable claim. There were at most eight
  -- knocks, each for this object on behalf of this worker, and none at its own door, where it would
  -- wait for itself.
  pub take_task_ends :
      (node : Node) (w : World)
      → let r = run w [] (take_task me object node) in
        Concluded r.0.0 × (knocks_in r.1 ≤ take_retries) × All (IsFit me object) r.1
  unfolding take_task
  take_task_ends node w =
      let p =
        run-Always (λ h r. Knocked take_retries [] h × Concluded r.0)
          (knock_on take_retries me object none node) w []
          (knock_on-Ends take_retries [] none node) in
      (p.1, omega arith, p.0.1 tt)
