-- ===== src/Worker/Polls/Firing.antt =====
-- worker.rs, that `take_fired_polls` answers every poll once or keeps it.
use fafo.Prelude.{
  ℕ, ◌+◌, ◌≡◌, refl, ap, Bool, true, false, Option, none, some, List, [], ◌∷◌, ◌++◌, nat_beq, arith,
  Bool-cases, Option-cases, inl, inr, if◌then◌else◌, All, Map, lookup, lookup-insert, lookup-remove,
}
use mathlib.Core.List.{Memᴰ}
use fafo.Prelude.Bytes.{Bytes, bytes_eq, bytes_beq_refl}
use fafo.Worker.State.{Worker, PendingPoll, Sent, granted, refused, failed, acked}
use fafo.Worker.Polls.{
  OpResult, Fired, Sifted, poll_hash, poll_ready, judge, sift_one, sift, other_pass, put_back,
  after_sift, take_fired_polls,
}

-- How many polls of a list reply on a channel, and how many answers go out on it.
abbrev pub parked_on : ℕ → List PendingPoll → ℕ
parked_on r [] = 0
parked_on r (p ∷ list) = (if nat_beq p.resp r then 1 else 0) + parked_on r list

abbrev pub fired_on : ℕ → List Fired → ℕ
fired_on r [] = 0
fired_on r (f ∷ fired) = (if nat_beq f.resp r then 1 else 0) + fired_on r fired

abbrev pub failed_on : ℕ → List Sent → ℕ
failed_on r [] = 0
failed_on r (failed q ∷ sent) = (if nat_beq q r then 1 else 0) + failed_on r sent
failed_on r (granted q t ∷ sent) = failed_on r sent
failed_on r (refused q e ∷ sent) = failed_on r sent
failed_on r (acked q ∷ sent) = failed_on r sent

module _ (to_vec : List OpResult → Bytes) (query : Bytes → Bytes → List Bytes → Option OpResult)
    (listening : ℕ → Bool) where
  -- A poll of the list, of the pass at hand, for which the query on the image gives what is told,
  -- and the condition holds on it.
  abbrev pub Justified : Bytes → Bool → List PendingPoll → Fired → Type 0
  Justified image pass list f =
      (p : PendingPoll) × (result : OpResult) × Memᴰ p list
      × (p.durable ≡ pass)
      × (query image p.sql p.params ≡ some result)
      × (f ≡ record { resp = p.resp; results = result ∷ []; hash = poll_hash to_vec (result ∷ []) })
      × (poll_ready p.baseline f.results f.hash ≡ true)

  Justified-later :
      (image : Bytes) (pass : Bool) (q : PendingPoll) (list : List PendingPoll) (fired : List Fired)
      → All (Justified image pass list) fired
      → All (Justified image pass (q ∷ list)) fired
  Justified-later image pass q list [] h = tt
  Justified-later image pass q list (f ∷ fired) ((p, result, m, d, e, told, ready), h) =
      ((p, result, Memᴰ.tail m, d, e, told, ready), Justified-later image pass q list fired h)

  -- The accounts of a list of polls.
  abbrev pub Settled : Bytes → Bool → List PendingPoll → Sifted → Type 0
  Settled image pass list s =
      ((r : ℕ)
        → listening r ≡ true
        → fired_on r s.fired + parked_on r s.keep + failed_on r s.errors ≡ parked_on r list)
      × All (Justified image pass list) s.fired

  same_pass : (durable pass : Bool) → other_pass durable pass ≡ false → durable ≡ pass
  same_pass true true h = refl
  same_pass true false h = cc
  same_pass false true h = cc
  same_pass false false h = refl

  sift_one-Settled :
      (image : Bytes) (pass : Bool) (p : PendingPoll) (list : List PendingPoll) (s : Sifted)
      → Settled image pass list s
      → Settled image pass (p ∷ list) (sift_one to_vec query listening image pass p s)
  unfolding sift_one judge
  sift_one-Settled image pass p list s (counts, just) =
      let later = Justified-later image pass p list s.fired just in
      elim (Bool-cases (listening p.resp)) [
        | inr gone ↦ rw gone (λ r l. ground (arith, counts r l, ap listening), later)
        | inl there ↦ elim (Bool-cases (other_pass p.durable pass)) [
          | inl other ↦ rw (there, other) (λ r l. ground (arith, counts r l), later)
          | inr same ↦ elim (Option-cases (query image p.sql p.params)) [
            | inl broken ↦ rw (there, same, broken) (λ r l. ground (arith, counts r l), later)
            | inr (result, e) ↦
                elim (Bool-cases
                  (poll_ready p.baseline (result ∷ []) (poll_hash to_vec (result ∷ [])))) [
                    | inl ready ↦
                        rw (there, same, e, ready)
                          (
                            λ r l. ground (arith, counts r l),
                            (
                              (
                                p,
                                result,
                                Memᴰ.head refl,
                                same_pass p.durable pass same,
                                e,
                                refl,
                                ready,
                              ),
                              later,
                            ),
                          )
                    | inr waits ↦
                        rw (there, same, e, waits) (λ r l. ground (arith, counts r l), later)
                  ]
          ]
        ]
      ]

  sift-Settled :
      (image : Bytes) (pass : Bool) (list : List PendingPoll)
      → Settled image pass list (sift to_vec query listening image pass list)
  unfolding sift
  sift-Settled image pass [] = (λ r l. refl, tt)
  sift-Settled image pass (p ∷ list) =
      sift_one-Settled image pass p list (sift to_vec query listening image pass list)
        (sift-Settled image pass list)

  failed_on-append :
      (r : ℕ) (a b : List Sent) → failed_on r (a ++ b) ≡ failed_on r a + failed_on r b
  failed_on-append r [] b = omega arith
  failed_on-append r (failed q ∷ a) b = omega (arith, failed_on-append r a b)
  failed_on-append r (granted q t ∷ a) b = failed_on-append r a b
  failed_on-append r (refused q e ∷ a) b = failed_on-append r a b
  failed_on-append r (acked q ∷ a) b = failed_on-append r a b

  abbrev pub listed : Option (List PendingPoll) → List PendingPoll
  listed none = []
  listed (some list) = list

  -- The polls of an object.
  abbrev pub polls_of : Worker → Bytes → List PendingPoll
  polls_of w object = listed (lookup object w.polls)

  polls_of-put_back :
      (object : Bytes) (keep : List PendingPoll) (w : Worker) (sent : List Sent)
      → polls_of
          (record w { polls = put_back to_vec query listening object keep w.polls; sent = sent })
          object
        ≡ keep
  polls_of-put_back object [] w sent =
      rw (lookup-remove object object w.polls, bytes_beq_refl object) refl
  polls_of-put_back object (p ∷ keep) w sent =
      rw (lookup-insert object object (p ∷ keep) w.polls, bytes_beq_refl object) refl

  -- Of a live object's polls, on a channel whose client listens, as many were parked as fire, stay or
  -- are told an error: none is lost and none is answered twice. And a poll fires only in the pass of
  -- its durability, with what its own query gives on the object's image, and when its condition
  -- holds of that.
  pub take_fired_polls_settles :
      (images : Map Bytes Bytes) (w : Worker) (object : Bytes) (pass : Bool) (image : Bytes) (r : ℕ)
      → lookup object images ≡ some image
      → listening r ≡ true
      → let (fired, w') = take_fired_polls to_vec query listening images w object pass in
        (fired_on r fired + parked_on r (polls_of w' object) + failed_on r w'.sent
          ≡ parked_on r (polls_of w object) + failed_on r w.sent)
        × All (Justified image pass (polls_of w object)) fired
  unfolding take_fired_polls after_sift
  take_fired_polls_settles images w object pass image r live there =
      elim (Option-cases (lookup object w.polls)) [
        | inl nobody ↦ rw (nobody, take_fired_polls) (rw (nobody, listed) (omega arith, tt))
        | inr (list, parked) ↦
            let s = sift to_vec query listening image pass list in
            let (counts, just) = sift-Settled image pass list in
            rw (parked, take_fired_polls)
              (rw (live, take_fired_polls)
                (
                  rw (polls_of-put_back object s.keep w (w.sent ++ s.errors))
                      (omega (arith, counts r there, failed_on-append r w.sent s.errors)),
                  just,
                ))
      ]
