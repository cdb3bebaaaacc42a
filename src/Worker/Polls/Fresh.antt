-- ===== src/Worker/Polls/Fresh.antt =====
-- worker.rs, that a clean object only ever catches up with its log.
use fafo.Prelude.{
  ℕ, ◌≡◌, ◌<◌, refl, Bool, true, false, Option, none, some, arith, leb, Bool-cases, inl, inr, Map,
  lookup, lookup-insert,
}
use fafo.Prelude.Bytes.{Bytes, bytes_eq, bytes_beq_refl}
use fafo.Store.{or_zero, MemInner}
use fafo.Objlog.Io.{ret, attempt, run, Schedule}
use fafo.Objlog.Protocol.{fold_committed}
use fafo.Objlog.Yields.{Yields, Anything, attempt-Yields, Yields-bind, run-Yields}
use fafo.Worker.State.{Worker, unshipped}
use fafo.Worker.Polls.{Live, install_fold, ahead, refresh_if_stale}

module _ (opens : Bytes → Bytes → Bool) where
  -- Either nothing changed, or the object had nothing unshipped, and its connection now shows an
  -- image at a later place of its log.
  abbrev pub CaughtUp : Live → Bytes → Bool × Live → Type 0
  CaughtUp live object (false, after) = after ≡ live
  CaughtUp live object (true, after) =
      (unshipped live.0 object ≡ false)
      × (or_zero (lookup object live.0.log_seq) < or_zero (lookup object after.0.log_seq))

  install-CaughtUp :
      (w : Worker) (images : Map Bytes Bytes) (object : Bytes) (folded : Option (Bytes × ℕ))
      → unshipped w object ≡ false
      → CaughtUp (w, images) object (install_fold opens (w, images) object (ahead w object folded))
  unfolding install_fold ahead
  install-CaughtUp w images object none clean = refl
  install-CaughtUp w images object (some (image, seq)) clean =
      elim (Bool-cases (leb seq (or_zero (lookup object w.log_seq)))) [
        | inl current ↦ rw current refl
        | inr behind ↦ elim (Bool-cases (opens object image)) [
          | inl y ↦
              rw (behind, y)
                (
                  clean,
                  rw (lookup-insert object object seq w.log_seq, bytes_beq_refl object)
                      (ground arith),
                )
          | inr n ↦ rw (behind, n) refl
        ]
      ]

  refresh_if_stale-Yields :
      (live : Live) (object : Bytes)
      → Yields (CaughtUp live object) (refresh_if_stale opens live object)
  unfolding refresh_if_stale
  refresh_if_stale-Yields (w, images) object = elim (Bool-cases (unshipped w object)) [
    | inl busy ↦ rw busy refl
    | inr clean ↦ rw clean (
        Yields-bind Anything (CaughtUp (w, images) object) (attempt (fold_committed object))
          (λ folded. ret (install_fold opens (w, images) object (ahead w object folded)))
          (attempt-Yields (fold_committed object))
          (λ folded u. install-CaughtUp w images object folded clean))
  ]

  -- Whatever the store does and other tasks do, `refresh_if_stale` returns. Either it reports nothing
  -- and changed nothing, or the object had nothing unshipped, and its connection shows a place of its
  -- log that is later than the one before.
  pub refresh_if_stale-CaughtUp :
      (live : Live) (object : Bytes) (ts : Schedule) (s : MemInner)
      → (r : Bool × Live) × ((run (refresh_if_stale opens live object) ts s).0 ≡ some r)
        × CaughtUp live object r
  refresh_if_stale-CaughtUp live object ts s =
      run-Yields (CaughtUp live object) (refresh_if_stale opens live object)
        (refresh_if_stale-Yields live object) ts s
