-- ===== src/Worker/Polls.antt =====
-- worker.rs, polls that wait for a result: `poll_hash`, `poll_ready`, `take_fired_polls`, and the
-- catching up of a clean object with its log: `refresh_if_stale`, `refold_clean_base`,
-- `refresh_stale_poll` and the handler of `RecheckPolls`. The parameters: `query`, what SQLite
-- answers on an image of the database, serde_json, `listening`, and `opens`, what `materialize`
-- answers. `images` has the image that each live connection shows.
pub mod Firing
pub mod Fresh
use fafo.Prelude.{
  ℕ, zero, suc, ◌+◌, ◌/◌, ◌%◌, ◌≡◌, Bool, true, false, not, ◌&&◌, ◌||◌, Option, none, some, List,
  [], ◌∷◌, ◌++◌, map, nat_beq, leb, ltb, any, if◌then◌else◌, Map, lookup, insert, remove,
}
use fafo.Prelude.Bytes.{Bytes, codes, bytes_eq, bytes_beq, starts_with}
use fafo.Store.{is_some, or_zero}
use fafo.Grants.Hex.{hex_digit}
use fafo.Objlog.Io.{Io, ret, ◌>>=◌, attempt}
use fafo.Objlog.Protocol.{fold_committed, committed_seq}
use fafo.Routing.Hash.{fnv1a}
use fafo.Cluster.Requests.{Op}
use fafo.Worker.State.{Worker, PendingPoll, Sent, failed, acked, unshipped}

-- A row is its JSON text.
pub data OpResult : Type 0 where
  rows : List Bytes → OpResult
  affected : ℕ → OpResult

-- `{h:016x}`: the digits of a number in base 16, the highest first.
unfoldable pub hex_digits : ℕ → ℕ → Bytes
unfolding hex_digit
hex_digits zero h = []
hex_digits (suc width) h = hex_digits width (h / 16) ++ hex_digit (h % 16) ∷ []

-- The results' JSON is hashed as an object's name is.
unfoldable pub poll_hash : (List OpResult → Bytes) → List OpResult → Bytes
unfolding fnv1a hex_digits
poll_hash to_vec results = hex_digits 16 (fnv1a (to_vec results))

abbrev has_rows : List OpResult → Bool
has_rows [] = false
has_rows (affected n ∷ results) = false
has_rows (rows [] ∷ results) = false
has_rows (rows (r ∷ rs) ∷ results) = true

unfoldable pub poll_ready : Option Bytes → List OpResult → Bytes → Bool
poll_ready none results hash = has_rows results
poll_ready (some baseline) results hash = not (bytes_beq baseline hash)

-- A poll that fired: its channel, and what it is told.
pub record Fired : Type 0 where
  pub resp : ℕ
  pub results : List OpResult
  pub hash : Bytes

-- The polls that fire, those that stay, and what is sent to those whose query fails.
pub record Sifted : Type 0 where
  pub fired : List Fired
  pub keep : List PendingPoll
  pub errors : List Sent

-- `p.durable != durable_pass`
abbrev pub other_pass : Bool → Bool → Bool
other_pass true pass = not pass
other_pass false pass = pass

-- The worker, with the images that its connections show.
abbrev pub Live : Type 0
Live = Worker × Map Bytes Bytes

-- The fold only where it is ahead of the connection.
unfoldable pub ahead : Worker → Bytes → Option (Bytes × ℕ) → Option (Bytes × ℕ)
ahead w object none = none
ahead w object (some (image, seq)) =
    if leb seq (or_zero (lookup object w.log_seq)) then none else some (image, seq)

module _ (opens : Bytes → Bytes → Bool) where
  -- The fold of the log is installed in place, where it opens.
  unfoldable pub install_fold : Live → Bytes → Option (Bytes × ℕ) → Bool × Live
  install_fold live object none = (false, live)
  install_fold (w, images) object (some (image, seq)) =
      if opens object image
      then (
        true,
        (
          record w { objects = insert object tt w.objects; log_seq = insert object seq w.log_seq },
          insert object image images,
        ),
      )
      else (false, (w, images))

  unfoldable pub refresh_if_stale : Live → Bytes → Io (Bool × Live)
  unfolding install_fold ahead
  refresh_if_stale live object = if unshipped live.0 object then ret (false, live) else do
    folded ← attempt (fold_committed object)
    ret (install_fold live object (ahead live.0 object folded))

  unfoldable pub refold_clean_base : Live → Bytes → Io (Bool × Live)
  unfolding install_fold
  refold_clean_base live object =
      if starts_with (codes "_") object
        || (unshipped live.0 object || not (is_some (lookup object live.0.objects)))
      then ret (false, live)
      else do folded ← attempt (fold_committed object); ret (install_fold live object folded)

module _ (to_vec : List OpResult → Bytes) (query : Bytes → Bytes → List Bytes → Option OpResult)
    (listening : ℕ → Bool) where
  -- A poll whose query gave a result.
  unfoldable pub judge : PendingPoll → OpResult → Sifted → Sifted
  unfolding poll_hash poll_ready
  judge p result rest =
      let hash = poll_hash to_vec (result ∷ []) in
      if poll_ready p.baseline (result ∷ []) hash
      then record rest {
        fired = record { resp = p.resp; results = result ∷ []; hash = hash } ∷ rest.fired;
      }
      else record rest { keep = p ∷ rest.keep }

  unfoldable pub sift_one : Bytes → Bool → PendingPoll → Sifted → Sifted
  unfolding judge
  sift_one image pass p rest =
      if not (listening p.resp)
      then rest
      else if other_pass p.durable pass
      then record rest { keep = p ∷ rest.keep }
      else elim (query image p.sql p.params) [
        | some result ↦ judge p result rest
        | none ↦ record rest { errors = failed p.resp ∷ rest.errors }
      ]

  unfoldable pub sift : Bytes → Bool → List PendingPoll → Sifted
  unfolding sift_one
  sift image pass [] = record { fired = []; keep = []; errors = [] }
  sift image pass (p ∷ list) = sift_one image pass p (sift image pass list)

  abbrev pub put_back :
      Bytes → List PendingPoll → Map Bytes (List PendingPoll) → Map Bytes (List PendingPoll)
  put_back object [] polls = remove object polls
  put_back object (p ∷ keep) polls = insert object (p ∷ keep) polls

  unfoldable pub after_sift : Worker → Bytes → Sifted → List Fired × Worker
  after_sift w object s =
      (s.fired, record w { polls = put_back object s.keep w.polls; sent = w.sent ++ s.errors })

  -- Of an object that is not live the polls keep waiting.
  unfoldable pub take_fired_polls : Map Bytes Bytes → Worker → Bytes → Bool → List Fired × Worker
  unfolding sift after_sift
  take_fired_polls images w object pass = elim (lookup object w.polls) [
    | none ↦ ([], w)
    | some list ↦ elim (lookup object images) [
      | none ↦ ([], w)
      | some image ↦ after_sift w object (sift image pass list)
    ]
  ]

  -- `for (resp, fired) in .. { let _ = resp.send(Ok(fired)); }`
  unfoldable pub answer_fired : List Fired × Worker → Worker
  answer_fired (fired, w) = record w { sent = w.sent ++ map (λ (f : Fired). acked f.resp) fired }

  module _ (opens : Bytes → Bytes → Bool) where
    -- The answer to a durable poll on the refreshed image.
    unfoldable pub fire_fresh :
        Bool × Live → Bytes → Option Bytes → Op Bytes → Option (List OpResult × Bytes)
    unfolding poll_hash poll_ready
    fire_fresh (false, live) object baseline op = none
    fire_fresh (true, (w, images)) object baseline op = elim (lookup object images) [
      | none ↦ none
      | some image ↦ elim (query image op.sql op.params) [
        | none ↦ none
        | some result ↦
            let hash = poll_hash to_vec (result ∷ []) in
            if poll_ready baseline (result ∷ []) hash then some (result ∷ [], hash) else none
      ]
    ]

    unfoldable pub refresh_stale_poll :
        Live → Bytes → Option Bytes → Op Bytes → Io (Option (List OpResult × Bytes) × Bool × Live)
    unfolding refresh_if_stale fire_fresh
    refresh_stale_poll live object baseline op = do
      r ← refresh_if_stale opens live object
      ret (fire_fresh r object baseline op, r.0, r.1)

    unfoldable pub fire_both : Live → Bytes → Live
    unfolding take_fired_polls answer_fired
    fire_both (w, images) object =
        let w1 = answer_fired (take_fired_polls images w object true) in
        (answer_fired (take_fired_polls images w1 object false), images)

    -- One object of `RecheckPolls`: it catches up when the log has moved on, and its polls fire.
    unfoldable pub recheck_one : Live → Bytes → Io Live
    unfolding install_fold fire_both
    recheck_one live object = if unshipped live.0 object then ret live else do
      cs ← attempt (committed_seq object)
      folded ←
          if ltb (or_zero (lookup object live.0.log_seq)) (or_zero cs)
          then attempt (fold_committed object)
          else ret none
      ret (fire_both (install_fold opens live object folded).1 object)

    unfoldable pub recheck_all : Live → List Bytes → Io Live
    unfolding recheck_one
    recheck_all live [] = ret live
    recheck_all live (object ∷ objects) = do
      live' ← recheck_one live object
      recheck_all live' objects

    unfoldable pub recheck_polls : Live → Io Live
    unfolding recheck_all
    recheck_polls (w, images) =
        recheck_all (w, images) (map (λ (e : Bytes × List PendingPoll). e.0) w.polls)
