-- ===== src/Activation/Cache.antt =====
-- object.rs, that the cache of a live file only saves work.
use fafo.Prelude.{
  ℕ, ◌+◌, ◌≤◌, ◌<◌, ◌≡◌, refl, sym, ap, ◌∙◌, Bool, true, false, ◌&&◌, Option, none, some, List, [],
  ◌∷◌, ◌++◌, arith, leb, ltb, max, length, if◌then◌else◌, All, Bool-cases, Option-cases, ◌⊎◌, inl,
  inr, some_inj, leb→le,
}
use fafo.Prelude.Bytes.{Bytes}
use fafo.Store as Store
use fafo.Store.{MemInner}
use fafo.Objlog.Io.{run, ◌>>=◌}
use fafo.Delta.{change_counter}
use fafo.Delta.Keys.{delta_prefix, parse_delta_counter}
use fafo.Worker.Ship.{object_key}
use fafo.Worker.Recovery.{counter_in}
use fafo.Worker.Recovery.Promotion.{base_counter, counter_of_base}
use fafo.Activation.{
  apply_chain, choose_image, build_image, fetch_image, trusted, max_durable, or_default,
}
use fafo.Activation.Chain.{
  UpToCounter, AboveCounter, BelowCounter, chain, chain-behind, chain-ahead,
}

-- The image that the loop starts from.
abbrev chosen : Option Bytes → Option Bytes → Bytes
chosen none stored = or_default stored
chosen (some cache) stored = cache

start_chain :
    (s : MemInner) (id : Bytes) (base : ℕ) (keys : List Bytes) (o : Option Bytes)
    → let image = chosen o (Store.get s (object_key id)) in
      (run
        (choose_image id o >>= λ image. apply_chain id base (change_counter image) keys image 0)
        []
        s).0
      ≡ chain s id base (change_counter image) keys image 0
unfolding choose_image run ◌>>=◌ Store.effects
start_chain s id base keys none = refl
start_chain s id base keys (some cache) = refl

build_image-chain :
    (s : MemInner) (id : Bytes) (cached : Option Bytes) (base : ℕ)
    → let keys = Store.list s (delta_prefix id) in
      let image =
        chosen
          (trusted base (max_durable id base keys base) cached)
          (Store.get s (object_key id)) in
      (run (build_image id cached base) [] s).0
      ≡ chain s id base (change_counter image) keys image 0
unfolding build_image run ◌>>=◌ Store.effects
build_image-chain s id cached base =
    let keys = Store.list s (delta_prefix id) in
    start_chain s id base keys (trusted base (max_durable id base keys base) cached)

trusted-cases :
    (base reach : ℕ) (cache : Bytes)
    → (trusted base reach (some cache) ≡ some cache) ⊎ (trusted base reach (some cache) ≡ none)
unfolding trusted
trusted-cases base reach cache =
    elim (Bool-cases (
      leb 100 (length cache)
      && (leb base (change_counter cache) && leb (change_counter cache) reach))) [
        | inl y ↦ inl (rw y refl)
        | inr n ↦ inr (rw n refl)
      ]

fetch_image-build :
    (s : MemInner) (id : Bytes) (cached : Option Bytes) (base : ℕ)
    → base_counter s id ≡ some base
    → (run (fetch_image false id cached) [] s).0 ≡ (run (build_image id cached base) [] s).0
unfolding fetch_image run ◌>>=◌ Store.effects counter_in Store.list Store.get_range
    fafo.Prelude.lookup
fetch_image-build s id cached base e = rw e refl

-- The listed deltas reach below `h` only.
max_durable-lt :
    (id : Bytes) (base h : ℕ) (keys : List Bytes) (reach : ℕ)
    → reach < h
    → BelowCounter id h keys
    → max_durable id base keys reach < h
unfolding max_durable
max_durable-lt id base h [] reach lt below = lt
max_durable-lt id base h (key ∷ keys) reach lt (first, below) =
    elim (Option-cases (parse_delta_counter key id)) [
      | inl n ↦ rw n (max_durable-lt id base h keys reach lt below)
      | inr (c, e) ↦
          let low = first c e in
          rw e (
            max_durable-lt id base h keys (if ltb base c then max reach c else reach) (ground arith)
              below)
    ]

-- The file in the live directory, as it stands to the base and the listed deltas: too short to have a
-- header, older than the base, newer than all that is durable (as after a fork, or a boat that sank),
-- or what the deltas up to its own counter make of the base.
pub data CacheFile (s : MemInner) (id cache stored : Bytes) : Type 0 where
  short : length cache < 100 → CacheFile s id cache stored
  older : change_counter cache < change_counter stored → CacheFile s id cache stored
  newer :
      change_counter stored < change_counter cache
      → BelowCounter id (change_counter cache) (Store.list s (delta_prefix id))
      → CacheFile s id cache stored
  caught_up :
      (pre post : List Bytes) (total : ℕ)
      → Store.list s (delta_prefix id) ≡ pre ++ post
      → UpToCounter id (change_counter cache) pre
      → AboveCounter id (change_counter cache) post
      → chain s id (change_counter stored) (change_counter stored) pre stored 0
        ≡ some (cache, total)
      → CacheFile s id cache stored

module _ (s : MemInner) (id cache stored : Bytes) where
  abbrev from_base : ℕ
  from_base = change_counter stored

  abbrev durable_reach : ℕ
  durable_reach = max_durable id from_base (Store.list s (delta_prefix id)) from_base

  -- A file that the guard refuses leaves the activation as it is without one.
  refused_file :
      Store.get s (object_key id) ≡ some stored
      → 100 ≤ length stored
      → trusted from_base durable_reach (some cache) ≡ none
      → (run (fetch_image false id (some cache)) [] s).0 ≡ (run (fetch_image false id none) [] s).0
  unfolding trusted
  refused_file there long refused =
      let found = counter_of_base s id stored there long in
      let from = λ (o : Option Bytes).
        chain s id from_base (change_counter (chosen o (Store.get s (object_key id))))
          (Store.list s (delta_prefix id)) (chosen o (Store.get s (object_key id))) 0 in
      fetch_image-build s id (some cache) from_base found
      ∙ build_image-chain s id (some cache) from_base
      ∙ ap from refused
      ∙ sym (build_image-chain s id none from_base)
      ∙ sym (fetch_image-build s id none from_base found)

  caught_up_file :
      (pre post : List Bytes) (total : ℕ)
      → Store.get s (object_key id) ≡ some stored
      → 100 ≤ length stored
      → Store.list s (delta_prefix id) ≡ pre ++ post
      → UpToCounter id (change_counter cache) pre
      → AboveCounter id (change_counter cache) post
      → chain s id (change_counter stored) (change_counter stored) pre stored 0
        ≡ some (cache, total)
      → (run (fetch_image false id (some cache)) [] s).0 ≡ (run (fetch_image false id none) [] s).0
  unfolding trusted
  caught_up_file pre post total there long listed up above made =
      let base = change_counter stored in
      let keys = Store.list s (delta_prefix id) in
      let found = counter_of_base s id stored there long in
      let with_file =
        fetch_image-build s id (some cache) base found ∙ build_image-chain s id (some cache) base in
      let without =
        fetch_image-build s id none base found
        ∙ build_image-chain s id none base
        ∙ ap (λ o. chain s id base (change_counter (chosen none o)) keys (chosen none o) 0) there in
      let (of_base, of_cache) =
        chain-behind s id base (change_counter cache) pre post stored cache 0 cache total up made in
      let agree =
        of_cache
        ∙ sym (chain-ahead s id base (change_counter cache) post cache total above)
        ∙ sym of_base in
      let from = λ (o : Option Bytes).
        chain s id base (change_counter (chosen o (Store.get s (object_key id)))) keys
          (chosen o (Store.get s (object_key id))) 0 in
      let same : from (trusted base (max_durable id base keys base) (some cache))
          ≡ chain s id base base keys stored 0 =
        elim (trusted-cases base (max_durable id base keys base) cache) [
          | inl e ↦
              ap from e
              ∙ ap (λ ks. chain s id base (change_counter cache) ks cache 0) listed
              ∙ agree
              ∙ sym (ap (λ ks. chain s id base base ks stored 0) listed)
          | inr e ↦
              ap from e
              ∙ ap (λ o. chain s id base (change_counter (chosen none o)) keys (chosen none o) 0)
                  there
        ] in
      with_file ∙ same ∙ sym without

  -- With no other task at work and in the mode of base and deltas, an activation returns the same
  -- image and length of the chain with the file in the live directory as without it, whether the file
  -- is short, older than the base, newer than all that is durable, or what the listed deltas up to
  -- its own change counter make of the base, when those come first in the listing.
  pub fetch_image-cache :
      Store.get s (object_key id) ≡ some stored
      → 100 ≤ length stored
      → CacheFile s id cache stored
      → (run (fetch_image false id (some cache)) [] s).0 ≡ (run (fetch_image false id none) [] s).0
  unfolding trusted
  fetch_image-cache there long (short lt) = refused_file there long (ground arith)
  fetch_image-cache there long (older lt) = refused_file there long (ground arith)
  fetch_image-cache there long (newer lt below) =
      let reach =
        max_durable-lt id from_base (change_counter cache) (Store.list s (delta_prefix id))
          from_base lt below in
      refused_file there long (ground arith)
  fetch_image-cache there long (caught_up pre post total listed up above made) =
      caught_up_file pre post total there long listed up above made
