-- ===== src/Cluster/Nonce/Rising.antt =====
-- cluster.rs, whether two boots of an address draw different nonces.
use fafo.Prelude.{
  ap, sym, ◌∙◌, ℕ, zero, suc, ◌+◌, ◌≡◌, ◌≤◌, ◌<◌, refl, true, ◌⊎◌, inl, inr, none, some, List, [],
  ◌∷◌, arith, nat_beq, if◌then◌else◌, Bool-cases, length,
}
use fafo.Prelude.Bytes.{Bytes, bytes_beq_refl}
use fafo.Store.{MemInner, Call, effects, version, put_cas, put, high_water, bump, get}
use fafo.Store.Versions.{effects-Since, high_water-put, get-put}
use fafo.Objlog.Io.{Fault}
use fafo.Cluster.Nonce.{
  Round, next_round, later_rounds, swapped, draw_within, nonce_tries, draw_nonce, boot_key,
  boot_tag, default_version, default_put_cas,
}

-- No call lowers the high water of a key.
effects-Rising :
    (s : MemInner) (key : Bytes) (cs : List Call) → high_water s key ≤ high_water (effects s cs) key
effects-Rising s key cs =
    elim (effects-Since (high_water s key) (get s key) key s cs (inr (refl, inl refl))) [
      | inl above ↦ omega (arith, above)
      | inr (same, _) ↦ omega (arith, same)
    ]

-- From a state on: the high water has not sunk, and a nonce that was drawn lies above what it was and
-- not above what it is.
abbrev pub Drawn : Bytes → MemInner → ℕ × MemInner → Type 0
Drawn key s (nonce, s') =
    (high_water s key ≤ high_water s' key)
    × ((nonce ≡ 0) ⊎ ((high_water s key < nonce) × (nonce ≤ high_water s' key)))

Drawn-later :
    (key : Bytes) (s t : MemInner) (r : ℕ × MemInner)
    → high_water s key ≤ high_water t key
    → Drawn key t r
    → Drawn key s r
Drawn-later key s t (nonce, s') le (up, n) = (
  omega (arith, le, up),
  elim n [
    | inl none_drawn ↦ inl none_drawn
    | inr (above, below) ↦ inr (omega (arith, le, above), below)
  ],
)

put_cas-cases :
    (s : MemInner) (key bytes : Bytes) (v : ℕ)
    → (put_cas s key v bytes ≡ (none, s))
      ⊎ (put_cas s key v bytes ≡ (some (high_water s key + 1), put s key bytes))
unfolding put_cas bump high_water
put_cas-cases s key bytes v = elim (Bool-cases (nat_beq (version s key) v)) [
  | inl y ↦ rw y (inr refl)
  | inr n ↦ rw n (inl refl)
]

put-Rising :
    (s : MemInner) (key bytes : Bytes) → high_water (put s key bytes) key ≡ high_water s key + 1
put-Rising s key bytes = ground (arith, high_water-put s key key bytes, bytes_beq_refl key)

module _ (key bytes : Bytes) (next : MemInner → ℕ × MemInner) where
  missed-Drawn :
      (f : Fault) (s : MemInner)
      → ((t : MemInner) → Drawn key t (next t))
      → Drawn key s (swapped next f s (none, s))
  unfolding swapped
  missed-Drawn Fault.sound s ih = ih s
  missed-Drawn Fault.refused s ih = ih s
  missed-Drawn Fault.lost s ih = ih s

  made-Drawn :
      (f : Fault) (s : MemInner)
      → ((t : MemInner) → Drawn key t (next t))
      → Drawn key s (swapped next f s (some (high_water s key + 1), put s key bytes))
  unfolding swapped
  made-Drawn Fault.sound s ih =
      let up = put-Rising s key bytes in (omega arith, inr (omega arith, omega arith))
  made-Drawn Fault.refused s ih = ih s
  made-Drawn Fault.lost s ih =
      let up = put-Rising s key bytes in
      Drawn-later key s (put s key bytes) (next (put s key bytes)) (omega arith)
        (ih (put s key bytes))

  swapped-Drawn :
      (f : Fault) (s : MemInner) (v : ℕ)
      → ((t : MemInner) → Drawn key t (next t))
      → Drawn key s (swapped next f s (put_cas s key v bytes))
  swapped-Drawn f s v ih = elim (put_cas-cases s key bytes v) [
    | inl e ↦ rw e (missed-Drawn f s ih)
    | inr e ↦ rw e (made-Drawn f s ih)
  ]

  -- A nonce that is drawn is not 0.
  swapped-pos :
      (f : Fault) (s : MemInner) (v : ℕ)
      → ((t : MemInner) → 0 < (next t).0)
      → 0 < (swapped next f s (put_cas s key v bytes)).0
  unfolding swapped
  swapped-pos Fault.sound s v ih = elim (put_cas-cases s key bytes v) [
    | inl e ↦ rw (e, swapped) (ih s)
    | inr e ↦ rw (e, swapped) (omega arith)
  ]
  swapped-pos Fault.refused s v ih = ih s
  swapped-pos Fault.lost s v ih = ih (put_cas s key v bytes).1

draw_within-Drawn :
    (tries : ℕ) (key bytes : Bytes) (rounds : List Round) (s : MemInner)
    → Drawn key s (draw_within version put_cas tries key bytes rounds s)
unfolding draw_within
draw_within-Drawn zero key bytes rounds s = (omega arith, inl refl)
draw_within-Drawn (suc tries) key bytes rounds s =
    let r = next_round rounds in
    let s1 = effects s r.before_read in
    let s2 = effects s1 r.before_swap in
    let v = if r.read_fails then 0 else version s1 key in
    let next = draw_within version put_cas tries key bytes (later_rounds rounds) in
    let up = effects-Rising s key r.before_read in
    let up' = effects-Rising s1 key r.before_swap in
    Drawn-later key s s2 (swapped next r.swap s2 (put_cas s2 key v bytes)) (omega arith) (
      swapped-Drawn key bytes next r.swap s2 v
        (λ t. draw_within-Drawn tries key bytes (later_rounds rounds) t))

quiet-pos :
    (key bytes : Bytes) (next : MemInner → ℕ × MemInner) (s : MemInner)
    → 0 < (swapped next Fault.sound s (put_cas s key (version s key) bytes)).0
unfolding swapped put_cas bump
quiet-pos key bytes next s =
    let same : nat_beq (version s key) (version s key) ≡ true = ground arith in
    rw (same, swapped) (omega arith)

draw_within-pos :
    (tries : ℕ) (key bytes : Bytes) (rounds : List Round) (s : MemInner)
    → length rounds < tries
    → 0 < (draw_within version put_cas tries key bytes rounds s).0
unfolding draw_within effects
draw_within-pos zero key bytes rounds s l = absurd (omega arith)
draw_within-pos (suc tries) key bytes [] s l =
    quiet-pos key bytes (draw_within version put_cas tries key bytes []) s
draw_within-pos (suc tries) key bytes (r ∷ rounds) s l =
    let s1 = effects s r.before_read in
    swapped-pos key bytes (draw_within version put_cas tries key bytes rounds) r.swap
      (effects s1 r.before_swap) (if r.read_fails then 0 else version s1 key)
      (λ t. draw_within-pos tries key bytes rounds t (omega arith))

-- On the store in memory two boots of an address draw different nonces, the later one the greater,
-- where other tasks or the store disturb each of them in fewer rounds than the loop has; and neither
-- is 0, the value before the loop. Between the boots anything may happen to the store.
boot_nonces_rise :
    (advertise : Bytes) (first second : List Round) (between : List Call) (s : MemInner)
    → length first < nonce_tries
    → length second < nonce_tries
    → let r1 = draw_nonce version put_cas advertise first s in
      let r2 = draw_nonce version put_cas advertise second (effects r1.1 between) in
      (0 < r1.0) × (r1.0 < r2.0)
unfolding draw_nonce
boot_nonces_rise advertise first second between s l l' =
    let key = boot_key advertise in
    let r1 = draw_within version put_cas nonce_tries key advertise first s in
    let t = effects r1.1 between in
    let r2 = draw_within version put_cas nonce_tries key advertise second t in
    let (up, drawn) = draw_within-Drawn nonce_tries key advertise first s in
    let (up2, drawn2) = draw_within-Drawn nonce_tries key advertise second t in
    let pos = draw_within-pos nonce_tries key advertise first s l in
    let pos2 = draw_within-pos nonce_tries key advertise second t l' in
    let kept = effects-Rising r1.1 key between in
    (
      pos,
      elim drawn [
        | inl e ↦ absurd (omega (arith, e, pos))
        | inr (a, b) ↦ elim drawn2 [
          | inl e ↦ absurd (omega (arith, e, pos2))
          | inr (c, d) ↦ omega (arith, b, c, kept)
        ]
      ],
    )

-- A swap by the trait's default, on the version that was just read.
default-one :
    (s : MemInner) (key bytes : Bytes)
    → default_put_cas s key (default_version s key) bytes ≡ (some 1, put s key bytes)
unfolding default_put_cas default_version
default-one s key bytes =
    let same : nat_beq (default_version s key) (default_version s key) ≡ true = ground arith in
    let there : get (put s key bytes) key ≡ some bytes =
      get-put s key key bytes ∙ rw (bytes_beq_refl key) refl in
    rw (same, there) refl

default_draw :
    (advertise : Bytes) (s : MemInner)
    → (draw_nonce default_version default_put_cas advertise [] s).0 ≡ 1
unfolding draw_nonce draw_within effects swapped
default_draw advertise s =
    let key = boot_key advertise in rw (default-one s key advertise, swapped) refl

-- Whether the nonce makes a boot's tag its own depends on the store. On the store in memory, two boots
-- of an address that other tasks or the store disturb in fewer rounds each than the loop has draw
-- rising nonces, neither of them 0, whatever happens to the store in between. On a store with the
-- trait's default `version` and `put_cas`, as those on disk and on R2, any two boots of an address that
-- nothing disturbs bear the same tag.
pub boot_tags_by_store :
    (advertise : Bytes) (first second : List Round) (between : List Call) (s : MemInner)
    → length first < nonce_tries
    → length second < nonce_tries
    → (let r1 = draw_nonce version put_cas advertise first s in
        let r2 = draw_nonce version put_cas advertise second (effects r1.1 between) in
        (0 < r1.0) × (r1.0 < r2.0))
      × (let r1 = draw_nonce default_version default_put_cas advertise [] s in
          let r2 = draw_nonce default_version default_put_cas advertise [] (effects r1.1 between) in
          boot_tag advertise r1.0 ≡ boot_tag advertise r2.0)
boot_tags_by_store advertise first second between s l l' = (
  boot_nonces_rise advertise first second between s l l',
  ap (boot_tag advertise) (
      default_draw advertise s
      ∙ sym (
          default_draw advertise
            (effects (draw_nonce default_version default_put_cas advertise [] s).1 between))),
)
