-- ===== src/Activation/Chain.antt =====
-- object.rs, the loop of `fetch_image` from a base and from a cache.
use fafo.Prelude.{
  ℕ, ◌+◌, ◌≤◌, ◌<◌, ◌≡◌, refl, sym, ap, ◌∙◌, true, false, Option, none, some, List, [], ◌∷◌, ◌++◌,
  arith, leb, All, Bool-cases, Option-cases, inl, inr, some_inj, leb→le,
}
use fafo.Prelude.Bytes.{Bytes}
use fafo.Store as Store
use fafo.Store.{MemInner}
use fafo.Objlog.Io.{run, ◌>>=◌}
use fafo.Delta.Keys.{parse_delta_counter}
use fafo.Activation.{apply_blob, apply_chain}

-- The counters of the keys are at most `h`, above it, or below it.
abbrev pub UpToCounter : Bytes → ℕ → List Bytes → Type 0
UpToCounter id h keys = All (λ key. (c : ℕ) → parse_delta_counter key id ≡ some c → c ≤ h) keys

abbrev pub AboveCounter : Bytes → ℕ → List Bytes → Type 0
AboveCounter id h keys = All (λ key. (c : ℕ) → parse_delta_counter key id ≡ some c → h < c) keys

abbrev pub BelowCounter : Bytes → ℕ → List Bytes → Type 0
BelowCounter id h keys = All (λ key. (c : ℕ) → parse_delta_counter key id ≡ some c → c < h) keys

-- The loop in a store where no other task is at work: the result alone.
abbrev pub chain : MemInner → Bytes → ℕ → ℕ → List Bytes → Bytes → ℕ → Option (Bytes × ℕ)
chain s id base have keys image total = (run (apply_chain id base have keys image total) [] s).0

module _ (s : MemInner) (id : Bytes) (base : ℕ) where
  chain-skip :
      (have : ℕ) (key : Bytes) (keys : List Bytes) (image : Bytes) (total : ℕ)
      → parse_delta_counter key id ≡ none
      → chain s id base have (key ∷ keys) image total ≡ chain s id base have keys image total
  unfolding apply_chain run parse_delta_counter
  chain-skip have key keys image total n = rw (n, apply_chain) refl

  chain-old :
      (have : ℕ) (key : Bytes) (keys : List Bytes) (image : Bytes) (total c : ℕ)
      → parse_delta_counter key id ≡ some c
      → c ≤ base
      → chain s id base have (key ∷ keys) image total ≡ chain s id base have keys image total
  unfolding apply_chain run parse_delta_counter
  chain-old have key keys image total c e le =
      let t : leb c base ≡ true = ground arith in rw (e, apply_chain, t) refl

  chain-had :
      (have : ℕ) (key : Bytes) (keys : List Bytes) (image : Bytes) (total c : ℕ)
      → parse_delta_counter key id ≡ some c
      → base < c
      → c ≤ have
      → chain s id base have (key ∷ keys) image total ≡ chain s id base have keys image (total + 1)
  unfolding apply_chain run parse_delta_counter
  chain-had have key keys image total c e lt le =
      let t : leb c base ≡ false = ground arith in
      let u : leb c have ≡ true = ground arith in rw (e, apply_chain, t, u) refl

  -- What a new delta does: its image, or the end of the run.
  abbrev with_blob : ℕ → List Bytes → ℕ → Option Bytes → Option (Bytes × ℕ)
  with_blob have keys total none = none
  with_blob have keys total (some image) = chain s id base have keys image (total + 1)

  chain-new :
      (have : ℕ) (key : Bytes) (keys : List Bytes) (image : Bytes) (total c : ℕ)
      → parse_delta_counter key id ≡ some c
      → base < c
      → have < c
      → chain s id base have (key ∷ keys) image total
        ≡ with_blob have keys total (apply_blob image (Store.get s key))
  unfolding apply_chain run ◌>>=◌ Store.effects parse_delta_counter Store.get
  chain-new have key keys image total c e lt gt =
      let t : leb c base ≡ false = ground arith in
      let u : leb c have ≡ false = ground arith in
      elim (Option-cases (apply_blob image (Store.get s key))) [
        | inl n ↦ rw (e, apply_chain, t, u, n) refl
        | inr (i, j) ↦ rw (e, apply_chain, t, u, j) refl
      ]

  -- The cases of the head of the list.
  by_counter :
      {A : Type 0} (key : Bytes)
      → ((parse_delta_counter key id ≡ none) → A)
      → ((c : ℕ) → parse_delta_counter key id ≡ some c → c ≤ base → A)
      → ((c : ℕ) → parse_delta_counter key id ≡ some c → base < c → A)
      → A
  by_counter key none_case old_case new_case = elim (Option-cases (parse_delta_counter key id)) [
    | inl n ↦ none_case n
    | inr (c, e) ↦ elim (Bool-cases (leb c base)) [
      | inl y ↦ old_case c e (leb→le c base y)
      | inr n ↦ new_case c e (ground arith)
    ]
  ]

  -- With the deltas up to `h` behind it, a run from the base and a run from a cache of counter `h`
  -- stand at the same place of the list, with the same total.
  pub chain-behind :
      (h : ℕ) (pre post : List Bytes) (image cache : Bytes) (total : ℕ) (image' : Bytes)
      (total' : ℕ)
      → UpToCounter id h pre
      → chain s id base base pre image total ≡ some (image', total')
      → (chain s id base base (pre ++ post) image total ≡ chain s id base base post image' total')
        × (chain s id base h (pre ++ post) cache total ≡ chain s id base h post cache total')
  unfolding apply_chain run
  chain-behind h [] post image cache total image' total' up done =
      let e = some_inj done in
      (
        ap (λ (p : Bytes × ℕ). chain s id base base post p.0 p.1) e,
        ap (λ (p : Bytes × ℕ). chain s id base h post cache p.1) e,
      )
  chain-behind h (key ∷ pre) post image cache total image' total' (le, up) done =
      by_counter key
        (λ n.
          let (a, b) =
            chain-behind h pre post image cache total image' total' up
              (sym (chain-skip base key pre image total n) ∙ done) in
          (
            chain-skip base key (pre ++ post) image total n ∙ a,
            chain-skip h key (pre ++ post) cache total n ∙ b,
          ))
        (λ c e old.
          let (a, b) =
            chain-behind h pre post image cache total image' total' up
              (sym (chain-old base key pre image total c e old) ∙ done) in
          (
            chain-old base key (pre ++ post) image total c e old ∙ a,
            chain-old h key (pre ++ post) cache total c e old ∙ b,
          ))
        (λ c e new.
          let first = sym (chain-new base key pre image total c e new new) ∙ done in
          elim (Option-cases (apply_blob image (Store.get s key))) [
            | inl n ↦
                let stuck : none ≡ some (image', total') =
                  sym (ap (with_blob base pre total) n) ∙ first in
                absurd (ground arith)
            | inr (next, j) ↦
                let (a, b) =
                  chain-behind h pre post next cache (total + 1) image' total' up
                    (sym (ap (with_blob base pre total) j) ∙ first) in
                (
                  chain-new base key (pre ++ post) image total c e new new
                      ∙ ap (with_blob base (pre ++ post) total) j
                      ∙ a,
                  chain-had h key (pre ++ post) cache total c e new (le c e) ∙ b,
                )
          ])

  -- Above `h` and the base, both runs do the same.
  pub chain-ahead :
      (h : ℕ) (post : List Bytes) (image : Bytes) (total : ℕ)
      → AboveCounter id h post
      → chain s id base base post image total ≡ chain s id base h post image total
  unfolding apply_chain run
  chain-ahead h [] image total above = refl
  chain-ahead h (key ∷ post) image total (lt, above) =
      by_counter key
        (λ n.
          chain-skip base key post image total n
          ∙ chain-ahead h post image total above
          ∙ sym (chain-skip h key post image total n))
        (λ c e old.
          chain-old base key post image total c e old
          ∙ chain-ahead h post image total above
          ∙ sym (chain-old h key post image total c e old))
        (λ c e new.
          chain-new base key post image total c e new new
          ∙ same_blob (λ next. chain-ahead h post next (total + 1) above)
              (apply_blob image (Store.get s key))
          ∙ sym (chain-new h key post image total c e new (lt c e)))
    where
      same_blob :
          ((next : Bytes)
            → chain s id base base post next (total + 1) ≡ chain s id base h post next (total + 1))
          → (o : Option Bytes) → with_blob base post total o ≡ with_blob h post total o
      same_blob ahead none = refl
      same_blob ahead (some next) = ahead next
