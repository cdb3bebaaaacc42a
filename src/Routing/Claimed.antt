-- ===== src/Routing/Claimed.antt =====
-- cluster.rs, `claimed_ranges` and `owns_worker`: the workers that the block leases of a node cover.
use fafo.Prelude.{
  ℕ, ◌+◌, ◌*◌, ◌^◌, ◌≤◌, ◌<◌, ◌≡◌, refl, ap, ◌∙◌, Bool, ◌&&◌, ◌||◌, inl, inr, List, [], ◌∷◌, map,
  arith, ltb, leb, nat_beq, nat_beq_iff, nat_eq, if◌then◌else◌, any, All, Map, lookup, Bool-cases,
}
use fafo.Store.{is_some}
use fafo.Routing.Blocks.{block_of, block_range, block_range_ordered, block_of-iff-block_range}

-- `blocks.sort_unstable()`
unfoldable pub insert_block : ℕ → List ℕ → List ℕ
insert_block b [] = b ∷ []
insert_block b (c ∷ cs) = let rest = insert_block b cs in if ltb c b then c ∷ rest else b ∷ (c ∷ cs)

unfoldable pub sort_blocks : List ℕ → List ℕ
unfolding insert_block
sort_blocks [] = []
sort_blocks (b ∷ bs) = insert_block b (sort_blocks bs)

-- The `match` on `ranges.last_mut()`.
unfoldable pub push_range : List (ℕ × ℕ) → ℕ × ℕ → List (ℕ × ℕ)
push_range [] r = r ∷ []
push_range (p ∷ []) (start, end) =
    if nat_beq p.1 start then (p.0, end) ∷ [] else p ∷ ((start, end) ∷ [])
push_range (p ∷ (q ∷ ps)) r = p ∷ push_range (q ∷ ps) r

unfoldable pub ranges_from : ℕ → ℕ → List (ℕ × ℕ) → List ℕ → List (ℕ × ℕ)
unfolding push_range
ranges_from logical blocks ranges [] = ranges
ranges_from logical blocks ranges (b ∷ bs) =
    ranges_from logical blocks (push_range ranges (block_range b logical blocks)) bs

unfoldable pub claimed_ranges : ℕ → ℕ → Map ℕ ℕ → List (ℕ × ℕ)
unfolding sort_blocks ranges_from
claimed_ranges logical blocks epochs =
    ranges_from logical blocks [] (sort_blocks (map (λ (e : ℕ × ℕ). e.0) epochs))

unfoldable pub owns_worker : ℕ → ℕ → Map ℕ ℕ → ℕ → Bool
owns_worker logical blocks epochs worker = is_some (lookup (block_of worker logical blocks) epochs)

abbrev pub inside : ℕ → ℕ × ℕ → Bool
inside w r = leb r.0 w && ltb w r.1

abbrev IsOrdered : ℕ × ℕ → Type 0
IsOrdered r = r.0 ≤ r.1

push_range-inside :
    (w : ℕ) (ranges : List (ℕ × ℕ)) (r : ℕ × ℕ)
    → All IsOrdered ranges
    → IsOrdered r
    → any (inside w) (push_range ranges r) ≡ any (inside w) ranges || inside w r
unfolding push_range
push_range-inside w [] r h o = ground arith
push_range-inside w (p ∷ []) r h o = elim (Bool-cases (nat_beq p.1 r.0)) [
  | inl e ↦ rw (e, push_range) (ground (arith, h.0, o, nat_beq_iff p.1 r.0))
  | inr e ↦ rw (e, push_range) (ground arith)
]
push_range-inside w (p ∷ (q ∷ ps)) r h o = ground (arith, push_range-inside w (q ∷ ps) r h.1 o)

push_range-IsOrdered :
    (ranges : List (ℕ × ℕ)) (r : ℕ × ℕ)
    → All IsOrdered ranges
    → IsOrdered r
    → All IsOrdered (push_range ranges r)
unfolding push_range
push_range-IsOrdered [] r h o = (o, tt)
push_range-IsOrdered (p ∷ []) r h o = elim (Bool-cases (nat_beq p.1 r.0)) [
  | inl e ↦ rw (e, push_range) (omega (arith, h.0, o, (nat_beq_iff p.1 r.0).0 e), tt)
  | inr e ↦ rw (e, push_range) (h.0, (o, tt))
]
push_range-IsOrdered (p ∷ (q ∷ ps)) r h o = (h.0, push_range-IsOrdered (q ∷ ps) r h.1 o)

-- The block's workers are numbered within 64 bits.
abbrev pub Fits : ℕ → ℕ → Type 0
Fits logical b = (b + 1) * logical < 2 ^ 64

insert_block-All :
    (P : ℕ → Type 0) (b : ℕ) (bs : List ℕ) → P b → All P bs → All P (insert_block b bs)
unfolding insert_block
insert_block-All P b [] p h = (p, tt)
insert_block-All P b (c ∷ cs) p h = elim (Bool-cases (ltb c b)) [
  | inl e ↦ rw (e, insert_block) (h.0, insert_block-All P b cs p h.1)
  | inr e ↦ rw (e, insert_block) (p, h)
]

sort_blocks-All : (P : ℕ → Type 0) (bs : List ℕ) → All P bs → All P (sort_blocks bs)
unfolding sort_blocks
sort_blocks-All P [] h = tt
sort_blocks-All P (b ∷ bs) h = insert_block-All P b (sort_blocks bs) h.0 (sort_blocks-All P bs h.1)

any-insert_block :
    (p : ℕ → Bool) (b : ℕ) (bs : List ℕ) → any p (insert_block b bs) ≡ p b || any p bs
unfolding insert_block
any-insert_block p b [] = refl
any-insert_block p b (c ∷ cs) = ground (arith, any-insert_block p b cs)

any-sort_blocks : (p : ℕ → Bool) (bs : List ℕ) → any p (sort_blocks bs) ≡ any p bs
unfolding sort_blocks
any-sort_blocks p [] = refl
any-sort_blocks p (b ∷ bs) =
    any-insert_block p b (sort_blocks bs) ∙ ap (λ x. p b || x) (any-sort_blocks p bs)

module _ (logical blocks w : ℕ) (some_blocks : 0 < blocks) where
  ranges_from-inside :
      (ranges : List (ℕ × ℕ)) (bs : List ℕ)
      → All IsOrdered ranges
      → All (Fits logical) bs
      → any (inside w) (ranges_from logical blocks ranges bs)
        ≡ any (inside w) ranges || any (λ b. inside w (block_range b logical blocks)) bs
  unfolding ranges_from
  ranges_from-inside ranges [] h f = ground arith
  ranges_from-inside ranges (b ∷ bs) h f =
      let r = block_range b logical blocks in
      let o = block_range_ordered b logical blocks some_blocks f.0 in
      let ih =
        ranges_from-inside (push_range ranges r) bs (push_range-IsOrdered ranges r h o) f.1 in
      ground (arith, ih, push_range-inside w ranges r h o)

  held_blocks :
      (epochs : Map ℕ ℕ)
      → 0 < logical
      → w * blocks < 2 ^ 64
      → All (Fits logical) (map (λ (e : ℕ × ℕ). e.0) epochs)
      → any (λ b. inside w (block_range b logical blocks)) (map (λ (e : ℕ × ℕ). e.0) epochs)
        ≡ is_some (lookup (block_of w logical blocks) epochs)
  unfolding lookup
  held_blocks [] l k f = refl
  held_blocks ((b, e) ∷ epochs) l k f = ground (
    arith,
    block_of-iff-block_range w b logical blocks l some_blocks k f.0,
    held_blocks epochs l k f.1,
  )

-- A worker lies in one of the merged ranges that a node claims exactly when the node holds the lease
-- of the worker's block, where there are workers and blocks and no product wraps around.
pub claimed_ranges-owns_worker :
    (logical blocks worker : ℕ) (epochs : Map ℕ ℕ)
    → 0 < logical
    → 0 < blocks
    → worker * blocks < 2 ^ 64
    → All (Fits logical) (map (λ (e : ℕ × ℕ). e.0) epochs)
    → any (inside worker) (claimed_ranges logical blocks epochs)
      ≡ owns_worker logical blocks epochs worker
unfolding claimed_ranges owns_worker
claimed_ranges-owns_worker logical blocks worker epochs l b k f =
    let held = map (λ (e : ℕ × ℕ). e.0) epochs in
    ranges_from-inside logical blocks worker b [] (sort_blocks held) tt
      (sort_blocks-All (Fits logical) held f)
    ∙ any-sort_blocks _ held
    ∙ held_blocks logical blocks worker b epochs l k f
