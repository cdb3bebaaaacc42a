-- ===== src/Routing/Placement/Plurality.antt =====
-- The choice of cluster.rs, `plurality_target`.
use mathlib.Core.List.{Memᴰ}
use fafo.Prelude.{
  ℕ, ◌+◌, ◌<◌, ◌≡◌, refl, sym, subst, true, false, ◌⊎◌, inl, inr, some, List, [], ◌∷◌, arith,
  nat_beq, nat_beq_iff, nat_eq, if◌then◌else◌, Map, lookup, Bool-cases, lookup-insert, IsMap,
  insert-IsMap, lookup_of_mem, mem_of_lookup,
}
use fafo.Prelude.Bytes.{Bytes, bytes_eq}
use fafo.Routing.Placement.{
  Routing, owner_of, or_default, bump, votes_from, Rank, rank_lt, rank, min_from, min_entry,
  plurality_target,
}

-- How many of the participants a worker owns.
pub owned_count : Routing → List Bytes → ℕ → ℕ
owned_count r [] w = 0
owned_count r (id ∷ ids) w = (if nat_beq (owner_of r id) w then 1 else 0) + owned_count r ids w

abbrev votes_for : Map ℕ ℕ → ℕ → ℕ
votes_for votes w = or_default (lookup w votes) 0

votes_for-bump :
    (w v : ℕ) (votes : Map ℕ ℕ)
    → votes_for (bump w votes) v ≡ (if nat_beq w v then 1 else 0) + votes_for votes v
unfolding bump
votes_for-bump w v votes =
    ground (arith, lookup-insert w v (or_default (lookup w votes) 0 + 1) votes, nat_beq_iff w v)

votes_for-votes_from :
    (r : Routing) (votes : Map ℕ ℕ) (ids : List Bytes) (w : ℕ)
    → votes_for (votes_from r votes ids) w ≡ owned_count r ids w + votes_for votes w
unfolding votes_from owned_count
votes_for-votes_from r votes [] w = omega arith
votes_for-votes_from r votes (id ∷ ids) w = omega (
  arith,
  votes_for-votes_from r (bump (owner_of r id) votes) ids w,
  votes_for-bump (owner_of r id) w votes,
)

votes_from-IsMap :
    (r : Routing) (votes : Map ℕ ℕ) (ids : List Bytes)
    → IsMap votes
    → IsMap (votes_from r votes ids)
unfolding votes_from bump
votes_from-IsMap r votes [] h = h
votes_from-IsMap r votes (id ∷ ids) h =
    votes_from-IsMap r (bump (owner_of r id) votes) ids (insert-IsMap (owner_of r id) _ votes h)

-- `a` does not rank after `b`.
abbrev pub RankLe : Rank → Rank → Type 0
RankLe a b = rank_lt b a ≡ false

RankLe-trans : (a b c : Rank) → RankLe a b → RankLe b c → RankLe a c
unfolding rank_lt
RankLe-trans a b c h k = ground arith

RankLe-of_lt : (a b : Rank) → rank_lt a b ≡ true → RankLe a b
unfolding rank_lt
RankLe-of_lt a b h = ground arith

RankLe-refl : (a : Rank) → RankLe a a
unfolding rank_lt
RankLe-refl a = ground arith

least_cons :
    {e : ℕ × ℕ} {m : Map ℕ ℕ} {P : ℕ × ℕ → Type 0}
    → P e
    → ((x : ℕ × ℕ) → Memᴰ x m → P x)
    → (x : ℕ × ℕ) → Memᴰ x (e ∷ m)
    → P x
least_cons {P = P} p h x (Memᴰ.head q) = subst P (sym q) p
least_cons p h x (Memᴰ.tail q) = h x q

-- The entry that is found is one of those that were seen, and no entry ranks before it.
record IsLeast (r : Routing) (best : ℕ × ℕ) (m : Map ℕ ℕ) (found : ℕ × ℕ) : Type 0 where
  seen : (found ≡ best) ⊎ Memᴰ found m
  first : RankLe (rank r found) (rank r best)
  least : (e : ℕ × ℕ) → Memᴰ e m → RankLe (rank r found) (rank r e)

min_from-IsLeast : (r : Routing) (best : ℕ × ℕ) (m : Map ℕ ℕ) → IsLeast r best m (min_from r best m)
unfolding min_from
min_from-IsLeast r best [] = record {
  seen = inl refl;
  first = RankLe-refl (rank r best);
  least = λ e h. elim h [ ];
}
min_from-IsLeast r best (e ∷ m) = elim (Bool-cases (rank_lt (rank r e) (rank r best))) [
  | inl p ↦ rw (p, min_from) (after_move (min_from-IsLeast r e m) p)
  | inr p ↦ rw (p, min_from) (after_stay (min_from-IsLeast r best m) p)
]
  where
    after_move :
        {f : ℕ × ℕ}
        → IsLeast r e m f
        → rank_lt (rank r e) (rank r best) ≡ true
        → IsLeast r best (e ∷ m) f
    after_move {f} h p = record {
      seen = elim h.seen [ inl q ↦ inr (Memᴰ.head q) | inr q ↦ inr (Memᴰ.tail q) ];
      first =
          RankLe-trans (rank r f) (rank r e) (rank r best) h.first
            (RankLe-of_lt (rank r e) (rank r best) p);
      least = least_cons h.first h.least;
    }

    after_stay :
        {f : ℕ × ℕ}
        → IsLeast r best m f
        → rank_lt (rank r e) (rank r best) ≡ false
        → IsLeast r best (e ∷ m) f
    after_stay {f} h p = record {
      seen = elim h.seen [ inl q ↦ inl q | inr q ↦ inr (Memᴰ.tail q) ];
      first = h.first;
      least = least_cons (RankLe-trans (rank r f) (rank r best) (rank r e) h.first p) h.least;
    }

found_in_map :
    (r : Routing) (e : ℕ × ℕ) (m : Map ℕ ℕ) {f : ℕ × ℕ} → IsLeast r e m f → Memᴰ f (e ∷ m)
found_in_map r e m h = elim h.seen [ inl q ↦ Memᴰ.head q | inr q ↦ Memᴰ.tail q ]

owned_count_pos :
    (r : Routing) {id : Bytes} (ids : List Bytes)
    → Memᴰ id ids
    → 0 < owned_count r ids (owner_of r id)
unfolding owned_count
owned_count_pos r [] h = elim h [ ]
owned_count_pos r (j ∷ ids) (Memᴰ.head p) = rw p (ground arith)
owned_count_pos r {id} (j ∷ ids) (Memᴰ.tail p) = omega (arith, owned_count_pos r {id = id} ids p)

mem-nil : {e : ℕ × ℕ} → Memᴰ e [] → ⊥
mem-nil h = elim h [ ]

-- Where a transaction on these participants is coordinated.
pub record IsChoice (r : Routing) (ids : List Bytes) (target : ℕ) : Type 0 where
  -- it owns a participant
  pub owns : 0 < owned_count r ids target
  -- no owner of a participant has more of them, or as many and a lesser load, or as many, the same
  -- load and a lower number
  pub least :
      (id : Bytes)
      → Memᴰ id ids
      → RankLe
          (rank r (target, owned_count r ids target))
          (rank r (owner_of r id, owned_count r ids (owner_of r id)))

more_votes :
    (r : Routing) (w c v d n : ℕ) → RankLe (rank r (w, c)) (rank r (v, d)) → 0 < d → c ≡ n → 0 < n
unfolding rank rank_lt
more_votes r w c v d n h p e = ground arith

module _ (r : Routing) (ids : List Bytes) where
  abbrev tally : Map ℕ ℕ
  tally = votes_from r [] ids

  tally_lem : (w : ℕ) → votes_for tally w ≡ owned_count r ids w
  unfolding lookup
  tally_lem w = omega (arith, votes_for-votes_from r [] ids w)

  tally-IsMap : IsMap tally
  tally-IsMap = votes_from-IsMap r [] ids tt

  counted : {f : ℕ × ℕ} → Memᴰ f tally → f.1 ≡ owned_count r ids f.0
  counted {f} h = ground (arith, tally_lem f.0, lookup_of_mem tally tally-IsMap h)

  entry_of :
      {id : Bytes} → Memᴰ id ids → Memᴰ (owner_of r id, owned_count r ids (owner_of r id)) tally
  entry_of {id} h =
      mem_of_lookup (owner_of r id) tally
        (ground (arith, tally_lem (owner_of r id), owned_count_pos r {id = id} ids h))

  IsChoice-of :
      (w c : ℕ)
      → Memᴰ (w, c) tally
      → ((j : Bytes)
          → Memᴰ j ids
          → RankLe (rank r (w, c)) (rank r (owner_of r j, owned_count r ids (owner_of r j))))
      → {id : Bytes} → Memᴰ id ids
      → IsChoice r ids w
  IsChoice-of w c m best {id} h = record {
    owns = more_votes r w c _ _ _ (best id h) (owned_count_pos r {id = id} ids h) (counted m);
    least =
        subst
          (λ n.
            (j : Bytes)
            → Memᴰ j ids
            → RankLe (rank r (w, n)) (rank r (owner_of r j, owned_count r ids (owner_of r j))))
          (counted m) best;
  }

  choice :
      (m : Map ℕ ℕ)
      → tally ≡ m
      → {id : Bytes} → Memᴰ id ids
      → (t : ℕ) × (min_entry r m ≡ some t) × IsChoice r ids t
  unfolding min_entry
  choice [] e {id} h = absurd (mem-nil (subst (Memᴰ _) e (entry_of h)))
  choice (first ∷ rest) e {id} h =
      let least : IsLeast r first rest (min_from r first rest) = min_from-IsLeast r first rest in
      let in_tally : Memᴰ (min_from r first rest) tally =
        subst (Memᴰ _) (sym e) (found_in_map r first rest least) in
      let best : (j : Bytes)
          → Memᴰ j ids
          → RankLe (rank r (min_from r first rest))
              (rank r (owner_of r j, owned_count r ids (owner_of r j))) =
        λ j hj.
          least_cons {P = λ x. RankLe (rank r (min_from r first rest)) (rank r x)} least.first
            least.least _ (subst (Memᴰ _) e (entry_of hj)) in
      ((min_from r first rest).0, refl, IsChoice-of _ _ in_tally best {id = id} h)

-- A transaction with a participant always has a coordinator: a worker that owns a participant, with
-- the most participants, among those with as many the least loaded, among those the lowest.
pub plurality_target-IsChoice :
    (r : Routing) (id : Bytes) (ids : List Bytes)
    → (t : ℕ) × (plurality_target r (id ∷ ids) ≡ some t) × IsChoice r (id ∷ ids) t
unfolding plurality_target
plurality_target-IsChoice r id ids = choice r (id ∷ ids) _ refl {id = id} (Memᴰ.head refl)
