-- ===== src/Routing/Placement.antt =====
-- cluster.rs, `Routing` and `plurality_target`: who owns an object, who is crowded, and where a
-- transaction is coordinated.
pub mod Pressure
pub mod Plurality
use mathlib.Core.List.{Memᴰ}
use fafo.Prelude.{
  ℕ, zero, suc, ◌+◌, ◌*◌, ◌/◌, ◌≤◌, ◌<◌, ◌≡◌, ◌≢◌, refl, Bool, true, false, ◌⊎◌, inl, inr, Option,
  none, some, List, [], ◌∷◌, arith, ltb, leb, nat_beq, nat_eq, ◌==◌, if◌then◌else◌, max, length,
  Map, lookup, insert, Bool-cases, lookup-insert, All,
}
use fafo.Prelude.Bytes.{Bytes, bytes_eq}
use fafo.Routing.Blocks.{block_of}
use fafo.Routing.Hash.{default_worker}

pub record Routing : Type 0 where
  pub logical : ℕ
  pub blocks : ℕ
  pub exceptions : Map Bytes ℕ
  pub addrs : Map ℕ Bytes

unfoldable pub addr_of_worker : Routing → ℕ → Option Bytes
addr_of_worker r worker = lookup (block_of worker r.logical r.blocks) r.addrs

abbrev or_default : Option ℕ → ℕ → ℕ
or_default none d = d
or_default (some w) d = w

unfoldable pub owner_of : Routing → Bytes → ℕ
owner_of r object = or_default (lookup object r.exceptions) (default_worker object r.logical)

load_of : Map Bytes ℕ → ℕ → ℕ
load_of [] worker = 0
load_of ((o, w) ∷ m) worker = (if nat_beq w worker then 1 else 0) + load_of m worker

unfoldable pub exception_load : Routing → ℕ → ℕ
unfolding load_of
exception_load r worker = load_of r.exceptions worker

unfoldable pub crowded : Routing → ℕ → Bool
crowded r worker =
    let total = length r.exceptions in
    let cap = max (2 * total / r.logical) 4 in leb cap (exception_load r worker)

-- `*votes.entry(w).or_default() += 1`
bump : ℕ → Map ℕ ℕ → Map ℕ ℕ
bump w votes = insert w (or_default (lookup w votes) 0 + 1) votes

votes_from : Routing → Map ℕ ℕ → List Bytes → Map ℕ ℕ
unfolding bump
votes_from r votes [] = votes
votes_from r votes (id ∷ ids) = votes_from r (bump (owner_of r id) votes) ids

-- The key of `min_by_key`: more votes, then the lesser load, then the lower worker.
abbrev pub Rank : Type 0
Rank = ℕ × ℕ × ℕ

unfoldable pub rank_lt : Rank → Rank → Bool
rank_lt (c, l, w) (c', l', w') =
    if ltb c' c
    then true
    else if ltb c c'
    then false
    else if ltb l l'
    then true
    else if ltb l' l
    then false
    else ltb w w'

unfoldable pub rank : Routing → ℕ × ℕ → Rank
rank r (w, count) = (count, exception_load r w, w)

-- `min_by_key` keeps the first of the least.
min_from : Routing → ℕ × ℕ → Map ℕ ℕ → ℕ × ℕ
unfolding rank rank_lt
min_from r best [] = best
min_from r best (e ∷ rest) = min_from r (if rank_lt (rank r e) (rank r best) then e else best) rest

min_entry : Routing → Map ℕ ℕ → Option ℕ
unfolding min_from
min_entry r [] = none
min_entry r (e ∷ rest) = some (min_from r e rest).0

-- `none` is the panic of `expect`.
unfoldable pub plurality_target : Routing → List Bytes → Option ℕ
unfolding votes_from min_entry
plurality_target r ids = min_entry r (votes_from r [] ids)
