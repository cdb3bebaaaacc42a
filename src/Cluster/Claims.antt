-- ===== src/Cluster/Claims.antt =====
-- cluster.rs, `durable_claim` and the ownership that a booting node reads out of the checkpoints.
-- serde_json is the parameter `from_slice`.
pub mod Highest
use fafo.Prelude.{
  ℕ, ◌+◌, ◌-◌, ◌^◌, ◌≤◌, ◌<◌, ◌≡◌, refl, Bool, true, false, ◌&&◌, ◌||◌, ◌⊎◌, inl, inr, Option, none,
  some, List, [], ◌∷◌, arith, ltb, leb, nat_beq, if◌then◌else◌, Map, lookup, insert, ◌>>=◌,
}
use fafo.Prelude.Bytes.{Bytes, codes, strip_prefix, strip_suffix, bytes_eq}
use fafo.Objlog.Keys.{parse_u64}
use fafo.Objlog.Io as Io
use fafo.Objlog.Io.{Io, ret, fail, get, list, run, Schedule}
use fafo.Store as Store
use fafo.Store.{MemInner}

-- Claims by object: the generation, and for a transit the destination too.
pub record Checkpoint : Type 0 where
  pub owned : Map Bytes ℕ
  pub transit : Map Bytes (ℕ × ℕ)

pub data Claim : Type 0 where
  owned : (worker generation : ℕ) → Claim
  transit : (destination generation : ℕ) → Claim
  unclaimed : Claim

abbrev pub u64_max : ℕ
u64_max = 2 ^ 64 - 1

-- `_worker/<w>.json`; `usize` is 64 bits wide.
unfoldable pub parse_checkpoint_key : Bytes → Option ℕ
parse_checkpoint_key key = do
  rest ← strip_prefix (codes "_worker/") key
  digits ← strip_suffix (codes ".json") rest
  parse_u64 digits

abbrev pub generation : Claim → ℕ
generation (Claim.owned w g) = g
generation (Claim.transit to g) = g
generation Claim.unclaimed = 0

abbrev pub admitted : Claim → ℕ
admitted (Claim.owned w g) = 1
admitted (Claim.transit to g) = 0
admitted Claim.unclaimed = 0

-- `rank(a) > rank(b)`, pairs in lexicographic order.
unfoldable pub outranks : Claim → Claim → Bool
outranks a b =
    ltb (generation b) (generation a)
    || (nat_beq (generation b) (generation a) && ltb (admitted b) (admitted a))

unfoldable pub consider : Option Claim → Claim → Option Claim
unfolding outranks
consider none c = some c
consider (some b) c = if outranks c b then some c else some b

-- The claims that one checkpoint makes to the object.
unfoldable pub consider_checkpoint : Bytes → ℕ → Checkpoint → Option Claim → Option Claim
unfolding consider
consider_checkpoint object w cp best =
    let best' : Option Claim = elim (lookup object cp.owned) [
      | none ↦ best
      | some g ↦ consider best (Claim.owned w g)
    ] in
    elim (lookup object cp.transit) [
      | none ↦ best'
      | some (to, g) ↦ consider best' (Claim.transit to g)
    ]

module _ (from_slice : Bytes → Option Checkpoint) where
  unfoldable pub consider_found : Bytes → ℕ → Option Claim → Option (Option Bytes) → Option Claim
  unfolding consider_checkpoint
  consider_found object w best none = best
  consider_found object w best (some none) = best
  consider_found object w best (some (some bytes)) = elim (from_slice bytes) [
    | none ↦ best
    | some cp ↦ consider_checkpoint object w cp best
  ]

  -- The loop over the checkpoint keys; a checkpoint that cannot be read or parsed is passed over.
  unfoldable pub claims_of : Bytes → List Bytes → Option Claim → Io (Option Claim)
  unfolding consider_found
  claims_of object [] best = ret best
  claims_of object (key ∷ keys) best = elim (parse_checkpoint_key key) [
    | none ↦ claims_of object keys best
    | some w ↦ Io.get key λ found. claims_of object keys (consider_found object w best found)
  ]

  abbrev pub or_unclaimed : Option Claim → Claim
  or_unclaimed none = Claim.unclaimed
  or_unclaimed (some c) = c

  unfoldable pub durable_claim : Bytes → Io Claim
  unfolding claims_of
  durable_claim object = Io.list (codes "_worker/") λ found. elim found [
    | none ↦ ret (Claim.transit u64_max u64_max)
    | some keys ↦ Io.◌>>=◌ (claims_of object keys none) (λ best. ret (or_unclaimed best))
  ]
