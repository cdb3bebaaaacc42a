-- ===== src/Cluster/Leases.antt =====
-- cluster.rs, the leases of worker blocks: their keys, the current lease of a block, and the check
-- that the lease guard makes. serde_json is the parameter `from_slice`.
pub mod Guard
use fafo.Prelude.{
  ℕ, zero, suc, ◌+◌, ◌/◌, ◌%◌, ◌≡◌, Bool, true, false, Option, none, some, List, [], ◌∷◌, ◌++◌, ltb,
  max, nat_eq, if◌then◌else◌, any, Map, lookup, insert, ◌>>=◌,
}
use fafo.Prelude.Bytes.{Bytes, codes, bytes_beq, strip_prefix, strip_suffix, split_once}
use fafo.Objlog.Keys.{parse_u64}
use fafo.Objlog.Io as Io
use fafo.Objlog.Io.{Io, ret, fail}
use fafo.Store.{or_zero}

-- `{n}`, for a number of at most `digits` digits.
unfoldable pub decimal_within : ℕ → ℕ → Bytes
decimal_within zero n = []
decimal_within (suc digits) n =
    let front = decimal_within digits (n / 10) in
    if ltb n 10 then (b'0' + n) ∷ [] else front ++ (b'0' + n % 10) ∷ []

-- `{n}` of a number of 64 bits: at most 20 digits.
unfoldable pub decimal : ℕ → Bytes
unfolding decimal_within
decimal n = decimal_within 20 n

unfoldable pub lease_prefix : ℕ → Bytes
unfolding decimal
lease_prefix block = codes "_lease/b" ++ (decimal block ++ codes "/")

unfoldable pub lease_key : ℕ → ℕ → Bytes
unfolding lease_prefix
lease_key block epoch = lease_prefix block ++ (codes "e" ++ (decimal epoch ++ codes ".json"))

unfoldable pub tombstone_key : ℕ → ℕ → Bytes
unfolding lease_prefix
tombstone_key block epoch =
    lease_prefix block ++ (codes "e" ++ (decimal epoch ++ codes ".released"))

-- The epoch of one key of the block.
unfoldable pub parse_epoch : ℕ → Bytes → Option ℕ
unfolding lease_prefix
parse_epoch block key = do
  entry ← strip_prefix (lease_prefix block) key
  rest ← strip_prefix (codes "e") entry
  digits ← strip_suffix (codes ".json") rest
  parse_u64 digits

unfoldable pub higher : Option ℕ → ℕ → Option ℕ
higher none epoch = some epoch
higher (some e) epoch = if ltb e epoch then some epoch else some e

-- The loop of `lease_from_keys`.
unfoldable pub best_epoch : ℕ → List Bytes → Option ℕ → Option ℕ
unfolding higher parse_epoch
best_epoch block [] best = best
best_epoch block (key ∷ keys) best = elim (parse_epoch block key) [
  | none ↦ best_epoch block keys best
  | some epoch ↦ best_epoch block keys (higher best epoch)
]

pub record LeaseState : Type 0 where
  pub epoch : ℕ
  pub addr : Bytes
  pub released : Bool

module _ (from_slice : Bytes → Option Bytes) where
  -- `from_slice` reads the address of a lease.
  unfoldable pub lease_from_keys : ℕ → List Bytes → Io (Option LeaseState)
  unfolding best_epoch
  lease_from_keys block keys = elim (best_epoch block keys none) [
    | none ↦ ret none
    | some epoch ↦ Io.◌>>=◌ (Io.get? (lease_key block epoch)) λ found. elim found [
      | none ↦ ret none
      | some bytes ↦ elim (from_slice bytes) [
        | none ↦ fail
        | some addr ↦ ret (
            some (record {
              epoch = epoch;
              addr = addr;
              released = any (bytes_beq (tombstone_key block epoch)) keys;
            }))
      ]
    ]
  ]

  unfoldable pub latest_lease : ℕ → Io (Option LeaseState)
  unfolding lease_from_keys
  latest_lease block = Io.◌>>=◌ (Io.list? (lease_prefix block)) (lease_from_keys block)

-- The block and the epoch of a key of the lease space.
unfoldable pub parse_lease_key : Bytes → Option (ℕ × ℕ)
parse_lease_key key = do
  rest ← strip_prefix (codes "_lease/b") key
  halves ← split_once b'/' rest
  block ← parse_u64 halves.0
  entry ← strip_prefix (codes "e") halves.1
  digits ← strip_suffix (codes ".json") entry
  epoch ← parse_u64 digits
  some (block, epoch)

unfoldable pub latest_of : Option ℕ → ℕ → ℕ
latest_of none epoch = max epoch epoch
latest_of (some best) epoch = max best epoch

-- `max_epoch` of `verify_leases`
unfoldable pub max_epochs : List Bytes → Map ℕ ℕ → Map ℕ ℕ
unfolding parse_lease_key latest_of
max_epochs [] m = m
max_epochs (key ∷ keys) m = elim (parse_lease_key key) [
  | none ↦ max_epochs keys m
  | some (block, epoch) ↦ max_epochs keys (insert block (latest_of (lookup block m) epoch) m)
]

-- What the guard reads and writes of a node: the epochs held, the recency stamps, the fence.
pub record Guarded : Type 0 where
  pub epochs : Map ℕ ℕ
  pub verified : ℕ × ℕ
  pub fenced : Bool

-- The loop over the leases held; a superseded one stops the node.
unfoldable pub check_held : Map ℕ ℕ → List (ℕ × ℕ) → Bool
check_held latest [] = true
check_held latest ((block, mine) ∷ held) =
    let rest = check_held latest held in
    if ltb mine (or_zero (lookup block latest)) then false else rest

unfoldable pub verify_listed : Guarded → ℕ → ℕ → Option (List Bytes) → Bool × Guarded
unfolding max_epochs check_held
verify_listed node mono wall none = (true, node)
verify_listed node mono wall (some keys) =
    if check_held (max_epochs keys []) node.epochs
    then (true, record node { verified = (mono, wall) })
    else (false, record node { fenced = true })

unfoldable pub verify_leases : Guarded → ℕ → ℕ → Io (Bool × Guarded)
unfolding verify_listed
verify_leases node mono wall =
    Io.list (codes "_lease/") λ listed. ret (verify_listed node mono wall listed)
