-- ===== src/Cluster/Claiming.antt =====
-- cluster.rs, the leases that a booting node takes in `start`: `ClaimSpec`, `load_leases`, the release
-- of what a crashed predecessor held, and the loop that claims blocks. The parameters: serde_json,
-- `alive`, what a holder's address answers to the health check, which is made once for an address,
-- and `clock`, the node's clock when a block is claimed.
pub mod Fresh
use fafo.Prelude.{
  ℕ, zero, suc, ◌+◌, ◌-◌, ◌*◌, ◌/◌, ◌%◌, ◌≡◌, ◌≤◌, ◌<◌, Bool, true, false, not, ◌&&◌, ◌||◌, Option,
  none, some, List, [], ◌∷◌, ◌++◌, map, ltb, leb, nat_beq, nat_eq, max, min, if◌then◌else◌, Map,
  lookup, insert,
}
use fafo.Prelude.Bytes.{Bytes, codes, bytes_beq, strip_prefix, split_once}
use fafo.Store.{is_some}
use fafo.Objlog.Io.{Io, ret, create?, list?, attempt, ◌>>=◌, ◌>>◌}
use fafo.Objlog.Keys.{parse_u64}
use fafo.Routing.Blocks.{block_of, div_ceil}
use fafo.Cluster.Leases.{LeaseState, lease_key, tombstone_key, lease_from_keys}

pub data ClaimSpec : Type 0 where
  all : ClaimSpec
  workers : List ℕ → ClaimSpec
  auto : ℕ → ClaimSpec

-- `(start..start + count)`
abbrev pub up_from : ℕ → ℕ → List ℕ
up_from start zero = []
up_from start (suc count) = start ∷ up_from (suc start) count

abbrev one_worker : Option ℕ → ClaimSpec
one_worker none = workers []
one_worker (some w) = workers (w ∷ [])

-- `a..=b.min(logical.saturating_sub(1))`
abbrev worker_range : ℕ → ℕ → ℕ → ClaimSpec
worker_range logical a b = workers (up_from a (min b (logical - 1) + 1 - a))

abbrev range_of : Option (Bytes × Bytes) → Option (ℕ × ℕ)
range_of none = none
range_of (some (a, b)) = elim (parse_u64 a) [
  | none ↦ none
  | some x ↦ elim (parse_u64 b) [ none ↦ none | some y ↦ some (x, y) ]
]

abbrev auto_of : Option Bytes → Option ℕ
auto_of none = none
auto_of (some k) = parse_u64 k

unfoldable pub parse_spec : Bytes → ℕ → ClaimSpec
parse_spec spec logical =
    if bytes_beq spec (codes "all")
    then all
    else elim (auto_of (strip_prefix (codes "auto:") spec)) [
      | some k ↦ auto k
      | none ↦ elim (range_of (split_once b'-' spec)) [
        | some (a, b) ↦ worker_range logical a b
        | none ↦ one_worker (parse_u64 spec)
      ]
    ]

-- `k.split('/').next()`
abbrev first_segment : Bytes → Bytes
first_segment s = elim (split_once b'/' s) as (λ x. Bytes) [ none ↦ s | some (a, b) ↦ a ]

abbrev block_in : Option Bytes → Option ℕ
block_in none = none
block_in (some rest) = parse_u64 (first_segment rest)

-- The keys of each block.
unfoldable pub by_block : ℕ → List Bytes → Map ℕ (List Bytes) → Map ℕ (List Bytes)
by_block blocks [] m = m
by_block blocks (key ∷ keys) m =
    by_block blocks keys
      (elim (block_in (strip_prefix (codes "_lease/b") key)) as (λ x. Map ℕ (List Bytes)) [
        | none ↦ m
        | some b ↦
            if ltb b blocks
            then insert ⦃e = nat_eq⦄ b
                ((elim (lookup ⦃e = nat_eq⦄ b m) as (λ x. List Bytes) [ none ↦ [] | some ks ↦ ks ])
                  ++ key ∷ [])
                m
            else m
      ])

module _ (from_slice : Bytes → Option Bytes) where
  unfoldable pub leases_of : Map ℕ (List Bytes) → Map ℕ LeaseState → Io (Map ℕ LeaseState)
  unfolding lease_from_keys
  leases_of [] out = ret out
  leases_of ((block, keys) ∷ m) out = do
    state ← lease_from_keys from_slice block keys
    leases_of m (elim state as (λ x. Map ℕ LeaseState) [
      | none ↦ out
      | some l ↦ insert ⦃e = nat_eq⦄ block l out
    ])

  unfoldable pub load_leases : ℕ → Io (Map ℕ LeaseState)
  unfolding by_block leases_of
  load_leases blocks = do keys ← list? (codes "_lease/"); leases_of (by_block blocks keys []) []

-- A lease that still names this address is a crashed predecessor's.
unfoldable pub boot_release : Bytes → Map ℕ LeaseState → Io (Map ℕ LeaseState)
boot_release advertise [] = ret []
boot_release advertise ((b, lease) ∷ leases) =
    if bytes_beq lease.addr advertise && not lease.released
    then (do
      attempt (create? (tombstone_key b lease.epoch) (codes "released"))
      rest ← boot_release advertise leases
      ret ((b, record lease { released = true }) ∷ rest))
    else (do rest ← boot_release advertise leases; ret ((b, lease) ∷ rest))

-- `bs.sort_unstable(); bs.dedup()`
unfoldable pub place_block : ℕ → List ℕ → List ℕ
place_block b [] = b ∷ []
place_block b (c ∷ cs) =
    let rest = place_block b cs in
    if nat_beq b c then c ∷ cs else if ltb b c then b ∷ c ∷ cs else c ∷ rest

unfoldable pub blocks_of : ℕ → ℕ → List ℕ → List ℕ
unfolding place_block
blocks_of logical blocks [] = []
blocks_of logical blocks (w ∷ ws) =
    let rest = blocks_of logical blocks ws in
    if ltb w logical then place_block (block_of w logical blocks) rest else rest

-- `start` is the hash of the address: the scan is turned by it.
unfoldable pub candidate_blocks : ClaimSpec → ℕ → ℕ → ℕ → List ℕ
unfolding blocks_of
candidate_blocks all logical blocks start = up_from 0 blocks
candidate_blocks (workers ws) logical blocks start = blocks_of logical blocks ws
candidate_blocks (auto k) logical blocks start =
    map (λ i. (start % blocks + i) % blocks) (up_from 0 blocks)

-- The quota in blocks; `usize::MAX` is no quota.
unfoldable pub quota_blocks : ClaimSpec → ℕ → ℕ → Option ℕ
unfolding div_ceil
quota_blocks all logical blocks = none
quota_blocks (workers ws) logical blocks = none
quota_blocks (auto k) logical blocks = some (max (div_ceil (k * blocks) logical) 1)

abbrev pub over_quota : ℕ → Option ℕ → Bool
over_quota claimed none = false
over_quota claimed (some quota) = leb quota claimed

-- What the loop reads and writes of the node.
pub record Claiming : Type 0 where
  pub epochs : Map ℕ ℕ
  pub addrs : Map ℕ Bytes
  pub claimed : ℕ
  pub earliest_write : ℕ

module _ (to_vec : Bytes → Bytes) (alive : Bytes → Bool) (clock : ℕ → ℕ) (fence : ℕ)
    (advertise : Bytes) (quota : Option ℕ) where
  unfoldable pub claimable : Option LeaseState → Bool
  claimable none = true
  claimable (some lease) =
      lease.released || (bytes_beq lease.addr advertise || not (alive lease.addr))

  -- Any existing lease is fenced: this node's first write waits.
  unfoldable pub fenced_start : ℕ → Option LeaseState → Claiming → ℕ × Claiming
  fenced_start b none st = (1, st)
  fenced_start b (some lease) st =
      (lease.epoch + 1, record st { earliest_write = max st.earliest_write (clock b + fence) })

  -- The answer of the create: `none` is its error, and fails the boot.
  unfoldable pub after_create : ℕ → Bool → ℕ × Claiming → Option Bool → Option Claiming
  after_create b orphan (epoch, st) none = none
  after_create b orphan (epoch, st) (some false) = some st
  after_create b orphan (epoch, st) (some true) = some (record st {
    epochs = insert ⦃e = nat_eq⦄ b epoch st.epochs;
    addrs = insert ⦃e = nat_eq⦄ b advertise st.addrs;
    claimed = if orphan then st.claimed else st.claimed + 1;
  })

  unfoldable pub claim_block : ℕ → Option LeaseState → Claiming → Io (Option Claiming)
  unfolding claimable fenced_start after_create
  claim_block b existing st =
      if not (claimable existing)
      then ret (some st)
      else if not (is_some existing) && over_quota st.claimed quota
      then ret (some st)
      else do
        let next = fenced_start b existing st
        made ← attempt (create? (lease_key b next.0) (to_vec advertise))
        ret (after_create b (is_some existing) next made)

  unfoldable pub then_claim :
      (Claiming → Io (Option Claiming)) → Option Claiming → Io (Option Claiming)
  then_claim rest none = ret none
  then_claim rest (some st) = rest st

  unfoldable pub claim_blocks : Map ℕ LeaseState → List ℕ → Claiming → Io (Option Claiming)
  unfolding claim_block then_claim
  claim_blocks leases [] st = ret (some st)
  claim_blocks leases (b ∷ bs) st = do
    r ← claim_block b (lookup ⦃e = nat_eq⦄ b leases) st
    then_claim (claim_blocks leases bs) r
