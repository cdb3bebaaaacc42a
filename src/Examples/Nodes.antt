-- ===== src/Examples/Nodes.antt =====
-- The theorems on cluster.rs at concrete inputs.
use fafo.Prelude.{ℕ, ◌≤◌, ◌<◌, ◌≡◌, ◌⊎◌, ◌↔◌, true, false, Option, some, List, [], ◌∷◌, arith}
use fafo.Prelude.{◌≢◌, any, all, Map}
use fafo.Prelude.Bytes.{Bytes, codes}
use fafo.Store as Store
use fafo.Store.{MemInner, empty_store}
use fafo.Objlog.Io.{run}
use fafo.Routing.Blocks.{block_of, block_range, block_of-iff-block_range}
use fafo.Routing.Placement.{Routing, plurality_target}
use fafo.Routing.Placement.Plurality.{IsChoice, plurality_target-IsChoice}
use fafo.Cluster.Claims.{Checkpoint, Claim, durable_claim, outranks}
use fafo.Cluster.Claims.Highest.{ClaimedIn, durable_claim_highest}
use fafo.Cluster.Leases.{Guarded, verify_listed, lease_key}
use fafo.Cluster.Leases.Guard.{AllCurrent, verify_listed_iff}
use fafo.Cluster.Requests.{Op, validate_txn, validated, valid_id, declared, dedup}
use fafo.Cluster.Requests.Validation.{validate_txn_iff}
use fafo.Routing.Claimed.{claimed_ranges, owns_worker, inside, claimed_ranges-owns_worker}
use fafo.Objlog.Protocol.{sort}

block_of-iff-block_range_example :
    (block_of 5 16 4 ≡ 1) ↔ (((block_range 1 16 4).0 ≤ 5) × (5 < (block_range 1 16 4).1))
block_of-iff-block_range_example =
    block_of-iff-block_range 5 1 16 4 (omega arith) (omega arith) (omega arith) (omega arith)

abbrev two_workers : Routing
two_workers = record { logical = 2; blocks = 1; exceptions = (codes "a", 1) ∷ []; addrs = [] }

plurality_target-IsChoice_example :
    (t : ℕ) × (plurality_target two_workers (codes "a" ∷ codes "b" ∷ []) ≡ some t)
    × IsChoice two_workers (codes "a" ∷ codes "b" ∷ []) t
plurality_target-IsChoice_example =
    plurality_target-IsChoice two_workers (codes "a") (codes "b" ∷ [])

abbrev one_worker : MemInner
one_worker = Store.put empty_store (codes "_worker/3.json") (codes "{}")

abbrev owns_a : Bytes → Option Checkpoint
owns_a bytes = some (record { owned = (codes "a", 4) ∷ []; transit = (codes "a", (2, 4)) ∷ [] })

durable_claim_highest_example :
    (c : Claim) × (run (durable_claim owns_a (codes "a")) [] one_worker ≡ (some c, one_worker))
    × ((d : Claim)
        → ClaimedIn owns_a one_worker (codes "a") (Store.list one_worker (codes "_worker/")) d
        → outranks d c ≡ false)
    × (ClaimedIn owns_a one_worker (codes "a") (Store.list one_worker (codes "_worker/")) c
        ⊎ ((c ≡ Claim.unclaimed)
            × ((d : Claim)
                → ClaimedIn owns_a one_worker
                    (codes "a")
                    (Store.list one_worker (codes "_worker/"))
                    d
                → ⊥)))
durable_claim_highest_example = durable_claim_highest owns_a one_worker (codes "a")

abbrev holder : Guarded
holder = record { epochs = (0, 3) ∷ []; verified = (1, 1); fenced = false }

verify_listed_iff_example :
    let r = verify_listed holder 5 6 (some (lease_key 0 3 ∷ lease_key 0 4 ∷ [])) in
    ((r.0 ≡ true) ↔ AllCurrent (lease_key 0 3 ∷ lease_key 0 4 ∷ []) holder.epochs)
    × (r.0 ≡ true → (r.1.verified ≡ (5, 6)) × (r.1.fenced ≡ false))
    × (r.0 ≡ false → (r.1.verified ≡ (1, 1)) × (r.1.fenced ≡ true))
verify_listed_iff_example = verify_listed_iff holder 5 6 (lease_key 0 3 ∷ lease_key 0 4 ∷ [])

abbrev two_leases : Map ℕ ℕ
two_leases = (1, 7) ∷ (0, 2) ∷ []

claimed_ranges-owns_worker_example :
    any (inside 5) (claimed_ranges 16 4 two_leases) ≡ owns_worker 16 4 two_leases 5
claimed_ranges-owns_worker_example =
    claimed_ranges-owns_worker 16 4 5 two_leases (omega arith) (omega arith) (omega arith)
      (omega arith, (omega arith, tt))

abbrev deposit : List (Op (Unit {0}))
deposit = record { object = codes "a"; sql = codes "DELETE FROM t"; params = [] } ∷ []

validate_txn_iff_example :
    (validate_txn (codes "b" ∷ codes "a" ∷ []) deposit ≡ validated (codes "a" ∷ codes "b" ∷ [])) ↔ (
      ((codes "b" ∷ codes "a" ∷ []) ≢ [])
      × (all valid_id (codes "b" ∷ codes "a" ∷ []) ≡ true)
      × (all (λ op. declared (codes "b" ∷ codes "a" ∷ []) op.object) deposit ≡ true)
      × ((codes "a" ∷ codes "b" ∷ []) ≡ dedup (sort (codes "b" ∷ codes "a" ∷ []))))
validate_txn_iff_example =
    validate_txn_iff (codes "b" ∷ codes "a" ∷ []) (codes "a" ∷ codes "b" ∷ []) deposit
