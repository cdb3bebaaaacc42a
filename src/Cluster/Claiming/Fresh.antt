-- ===== src/Cluster/Claiming/Fresh.antt =====
-- cluster.rs, which leases a booting node holds after its claims.
use fafo.Prelude.{
  ℕ, ◌+◌, ◌≡◌, ◌≤◌, Bool, true, All, Option, none, some, List, [], nat_eq, Map, lookup,
}
use fafo.Prelude.Bytes.{Bytes}
use fafo.Store as Store
use fafo.Store.{is_some, MemInner}
use fafo.Objlog.Io.{Io, run, Schedule}
use fafo.Objlog.Spares.{SparesTurn}
use fafo.Objlog.Yields.{Yields}
use fafo.Cluster.Leases.{LeaseState, lease_key}
use fafo.Cluster.Claiming.{
  Claiming, claimable, fenced_start, after_create, then_claim, claim_blocks,
}

module _ (to_vec : Bytes → Bytes) (alive : Bytes → Bool) (clock : ℕ → ℕ) (fence : ℕ)
    (advertise : Bytes) (quota : Option ℕ) where
  -- A lease that was won: of a block that nobody held, at the first epoch; or of one whose holder had
  -- let it go, was this node itself or did not answer, at the next epoch, and then the node's first
  -- write waits for the fence.
  abbrev pub Won : ℕ → Option LeaseState → ℕ → ℕ → Type 0
  Won b none epoch earliest = epoch ≡ 1
  Won b (some lease) epoch earliest =
      (epoch ≡ lease.epoch + 1)
      × (claimable to_vec alive clock fence advertise quota (some lease) ≡ true)
      × (clock b + fence ≤ earliest)

  abbrev pub WithinQuota : ℕ → Option ℕ → Type 0
  WithinQuota claimed none = Unit
  WithinQuota claimed (some q) = claimed ≤ q

  pub record IsWon (leases : Map ℕ LeaseState) (st : Claiming) : Type 0 where
    pub won :
        (b e : ℕ)
        → lookup ⦃e = nat_eq⦄ b st.epochs ≡ some e
        → Won b (lookup ⦃e = nat_eq⦄ b leases) e st.earliest_write
    pub shared : WithinQuota st.claimed quota

  -- A boot that fails claims nothing that is used.
  abbrev pub OrFailed : Map ℕ LeaseState → Option Claiming → Type 0
  OrFailed leases none = Unit
  OrFailed leases (some st) = IsWon leases st

  abbrev is_claimable : Option LeaseState → Bool
  is_claimable = claimable to_vec alive clock fence advertise quota

  abbrev created : ℕ → Option LeaseState → Claiming → Option Bool → Option Claiming
  created b existing st made =
      after_create to_vec alive clock fence advertise quota b (is_some existing)
        (fenced_start to_vec alive clock fence advertise quota b existing st) made

  abbrev pub no_claims : ℕ → Claiming
  no_claims earliest = record { epochs = []; addrs = []; claimed = 0; earliest_write = earliest }

  -- The record under the key of every lease that the node holds names the node.
  abbrev pub Held : Claiming → MemInner → Type 0
  Held st s =
      (b e : ℕ)
      → lookup ⦃e = nat_eq⦄ b st.epochs ≡ some e
      → Store.get s (lease_key b e) ≡ some (to_vec advertise)

  abbrev HeldAfter : Option (Option Claiming) × MemInner → Type 0
  HeldAfter (some (some st), s) = Held st s
  HeldAfter (r, s) = Unit

  -- Nobody deletes or overwrites a lease: other nodes only create them.
  abbrev pub LeasesStay : Schedule → Type 0
  LeasesStay ts = (b e : ℕ) → All (SparesTurn (lease_key b e)) ts

  abbrev then_rest : Map ℕ LeaseState → List ℕ → Option Claiming → Io (Option Claiming)
  then_rest leases bs =
      then_claim to_vec alive clock fence advertise quota
        (claim_blocks to_vec alive clock fence advertise quota leases bs)

  abbrev RestHeld : Map ℕ LeaseState → List ℕ → Type 0
  RestHeld leases bs =
      (st : Claiming) (ts : Schedule) (s : MemInner)
      → LeasesStay ts
      → Held st s
      → HeldAfter (run (claim_blocks to_vec alive clock fence advertise quota leases bs st) ts s)

  abbrev pub WonAndHeld : Map ℕ LeaseState → Option Claiming → MemInner → Type 0
  WonAndHeld leases none s = Unit
  WonAndHeld leases (some st) s = IsWon leases st × Held st s
