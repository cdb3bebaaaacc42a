-- ===== src/Cluster/Wire.antt =====
-- cluster.rs, what is read of a checkpoint and of the cluster's meta: the formats of older versions are
-- read too. serde_json gives the wire form.
use fafo.Prelude.{
  ℕ, ◌≡◌, refl, Option, none, some, List, [], ◌∷◌, arith, if◌then◌else◌, Map, lookup, insert,
  lookup-insert, min, any,
}
use fafo.Prelude.Bytes.{Bytes, bytes_eq, bytes_beq}
use fafo.Cluster.Claims.{Checkpoint}

pub data OwnedWire : Type 0 where
  gens : Map Bytes ℕ → OwnedWire
  legacy : List Bytes → OwnedWire

pub data TransitWire : Type 0 where
  gens : Map Bytes (ℕ × ℕ) → TransitWire
  legacy : Map Bytes ℕ → TransitWire

-- A field that is missing has its default, the empty map.
pub record CheckpointWire : Type 0 where
  pub owned : Option OwnedWire
  pub transit : Option TransitWire

-- `v.into_iter().map(|o| (o, 1)).collect()`
unfoldable pub first_gen : List Bytes → Map Bytes ℕ → Map Bytes ℕ
first_gen [] m = m
first_gen (o ∷ os) m = first_gen os (insert o 1 m)

unfoldable pub first_transit : Map Bytes ℕ → Map Bytes (ℕ × ℕ) → Map Bytes (ℕ × ℕ)
first_transit [] m = m
first_transit ((o, w) ∷ os) m = first_transit os (insert o (w, 1) m)

abbrev owned_of : Option OwnedWire → Map Bytes ℕ
owned_of none = []
owned_of (some (OwnedWire.gens m)) = m
owned_of (some (OwnedWire.legacy os)) = first_gen os []

abbrev transit_of : Option TransitWire → Map Bytes (ℕ × ℕ)
transit_of none = []
transit_of (some (TransitWire.gens m)) = m
transit_of (some (TransitWire.legacy m)) = first_transit m []

unfoldable pub from_wire : CheckpointWire → Checkpoint
unfolding first_gen first_transit
from_wire w = record { owned = owned_of w.owned; transit = transit_of w.transit }

first_gen-keeps :
    (os : List Bytes) (m : Map Bytes ℕ) (o : Bytes)
    → lookup o (first_gen os m) ≡ (if any (bytes_beq o) os then some 1 else lookup o m)
unfolding first_gen
first_gen-keeps [] m o = refl
first_gen-keeps (p ∷ os) m o = ground (
  arith,
  first_gen-keeps os (insert p 1 m) o,
  lookup-insert p o 1 m,
  bytes_eq.eqb_iff p o,
  bytes_eq.eqb_iff o p,
)

-- An older checkpoint's bare list of objects is read as claims of generation 1 to just these.
pub from_wire-legacy :
    (os : List Bytes) (t : Option TransitWire) (o : Bytes)
    → lookup o (from_wire (record { owned = some (OwnedWire.legacy os); transit = t })).owned
      ≡ (if any (bytes_beq o) os then some 1 else none)
unfolding from_wire lookup
from_wire-legacy os t o = first_gen-keeps os [] o

pub record ClusterMeta : Type 0 where
  pub logical_workers : ℕ
  pub blocks : Option ℕ

abbrev default_blocks_legacy : ℕ
default_blocks_legacy = 64

-- The grid of the cluster: what its first node wrote, or this node's own where nothing is found.
unfoldable pub grid : ℕ → Option ClusterMeta → ℕ × ℕ
grid logical none = (logical, min logical 256)
grid logical (some meta) = (
  meta.logical_workers,
  elim meta.blocks as (λ x. ℕ) [ none ↦ default_blocks_legacy | some b ↦ b ],
)
