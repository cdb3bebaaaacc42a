-- ===== src/Worker/Ship.antt =====
-- worker.rs, `ship_task`: one boat is staged, fenced, prewritten, committed and promoted. The
-- parameters: serde_json for the commit record, and the keys of the table `writes` that SQLite reads
-- out of an image. The puts of one boat's staging, which run concurrently, are made in turn. The
-- wait for `earliest_write` is left out: it is time that passes before the boat's first read.
pub mod Landing
pub mod Calls
pub mod Answers
pub mod Committed
use fafo.Prelude.{
  ℕ, ◌+◌, ◌≡◌, Bool, true, false, not, ◌&&◌, ◌||◌, Option, none, some, List, [], ◌∷◌, ◌++◌, map,
  nat_beq, leb, any, length, if◌then◌else◌,
}
use fafo.Prelude.Bytes.{Bytes, codes, bytes_beq}
use fafo.Store.{bytes_lt, is_some}
use fafo.Objlog.Io.{Io, ret, ◌>>=◌, ◌>>◌, put?, list?, delete?, attempt}
use fafo.Objlog.Keys.{padded}
use fafo.Objlog.Entry.{entry_from_ship}
use fafo.Objlog.Protocol.{prewrite, clear_entry, commit_txn, compact, fold_committed}
use fafo.Delta.{change_counter}
use fafo.Delta.Keys.{delta_key, delta_prefix, parse_delta_counter}
use fafo.Grants.Hex.{hex}
use fafo.Cluster.Leases.{Guarded, verify_leases, decimal}
use fafo.Worker.State.{Sent, acked, failed}

abbrev pub inline_max_bytes : ℕ
inline_max_bytes = 98304

abbrev pub log_compact_keep : ℕ
log_compact_keep = 8

pub data ShipPayload : Type 0 where
  snapshot : Bytes → (gc_deltas : Bool) → ShipPayload
  delta : (counter : ℕ) → Bytes → ShipPayload

pub record ShipItem : Type 0 where
  pub object : Bytes
  pub payload : ShipPayload
  pub expected_seq : ℕ

pub record TxnRecord : Type 0 where
  pub txn_id : Bytes
  pub objects : List Bytes
  pub inline : List (Bytes × Bytes)

-- What a boat reads of its node: the clock at the two lease checks, the leases.
pub record Harbour : Type 0 where
  pub tag : Bytes
  pub ship_seq : ℕ
  pub born : ℕ
  pub ttl_ms : ℕ
  pub mono : ℕ
  pub wall : ℕ
  pub mono_after : ℕ
  pub wall_after : ℕ
  pub guarded : Guarded

pub record ShipDone : Type 0 where
  pub objects : List Bytes
  pub ok : Bool
  pub unpromoted : List Bytes
  pub rebased : Option Bytes

abbrev pub staging_id : Harbour → Bytes
staging_id node = node.tag ++ (codes "-" ++ decimal node.ship_seq)

abbrev pub object_key : Bytes → Bytes
object_key object = codes "objects/" ++ (object ++ codes ".db")

unfoldable pub txn_key : Bytes → Bytes
txn_key id = codes "txns/" ++ (id ++ codes ".json")

unfoldable pub item_suffix : ShipPayload → Bytes
item_suffix (snapshot bytes gc) = codes ".snap"
item_suffix (delta counter bytes) = codes ".delta." ++ padded 10 counter

-- `rsplit('/').next()`
unfoldable pub last_segment : Bytes → Bytes
last_segment [] = []
last_segment (c ∷ s) =
    let rest = last_segment s in
    if any (nat_beq b'/') s then rest else if nat_beq b'/' c then s else c ∷ s

unfoldable pub staging_key : ShipItem → Bytes → Bytes
unfolding item_suffix
staging_key item id =
    codes "staging/" ++ (id ++ (codes "/" ++ (item.object ++ item_suffix item.payload)))

-- The item's name in a commit record.
abbrev pub inline_name : Bytes → ShipItem → Bytes
inline_name id item = last_segment (staging_key item id)

abbrev pub payload_bytes : ShipPayload → Bytes
payload_bytes (snapshot bytes gc) = bytes
payload_bytes (delta counter bytes) = bytes

abbrev pub is_snap : ShipPayload → Bool
is_snap (snapshot bytes gc) = true
is_snap (delta counter bytes) = false

abbrev pub boat_bytes : List ShipItem → ℕ
boat_bytes [] = 0
boat_bytes (item ∷ items) = length (payload_bytes item.payload) + boat_bytes items

-- `true` when every put of the staging succeeded
unfoldable pub stage_all : Bytes → List ShipItem → Io Bool
unfolding staging_key
stage_all id [] = ret true
stage_all id (item ∷ items) = do
  r ← attempt (put? (staging_key item id) (payload_bytes item.payload))
  rest ← stage_all id items
  ret (is_some r && rest)

-- The fencing gate.
unfoldable pub pass_gate : Harbour → Io (Bool × Guarded)
unfolding verify_leases
pass_gate node = do
  checked ← verify_leases node.guarded node.mono node.wall
  ret (checked.0 && not checked.1.fenced, checked.1)

-- What became of the prewrites.
pub record Prewrites : Type 0 where
  pub failed : Bool
  pub rebased : Option Bytes
  pub prewritten : List (Bytes × ℕ)

abbrev pub no_prewrites : Prewrites
no_prewrites = record { failed = false; rebased = none; prewritten = [] }

-- `sorted.sort_by(|a, b| a.object.cmp(&b.object))`
unfoldable pub place_item : ShipItem → List ShipItem → List ShipItem
place_item item [] = item ∷ []
place_item item (other ∷ items) =
    let rest = place_item item items in
    if bytes_lt other.object item.object then other ∷ rest else item ∷ other ∷ items

unfoldable pub sort_items : List ShipItem → List ShipItem
unfolding place_item
sort_items [] = []
sort_items (item ∷ items) = place_item item (sort_items items)

-- `matches!(_, Ok(true))`
abbrev pub was_true : Option Bool → Bool
was_true none = false
was_true (some b) = b

-- What the boat brings to its commit and back: whether it is good, and what to roll back.
pub record Voyage : Type 0 where
  pub ok : Bool
  pub rebased : Option Bytes
  pub prewritten : List (Bytes × ℕ)
  pub guarded : Guarded

module _ (ledger_keys : Bytes → Option (List Bytes)) where
  -- `dkeys.iter().any(|k| !skeys.contains(k))`, where both images have a ledger
  unfoldable pub erases : Option (List Bytes) → Option (List Bytes) → Bool
  erases none skeys = false
  erases (some dkeys) none = false
  erases (some dkeys) (some skeys) = any (λ k. not (any (bytes_beq k) skeys)) dkeys

  unfoldable pub regresses_from : Bytes → Option (Bytes × ℕ) → Bool
  unfolding erases
  regresses_from image none = false
  regresses_from image (some folded) = erases (ledger_keys folded.0) (ledger_keys image)

  unfoldable pub snapshot_regresses : Bytes → Bytes → Io Bool
  unfolding fold_committed regresses_from
  snapshot_regresses object image = do
    folded ← attempt (fold_committed object)
    ret (regresses_from image folded)

  -- The answer of one prewrite; `rest` are the prewrites after it.
  unfoldable pub after_prewrite : Bytes → Io Prewrites → Option (Option ℕ) → Io Prewrites
  after_prewrite object rest none = ret (record { failed = true; rebased = none; prewritten = [] })
  after_prewrite object rest (some none) =
      ret (record { failed = true; rebased = some object; prewritten = [] })
  after_prewrite object rest (some (some seq)) = do
    made ← rest
    ret (record made { prewritten = (object, seq) ∷ made.prewritten })

  unfoldable pub prewrite_all : Bytes → ℕ → ℕ → List ShipItem → Io Prewrites
  unfolding snapshot_regresses entry_from_ship prewrite after_prewrite
  prewrite_all id born ttl_ms [] = ret no_prewrites
  prewrite_all id born ttl_ms (item ∷ items) = do
    let image = payload_bytes item.payload
    let rest = prewrite_all id born ttl_ms items
    regress ← if is_snap item.payload then snapshot_regresses item.object image else ret false
    if regress
        then ret (record { failed = true; rebased = some item.object; prewritten = [] })
        else (do
          r ← attempt (
              prewrite item.object id (entry_from_ship id born (is_snap item.payload) image)
                item.expected_seq born ttl_ms)
          after_prewrite item.object rest r)

  module _ (to_vec : TxnRecord → Bytes) (log_primary : Bool) where
    -- The commit point: the outcome key, or the commit record.
    unfoldable pub commit_boat : Bytes → List ShipItem → Bool → Io Bool
    unfolding commit_txn txn_key
    commit_boat id items inline =
        if log_primary then (do won ← attempt (commit_txn id); ret (was_true won)) else do
          let packed =
              if inline
              then map
                  (λ (item : ShipItem). (inline_name id item, hex (payload_bytes item.payload)))
                  items
              else []
          let txn : TxnRecord = record {
            txn_id = id;
            objects = map (λ (item : ShipItem). item.object) items;
            inline = packed;
          }
          r ← attempt (put? (txn_key id) (to_vec txn))
          ret (is_some r)

    -- The prewrites and the commit, past the gate.
    unfoldable pub sail : Harbour → List ShipItem → Bool → Guarded → Io Voyage
    unfolding sort_items prewrite_all commit_boat
    sail node items inline guarded = do
      let id = staging_id node
      made ←
          if log_primary
          then prewrite_all id node.born node.ttl_ms (sort_items items)
          else ret no_prewrites
      ok ← if made.failed then ret false else commit_boat id items inline
      ret (record {
        ok = ok;
        rebased = made.rebased;
        prewritten = made.prewritten;
        guarded = guarded;
      })

    -- `ship_task` up to where it answers.
    unfoldable pub voyage : Harbour → List ShipItem → Bool → Io Voyage
    unfolding stage_all pass_gate sail
    voyage node items inline = do
      staged ← if inline then ret true else stage_all (staging_id node) items
      gate ← if staged then pass_gate node else ret (false, node.guarded)
      if gate.0
          then sail node items inline gate.1
          else ret (record { ok = false; rebased = none; prewritten = []; guarded = gate.1 })
