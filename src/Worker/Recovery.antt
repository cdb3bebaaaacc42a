-- ===== src/Worker/Recovery.antt =====
-- worker.rs, the recovery of transactions that committed and were not promoted: `promote_staged`,
-- `roll_forward`, `recover_records_touching` and `recover`. serde_json is the parameter `from_slice`.
-- A panic, of `hex_decode` on a text that is cut within a character, ends the run as an error does.
pub mod Promotion
use fafo.Prelude.{
  ℕ, ◌≡◌, Bool, true, false, Option, none, some, List, [], ◌∷◌, ◌++◌, nat_beq, leb, any, length,
  if◌then◌else◌,
}
use fafo.Prelude.Bytes.{Bytes, codes, bytes_beq, strip_suffix, strip_prefix}
use fafo.Prelude.Words.{from_be_bytes}
use fafo.Objlog.Io.{Io, ret, fail, ◌>>=◌, ◌>>◌, get?, list?, put?, delete?, get_range?}
use fafo.Delta.{change_counter, header_change_counter}
use fafo.Grants.Hex.{Panics, returned, panicked, unhex}
use fafo.Worker.Ship.{TxnRecord, object_key, last_segment}

-- `s.rsplit_once(p)` for a pattern that is not empty
unfoldable pub rsplit_once : Bytes → Bytes → Option (Bytes × Bytes)
rsplit_once p [] = none
rsplit_once p (c ∷ s) = elim (rsplit_once p s) [
  | some (a, b) ↦ some (c ∷ a, b)
  | none ↦ elim (strip_prefix p (c ∷ s)) [ none ↦ none | some b ↦ some ([], b) ]
]

-- `.filter(|b| b.len() == 4).map(u32::from_be_bytes)`
unfoldable pub counter_in : Option Bytes → Option ℕ
counter_in none = none
counter_in (some b) = if nat_beq (length b) 4 then some (from_be_bytes b) else none

-- `current.is_some_and(|c| c >= staged)`
abbrev pub is_current : Option ℕ → ℕ → Bool
is_current none staged = false
is_current (some c) staged = leb staged c

unfoldable pub promote_snap : Bytes → Bytes → Io (Unit {0})
unfolding counter_in
promote_snap object bytes = do
  b ← get_range? (object_key object) header_change_counter 4
  if is_current (counter_in b) (change_counter bytes)
      then ret tt
      else put? (object_key object) bytes

-- A delta's new key.
abbrev pub chain_key : Bytes × Bytes → Bytes
chain_key (object, counter) = codes "objects/" ++ (object ++ (codes ".d." ++ counter))

unfoldable pub promote_staged : Bytes → Bytes → Io (Unit {0})
unfolding promote_snap rsplit_once
promote_staged key bytes = elim (strip_suffix (codes ".snap") (last_segment key)) [
  | some object ↦ promote_snap object bytes
  | none ↦ elim (rsplit_once (codes ".delta.") (last_segment key)) [
    | none ↦ ret tt
    | some parts ↦ put? (chain_key parts) bytes
  ]
]

unfoldable pub promote_blob : Bytes → Option Bytes → Io (Unit {0})
unfolding promote_staged
promote_blob key none = ret tt
promote_blob key (some blob) = promote_staged key blob

-- The staged blobs of a big boat.
unfoldable pub promote_listed : List Bytes → Io (Unit {0})
unfolding promote_blob
promote_listed [] = ret tt
promote_listed (staged ∷ keys) = do
  blob ← get? staged
  promote_blob staged blob
  delete? staged
  promote_listed keys

abbrev pub or_panic : {A : Type 0} → Panics A → Io A
or_panic (returned a) = ret a
or_panic panicked = fail

-- The payload in the record of a small boat.
unfoldable pub promote_inline : List (Bytes × Bytes) → Io (Unit {0})
unfolding promote_blob
promote_inline [] = ret tt
promote_inline ((name, hexed) ∷ items) = do
  blob ← or_panic (unhex hexed)
  promote_blob name blob
  promote_inline items

unfoldable pub promote_record : TxnRecord → Io (Unit {0})
unfolding promote_listed promote_inline
promote_record txn = elim txn.inline [
  | [] ↦ (do keys ← list? (codes "staging/" ++ (txn.txn_id ++ codes "/")); promote_listed keys)
  | item ∷ items ↦ promote_inline (item ∷ items)
]

unfoldable pub roll_forward : Bytes → TxnRecord → Io (Unit {0})
unfolding promote_record
roll_forward key txn = promote_record txn >> delete? key

unfoldable pub delete_each : List Bytes → Io (Unit {0})
delete_each [] = ret tt
delete_each (key ∷ keys) = delete? key >> delete_each keys

module _ (from_slice : Bytes → Option TxnRecord) where
  -- One record of the loop of `recover`; one that cannot be parsed is deleted.
  unfoldable pub recover_record : Bytes → Option Bytes → Io (Unit {0})
  unfolding roll_forward
  recover_record key none = ret tt
  recover_record key (some bytes) = elim (from_slice bytes) [
    | none ↦ delete? key
    | some txn ↦ roll_forward key txn
  ]

  unfoldable pub recover_each : List Bytes → Io (Unit {0})
  unfolding recover_record
  recover_each [] = ret tt
  recover_each (key ∷ keys) = do bytes ← get? key; recover_record key bytes; recover_each keys

  unfoldable pub recover : Bool → Io (Unit {0})
  unfolding recover_each delete_each
  recover true = ret tt
  recover false = do
    keys ← list? (codes "txns/")
    recover_each keys
    staged ← list? (codes "staging/")
    delete_each staged

  -- One record of the loop of `recover_records_touching`.
  unfoldable pub touch_record : Bytes → Bytes → Option Bytes → Io (Unit {0})
  unfolding roll_forward
  touch_record object key none = ret tt
  touch_record object key (some bytes) = elim (from_slice bytes) [
    | none ↦ ret tt
    | some txn ↦ if any (bytes_beq object) txn.objects then roll_forward key txn else ret tt
  ]

  unfoldable pub touch_each : Bytes → List Bytes → Io (Unit {0})
  unfolding touch_record
  touch_each object [] = ret tt
  touch_each object (key ∷ keys) = do
    bytes ← get? key
    touch_record object key bytes
    touch_each object keys

  unfoldable pub recover_records_touching : Bool → Bytes → Io (Unit {0})
  unfolding touch_each
  recover_records_touching true object = ret tt
  recover_records_touching false object = do keys ← list? (codes "txns/"); touch_each object keys
