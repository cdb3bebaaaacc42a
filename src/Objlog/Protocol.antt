-- ===== src/Objlog/Protocol.antt =====
-- objlog.rs, the protocol: outcomes, the committed prefix, prewrite, rollback and compaction. A value
-- that is dropped by `let _ =` is dropped here; diagnostics are left out.
use fafo.Prelude.{
  ℕ, zero, suc, ◌+◌, ◌-◌, Bool, true, false, Option, none, some, List, [], ◌∷◌, ltb, leb, nat_beq,
  if◌then◌else◌, max, length,
}
use fafo.Prelude.Bytes.{Bytes, bytes_beq}
use fafo.Prelude.Words.{from_be_bytes}
use fafo.Store.{bytes_lt}
use fafo.Objlog.Keys.{
  log_key, log_prefix, parse_log_seq, base_prefix, base_seq_key, parse_base_seq, seq_key,
  outcome_key,
}
use fafo.Objlog.Entry.{LogPayload, LogEntry, decode_entry, fold}
use fafo.Objlog.Io.{Io, ret, fail, ◌>>=◌, ◌>>◌, get?, list?, create?, delete?, attempt}

-- `b.first() == Some(&1)`
unfoldable pub is_one : Bytes → Bool
is_one [] = false
is_one (b ∷ s) = nat_beq b 1

abbrev pub committed_value : Bytes
committed_value = 1 ∷ []

abbrev pub aborted_value : Bytes
aborted_value = 0 ∷ []

abbrev pub map_option : {A B : Type 0} → (A → B) → Option A → Option B
map_option f none = none
map_option f (some a) = some (f a)

unfoldable pub outcome : Bytes → Io (Option Bool)
outcome txn = do b ← get? (outcome_key txn); ret (map_option is_one b)

-- `matches!(_, Ok(Some(true)))` and `matches!(_, Some(false))`
abbrev pub is_committed : Option (Option Bool) → Bool
is_committed (some (some true)) = true
is_committed _ = false

abbrev pub is_aborted : Option Bool → Bool
is_aborted (some false) = true
is_aborted _ = false

unfoldable pub committed : Bytes → Io Bool
unfolding outcome
committed txn = do r ← attempt (outcome txn); ret (is_committed r)

unfoldable pub commit_txn : Bytes → Io Bool
unfolding committed
commit_txn txn = do
  made ← create? (outcome_key txn) committed_value
  if made then ret true else committed txn

unfoldable pub abort_txn : Bytes → Io Bool
unfolding outcome
abort_txn txn = do
  made ← create? (outcome_key txn) aborted_value
  if made then ret true else (do o ← outcome txn; ret (is_aborted o))

-- `decode_entry(&b).is_some_and(|e| e.txn == txn)`
unfoldable pub belongs : Option Bytes → Bytes → Bool
belongs none txn = false
belongs (some b) txn = elim (decode_entry b) [ none ↦ false | some e ↦ bytes_beq e.txn txn ]

unfoldable pub delete_if_txn : Bytes → Bytes → Io (Unit {0})
delete_if_txn key txn = do b ← get? key; if belongs b txn then delete? key else ret tt

unfoldable pub clear_entry : Bytes → ℕ → Bytes → Io (Unit {0})
unfolding committed delete_if_txn
clear_entry id seq txn = do
  done ← committed txn
  if done then ret tt else delete_if_txn (log_key id seq) txn

-- The loop of `read_base` over the listed keys.
best_base : Bytes → Option ℕ → List Bytes → Option ℕ
best_base id best [] = best
best_base id best (k ∷ ks) =
    best_base id
      (elim (parse_base_seq k id) [
        | none ↦ best
        | some s ↦ some (elim best [ none ↦ s | some b ↦ max b s ])
      ])
      ks

or_empty : Option Bytes → Bytes
or_empty none = []
or_empty (some b) = b

unfoldable pub base_image : Bytes → Option ℕ → Io (Bytes × ℕ)
unfolding or_empty
base_image id none = ret ([], 0)
base_image id (some seq) = do img ← get? (base_seq_key id seq); ret (or_empty img, seq)

unfoldable pub read_base : Bytes → Io (Bytes × ℕ)
unfolding best_base base_image
read_base id = do keys ← list? (base_prefix id); base_image id (best_base id none keys)

-- `keys.sort()`
unfoldable pub sort_insert : Bytes → List Bytes → List Bytes
sort_insert k [] = k ∷ []
sort_insert k (j ∷ ks) =
    let rest = sort_insert k ks in if bytes_lt j k then j ∷ rest else k ∷ (j ∷ ks)

unfoldable pub sort : List Bytes → List Bytes
unfolding sort_insert
sort [] = []
sort (k ∷ ks) = sort_insert k (sort ks)

-- What the entry at the next sequence number turns out to be: the end of the prefix, or committed.
unfoldable pub entry_at : Bytes → Io (Option LogEntry)
unfolding committed
entry_at key = do
  b ← get? key
  elim b [
    | none ↦ ret none
    | some bytes ↦ elim (decode_entry bytes) [
      | none ↦ ret none
      | some entry ↦ (do done ← committed entry.txn; if done then ret (some entry) else ret none)
    ]
  ]

-- The loop of `committed_seq` over the sorted keys.
unfoldable pub walk_seq : Bytes → ℕ → ℕ → List Bytes → Io ℕ
walk_seq id base_seq seq [] = ret seq
walk_seq id base_seq seq (k ∷ ks) =
    let skip = walk_seq id base_seq seq ks in
    elim (parse_log_seq k id) [
      | none ↦ skip
      | some this_seq ↦
          if leb this_seq base_seq
          then skip
          else if nat_beq this_seq (seq + 1)
          then (do
            found ← entry_at k
            elim found [ none ↦ ret seq | some e ↦ walk_seq id base_seq this_seq ks ])
          else ret seq
    ]

-- `for _ in 0..n` of `committed_seq`; `fail` is the final `bail!`.
unfoldable pub committed_seq_within : ℕ → Bytes → Io ℕ
unfolding read_base sort walk_seq
committed_seq_within zero id = fail
committed_seq_within (suc n) id = do
  base ← read_base id
  keys ← list? (log_prefix id)
  seq ← walk_seq id base.1 base.1 (sort keys)
  now ← read_base id
  if ltb seq now.1 then committed_seq_within n id else ret seq

unfoldable pub committed_seq : Bytes → Io ℕ
unfolding committed_seq_within
committed_seq id = committed_seq_within 16 id

-- The loop of `fold_committed` over the sorted keys: the payloads, and the last sequence number.
unfoldable pub walk_fold : Bytes → ℕ → ℕ → List Bytes → Io (List LogPayload × ℕ)
walk_fold id base_seq seq [] = ret ([], seq)
walk_fold id base_seq seq (k ∷ ks) =
    let skip = walk_fold id base_seq seq ks in
    elim (parse_log_seq k id) [
      | none ↦ skip
      | some this_seq ↦
          if leb this_seq base_seq
          then skip
          else if nat_beq this_seq (seq + 1)
          then (do
            found ← entry_at k
            elim found [
              | none ↦ ret ([], seq)
              | some e ↦ (do
                rest ← walk_fold id base_seq this_seq ks
                ret (e.payload ∷ rest.0, rest.1))
            ])
          else ret ([], seq)
    ]

unfoldable pub fold_committed_within : ℕ → Bytes → Io (Bytes × ℕ)
unfolding read_base sort walk_fold
fold_committed_within zero id = fail
fold_committed_within (suc n) id = do
  base ← read_base id
  keys ← list? (log_prefix id)
  walked ← walk_fold id base.1 base.1 (sort keys)
  now ← read_base id
  if ltb walked.1 now.1
      then fold_committed_within n id
      else elim (fold base.0 walked.0) [ none ↦ fail | some image ↦ ret (image, walked.1) ]

unfoldable pub fold_committed : Bytes → Io (Bytes × ℕ)
unfolding fold_committed_within
fold_committed id = fold_committed_within 16 id

unfoldable pub compact : Bytes → ℕ → Io (Unit {0})
unfolding fold_committed read_base
compact id keep = do
  folded ← fold_committed id
  base ← read_base id
  if ltb folded.1 (base.1 + keep)
      then ret tt
      else (do create? (base_seq_key id folded.1) folded.0; ret tt)

-- The slot is held by another transaction's entry: take it over, or give up. `retry` is the next
-- round of the loop.
unfoldable pub contend : Bytes → LogEntry → ℕ → ℕ → Io (Option ℕ) → Io (Option ℕ)
unfolding outcome abort_txn delete_if_txn
contend key held now_ms ttl_ms retry = do
  o ← outcome held.txn
  elim o [
    | some decided ↦ if decided then ret none else (do delete_if_txn key held.txn; retry)
    | none ↦ if leb (now_ms - held.born) ttl_ms then ret none else do
      won ← abort_txn held.txn
      if won then (do delete_if_txn key held.txn; retry) else ret none
  ]

-- The slot's entry, decoded: a slot of ours is an idempotent retry.
unfoldable pub held_by : Bytes → Bytes → ℕ → ℕ → ℕ → Io (Option ℕ) → Option LogEntry → Io (Option ℕ)
held_by key txn seq now_ms ttl_ms retry none = ret none
held_by key txn seq now_ms ttl_ms retry (some held) =
    if bytes_beq held.txn txn then ret (some seq) else contend key held now_ms ttl_ms retry

unfoldable pub occupied : Bytes → Bytes → ℕ → ℕ → ℕ → Io (Option ℕ) → Option Bytes → Io (Option ℕ)
occupied key txn seq now_ms ttl_ms retry none = retry
occupied key txn seq now_ms ttl_ms retry (some bytes) =
    held_by key txn seq now_ms ttl_ms retry (decode_entry bytes)

-- `for _ in 0..n` of `prewrite`, at the sequence number that never changes.
unfoldable pub prewrite_within : ℕ → Bytes → ℕ → Bytes → Bytes → ℕ → ℕ → Io (Option ℕ)
prewrite_within zero id seq txn entry now_ms ttl_ms = ret none
prewrite_within (suc n) id seq txn entry now_ms ttl_ms = do
  let key = log_key id seq
  let retry = prewrite_within n id seq txn entry now_ms ttl_ms
  made ← create? key entry
  if made
      then ret (some seq)
      else do existing ← get? key; occupied key txn seq now_ms ttl_ms retry existing

unfoldable pub prewrite : Bytes → Bytes → Bytes → ℕ → ℕ → ℕ → Io (Option ℕ)
unfolding committed_seq prewrite_within occupied held_by contend
prewrite id txn entry expected now_ms ttl_ms = do
  current ← committed_seq id
  if nat_beq current expected
      then prewrite_within 64 id (expected + 1) txn entry now_ms ttl_ms
      else ret none

-- `read_seq`: 0 on a missing or misshapen marker, and on an error of the store.
abbrev marker : Option (Option Bytes) → ℕ
marker (some (some b)) = if nat_beq (length b) 8 then from_be_bytes b else 0
marker _ = 0

unfoldable pub read_seq : Bytes → Io ℕ
read_seq id = do r ← attempt (get? (seq_key id)); ret (marker r)
