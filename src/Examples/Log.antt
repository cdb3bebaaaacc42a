-- ===== src/Examples/Log.antt =====
-- The theorems on objlog.rs and store.rs at concrete inputs.
use fafo.Prelude.{
  ℕ, ◌+◌, ◌≤◌, ◌<◌, ◌≡◌, ◌≢◌, refl, Bool, true, false, Option, none, some, List, [], ◌∷◌, arith,
  ltb, lookup, insert, ◌>>=◌,
}
use fafo.Prelude.Bytes.{Bytes, codes, bytes_beq}
use fafo.Store as Store
use fafo.Store.{
  MemInner, empty_store, read, putting, deleting, creating, effects, effect, bytes_lt, version,
  ordered_insert,
}
use fafo.Store.Versions.{version_names_content}
use fafo.Objlog.Keys.{log_key, parse_log_seq, outcome_key, log_key-lt, parse_log_seq-log_key}
use fafo.Objlog.Entry.{
  LogPayload, LogEntry, encode_entry, decode_entry, valid_utf8, decode_entry-encode_entry,
}
use fafo.Objlog.Io as Io
use fafo.Objlog.Io.{run, Turn, Fault, quiet}
use fafo.Objlog.Outcome.{decision, commit_final, abort_excludes_commit, commit_excludes_abort}
use fafo.Objlog.Prewrite.{prewrite_holds_slot, delete_if_txn_race, raced}
use fafo.Objlog.Lockstep.{walk_seq-eq-walk_fold, second}
use fafo.Objlog.Protocol.{
  commit_txn, abort_txn, prewrite, belongs, delete_if_txn, walk_seq, walk_fold,
}

abbrev t1 : Bytes
t1 = codes "t1"

abbrev other_key : Bytes
other_key = codes "x"

abbrev elsewhere : List Store.Call
elsewhere = putting other_key [] ∷ creating (codes "txns/t1.O") (0 ∷ []) ∷ []

outcome_key_apart : other_key ≢ outcome_key t1
unfolding outcome_key
outcome_key_apart e = ground arith

committed_run : (run (commit_txn t1) [] empty_store).0 ≡ some true
unfolding run commit_txn Io.◌>>=◌ Store.create effects lookup
committed_run = refl

aborted_run : (run (abort_txn t1) [] empty_store).0 ≡ some true
unfolding run abort_txn Io.◌>>=◌ Store.create effects lookup
aborted_run = refl

commit_final_example :
    decision (effects (run (commit_txn t1) [] empty_store).1 elsewhere) t1 ≡ some true
commit_final_example =
    commit_final t1 [] empty_store elsewhere committed_run (outcome_key_apart, (tt, tt))

abort_excludes_commit_example :
    (run (commit_txn t1) (quiet ∷ []) (effects (run (abort_txn t1) [] empty_store).1 elsewhere)).0
    ≢ some true
abort_excludes_commit_example =
    abort_excludes_commit t1 [] (quiet ∷ []) empty_store elsewhere aborted_run
      (outcome_key_apart, (tt, tt)) (tt, tt)

commit_excludes_abort_example :
    (run (abort_txn t1) (quiet ∷ []) (effects (run (commit_txn t1) [] empty_store).1 elsewhere)).0
    ≢ some true
commit_excludes_abort_example =
    commit_excludes_abort t1 [] (quiet ∷ []) empty_store elsewhere committed_run
      (outcome_key_apart, (tt, tt)) (tt, tt)

abbrev my_entry : Bytes
my_entry = encode_entry t1 7 (LogPayload.snapshot (1 ∷ 2 ∷ []))

my_entry-belongs : belongs (some my_entry) t1 ≡ true
unfolding belongs encode_entry decode_entry fafo.Prelude.Words.to_be_bytes fafo.Objlog.Entry.body_of
    fafo.Prelude.Words.from_be_bytes valid_utf8 fafo.Objlog.Entry.tag_of bytes_beq
my_entry-belongs = refl

prewrite-run : (run (prewrite (codes "a") t1 my_entry 0 10 1000) [] empty_store).0 ≡ some (some 1)
unfolding run prewrite Io.◌>>=◌ Store.list effects Store.create lookup
prewrite-run = refl

prewrite_holds_slot_example :
    (1 ≡ 0 + 1)
    × (belongs
          (Store.get
            (run (prewrite (codes "a") t1 my_entry 0 10 1000) [] empty_store).1
            (log_key (codes "a") 1))
          t1
        ≡ true)
prewrite_holds_slot_example =
    prewrite_holds_slot (codes "a") t1 my_entry 0 10 1000 [] empty_store my_entry-belongs
      prewrite-run

abbrev with_entry : MemInner
with_entry = Store.put empty_store (log_key (codes "a") 1) my_entry

entry_there : belongs (Store.get with_entry (log_key (codes "a") 1)) t1 ≡ true
unfolding belongs encode_entry decode_entry Store.get Store.put lookup bytes_beq log_key
    fafo.Objlog.Keys.padded fafo.Prelude.Words.to_be_bytes fafo.Objlog.Entry.body_of
    fafo.Prelude.Words.from_be_bytes valid_utf8 fafo.Objlog.Entry.tag_of
entry_there = refl

undecided : Store.get with_entry (outcome_key (codes "t2")) ≡ none
unfolding Store.get Store.put lookup bytes_beq log_key outcome_key
undecided = refl

keys_apart : log_key (codes "a") 1 ≢ outcome_key (codes "t2")
unfolding log_key outcome_key
keys_apart e = ground arith

delete_if_txn_race_example :
    let key = log_key (codes "a") 1 in
    let winner = codes "t2" in
    let before_delete = effects with_entry (raced key winner (9 ∷ [])).before in
    let after = run (delete_if_txn key t1) (quiet ∷ raced key winner (9 ∷ []) ∷ []) with_entry in
    (Store.get before_delete key ≡ some (9 ∷ []))
    × (decision before_delete winner ≡ some true)
    × (after.0 ≡ some tt)
    × (Store.get after.1 key ≡ none)
    × (decision after.1 winner ≡ some true)
delete_if_txn_race_example =
    delete_if_txn_race (log_key (codes "a") 1) t1 (codes "t2") (9 ∷ []) with_entry entry_there
      undecided keys_apart

walk_seq-eq-walk_fold_example :
    walk_seq (codes "a") 0 0 (log_key (codes "a") 1 ∷ [])
    ≡ Io.◌>>=◌ (walk_fold (codes "a") 0 0 (log_key (codes "a") 1 ∷ [])) second
walk_seq-eq-walk_fold_example = walk_seq-eq-walk_fold (codes "a") 0 0 (log_key (codes "a") 1 ∷ [])

t1_valid : valid_utf8 t1 ≡ true
unfolding valid_utf8
t1_valid = refl

decode_entry-encode_entry_example :
    decode_entry my_entry
    ≡ some (record { txn = t1; born = 7; payload = LogPayload.snapshot (1 ∷ 2 ∷ []) })
decode_entry-encode_entry_example =
    decode_entry-encode_entry t1 7 (LogPayload.snapshot (1 ∷ 2 ∷ [])) (omega arith) (omega arith)
      t1_valid

abbrev one_blob : MemInner
one_blob = Store.put empty_store other_key (5 ∷ [])

version_1 : version one_blob other_key ≡ 1
unfolding version Store.put lookup bytes_beq insert
version_1 = refl

version_still_1 : version (effects one_blob (read ∷ creating other_key [] ∷ [])) other_key ≡ 1
unfolding version effects Store.put lookup Store.create bytes_beq insert
version_still_1 = refl

version_names_content_example :
    Store.get (effects one_blob (read ∷ creating other_key [] ∷ [])) other_key
    ≡ Store.get one_blob other_key
version_names_content_example =
    version_names_content one_blob other_key (read ∷ creating other_key [] ∷ []) 0 version_1
      version_still_1
