-- ===== src/Disk/Ledger.antt =====
-- limits.rs, the accounting of the ledger and what `enforce` ends in.
use fafo.Prelude.{
  ℕ, suc, ◌+◌, ◌≤◌, ◌≡◌, refl, ap, inl, inr, Option, none, some, List, [], ◌∷◌, arith, length, Map,
  lookup, insert, remove, IsMap, insert-IsMap, remove-IsMap, ◌==◌, Bool-cases, Option-cases, nat_eq,
  list_eq, list_beq_iff,
}
use fafo.Prelude.Bytes.{Bytes}
use fafo.Disk.{
  FileState, Entry, DiskLedger, bytes_at, upsert, drop_file, set_live, set_cache, touch,
}

-- The bytes of all files of a ledger.
unfoldable pub total : Map Bytes Entry → ℕ
total [] = 0
total ((p, e) ∷ files) = e.bytes + total files

-- The ledger's account is right: no path stands twice, and `used` is the sum of the files' bytes.
abbrev pub IsBalanced : DiskLedger → Type 0
IsBalanced l = IsMap l.files × (l.used ≡ total l.files)

pub total-insert :
    (p : Bytes) (e : Entry) (files : Map Bytes Entry)
    → total (insert p e files) + bytes_at (lookup p files) ≡ total files + e.bytes
unfolding total insert lookup
total-insert p e [] = omega arith
total-insert p e ((q, f) ∷ files) = ground (arith, total-insert p e files)

pub remove-absent :
    (p : Bytes) (files : Map Bytes Entry) → lookup p files ≡ none → remove p files ≡ files
unfolding remove lookup
remove-absent p [] h = refl
remove-absent p ((q, f) ∷ files) h = ground (arith, remove-absent p files)

pub total-remove :
    (p : Bytes) (files : Map Bytes Entry)
    → IsMap files
    → total (remove p files) + bytes_at (lookup p files) ≡ total files
unfolding total remove lookup
total-remove p [] h = omega arith
total-remove p ((q, f) ∷ files) h = elim (Bool-cases (q == p)) [
  | inl b ↦
      let same : q ≡ p = (list_beq_iff q p).0 b in
      rw b (omega (arith, ap total (remove-absent p files (rw same at h.0))))
  | inr b ↦ rw b (omega (arith, total-remove p files h.1))
]

pub bytes_at_le : (p : Bytes) (files : Map Bytes Entry) → bytes_at (lookup p files) ≤ total files
unfolding total lookup
bytes_at_le p [] = omega arith
bytes_at_le p ((q, f) ∷ files) = ground (arith, bytes_at_le p files)

upsert-IsBalanced :
    (l : DiskLedger) (path : Bytes) (bytes : ℕ) (state : FileState) (worker : ℕ)
    → IsBalanced l
    → IsBalanced (upsert l path bytes state worker)
unfolding upsert
upsert-IsBalanced l path bytes state worker h =
    let entry : Entry = record {
      bytes = bytes;
      state = state;
      worker = worker;
      touched = l.seq + 1;
    } in
    (
      insert-IsMap path entry l.files h.0,
      omega (arith, h.1, total-insert path entry l.files, bytes_at_le path l.files),
    )

pub drop_file-IsBalanced :
    (l : DiskLedger) (path : Bytes) → IsBalanced l → IsBalanced (drop_file l path)
unfolding drop_file
drop_file-IsBalanced l path h =
    (remove-IsMap path l.files h.0, omega (arith, h.1, total-remove path l.files h.0))

set_live-IsBalanced :
    (l : DiskLedger) (path : Bytes) (bytes worker : ℕ)
    → IsBalanced l
    → IsBalanced (set_live l path bytes worker)
unfolding set_live
set_live-IsBalanced l path bytes worker h = upsert-IsBalanced l path bytes FileState.live worker h

set_cache-IsBalanced :
    (l : DiskLedger) (path : Bytes) (metadata : Option ℕ) (worker : ℕ)
    → IsBalanced l
    → IsBalanced (set_cache l path metadata worker)
unfolding set_cache
set_cache-IsBalanced l path none worker h = drop_file-IsBalanced l path h
set_cache-IsBalanced l path (some len) worker h =
    upsert-IsBalanced l path len FileState.cache worker h

touch-IsBalanced :
    (l : DiskLedger) (path : Bytes) (bytes : ℕ) → IsBalanced l → IsBalanced (touch l path bytes)
unfolding touch
touch-IsBalanced l path bytes h = elim (Option-cases (lookup path l.files)) [
  | inl n ↦ rw (n, touch) h
  | inr (e, s) ↦
      let e' : Entry = record e { bytes = bytes; touched = l.seq + 1 } in
      let before : bytes_at (lookup path l.files) ≡ e.bytes = rw s refl in
      rw (s, touch)
        (
          insert-IsMap path e' l.files h.0,
          omega (arith, h.1, total-insert path e' l.files, before, bytes_at_le path l.files),
        )
]

pub length-remove :
    (p : Bytes) (files : Map Bytes Entry) {e : Entry}
    → IsMap files
    → lookup p files ≡ some e
    → suc (length (remove p files)) ≡ length files
unfolding remove lookup
length-remove p [] m h = cc
length-remove p ((q, f) ∷ files) m h = elim (Bool-cases (q == p)) [
  | inl b ↦
      let same : q ≡ p = (list_beq_iff q p).0 b in
      rw b (rw (remove-absent p files (rw same at m.0)) refl)
  | inr b ↦ rw b (omega (arith, length-remove p files m.1 (rw b at h)))
]

-- The calls that workers make on the ledger.
pub data LedgerCall : Type 0 where
  setting_live : (path : Bytes) (bytes worker : ℕ) → LedgerCall
  setting_cache : (path : Bytes) (metadata : Option ℕ) (worker : ℕ) → LedgerCall
  touching : (path : Bytes) (bytes : ℕ) → LedgerCall
  removing : (path : Bytes) → LedgerCall

unfoldable pub ledger_step : DiskLedger → LedgerCall → DiskLedger
unfolding set_live set_cache touch drop_file
ledger_step l (setting_live path bytes worker) = set_live l path bytes worker
ledger_step l (setting_cache path metadata worker) = set_cache l path metadata worker
ledger_step l (touching path bytes) = touch l path bytes
ledger_step l (removing path) = drop_file l path

unfoldable pub ledger_run : DiskLedger → List LedgerCall → DiskLedger
unfolding ledger_step
ledger_run l [] = l
ledger_run l (c ∷ cs) = ledger_run (ledger_step l c) cs

ledger_step-IsBalanced :
    (l : DiskLedger) (c : LedgerCall) → IsBalanced l → IsBalanced (ledger_step l c)
unfolding ledger_step
ledger_step-IsBalanced l (setting_live path bytes worker) h =
    set_live-IsBalanced l path bytes worker h
ledger_step-IsBalanced l (setting_cache path metadata worker) h =
    set_cache-IsBalanced l path metadata worker h
ledger_step-IsBalanced l (touching path bytes) h = touch-IsBalanced l path bytes h
ledger_step-IsBalanced l (removing path) h = drop_file-IsBalanced l path h

-- Whatever calls are made on a ledger whose account is right, the account stays right: no path
-- stands twice and `used` is the sum of the files' bytes.
pub ledger_run-IsBalanced :
    (l : DiskLedger) (cs : List LedgerCall) → IsBalanced l → IsBalanced (ledger_run l cs)
unfolding ledger_run
ledger_run-IsBalanced l [] h = h
ledger_run-IsBalanced l (c ∷ cs) h =
    ledger_run-IsBalanced (ledger_step l c) cs (ledger_step-IsBalanced l c h)
