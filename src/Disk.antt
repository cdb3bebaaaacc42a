-- ===== src/Disk.antt =====
-- limits.rs: the budgets that a node derives from its memory, and the ledger of its local files. A
-- path is its bytes. The file system is a parameter: the length that `metadata` reports is an
-- argument, and the paths that `enforce` unlinks are part of its answer.
pub mod Ledger
pub mod Enforce
use fafo.Prelude.{
  ℕ, zero, suc, ◌+◌, ◌-◌, ◌*◌, ◌/◌, ◌<◌, ◌^◌, min, max, ◌≡◌, refl, Bool, true, false, Option, none,
  some, List, [], ◌∷◌, ltb, leb, nat_beq, nat_eq, list_eq, if◌then◌else◌, length, Map, lookup,
  insert, remove, ◌==◌,
}
use fafo.Prelude.Bytes.{Bytes}

pub record Limits : Type 0 where
  pub memory_bytes : ℕ
  pub disk_budget : ℕ
  pub max_boat_bytes : ℕ
  pub activation_permits : ℕ

abbrev pub mib : ℕ
mib = 1024 * 1024

abbrev clamp : ℕ → ℕ → ℕ → ℕ
clamp x low high = min (max x low) high

unfoldable pub derive : ℕ → ℕ → Limits
derive memory_bytes disk_total = record {
  memory_bytes = memory_bytes;
  disk_budget = (disk_total * 6) / 10;
  max_boat_bytes = clamp (memory_bytes / 8) (16 * mib) (1024 * mib);
  activation_permits = if leb (4 * (1024 * mib)) memory_bytes then 4 else 2;
}

-- `detect`, with what the environment says of the memory and the disk.
unfoldable pub detect : Option ℕ → Option ℕ → Option ℕ → Limits
unfolding derive
detect env_memory cgroup env_disk =
    let memory_bytes : ℕ = elim env_memory [
      | some m ↦ m
      | none ↦ elim cgroup [ some m ↦ m | none ↦ 4 * (1024 * mib) ]
    ] in
    let disk_total : ℕ = elim env_disk [
      | some d ↦ d
      | none ↦ memory_bytes + (memory_bytes * 2) / 3
    ] in
    derive memory_bytes disk_total

pub data FileState : Type 0 where
  live cache : FileState

-- `self.files`' values.
pub record Entry : Type 0 where
  pub bytes : ℕ
  pub state : FileState
  pub worker : ℕ
  pub touched : ℕ

pub record DiskLedger : Type 0 where
  pub budget : ℕ
  pub used : ℕ
  pub seq : ℕ
  pub files : Map Bytes Entry

pub record Enforcement : Type 0 where
  pub deleted_cache_bytes : ℕ
  pub shed_from_worker : Option ℕ

abbrev pub new_ledger : ℕ → DiskLedger
new_ledger budget = record { budget = budget; used = 0; seq = 0; files = [] }

-- The bytes of the entry that an update displaces.
abbrev pub bytes_at : Option Entry → ℕ
bytes_at none = 0
bytes_at (some e) = e.bytes

unfoldable pub upsert : DiskLedger → Bytes → ℕ → FileState → ℕ → DiskLedger
upsert l path bytes state worker =
    let seq = l.seq + 1 in
    let entry : Entry = record { bytes = bytes; state = state; worker = worker; touched = seq } in
    record l {
      seq = seq;
      files = insert path entry l.files;
      used = (l.used - bytes_at (lookup path l.files)) + bytes;
    }

unfoldable pub drop_file : DiskLedger → Bytes → DiskLedger
drop_file l path = record l {
  files = remove path l.files;
  used = l.used - bytes_at (lookup path l.files);
}

unfoldable pub set_live : DiskLedger → Bytes → ℕ → ℕ → DiskLedger
unfolding upsert
set_live l path bytes worker = upsert l path bytes FileState.live worker

-- `metadata` is what the file system reports of the path.
unfoldable pub set_cache : DiskLedger → Bytes → Option ℕ → ℕ → DiskLedger
unfolding upsert drop_file
set_cache l path metadata worker = elim metadata [
  | some len ↦ upsert l path len FileState.cache worker
  | none ↦ drop_file l path
]

unfoldable pub touch : DiskLedger → Bytes → ℕ → DiskLedger
touch l path bytes =
    let seq = l.seq + 1 in
    elim (lookup path l.files) [
      | none ↦ record l { seq = seq }
      | some e ↦ record l {
        seq = seq;
        used = (l.used - e.bytes) + bytes;
        files = insert path (record e { bytes = bytes; touched = seq }) l.files;
      }
    ]

abbrev pub is_cache : FileState → Bool
is_cache FileState.live = false
is_cache FileState.cache = true

-- `.min_by_key(|(_, e)| e.touched)` over the cache entries: the first of the least.
unfoldable pub victim : Map Bytes Entry → Option (Bytes × ℕ)
victim [] = none
victim ((p, e) ∷ files) =
    let rest = victim files in
    if is_cache e.state
    then elim rest [
      | none ↦ some (p, e.touched)
      | some (q, t) ↦ if ltb t e.touched then some (q, t) else some (p, e.touched)
    ]
    else rest

-- The `while` loop of `enforce`: the ledger, the bytes deleted, and the paths unlinked, in order.
-- Each round removes a file, so that as many rounds as there are files are enough.
unfoldable pub enforce_within : ℕ → DiskLedger → ℕ → DiskLedger × ℕ × List Bytes
unfolding victim drop_file
enforce_within zero l deleted = (l, deleted, [])
enforce_within (suc n) l deleted = elim (victim l.files) [
  | none ↦ (l, deleted, [])
  | some (path, t) ↦
      let (l', deleted', paths) =
        enforce_within n (drop_file l path) (deleted + bytes_at (lookup path l.files)) in
      if ltb l.budget l.used then (l', deleted', path ∷ paths) else (l, deleted, [])
]

-- `*live_by_worker.entry(e.worker).or_default() += e.bytes`, over the live files.
unfoldable pub live_by_worker : Map Bytes Entry → Map ℕ ℕ → Map ℕ ℕ
live_by_worker [] loads = loads
live_by_worker ((p, e) ∷ files) loads =
    let so_far : ℕ = elim (lookup e.worker loads) [ none ↦ 0 | some b ↦ b ] in
    let here = live_by_worker files (insert e.worker (so_far + e.bytes) loads) in
    let rest = live_by_worker files loads in if is_cache e.state then rest else here

-- `.max_by_key(|(_, b)| *b)`: the last of the greatest.
unfoldable pub heaviest : Map ℕ ℕ → Option (ℕ × ℕ)
heaviest [] = none
heaviest ((w, b) ∷ loads) =
    let rest = heaviest loads in
    elim rest [ none ↦ some (w, b) | some (v, c) ↦ if ltb c b then some (w, b) else some (v, c) ]

unfoldable pub enforce : DiskLedger → DiskLedger × Enforcement × List Bytes
unfolding enforce_within live_by_worker heaviest
enforce l =
    let (l', deleted, paths) = enforce_within (length l.files) l 0 in
    let shed : Option ℕ =
      if ltb l'.budget l'.used
      then elim (heaviest (live_by_worker l'.files [])) [ none ↦ none | some (w, b) ↦ some w ]
      else none in
    (l', record { deleted_cache_bytes = deleted; shed_from_worker = shed }, paths)
