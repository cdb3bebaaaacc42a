-- ===== src/Examples/Images.antt =====
-- The theorems on delta.rs and limits.rs at concrete inputs.
use fafo.Prelude.{
  ℕ, zero, suc, nat_eq, list_eq, ◌+◌, ◌≤◌, ◌<◌, ◌≡◌, ◌≢◌, ◌⊎◌, refl, none, some, List, [], ◌∷◌,
  ◌++◌, arith, length, map, lookup,
}
use fafo.Prelude.Bytes.{Bytes, codes}
use fafo.Delta.{Delta, page_size, chunks, apply, diff, manifest_of, encode, decode}
use fafo.Delta.Codec.{IsEncodable, decode-encode}
use fafo.Delta.Diff.{apply-diff, NoCollision}
use fafo.Disk.{DiskLedger, FileState, enforce}
use fafo.Disk.Ledger.{IsBalanced, LedgerCall, ledger_run, ledger_run-IsBalanced, total}
use fafo.Disk.Enforce.{NoCache, enforce_settles}

abbrev one_page : Delta
one_page = record { counter = 3; file_len = 4; page_size = 4096; pages = (0, 7 ∷ 8 ∷ []) ∷ [] }

one_page_fits : IsEncodable one_page
one_page_fits = record {
  counter_fits = omega arith;
  file_len_fits = omega arith;
  page_size_fits = omega arith;
  count_fits = omega arith;
  pages_fit = ((omega arith, omega arith), tt);
}

decode-encode_example : decode (encode one_page ++ (1 ∷ [])) ≡ some one_page
decode-encode_example = decode-encode one_page (1 ∷ []) one_page_fits

abbrev pub old_file : Bytes
old_file = 1 ∷ 2 ∷ []

abbrev pub new_file : Bytes
new_file = 1 ∷ 5 ∷ 6 ∷ []

-- A page hash that tells the two files apart.
abbrev pub sum : Bytes → ℕ
sum [] = 0
sum (b ∷ bs) = b + sum bs

pub small_pages : page_size old_file ≡ 4096
unfolding page_size
small_pages = refl

pub no_collision : NoCollision sum (chunks 4096 old_file) (chunks 4096 new_file)
unfolding chunks
no_collision zero c d p q h = absurd (ground arith)
no_collision (suc i) c d p q h = absurd (ground arith)

pub one_chunk : length (chunks 4096 new_file) ≡ 1
unfolding chunks
one_chunk = refl

apply-diff_example :
    let r = diff sum (manifest_of sum old_file 2) new_file in
    (apply old_file r.1 ≡ new_file)
    × (r.0.hashes ≡ map sum (chunks (page_size old_file) new_file))
    × (r.0.page_size ≡ page_size old_file)
apply-diff_example =
    apply-diff sum old_file new_file 2 (rw small_pages (omega arith)) (rw small_pages (omega arith))
      (rw small_pages no_collision) (rw (small_pages, one_chunk) (omega arith))

abbrev stored : DiskLedger
stored = record {
  budget = 10;
  used = 30;
  seq = 2;
  files =
      (codes "a", record { bytes = 20; state = FileState.cache; worker = 1; touched = 1 })
      ∷ (codes "b", record { bytes = 10; state = FileState.live; worker = 2; touched = 2 })
      ∷ [];
}

stored-IsBalanced : IsBalanced stored
unfolding total lookup
stored-IsBalanced = ((refl, (refl, tt)), refl)

abbrev some_calls : List LedgerCall
some_calls =
    LedgerCall.setting_live (codes "c") 5 1
    ∷ LedgerCall.touching (codes "a") 6
    ∷ LedgerCall.setting_cache (codes "c") (some 7) 1
    ∷ LedgerCall.removing (codes "b")
    ∷ []

ledger_run-IsBalanced_example : IsBalanced (ledger_run stored some_calls)
ledger_run-IsBalanced_example = ledger_run-IsBalanced stored some_calls stored-IsBalanced

enforce_settles_example :
    let r = enforce stored in
    IsBalanced r.0
    × (r.1.deleted_cache_bytes + r.0.used ≡ 30)
    × (((r.0.used ≤ 10) × (r.1.shed_from_worker ≡ none))
        ⊎ ((10 < r.0.used) × NoCache r.0.files × (r.1.shed_from_worker ≢ none)))
enforce_settles_example = enforce_settles stored stored-IsBalanced
