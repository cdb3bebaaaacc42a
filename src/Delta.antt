-- ===== src/Delta.antt =====
-- delta.rs: page deltas of large objects. Definitions here, the proofs in the children. The page
-- hash (the standard library's SipHash) is a parameter.
pub mod Codec
pub mod Keys
pub mod Apply
pub mod Diff
use fafo.Prelude.{
  ℕ, zero, suc, ◌+◌, ◌-◌, ◌*◌, ◌/◌, ◌%◌, ◌^◌, ◌≤◌, ◌<◌, ◌≡◌, refl, Bool, true, false, Option, none,
  some, List, [], ◌∷◌, ◌++◌, map, ltb, leb, nat_beq, if◌then◌else◌, length, take, drop, get_elem?,
  replicate, min, ◌>>=◌, ◌>>◌, guard,
}
use fafo.Prelude.Bytes.{Bytes}
use fafo.Prelude.Words.{to_le_bytes, from_le_bytes, from_be_bytes}

abbrev pub header_page_size : ℕ
header_page_size = 16

abbrev pub header_change_counter : ℕ
header_change_counter = 24

-- `bytes[at..at + n]`, in range at each use
abbrev pub slice : Bytes → ℕ → ℕ → Bytes
slice bytes at n = take n (drop at bytes)

unfoldable pub page_size : Bytes → ℕ
page_size file =
    if ltb (length file) 100
    then 4096
    else (let raw = from_be_bytes (slice file header_page_size 2) in
        if nat_beq raw 1 then 65536 else if nat_beq raw 0 then 4096 else raw)

unfoldable pub change_counter : Bytes → ℕ
change_counter file =
    if ltb (length file) 100 then 0 else from_be_bytes (slice file header_change_counter 4)

pub record Manifest : Type 0 where
  pub page_size : ℕ
  pub hashes : List ℕ
  pub chain_len : ℕ

pub record Delta : Type 0 where
  pub counter : ℕ
  pub file_len : ℕ
  pub page_size : ℕ
  pub pages : List (ℕ × Bytes)

-- `file.chunks(n)` for 0 < n, with the length of the file as fuel: every chunk has a byte.
unfoldable pub chunks_from : ℕ → ℕ → Bytes → List Bytes
chunks_from fuel n [] = []
chunks_from zero n (b ∷ bs) = []
chunks_from (suc fuel) n (b ∷ bs) = take n (b ∷ bs) ∷ chunks_from fuel n (drop n (b ∷ bs))

unfoldable pub chunks : ℕ → Bytes → List Bytes
unfolding chunks_from
chunks n file = chunks_from (length file) n file

-- `manifest.hashes.get(i) != Some(&h)`
abbrev pub differs : Option ℕ → ℕ → Bool
differs none h = true
differs (some g) h = if nat_beq g h then false else true

-- `file.resize(n, 0)`
unfoldable pub resize : ℕ → Bytes → Bytes
resize n file = take n file ++ replicate (n - length file) 0

-- One round of the loop of `apply`.
unfoldable pub write_page : ℕ → Bytes → ℕ × Bytes → Bytes
write_page ps file (page_no, bytes) =
    let start = page_no * ps in
    let end = min (start + length bytes) (length file) in
    if ltb start (length file)
    then take start file ++ (take (end - start) bytes ++ drop end file)
    else file

unfoldable pub write_pages : ℕ → Bytes → List (ℕ × Bytes) → Bytes
write_pages ps file [] = file
write_pages ps file (p ∷ ps') = write_pages ps (write_page ps file p) ps'

unfoldable pub apply : Bytes → Delta → Bytes
unfolding resize write_page write_pages
apply file delta = write_pages delta.page_size (resize delta.file_len file) delta.pages

module _ (hash_page : Bytes → ℕ) where
  unfoldable pub manifest_of : Bytes → ℕ → Manifest
  unfolding page_size chunks
  manifest_of file chain_len = record {
    page_size = page_size file;
    hashes = map hash_page (chunks (page_size file) file);
    chain_len = chain_len;
  }

  -- The loop of `diff` from page `i`: the changed pages.
  unfoldable pub changed_pages : List ℕ → ℕ → List Bytes → List (ℕ × Bytes)
  changed_pages hashes i [] = []
  changed_pages hashes i (chunk ∷ rest) =
      let more = changed_pages hashes (i + 1) rest in
      if differs (get_elem? hashes i) (hash_page chunk) then (i % 2 ^ 32, chunk) ∷ more else more

  unfoldable pub diff : Manifest → Bytes → Manifest × Delta
  unfolding chunks changed_pages change_counter
  diff manifest file =
      let ps = manifest.page_size in
      let pieces = chunks ps file in
      (
        record manifest { hashes = map hash_page pieces },
        record {
          counter = change_counter file;
          file_len = length file;
          page_size = ps % 2 ^ 32;
          pages = changed_pages manifest.hashes 0 pieces;
        },
      )

encode_pages : List (ℕ × Bytes) → Bytes
encode_pages [] = []
encode_pages ((page_no, bytes) ∷ pages) =
    to_le_bytes 4 page_no
    ++ (to_le_bytes 4 (length bytes % 2 ^ 32) ++ (bytes ++ encode_pages pages))

unfoldable pub encode : Delta → Bytes
unfolding encode_pages
encode delta =
    to_le_bytes 4 delta.counter
    ++ (to_le_bytes 8 delta.file_len
        ++ (to_le_bytes 4 delta.page_size
            ++ (to_le_bytes 4 (length delta.pages % 2 ^ 32) ++ encode_pages delta.pages)))

-- The loop of `decode` over the rest of the bytes.
decode_pages : ℕ → Bytes → Option (List (ℕ × Bytes))
decode_pages zero rest = some []
decode_pages (suc n) rest = do
  guard (leb 8 (length rest))
  let page_no = from_le_bytes (slice rest 0 4)
  let len = from_le_bytes (slice rest 4 4)
  guard (leb len (length (drop 8 rest)))
  pages ← decode_pages n (drop len (drop 8 rest))
  some ((page_no, slice rest 8 len) ∷ pages)

unfoldable pub decode : Bytes → Option Delta
unfolding decode_pages
decode bytes = do
  guard (leb 20 (length bytes))
  let n = from_le_bytes (slice bytes 16 4)
  guard (leb n ((length bytes - 20) / 8))
  pages ← decode_pages n (drop 20 bytes)
  some (record {
    counter = from_le_bytes (slice bytes 0 4);
    file_len = from_le_bytes (slice bytes 4 8);
    page_size = from_le_bytes (slice bytes 12 4);
    pages = pages;
  })
