-- ===== src/Delta/Codec.antt =====
-- The wire format of delta.rs: `decode` undoes `encode`, and reads no more than it is given.
use mathlib.Core.List.{append_assoc}
use fafo.Prelude.{
  some_inj, leb→le, ℕ, zero, suc, ◌+◌, ◌-◌, ◌*◌, ◌/◌, ◌%◌, ◌^◌, ◌≤◌, ◌<◌, ◌≡◌, refl, ◌∙◌, subst,
  Bool, true, false, Option, none, some, List, [], ◌∷◌, ◌++◌, arith, leb, length, drop,
  length-append, length-drop, length-take, take-append, drop-append, ◌>>=◌, ◌>>◌, guard, All,
}
use fafo.Prelude.Bytes.{Bytes}
use fafo.Prelude.Words.{to_le_bytes, from_le_bytes, from_le_bytes-to_le_bytes}
use fafo.Delta.{Delta, encode_pages, encode, decode_pages, decode, slice}

-- The fields are in the ranges of their Rust types, and there are fewer than 2^32 pages, each of
-- fewer than 2^32 bytes.
pub record IsEncodable (d : Delta) : Type 0 where
  pub counter_fits : d.counter < 2 ^ 32
  pub file_len_fits : d.file_len < 2 ^ 64
  pub page_size_fits : d.page_size < 2 ^ 32
  pub count_fits : length d.pages < 2 ^ 32
  pub pages_fit : All (λ p. (p.0 < 2 ^ 32) × (length p.1 < 2 ^ 32)) d.pages

guard-leb : (a b : ℕ) → a ≤ b → guard (leb a b) ≡ some tt
guard-leb a b h = ground arith

decode_pages_step :
    (n p : ℕ) (body rest : Bytes)
    → p < 2 ^ 32
    → length body < 2 ^ 32
    → decode_pages (suc n) (to_le_bytes 4 p ++ (to_le_bytes 4 (length body) ++ (body ++ rest)))
      ≡ (decode_pages n rest >>= λ pages. some ((p, body) ∷ pages))
unfolding decode_pages to_le_bytes
decode_pages_step n p body rest hp hb =
    let bytes : Bytes = to_le_bytes 4 p ++ (to_le_bytes 4 (length body) ++ (body ++ rest)) in
    rw
      (
        from_le_bytes-to_le_bytes 4 (length body) hb,
        from_le_bytes-to_le_bytes 4 p hp,
        guard-leb 8 (length bytes) (omega arith),
        guard-leb (length body) (length (body ++ rest)) (omega (arith, length-append body rest)),
        drop-append body rest,
        take-append body rest,
      )
      refl

decode_pages-encode_pages :
    (pages : List (ℕ × Bytes)) (rest : Bytes)
    → All (λ p. (p.0 < 2 ^ 32) × (length p.1 < 2 ^ 32)) pages
    → decode_pages (length pages) (encode_pages pages ++ rest) ≡ some pages
unfolding encode_pages
decode_pages-encode_pages [] rest h = unfold decode_pages in refl
decode_pages-encode_pages ((p, b) ∷ pages) rest h =
    let small : length b % 2 ^ 32 ≡ length b = omega (arith, h.0.1) in
    rw (small, append_assoc, append_assoc, append_assoc)
      (decode_pages_step (length pages) p b (encode_pages pages ++ rest) h.0.0 h.0.1
        ∙ rw (decode_pages-encode_pages pages rest h.1) refl)

-- The payload that `decode` measures the page count against.
length-encode_pages : (pages : List (ℕ × Bytes)) → 8 * length pages ≤ length (encode_pages pages)
unfolding encode_pages to_le_bytes
length-encode_pages [] = omega arith
length-encode_pages ((p, b) ∷ pages) =
    omega (arith, length-encode_pages pages, length-append b (encode_pages pages))

-- A delta whose counter, lengths, page numbers and page count fit their fields is given back by
-- decoding its encoding, whatever bytes follow it.
pub decode-encode : (d : Delta) (rest : Bytes) → IsEncodable d → decode (encode d ++ rest) ≡ some d
unfolding decode encode to_le_bytes
decode-encode d rest h =
    let count : length d.pages % 2 ^ 32 ≡ length d.pages = omega (arith, h.count_fits) in
    rw
      (
        count,
        from_le_bytes-to_le_bytes 4 (length d.pages) h.count_fits,
        from_le_bytes-to_le_bytes 4 d.counter h.counter_fits,
        from_le_bytes-to_le_bytes 8 d.file_len h.file_len_fits,
        from_le_bytes-to_le_bytes 4 d.page_size h.page_size_fits,
        guard-leb 20 (length (encode d ++ rest)) (omega arith),
        guard-leb (length d.pages) ((length (encode d ++ rest) - 20) / 8) room,
        decode_pages-encode_pages d.pages rest h.pages_fit,
      )
      refl
  where
    room : length d.pages ≤ (length (encode d ++ rest) - 20) / 8
    room = omega (arith, length-encode_pages d.pages, length-append (encode_pages d.pages) rest)

-- The bytes that a list of pages takes up on the wire.
pub wire_size : List (ℕ × Bytes) → ℕ
wire_size [] = 0
wire_size ((p, b) ∷ pages) = 8 + length b + wire_size pages

guard-eq :
    {B : Type 0} (b : Bool) (k : Option B) {v : B}
    → (guard b >> k) ≡ some v
    → (b ≡ true) × (k ≡ some v)
guard-eq true k h = (refl, h)
guard-eq false k h = cc

bind-eq :
    {A B : Type 0} (m : Option A) (f : A → Option B) {v : B}
    → (m >>= f) ≡ some v
    → (a : A) × (m ≡ some a) × (f a ≡ some v)
bind-eq none f h = cc
bind-eq (some a) f h = (a, refl, h)

wire_size-decode_pages :
    (n : ℕ) (bytes : Bytes) {pages : List (ℕ × Bytes)}
    → decode_pages n bytes ≡ some pages
    → (wire_size pages ≤ length bytes) × (length pages ≡ n)
unfolding decode_pages wire_size
wire_size-decode_pages zero bytes h = ground arith
wire_size-decode_pages (suc n) bytes h =
    let len = from_le_bytes (slice bytes 4 4) in
    let (room, more) = guard-eq (leb 8 (length bytes)) _ h in
    let (fits, rest) = guard-eq (leb len (length (drop 8 bytes))) _ more in
    let (pages, e, last) = bind-eq (decode_pages n (drop len (drop 8 bytes))) _ rest in
    let (ih, count) = wire_size-decode_pages n (drop len (drop 8 bytes)) e in
    subst (λ ps. (wire_size ps ≤ length bytes) × (length ps ≡ suc n)) (some_inj last)
      (omega (
        arith,
        ih,
        count,
        leb→le _ _ room,
        leb→le _ _ fits,
        length-take len (drop 8 bytes),
        length-drop len (drop 8 bytes),
        length-drop 8 bytes,
      ))

-- Whatever the bytes, a decoded delta holds no more page data than the message has bytes after its
-- header: a hostile page count or length cannot make it larger.
pub decode_bounded :
    (bytes : Bytes) {d : Delta} → decode bytes ≡ some d → 20 + wire_size d.pages ≤ length bytes
unfolding decode
decode_bounded bytes h =
    let n = from_le_bytes (slice bytes 16 4) in
    let (header, more) = guard-eq (leb 20 (length bytes)) _ h in
    let (count, rest) = guard-eq (leb n ((length bytes - 20) / 8)) _ more in
    let (pages, e, last) = bind-eq (decode_pages n (drop 20 bytes)) _ rest in
    let (size, _) = wire_size-decode_pages n (drop 20 bytes) e in
    subst (λ (x : Delta). 20 + wire_size x.pages ≤ length bytes) (some_inj last)
      (omega (arith, size, leb→le _ _ header, length-drop 20 bytes))
