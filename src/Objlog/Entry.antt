-- ===== src/Objlog/Entry.antt =====
-- objlog.rs, `LogPayload`, `LogEntry` and their wire format.
use fafo.Prelude.{
  ℕ, ◌%◌, ◌^◌, ◌≤◌, ◌<◌, ◌≡◌, refl, Bool, true, false, ◌&&◌, Option, none, some, List, [], ◌∷◌,
  ◌++◌, arith, ltb, leb, nat_beq, if◌then◌else◌, length, take, drop, length-append, take-append,
  drop-append, ◌>>=◌, ◌>>◌, guard,
}
use fafo.Prelude.Bytes.{Bytes}
use fafo.Prelude.Words.{to_be_bytes, from_be_bytes, length-to_be_bytes, from_be_bytes-to_be_bytes}
use fafo.Delta.{apply, decode}

pub data LogPayload : Type 0 where
  snapshot delta : Bytes → LogPayload

pub record LogEntry : Type 0 where
  pub txn : Bytes
  pub born : ℕ
  pub payload : LogPayload

abbrev pub tag_snapshot : ℕ
tag_snapshot = 0

abbrev pub tag_delta : ℕ
tag_delta = 1

unfoldable pub tag_of : LogPayload → ℕ
tag_of (snapshot b) = tag_snapshot
tag_of (delta b) = tag_delta

unfoldable pub body_of : LogPayload → Bytes
body_of (snapshot b) = b
body_of (delta b) = b

unfoldable pub encode_entry : Bytes → ℕ → LogPayload → Bytes
encode_entry txn born p =
    tag_of p ∷ (to_be_bytes 8 born ++ (to_be_bytes 2 (length txn % 2 ^ 16) ++ (txn ++ body_of p)))

-- An entry from what a shipment holds: a snapshot or a delta, as bytes.
unfoldable pub entry_from_ship : Bytes → ℕ → Bool → Bytes → Bytes
unfolding encode_entry
entry_from_ship txn born is_snapshot bytes =
    encode_entry txn born (if is_snapshot then snapshot bytes else delta bytes)

-- `rest.get(..n)?` and `rest.get(n..)?`
split_at : ℕ → Bytes → Option (Bytes × Bytes)
split_at n bytes = do guard (leb n (length bytes)); some (take n bytes, drop n bytes)

payload_of : ℕ → Bytes → Option LogPayload
payload_of tag body =
    if nat_beq tag tag_snapshot
    then some (snapshot body)
    else if nat_beq tag tag_delta
    then some (delta body)
    else none

-- The ranges of the bytes that follow a first byte in UTF-8; `none` where it starts no character.
utf8_follow : ℕ → Option (List (ℕ × ℕ))
utf8_follow b =
    if ltb b 0x80
    then some []
    else if ltb b 0xc2
    then none
    else if ltb b 0xe0
    then some ((0x80, 0xbf) ∷ [])
    else if nat_beq b 0xe0
    then some ((0xa0, 0xbf) ∷ (0x80, 0xbf) ∷ [])
    else if nat_beq b 0xed
    then some ((0x80, 0x9f) ∷ (0x80, 0xbf) ∷ [])
    else if ltb b 0xf0
    then some ((0x80, 0xbf) ∷ (0x80, 0xbf) ∷ [])
    else if nat_beq b 0xf0
    then some ((0x90, 0xbf) ∷ (0x80, 0xbf) ∷ (0x80, 0xbf) ∷ [])
    else if ltb b 0xf4
    then some ((0x80, 0xbf) ∷ (0x80, 0xbf) ∷ (0x80, 0xbf) ∷ [])
    else if nat_beq b 0xf4
    then some ((0x80, 0x8f) ∷ (0x80, 0xbf) ∷ (0x80, 0xbf) ∷ [])
    else none

utf8_from : List (ℕ × ℕ) → Bytes → Bool
unfolding utf8_follow
utf8_from [] [] = true
utf8_from (r ∷ rs) [] = false
utf8_from [] (b ∷ s) = elim (utf8_follow b) [ none ↦ false | some rs ↦ utf8_from rs s ]
utf8_from ((lo, hi) ∷ rs) (b ∷ s) =
    let rest = utf8_from rs s in if leb lo b && leb b hi then rest else false

-- `str::from_utf8(bytes).is_ok()`
unfoldable pub valid_utf8 : Bytes → Bool
unfolding utf8_from
valid_utf8 bytes = utf8_from [] bytes

from_utf8 : Bytes → Option Bytes
from_utf8 bytes = do guard (valid_utf8 bytes); some bytes

decode_rest : ℕ → Bytes → Option LogEntry
decode_rest tag bytes = do
  (born_bytes, rest) ← split_at 8 bytes
  (len_bytes, rest') ← split_at 2 rest
  (txn_bytes, body) ← split_at (from_be_bytes len_bytes) rest'
  txn ← from_utf8 txn_bytes
  payload ← payload_of tag body
  some (record { txn = txn; born = from_be_bytes born_bytes; payload = payload })

unfoldable pub decode_entry : Bytes → Option LogEntry
unfolding decode_rest split_at from_utf8 payload_of
decode_entry [] = none
decode_entry (tag ∷ bytes) = decode_rest tag bytes

-- The image that a base and a run of payloads stand for; `none` is an error of `delta::decode`.
unfoldable pub fold : Bytes → List LogPayload → Option Bytes
fold base [] = some base
fold base (snapshot b ∷ entries) = fold b entries
fold base (delta b ∷ entries) = decode b >>= λ d. fold (apply base d) entries

leb-true : (a b : ℕ) → a ≤ b → leb a b ≡ true
leb-true a b h = ground arith

payload_of-tag_of : (p : LogPayload) → payload_of (tag_of p) (body_of p) ≡ some p
unfolding payload_of tag_of body_of
payload_of-tag_of (snapshot b) = refl
payload_of-tag_of (delta b) = refl

split_at-append : (n : ℕ) (a b : Bytes) → length a ≡ n → split_at n (a ++ b) ≡ some (a, b)
unfolding split_at
split_at-append n a b h =
    rw
      (
        ← h,
        leb-true (length a) (length (a ++ b)) (omega (arith, length-append a b)),
        take-append a b,
        drop-append a b,
      )
      refl

-- An entry is read back as it was written, whatever its payload's bytes, where its birth time has
-- 64 bits and its transaction id is UTF-8 of less than 2^16 bytes.
pub decode_entry-encode_entry :
    (txn : Bytes) (born : ℕ) (p : LogPayload)
    → born < 2 ^ 64
    → length txn < 2 ^ 16
    → valid_utf8 txn ≡ true
    → decode_entry (encode_entry txn born p) ≡ some (record { txn = txn; born = born; payload = p })
unfolding decode_entry encode_entry
decode_entry-encode_entry txn born p hb ht text =
    let small : length txn % 2 ^ 16 ≡ length txn = omega (arith, ht) in
    let len = to_be_bytes 2 (length txn) in
    rw
      (
        small,
        decode_rest,
        split_at-append 8 (to_be_bytes 8 born) (len ++ (txn ++ body_of p))
            (length-to_be_bytes 8 born),
        split_at-append 2 len (txn ++ body_of p) (length-to_be_bytes 2 (length txn)),
        from_be_bytes-to_be_bytes 2 (length txn) ht,
        split_at-append (length txn) txn (body_of p) refl,
        text,
        payload_of-tag_of p,
        from_be_bytes-to_be_bytes 8 born hb,
      )
      refl
