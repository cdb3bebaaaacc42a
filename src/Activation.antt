-- ===== src/Activation.antt =====
-- object.rs, `fetch_image`: the image that an object is activated from. The file of the live
-- directory is a parameter: `cached` is its bytes, `none` when it cannot be read.
pub mod Chain
pub mod Cache
use fafo.Prelude.{
  ℕ, ◌+◌, ◌≡◌, ◌%◌, ◌^◌, max, Bool, true, false, ◌&&◌, Option, none, some, List, [], ◌∷◌, ltb, leb,
  length, if◌then◌else◌,
}
use fafo.Prelude.Bytes.{Bytes}
use fafo.Objlog.Io.{Io, ret, fail, ◌>>=◌, get?, list?, get_range?}
use fafo.Objlog.Protocol.{fold_committed}
use fafo.Delta.{change_counter, header_change_counter, decode, apply}
use fafo.Delta.Keys.{delta_prefix, parse_delta_counter}
use fafo.Worker.Ship.{object_key}
use fafo.Worker.Recovery.{counter_in}

-- How far the listed deltas reach, from the base's counter on.
unfoldable pub max_durable : Bytes → ℕ → List Bytes → ℕ → ℕ
max_durable id base [] reach = reach
max_durable id base (key ∷ keys) reach =
    max_durable id base keys (elim (parse_delta_counter key id) [
      | none ↦ reach
      | some counter ↦ if ltb base counter then max reach counter else reach
    ])

-- `filter(|b| b.len() >= 100)`, and the counter in the range of what is durable
unfoldable pub trusted : ℕ → ℕ → Option Bytes → Option Bytes
trusted base reach none = none
trusted base reach (some cache) =
    if leb 100 (length cache)
      && (leb base (change_counter cache) && leb (change_counter cache) reach)
    then some cache
    else none

abbrev pub or_default : Option Bytes → Bytes
or_default none = []
or_default (some b) = b

-- The delta is read, decoded and applied; a delta that is gone fails the activation.
unfoldable pub apply_blob : Bytes → Option Bytes → Option Bytes
apply_blob image none = none
apply_blob image (some bytes) = elim (decode bytes) [ none ↦ none | some d ↦ some (apply image d) ]

-- The loop over the listed deltas; `have` is the counter of the image that it started from.
unfoldable pub apply_chain : Bytes → ℕ → ℕ → List Bytes → Bytes → ℕ → Io (Bytes × ℕ)
unfolding apply_blob
apply_chain id base have [] image total = ret (image, total)
apply_chain id base have (key ∷ keys) image total = elim (parse_delta_counter key id) [
  | none ↦ apply_chain id base have keys image total
  | some counter ↦
      if leb counter base
      then apply_chain id base have keys image total
      else if leb counter have
      then apply_chain id base have keys image (total + 1)
      else (do
        blob ← get? key
        elim (apply_blob image blob) [
          | none ↦ fail
          | some image' ↦ apply_chain id base have keys image' (total + 1)
        ])
]

-- The image that the loop starts from: the trusted cache, or the base.
unfoldable pub choose_image : Bytes → Option Bytes → Io Bytes
choose_image id none = do b ← get? (object_key id); ret (or_default b)
choose_image id (some cache) = ret cache

-- The activation of an object that has a base.
unfoldable pub build_image : Bytes → Option Bytes → ℕ → Io (Bytes × ℕ)
unfolding max_durable trusted choose_image apply_chain
build_image id cached base = do
  keys ← list? (delta_prefix id)
  image ← choose_image id (trusted base (max_durable id base keys base) cached)
  apply_chain id base (change_counter image) keys image 0

unfoldable pub fetch_image : Bool → Bytes → Option Bytes → Io (Bytes × ℕ)
unfolding build_image
fetch_image true id cached = do folded ← fold_committed id; ret (folded.0, folded.1 % 2 ^ 32)
fetch_image false id cached = do
  b ← get_range? (object_key id) header_change_counter 4
  elim (counter_in b) [ none ↦ ret ([], 0) | some base ↦ build_image id cached base ]
