-- ===== src/Cluster/Requests.antt =====
-- cluster.rs and object.rs, the validation of a transaction before it is routed.
pub mod Validation
use fafo.Prelude.{
  ℕ, ◌≡◌, Bool, true, false, not, ◌&&◌, ◌||◌, Option, none, some, List, [], ◌∷◌, leb, nat_beq,
  if◌then◌else◌, length, any, all,
}
use fafo.Prelude.Bytes.{Bytes, codes, bytes_beq, starts_with}
use fafo.Objlog.Protocol.{sort}

abbrev between : ℕ → ℕ → ℕ → Bool
between low high c = leb low c && leb c high

-- `is_ascii_alphanumeric() || '-' || '_'`. Every byte of another character is at least 128.
unfoldable pub id_char : ℕ → Bool
id_char c =
    between b'a' b'z' c
    || (between b'A' b'Z' c || (between b'0' b'9' c || (nat_beq c b'-' || nat_beq c b'_')))

unfoldable pub valid_id : Bytes → Bool
unfolding id_char
valid_id id =
    not (bytes_beq id [])
    && (leb (length id) 64 && (not (starts_with (codes "_") id) && all id_char id))

-- The values of the parameters are serde_json's.
pub record Op (Value : Type 0) : Type 0 where
  pub object : Bytes
  pub sql : Bytes
  pub params : List Value

-- The bad requests of `validate_txn`.
pub data BadRequest : Type 0 where
  no_objects : BadRequest
  invalid_object_id : Bytes → BadRequest
  undeclared_object : Bytes → BadRequest

pub data Validated : Type 0 where
  validated : List Bytes → Validated
  rejected : BadRequest → Validated

-- `ids.dedup()`
unfoldable pub dedup : List Bytes → List Bytes
dedup [] = []
dedup (x ∷ []) = x ∷ []
dedup (x ∷ (y ∷ xs)) = let rest = dedup (y ∷ xs) in if bytes_beq x y then rest else x ∷ rest

unfoldable pub first_invalid : List Bytes → Option Bytes
unfolding valid_id
first_invalid [] = none
first_invalid (id ∷ ids) = let rest = first_invalid ids in if valid_id id then rest else some id

-- `binary_search(..).is_ok()` on sorted names
abbrev pub declared : List Bytes → Bytes → Bool
declared ids object = any (bytes_beq object) ids

module _ {Value : Type 0} where
  unfoldable pub first_undeclared : List Bytes → List (Op Value) → Option Bytes
  first_undeclared ids [] = none
  first_undeclared ids (op ∷ ops) =
      let rest = first_undeclared ids ops in if declared ids op.object then rest else some op.object

  unfoldable pub validate_txn : List Bytes → List (Op Value) → Validated
  unfolding sort dedup first_invalid first_undeclared
  validate_txn [] ops = rejected no_objects
  validate_txn (o ∷ os) ops =
      let ids = dedup (sort (o ∷ os)) in
      elim (first_invalid ids) [
        | some id ↦ rejected (invalid_object_id id)
        | none ↦ elim (first_undeclared ids ops) [
          | some object ↦ rejected (undeclared_object object)
          | none ↦ validated ids
        ]
      ]
