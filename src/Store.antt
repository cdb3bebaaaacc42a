-- ===== src/Store.antt =====
-- store.rs: the in-memory blob store, the model of the object store that everything durable lives in.
-- Each operation is atomic under one lock, so it is a function of the state. A key is the list of
-- its bytes, and a map with ordered keys is a sorted association list.
pub mod Versions
use fafo.Prelude.{
  ℕ, zero, suc, ◌+◌, ◌-◌, ◌≤◌, ◌<◌, ◌≡◌, refl, Bool, true, false, Option, none, some, List, [], ◌∷◌,
  ◌++◌, map, ltb, nat_beq, if◌then◌else◌, length, take, drop, min, Map, lookup, insert, remove,
  ◌==◌,
}
use fafo.Prelude.Bytes.{Bytes, bytes_beq, bytes_eq, starts_with}

-- `Ord` on `String`: by bytes, the shorter first.
unfoldable pub bytes_lt : Bytes → Bytes → Bool
bytes_lt [] [] = false
bytes_lt [] (c ∷ b) = true
bytes_lt (c ∷ a) [] = false
bytes_lt (c ∷ a) (d ∷ b) =
    let rest = bytes_lt a b in if ltb c d then true else if nat_beq c d then rest else false

-- `BTreeMap::insert`
unfoldable pub ordered_insert {ℓ} : {V : Type ℓ} → Bytes → V → Map Bytes V → Map Bytes V
ordered_insert k v [] = (k, v) ∷ []
ordered_insert k v ((j, w) ∷ m) =
    let rest = ordered_insert k v m in
    if bytes_beq j k
    then (k, v) ∷ m
    else if bytes_lt k j
    then (k, v) ∷ ((j, w) ∷ m)
    else (j, w) ∷ rest

pub record MemInner : Type 0 where
  pub blobs : Map Bytes Bytes
  pub versions : Map Bytes ℕ

abbrev pub empty_store : MemInner
empty_store = record { blobs = []; versions = [] }

abbrev pub or_zero : Option ℕ → ℕ
or_zero none = 0
or_zero (some v) = v

abbrev pub is_some {ℓ} : {A : Type ℓ} → Option A → Bool
is_some none = false
is_some (some a) = true

-- The version of a key, kept across a delete.
unfoldable pub high_water : MemInner → Bytes → ℕ
high_water s key = or_zero (lookup key s.versions)

unfoldable pub bump : MemInner → Bytes → ℕ × MemInner
unfolding high_water
bump s key = let v = high_water s key + 1 in (v, record s { versions = insert key v s.versions })

unfoldable pub get : MemInner → Bytes → Option Bytes
get s key = lookup key s.blobs

-- The write that `put`, `create` and `put_cas` share: `bump`, then `blobs.insert`.
unfoldable pub put : MemInner → Bytes → Bytes → MemInner
unfolding bump ordered_insert
put s key bytes = let (v, t) = bump s key in record t { blobs = ordered_insert key bytes t.blobs }

-- The version tombstone stays; only the blob goes.
unfoldable pub delete : MemInner → Bytes → MemInner
delete s key = record s { blobs = remove key s.blobs }

-- `blobs.range(prefix..)`
range_from : Bytes → Map Bytes Bytes → Map Bytes Bytes
range_from prefix [] = []
range_from prefix ((k, v) ∷ m) =
    let rest = range_from prefix m in if bytes_lt k prefix then rest else (k, v) ∷ m

-- `.take_while(|(k, _)| k.starts_with(prefix)).map(|(k, _)| k.clone())`
take_keys : Bytes → Map Bytes Bytes → List Bytes
take_keys prefix [] = []
take_keys prefix ((k, v) ∷ m) =
    let rest = take_keys prefix m in if starts_with prefix k then k ∷ rest else []

unfoldable pub list : MemInner → Bytes → List Bytes
unfolding range_from take_keys
list s prefix = take_keys prefix (range_from prefix s.blobs)

unfoldable pub create : MemInner → Bytes → Bytes → Bool × MemInner
unfolding put
create s key bytes = if is_some (lookup key s.blobs) then (false, s) else (true, put s key bytes)

unfoldable pub version : MemInner → Bytes → ℕ
unfolding high_water
version s key = if is_some (lookup key s.blobs) then high_water s key else 0

unfoldable pub put_cas : MemInner → Bytes → ℕ → Bytes → Option ℕ × MemInner
unfolding version put bump
put_cas s key expected bytes =
    if nat_beq (version s key) expected then (some (bump s key).0, put s key bytes) else (none, s)

-- `offset` and `len` as `u64`; the sum of the two is taken before it is cut to the length.
unfoldable pub get_range : MemInner → Bytes → ℕ → ℕ → Option Bytes
get_range s key offset len = elim (lookup key s.blobs) [
  | none ↦ none
  | some bytes ↦
      let start = min offset (length bytes) in
      let end = min (offset + len) (length bytes) in some (take (end - start) (drop start bytes))
]

-- A call of the store by some task, and what it leaves behind.
pub data Call : Type 0 where
  read : Call
  putting : Bytes → Bytes → Call
  deleting : Bytes → Call
  creating : Bytes → Bytes → Call
  swapping : Bytes → ℕ → Bytes → Call

unfoldable pub effect : MemInner → Call → MemInner
effect s read = s
effect s (putting k b) = put s k b
effect s (deleting k) = delete s k
effect s (creating k b) = (create s k b).1
effect s (swapping k v b) = (put_cas s k v b).1

unfoldable pub effects : MemInner → List Call → MemInner
unfolding effect
effects s [] = s
effects s (c ∷ cs) = effects (effect s c) cs
