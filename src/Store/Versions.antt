-- ===== src/Store/Versions.antt =====
-- The version of a key as an etag: it never names two contents.
use fafo.Prelude.{
  ℕ, suc, ◌+◌, ◌<◌, ◌≡◌, ◌≢◌, refl, ◌⊎◌, inl, inr, Option, none, some, List, [], ◌∷◌, arith,
  nat_beq, if◌then◌else◌, Map, lookup, lookup-insert, lookup-remove, Bool-cases,
}
use fafo.Prelude.Bytes.{Bytes, bytes_beq, bytes_beq_iff, bytes_eq}
use fafo.Store.{
  MemInner, high_water, ordered_insert, get, put, delete, create, version, put_cas, Call, read,
  putting, deleting, creating, swapping, effect, effects, or_zero, is_some,
}

pub lookup-ordered_insert {ℓ} :
    {V : Type ℓ} (k j : Bytes) (v : V) (m : Map Bytes V)
    → lookup j (ordered_insert k v m) ≡ (if bytes_beq k j then some v else lookup j m)
unfolding lookup ordered_insert
lookup-ordered_insert k j v [] = refl
lookup-ordered_insert k j v ((i, w) ∷ m) =
    ground (
      arith,
      bytes_beq_iff k j,
      bytes_beq_iff i k,
      bytes_beq_iff i j,
      lookup-ordered_insert k j v m,
    )

-- A write leaves its bytes under its key and raises that key's high water by one; a delete takes
-- the blob and leaves the high water; no other key changes.
pub get-put :
    (s : MemInner) (k j b : Bytes) → get (put s k b) j ≡ (if bytes_beq k j then some b else get s j)
unfolding get put
get-put s k j b = lookup-ordered_insert k j b s.blobs

pub high_water-put :
    (s : MemInner) (k j b : Bytes)
    → high_water (put s k b) j ≡ (if bytes_beq k j then high_water s k + 1 else high_water s j)
unfolding high_water put
high_water-put s k j b =
    ground (arith, lookup-insert k j (or_zero (lookup k s.versions) + 1) s.versions)

pub get-delete :
    (s : MemInner) (k j : Bytes) → get (delete s k) j ≡ (if bytes_beq k j then none else get s j)
unfolding get delete
get-delete s k j = lookup-remove k j s.blobs

high_water-delete : (s : MemInner) (k j : Bytes) → high_water (delete s k) j ≡ high_water s j
unfolding high_water delete
high_water-delete s k j = refl

-- What happened to a key since a state in which its version was `v` and its content `o`: it was
-- written again and its high water is above `v`, or it was not, and it has its content or none.
abbrev pub Since : ℕ → Option Bytes → MemInner → Bytes → Type 0
Since v o s key =
    (v < high_water s key) ⊎ ((high_water s key ≡ v) × ((get s key ≡ o) ⊎ (get s key ≡ none)))

put-Since :
    (v : ℕ) (o : Option Bytes) (key : Bytes) (s : MemInner) (k b : Bytes)
    → Since v o s key
    → Since v o (put s k b) key
put-Since v o key s k b h =
    ground (arith, get-put s k key b, high_water-put s k key b, bytes_beq_iff k key)

delete-Since :
    (v : ℕ) (o : Option Bytes) (key : Bytes) (s : MemInner) (k : Bytes)
    → Since v o s key
    → Since v o (delete s k) key
delete-Since v o key s k h =
    ground (arith, get-delete s k key, high_water-delete s k key, bytes_beq_iff k key)

create-Since :
    (v : ℕ) (o : Option Bytes) (key : Bytes) (s : MemInner) (k b : Bytes)
    → Since v o s key
    → Since v o (create s k b).1 key
unfolding create
create-Since v o key s k b h = elim (Bool-cases (is_some (lookup k s.blobs))) [
  | inl p ↦ rw (p, create) h
  | inr p ↦ rw (p, create) (put-Since v o key s k b h)
]

put_cas-Since :
    (v : ℕ) (o : Option Bytes) (key : Bytes) (s : MemInner) (k : Bytes) (e : ℕ) (b : Bytes)
    → Since v o s key
    → Since v o (put_cas s k e b).1 key
unfolding put_cas
put_cas-Since v o key s k e b h = elim (Bool-cases (nat_beq (version s k) e)) [
  | inl p ↦ rw (p, put_cas) (put-Since v o key s k b h)
  | inr p ↦ rw (p, put_cas) h
]

effect-Since :
    (v : ℕ) (o : Option Bytes) (key : Bytes) (s : MemInner) (c : Call)
    → Since v o s key
    → Since v o (effect s c) key
unfolding effect
effect-Since v o key s read h = h
effect-Since v o key s (putting k b) h = put-Since v o key s k b h
effect-Since v o key s (deleting k) h = delete-Since v o key s k h
effect-Since v o key s (creating k b) h = create-Since v o key s k b h
effect-Since v o key s (swapping k e b) h = put_cas-Since v o key s k e b h

pub effects-Since :
    (v : ℕ) (o : Option Bytes) (key : Bytes) (s : MemInner) (cs : List Call)
    → Since v o s key
    → Since v o (effects s cs) key
unfolding effects
effects-Since v o key s [] h = h
effects-Since v o key s (c ∷ cs) h =
    effects-Since v o key (effect s c) cs (effect-Since v o key s c h)

version-pos :
    (s : MemInner) (key : Bytes) {v : ℕ}
    → version s key ≡ suc v
    → (high_water s key ≡ suc v) × (get s key ≢ none)
unfolding version get
version-pos s key h = ground arith

-- A key that shows a version other than 0, and shows the same one again after any calls, deletes
-- and new writes of the key among them, shows the same content.
pub version_names_content :
    (s : MemInner) (key : Bytes) (cs : List Call) (v : ℕ)
    → version s key ≡ suc v
    → version (effects s cs) key ≡ suc v
    → get (effects s cs) key ≡ get s key
version_names_content s key cs v before after =
    let (high, _) = version-pos s key before in
    let (high', present) = version-pos (effects s cs) key after in
    elim (effects-Since (suc v) (get s key) key s cs (inr (high, inl refl))) [
      | inl above ↦ absurd (omega (arith, above, high'))
      | inr (_, inl same) ↦ same
      | inr (_, inr gone) ↦ absurd (present gone)
    ]
