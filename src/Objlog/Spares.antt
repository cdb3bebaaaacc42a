-- ===== src/Objlog/Spares.antt =====
-- Calls of other tasks that leave a key alone, and what `create` does to a key.
use fafo.Prelude.{
  ℕ, ◌≡◌, ◌≢◌, refl, ◌∙◌, inl, inr, some, List, [], ◌∷◌, arith, if◌then◌else◌, nat_beq, All,
  Bool-cases, lookup,
}
use fafo.Prelude.Bytes.{Bytes, bytes_beq, bytes_beq_iff, bytes_eq}
use fafo.Store as Store
use fafo.Store.{
  MemInner, Call, read, putting, deleting, creating, swapping, effect, effects, is_some, version,
}
use fafo.Store.Versions.{get-put, get-delete}
use fafo.Objlog.Io.{Turn, Schedule, next_turn, later}

-- A call that leaves a key that is there alone: anything but a put, a delete or a swap of it.
abbrev pub Spares : Bytes → Call → Type 0
Spares key read = Unit
Spares key (putting k b) = k ≢ key
Spares key (deleting k) = k ≢ key
Spares key (creating k b) = Unit
Spares key (swapping k v b) = k ≢ key

abbrev pub SparesTurn : Bytes → Turn → Type 0
SparesTurn key t = All (Spares key) t.before

pub get-create :
    (s : MemInner) (k j b : Bytes)
    → Store.get (Store.create s k b).1 j ≡ (
        if is_some (Store.get s k)
        then Store.get s j
        else if bytes_beq k j
        then some b
        else Store.get s j)
unfolding Store.create Store.get
get-create s k j b = elim (Bool-cases (is_some (lookup k s.blobs))) [
  | inl p ↦ rw (p, Store.create) refl
  | inr p ↦ rw (p, Store.create) (get-put s k j b)
]

get-put_cas_ne :
    (s : MemInner) (k j : Bytes) (v : ℕ) (b : Bytes)
    → k ≢ j
    → Store.get (Store.put_cas s k v b).1 j ≡ Store.get s j
unfolding Store.put_cas
get-put_cas_ne s k j v b h = elim (Bool-cases (nat_beq (version s k) v)) [
  | inl p ↦ rw (p, Store.put_cas) (ground (arith, get-put s k j b, bytes_beq_iff k j))
  | inr p ↦ rw (p, Store.put_cas) refl
]

effect-Spares :
    (s : MemInner) (key : Bytes) (c : Call) {b : Bytes}
    → Spares key c
    → Store.get s key ≡ some b
    → Store.get (effect s c) key ≡ some b
unfolding effect
effect-Spares s key read h p = p
effect-Spares s key (putting k b) h p = ground (arith, get-put s k key b, bytes_beq_iff k key)
effect-Spares s key (deleting k) h p = ground (arith, get-delete s k key, bytes_beq_iff k key)
effect-Spares s key (creating k b) h p = ground (arith, get-create s k key b, bytes_beq_iff k key)
effect-Spares s key (swapping k v b) h p = get-put_cas_ne s k key v b h ∙ p

pub effects-Spares :
    (s : MemInner) (key : Bytes) (cs : List Call) {b : Bytes}
    → All (Spares key) cs
    → Store.get s key ≡ some b
    → Store.get (effects s cs) key ≡ some b
unfolding effects
effects-Spares s key [] h p = p
effects-Spares s key (c ∷ cs) h p =
    effects-Spares (effect s c) key cs h.1 (effect-Spares s key c h.0 p)

pub later-All :
    (key : Bytes) (ts : Schedule) → All (SparesTurn key) ts → All (SparesTurn key) (later ts)
later-All key [] h = tt
later-All key (t ∷ ts) h = h.1

pub next_turn-All :
    (key : Bytes) (ts : Schedule) → All (SparesTurn key) ts → SparesTurn key (next_turn ts)
next_turn-All key [] h = tt
next_turn-All key (t ∷ ts) h = h.0
