-- ===== src/Worker/Recovery/Promotion.antt =====
-- worker.rs, that a promotion never takes an object's base backwards.
use fafo.Prelude.{
  ℕ, ◌≤◌, ◌≡◌, refl, ap, ◌∙◌, min, true, false, Option, none, some, [], arith, leb, ltb, length,
  drop, length-take, length-drop, if◌then◌else◌, Bool-cases, inl, inr, lookup,
}
use fafo.Prelude.Bytes.{Bytes, codes, bytes_eq, bytes_beq_refl, strip_suffix}
use fafo.Store as Store
use fafo.Store.{MemInner}
use fafo.Store.Versions.{get-put}
use fafo.Objlog.Io.{run, ◌>>=◌}
use fafo.Delta.{change_counter, header_change_counter, slice}
use fafo.Worker.Transfer.{max_option}
use fafo.Worker.Ship.{object_key, last_segment}
use fafo.Worker.Recovery.{counter_in, is_current, promote_snap, promote_staged}

-- The change counter of an object's base, as `promote_staged` reads it.
abbrev pub base_counter : MemInner → Bytes → Option ℕ
base_counter s object = counter_in (Store.get_range s (object_key object) header_change_counter 4)

header_range :
    (s : MemInner) (key bytes : Bytes)
    → Store.get s key ≡ some bytes
    → 100 ≤ length bytes
    → Store.get_range s key header_change_counter 4 ≡ some (slice bytes header_change_counter 4)
unfolding Store.get_range Store.get
header_range s key bytes e long =
    let a : min 24 (length bytes) ≡ 24 = omega (arith, long) in
    let b : min 28 (length bytes) ≡ 28 = omega (arith, long) in
    let there : lookup key s.blobs ≡ some bytes = e in rw (there, Store.get_range, a, b) refl

-- A whole header's counter is read back.
pub counter_of_base :
    (s : MemInner) (object bytes : Bytes)
    → Store.get s (object_key object) ≡ some bytes
    → 100 ≤ length bytes
    → base_counter s object ≡ some (change_counter bytes)
unfolding counter_in change_counter
counter_of_base s object bytes there long =
    let four : length (slice bytes 24 4) ≡ 4 =
      omega (arith, length-take 4 (drop 24 bytes), length-drop 24 bytes, long) in
    let whole : ltb (length bytes) 100 ≡ false = ground arith in
    rw (header_range s (object_key object) bytes there long, four, whole) refl

base_counter-put :
    (s : MemInner) (object bytes : Bytes)
    → 100 ≤ length bytes
    → base_counter (Store.put s (object_key object) bytes) object ≡ some (change_counter bytes)
base_counter-put s object bytes long =
    counter_of_base (Store.put s (object_key object) bytes) object bytes
      (rw
        (
          get-put s (object_key object) (object_key object) bytes,
          bytes_beq_refl (object_key object),
        )
        refl)
      long

promote_snap-state :
    (s : MemInner) (object bytes : Bytes)
    → (run (promote_snap object bytes) [] s).1 ≡ (
        if is_current (base_counter s object) (change_counter bytes)
        then s
        else Store.put s (object_key object) bytes)
unfolding promote_snap run ◌>>=◌ Store.get_range lookup Store.effects
promote_snap-state s object bytes =
    elim (Bool-cases (is_current (base_counter s object) (change_counter bytes))) [
      | inl y ↦ rw y refl
      | inr n ↦ rw n refl
    ]

greater :
    (c : Option ℕ) (n : ℕ) (x : Option ℕ)
    → ((is_current c n ≡ true) → x ≡ c)
    → ((is_current c n ≡ false) → x ≡ some n)
    → x ≡ max_option c (some n)
greater none n x h k = k refl
greater (some c) n x h k = elim (Bool-cases (leb n c)) [
  | inl y ↦ h y ∙ ap some (ground arith)
  | inr z ↦ k z ∙ ap some (ground arith)
]

snapshot_named :
    (key object bytes : Bytes)
    → strip_suffix (codes ".snap") (last_segment key) ≡ some object
    → promote_staged key bytes ≡ promote_snap object bytes
unfolding promote_staged
snapshot_named key object bytes named = rw (named, promote_staged) refl

-- The promotion of a staged snapshot, with no other task at work, leaves the base with the greater
-- of the change counters of the base before it and of the snapshot, as long as the snapshot has a
-- whole header. So a stale record never takes the base backwards, and a second promotion of the
-- same snapshot changes no counter.
pub promote_staged-max :
    (s : MemInner) (key object bytes : Bytes)
    → strip_suffix (codes ".snap") (last_segment key) ≡ some object
    → 100 ≤ length bytes
    → base_counter (run (promote_staged key bytes) [] s).1 object
      ≡ max_option (base_counter s object) (some (change_counter bytes))
promote_staged-max s key object bytes named long =
    let n = change_counter bytes in
    let base = λ (t : MemInner). base_counter t object in
    let left = run (promote_staged key bytes) [] s in
    let state : left.1
        ≡ (if is_current (base s) n then s else Store.put s (object_key object) bytes) =
      ap (λ m. (run m [] s).1) (snapshot_named key object bytes named)
      ∙ promote_snap-state s object bytes in
    greater (base s) n (base left.1) (λ y. ap base (state ∙ rw y refl))
      (λ z. ap base (state ∙ rw z refl) ∙ base_counter-put s object bytes long)
