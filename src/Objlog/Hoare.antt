-- ===== src/Objlog/Hoare.antt =====
-- Rules for programs over the store: what a run leaves alone, and what holds when it returns.
use mathlib.Core.Path.{fun_ext}
use fafo.Prelude.{
  none, ◌⊎◌, inl, inr, ◌≡◌, ◌≢◌, refl, ap, Bool, true, false, Option, some, List, [], All, arith,
  some_inj, if◌then◌else◌,
}
use fafo.Prelude.Bytes.{Bytes, bytes_beq_iff, bytes_beq_refl}
use fafo.Store as Store
use fafo.Store.{MemInner, effects}
use fafo.Store.Versions.{get-put, get-delete}
use fafo.Objlog.Io.{
  Io, ret, fail, get, list, create, delete, put, get_range, run, Schedule, Fault, next_turn, later,
  answer, outcome_state, ◌>>=◌, or_fail, create?, get?, put?, attempt,
}
use fafo.Objlog.Spares.{SparesTurn, effects-Spares, get-create, next_turn-All, later-All}

-- A program that never deletes or overwrites a key.
abbrev pub IsGentle : {A : Type 0} → Bytes → Io A → Type 0
IsGentle key (ret a) = Unit
IsGentle key fail = Unit
IsGentle key (get k g) = (r : Option (Option Bytes)) → IsGentle key (g r)
IsGentle key (list k g) = (r : Option (List Bytes)) → IsGentle key (g r)
IsGentle key (create k b g) = (r : Option Bool) → IsGentle key (g r)
IsGentle key (delete k g) = (k ≢ key) × ((r : Option (Unit {0})) → IsGentle key (g r))
IsGentle key (put k b g) = (k ≢ key) × ((r : Option (Unit {0})) → IsGentle key (g r))
IsGentle key (get_range k n m g) = (r : Option (Option Bytes)) → IsGentle key (g r)

pub create_keeps :
    (f : Fault) (s : MemInner) (k b key : Bytes) {v : Bytes}
    → Store.get s key ≡ some v
    → Store.get (outcome_state f s (Store.create s k b).1) key ≡ some v
create_keeps f s k b key h = ground (arith, get-create s k key b, bytes_beq_iff k key)

delete_keeps :
    (f : Fault) (s : MemInner) (k key : Bytes) {v : Bytes}
    → k ≢ key
    → Store.get s key ≡ some v
    → Store.get (outcome_state f s (Store.delete s k)) key ≡ some v
delete_keeps f s k key n h = ground (arith, get-delete s k key, bytes_beq_iff k key)

put_keeps :
    (f : Fault) (s : MemInner) (k b key : Bytes) {v : Bytes}
    → k ≢ key
    → Store.get s key ≡ some v
    → Store.get (outcome_state f s (Store.put s k b)) key ≡ some v
put_keeps f s k b key n h = ground (arith, get-put s k key b, bytes_beq_iff k key)

-- What stands under a key stays there through a run of a program that never deletes or
-- overwrites it, as long as
-- no other task deletes or overwrites it.
pub run-IsGentle :
    {A : Type 0} (key : Bytes) (m : Io A) (ts : Schedule) (s : MemInner) {v : Bytes}
    → IsGentle key m
    → All (SparesTurn key) ts
    → Store.get s key ≡ some v
    → Store.get (run m ts s).1 key ≡ some v
unfolding run
run-IsGentle key (ret a) ts s g q h = h
run-IsGentle key fail ts s g q h = h
run-IsGentle key (get k f) ts s g q h =
    run-IsGentle key (f _) (later ts) (effects s (next_turn ts).before) (g _) (later-All key ts q)
      (effects-Spares s key (next_turn ts).before (next_turn-All key ts q) h)
run-IsGentle key (list k f) ts s g q h =
    run-IsGentle key (f _) (later ts) (effects s (next_turn ts).before) (g _) (later-All key ts q)
      (effects-Spares s key (next_turn ts).before (next_turn-All key ts q) h)
run-IsGentle key (create k b f) ts s g q h =
    run-IsGentle key (f _) (later ts) _ (g _) (later-All key ts q) (
      create_keeps (next_turn ts).fault (effects s (next_turn ts).before) k b key
        (effects-Spares s key (next_turn ts).before (next_turn-All key ts q) h))
run-IsGentle key (delete k f) ts s g q h =
    run-IsGentle key (f _) (later ts) _ (g.1 _) (later-All key ts q) (
      delete_keeps (next_turn ts).fault (effects s (next_turn ts).before) k key g.0
        (effects-Spares s key (next_turn ts).before (next_turn-All key ts q) h))
run-IsGentle key (put k b f) ts s g q h =
    run-IsGentle key (f _) (later ts) _ (g.1 _) (later-All key ts q) (
      put_keeps (next_turn ts).fault (effects s (next_turn ts).before) k b key g.0
        (effects-Spares s key (next_turn ts).before (next_turn-All key ts q) h))
run-IsGentle key (get_range k n m f) ts s g q h =
    run-IsGentle key (f _) (later ts) (effects s (next_turn ts).before) (g _) (later-All key ts q)
      (effects-Spares s key (next_turn ts).before (next_turn-All key ts q) h)

pub create_made :
    (s : MemInner) (k b : Bytes)
    → (Store.create s k b).0 ≡ true
    → Store.get (Store.create s k b).1 k ≡ some b
unfolding Store.create
create_made s k b h = ground (arith, get-put s k k b, bytes_beq_refl k)

-- Whenever the program returns, what it returns and the store at that moment satisfy `P`.
pub record Ensures {A : Type 0} (P : A → MemInner → Type 0) (m : Io A) : Type 0 where
  pub at : (ts : Schedule) (s : MemInner) {a : A} → (run m ts s).0 ≡ some a → P a (run m ts s).1

module _ {A : Type 0} {P : A → MemInner → Type 0} where
  pub Ensures-bind :
      {B : Type 0} (m : Io B) (f : B → Io A) → ((b : B) → Ensures P (f b)) → Ensures P (m >>= f)
  unfolding ◌>>=◌ run
  Ensures-bind (ret b) f h = h b
  Ensures-bind fail f h = record { at = λ ts s p. cc }
  Ensures-bind (get k g) f h = record { at = λ ts s p. (Ensures-bind (g _) f h).at (later ts) _ p }
  Ensures-bind (list k g) f h = record { at = λ ts s p. (Ensures-bind (g _) f h).at (later ts) _ p }
  Ensures-bind (create k b g) f h = record {
    at = λ ts s p. (Ensures-bind (g _) f h).at (later ts) _ p;
  }
  Ensures-bind (delete k g) f h = record {
    at = λ ts s p. (Ensures-bind (g _) f h).at (later ts) _ p;
  }
  Ensures-bind (put k b g) f h = record {
    at = λ ts s p. (Ensures-bind (g _) f h).at (later ts) _ p;
  }
  Ensures-bind (get_range k n m g) f h = record {
    at = λ ts s p. (Ensures-bind (g _) f h).at (later ts) _ p;
  }

  pub Ensures-if :
      (b : Bool) (m n : Io A) → Ensures P m → Ensures P n → Ensures P (if b then m else n)
  Ensures-if true m n h k = h
  Ensures-if false m n h k = k

  -- After a create that made the blob, the blob is there.
  pub Ensures-create :
      (key b : Bytes) (f : Bool → Io A)
      → ((ts : Schedule) (s : MemInner) (a : A)
          → Store.get s key ≡ some b
          → (run (f true) ts s).0 ≡ some a
          → P a (run (f true) ts s).1)
      → Ensures P (f false)
      → Ensures P (create? key b >>= f)
  unfolding ◌>>=◌ run
  Ensures-create key b f made not_made = record {
    at = λ ts s p.
        let s1 = effects s (next_turn ts).before in
        by_case (next_turn ts).fault (Store.create s1 key b).0 s1 (Store.create s1 key b).1
          (later ts) (create_made s1 key b) p;
  }
    where
      by_case :
          (fault : Fault) (done : Bool) (s1 s2 : MemInner) (ts : Schedule) {a : A}
          → (done ≡ true → Store.get s2 key ≡ some b)
          → (run (or_fail (answer fault done) >>= f) ts (outcome_state fault s1 s2)).0 ≡ some a
          → P a (run (or_fail (answer fault done) >>= f) ts (outcome_state fault s1 s2)).1
      by_case Fault.sound true s1 s2 ts there p = made ts s2 _ (there refl) p
      by_case Fault.sound false s1 s2 ts there p = not_made.at ts s2 p
      by_case Fault.refused done s1 s2 ts there p = cc
      by_case Fault.lost done s1 s2 ts there p = cc

  -- What a read returned was there.
  pub Ensures-get :
      (key : Bytes) (f : Option Bytes → Io A)
      → ((o : Option Bytes) (ts : Schedule) (s : MemInner) (a : A)
          → Store.get s key ≡ o
          → (run (f o) ts s).0 ≡ some a
          → P a (run (f o) ts s).1)
      → Ensures P (get? key >>= f)
  unfolding ◌>>=◌ run
  Ensures-get key f h = record {
    at = λ ts s p. by_case (next_turn ts).fault (effects s (next_turn ts).before) (later ts) p;
  }
    where
      by_case :
          (fault : Fault) (s1 : MemInner) (ts : Schedule) {a : A}
          → (run (or_fail (answer fault (Store.get s1 key)) >>= f) ts s1).0 ≡ some a
          → P a (run (or_fail (answer fault (Store.get s1 key)) >>= f) ts s1).1
      by_case Fault.sound s1 ts p = h (Store.get s1 key) ts s1 _ refl p
      by_case Fault.refused s1 ts p = cc
      by_case Fault.lost s1 ts p = cc

pub bind_assoc :
    {A B C : Type 0} (m : Io A) (f : A → Io B) (g : B → Io C)
    → ((m >>= f) >>= g) ≡ (m >>= λ a. f a >>= g)
unfolding ◌>>=◌
bind_assoc (ret a) f g = refl
bind_assoc fail f g = refl
bind_assoc (get k h) f g = ap (get k) (fun_ext λ r. bind_assoc (h r) f g)
bind_assoc (list k h) f g = ap (list k) (fun_ext λ r. bind_assoc (h r) f g)
bind_assoc (create k b h) f g = ap (create k b) (fun_ext λ r. bind_assoc (h r) f g)
bind_assoc (delete k h) f g = ap (delete k) (fun_ext λ r. bind_assoc (h r) f g)
bind_assoc (put k b h) f g = ap (put k b) (fun_ext λ r. bind_assoc (h r) f g)
bind_assoc (get_range k n m h) f g = ap (get_range k n m) (fun_ext λ r. bind_assoc (h r) f g)

-- With no faults and no other tasks, a program goes on from where its first part ends.
pub run_quiet-bind :
    {A B : Type 0} (m : Io A) (f : A → Io B) (s : MemInner) {a : A} {s' : MemInner}
    → run m [] s ≡ (some a, s')
    → run (m >>= f) [] s ≡ run (f a) [] s'
unfolding run ◌>>=◌
run_quiet-bind (ret b) f s {a} {s'} h = rw (some_inj (ap (λ x. x.0) h), ap (λ x. x.1) h) refl
run_quiet-bind fail f s h = absurd (ground (arith, ap (λ x. x.0) h))
run_quiet-bind (get k g) f s h = run_quiet-bind (g _) f _ h
run_quiet-bind (list k g) f s h = run_quiet-bind (g _) f _ h
run_quiet-bind (create k b g) f s h = run_quiet-bind (g _) f _ h
run_quiet-bind (delete k g) f s h = run_quiet-bind (g _) f _ h
run_quiet-bind (put k b g) f s h = run_quiet-bind (g _) f _ h
run_quiet-bind (get_range k n m g) f s h = run_quiet-bind (g _) f _ h

-- A write whose error the caller looks at: it is done, or it failed, or it is done and looks failed.
pub run-attempt-put :
    {A : Type 0} (k v : Bytes) (f : Option (Unit {0}) → Io A) (ts : Schedule) (s : MemInner)
    → let s1 = effects s (next_turn ts).before in
      let r = run (attempt (put? k v) >>= f) ts s in
      (r ≡ run (f (some tt)) (later ts) (Store.put s1 k v))
      ⊎ (r ≡ run (f none) (later ts) s1)
      ⊎ (r ≡ run (f none) (later ts) (Store.put s1 k v))
unfolding run attempt ◌>>=◌
run-attempt-put k v f ts s = by_fault (next_turn ts).fault
  where
    s1 : MemInner
    s1 = effects s (next_turn ts).before

    by_fault :
        (fault : Fault)
        → let r =
            run
              (attempt (or_fail (answer fault tt)) >>= f)
              (later ts)
              (outcome_state fault s1 (Store.put s1 k v)) in
          (r ≡ run (f (some tt)) (later ts) (Store.put s1 k v))
          ⊎ (r ≡ run (f none) (later ts) s1)
          ⊎ (r ≡ run (f none) (later ts) (Store.put s1 k v))
    by_fault Fault.sound = inl refl
    by_fault Fault.refused = inr (inl refl)
    by_fault Fault.lost = inr (inr refl)
