-- ===== src/Objlog/Runs.antt =====
-- How the run of two programs, one after the other, falls into two runs.
use fafo.Prelude.{◌≡◌, refl, some, All, arith}
use fafo.Prelude.Bytes.{Bytes}
use fafo.Store.{MemInner}
use fafo.Objlog.Io.{
  Io, ret, fail, get, list, create, delete, put, get_range, run, Schedule, later, ◌>>=◌, attempt,
}
use fafo.Objlog.Protocol.{map_option}
use fafo.Objlog.Spares.{SparesTurn, later-All}

-- A run of `m >>= f` that returns: `m` returned, and `f` went on from there, with a schedule that is
-- no harsher on the key.
abbrev pub Splits : Bytes → {A B : Type 0} → Io A → (A → Io B) → Schedule → MemInner → Type 0
Splits key {A} m f ts s =
    (a : A) × (ts' : Schedule) × ((run m ts s).0 ≡ some a)
    × All (SparesTurn key) ts'
    × (run (m >>= f) ts s ≡ run (f a) ts' (run m ts s).1)

pub run-split :
    (key : Bytes) {A B : Type 0} (m : Io A) (f : A → Io B) (ts : Schedule) (s : MemInner) {b : B}
    → All (SparesTurn key) ts
    → (run (m >>= f) ts s).0 ≡ some b
    → Splits key m f ts s
unfolding run ◌>>=◌
run-split key (ret a) f ts s q h = (a, ts, refl, q, refl)
run-split key fail f ts s q h = absurd (ground arith)
run-split key (get k g) f ts s q h = run-split key (g _) f (later ts) _ (later-All key ts q) h
run-split key (list k g) f ts s q h = run-split key (g _) f (later ts) _ (later-All key ts q) h
run-split key (create k b g) f ts s q h = run-split key (g _) f (later ts) _ (later-All key ts q) h
run-split key (delete k g) f ts s q h = run-split key (g _) f (later ts) _ (later-All key ts q) h
run-split key (put k b g) f ts s q h = run-split key (g _) f (later ts) _ (later-All key ts q) h
run-split key (get_range k n m g) f ts s q h =
    run-split key (g _) f (later ts) _ (later-All key ts q) h

pub run-attempt :
    {A : Type 0} (m : Io A) (ts : Schedule) (s : MemInner)
    → run (attempt m) ts s ≡ (some (run m ts s).0, (run m ts s).1)
unfolding run attempt
run-attempt (ret a) ts s = refl
run-attempt fail ts s = refl
run-attempt (get k g) ts s = run-attempt (g _) (later ts) _
run-attempt (list k g) ts s = run-attempt (g _) (later ts) _
run-attempt (create k b g) ts s = run-attempt (g _) (later ts) _
run-attempt (delete k g) ts s = run-attempt (g _) (later ts) _
run-attempt (put k b g) ts s = run-attempt (g _) (later ts) _
run-attempt (get_range k n m g) ts s = run-attempt (g _) (later ts) _

pub run-map :
    {A B : Type 0} (m : Io A) (f : A → B) (ts : Schedule) (s : MemInner)
    → run (m >>= λ a. ret (f a)) ts s ≡ (map_option f (run m ts s).0, (run m ts s).1)
unfolding run ◌>>=◌
run-map (ret a) f ts s = refl
run-map fail f ts s = refl
run-map (get k g) f ts s = run-map (g _) f (later ts) _
run-map (list k g) f ts s = run-map (g _) f (later ts) _
run-map (create k b g) f ts s = run-map (g _) f (later ts) _
run-map (delete k g) f ts s = run-map (g _) f (later ts) _
run-map (put k b g) f ts s = run-map (g _) f (later ts) _
run-map (get_range k n m g) f ts s = run-map (g _) f (later ts) _
