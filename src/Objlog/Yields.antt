-- ===== src/Objlog/Yields.antt =====
-- Rules for programs over the store that return whatever its answers are.
use fafo.Prelude.{Bool, true, false, if◌then◌else◌, ◌≡◌, refl, Bool, Option, some, List}
use fafo.Prelude.Bytes.{Bytes}
use fafo.Store.{MemInner}
use fafo.Objlog.Io.{
  Io, ret, fail, get, list, create, delete, put, get_range, run, Schedule, later, ◌>>=◌, ◌>>◌,
  attempt,
}

-- Whatever the store answers, the program returns, and what it returns satisfies `P`.
abbrev pub Yields : {A : Type 0} → (A → Type 0) → Io A → Type 0
Yields P (ret a) = P a
Yields P fail = ⊥
Yields P (get k g) = (r : Option (Option Bytes)) → Yields P (g r)
Yields P (list k g) = (r : Option (List Bytes)) → Yields P (g r)
Yields P (create k b g) = (r : Option Bool) → Yields P (g r)
Yields P (delete k g) = (r : Option (Unit {0})) → Yields P (g r)
Yields P (put k b g) = (r : Option (Unit {0})) → Yields P (g r)
Yields P (get_range k n m g) = (r : Option (Option Bytes)) → Yields P (g r)

abbrev pub Anything : {A : Type 0} → A → Type 0
Anything a = Unit

pub Yields-bind :
    {A B : Type 0} (P : A → Type 0) (Q : B → Type 0) (m : Io A) (f : A → Io B)
    → Yields P m
    → ((a : A) → P a → Yields Q (f a))
    → Yields Q (m >>= f)
unfolding ◌>>=◌
Yields-bind P Q (ret a) f h k = k a h
Yields-bind P Q fail f h k = elim h [ ]
Yields-bind P Q (get key g) f h k = λ r. Yields-bind P Q (g r) f (h r) k
Yields-bind P Q (list key g) f h k = λ r. Yields-bind P Q (g r) f (h r) k
Yields-bind P Q (create key b g) f h k = λ r. Yields-bind P Q (g r) f (h r) k
Yields-bind P Q (delete key g) f h k = λ r. Yields-bind P Q (g r) f (h r) k
Yields-bind P Q (put key b g) f h k = λ r. Yields-bind P Q (g r) f (h r) k
Yields-bind P Q (get_range key n m g) f h k = λ r. Yields-bind P Q (g r) f (h r) k

-- A program whose error is looked at always returns.
pub attempt-Yields : {A : Type 0} (m : Io A) → Yields Anything (attempt m)
unfolding attempt
attempt-Yields (ret a) = tt
attempt-Yields fail = tt
attempt-Yields (get key g) = λ r. attempt-Yields (g r)
attempt-Yields (list key g) = λ r. attempt-Yields (g r)
attempt-Yields (create key b g) = λ r. attempt-Yields (g r)
attempt-Yields (delete key g) = λ r. attempt-Yields (g r)
attempt-Yields (put key b g) = λ r. attempt-Yields (g r)
attempt-Yields (get_range key n m g) = λ r. attempt-Yields (g r)

pub run-Yields :
    {A : Type 0} (P : A → Type 0) (m : Io A)
    → Yields P m
    → (ts : Schedule) (s : MemInner) → (a : A) × ((run m ts s).0 ≡ some a) × P a
unfolding run
run-Yields P (ret a) h ts s = (a, refl, h)
run-Yields P fail h ts s = elim h [ ]
run-Yields P (get key g) h ts s = run-Yields P (g _) (h _) (later ts) _
run-Yields P (list key g) h ts s = run-Yields P (g _) (h _) (later ts) _
run-Yields P (create key b g) h ts s = run-Yields P (g _) (h _) (later ts) _
run-Yields P (delete key g) h ts s = run-Yields P (g _) (h _) (later ts) _
run-Yields P (put key b g) h ts s = run-Yields P (g _) (h _) (later ts) _
run-Yields P (get_range key n m g) h ts s = run-Yields P (g _) (h _) (later ts) _

pub Yields-weaken :
    {A : Type 0} (P Q : A → Type 0) (m : Io A) → ((a : A) → P a → Q a) → Yields P m → Yields Q m
Yields-weaken P Q (ret a) k h = k a h
Yields-weaken P Q fail k h = h
Yields-weaken P Q (get key g) k h = λ r. Yields-weaken P Q (g r) k (h r)
Yields-weaken P Q (list key g) k h = λ r. Yields-weaken P Q (g r) k (h r)
Yields-weaken P Q (create key b g) k h = λ r. Yields-weaken P Q (g r) k (h r)
Yields-weaken P Q (delete key g) k h = λ r. Yields-weaken P Q (g r) k (h r)
Yields-weaken P Q (put key b g) k h = λ r. Yields-weaken P Q (g r) k (h r)
Yields-weaken P Q (get_range key n m g) k h = λ r. Yields-weaken P Q (g r) k (h r)

-- A step whose result is not looked at.
pub skip :
    {A B : Type 0} (P : B → Type 0) (m : Io A) (n : Io B)
    → Yields Anything m
    → Yields P n
    → Yields P (m >> n)
skip P m n h k = Yields-bind Anything P m (λ a. n) h (λ a u. k)

pub tried :
    {A B : Type 0} (P : B → Type 0) (m : Io A) (n : Io B) → Yields P n → Yields P (attempt m >> n)
tried P m n k = skip P (attempt m) n (attempt-Yields m) k

pub branch :
    {A : Type 0} (P : A → Type 0) (b : Bool) (m n : Io A)
    → Yields P m
    → Yields P n
    → Yields P (if b then m else n)
branch P true m n h k = h
branch P false m n h k = k
