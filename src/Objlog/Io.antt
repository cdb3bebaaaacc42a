-- ===== src/Objlog/Io.antt =====
-- An `async fn` over `&dyn BlobStore`: a program that makes store calls, each of which may fail, and
-- its runs on the in-memory store. Between two calls other tasks may run, which the schedule lists.
use fafo.Prelude.{ℕ, Bool, Option, none, some, List, [], ◌∷◌}
use fafo.Prelude.Bytes.{Bytes}
use fafo.Store.{MemInner, Call, effects}
use fafo.Store as Store

-- The calls that the modelled code makes. `none` as an answer is an `Err` of the store.
pub data Io (A : Type 0) : Type 0 where
  ret : A → Io A
  fail : Io A
  get : Bytes → (Option (Option Bytes) → Io A) → Io A
  list : Bytes → (Option (List Bytes) → Io A) → Io A
  create : Bytes → Bytes → (Option Bool → Io A) → Io A
  delete : Bytes → (Option (Unit {0}) → Io A) → Io A
  put : Bytes → Bytes → (Option (Unit {0}) → Io A) → Io A
  get_range : Bytes → ℕ → ℕ → (Option (Option Bytes) → Io A) → Io A

infixl 5 ◌>>=◌ ◌>>◌
unfoldable pub ◌>>=◌ : {A B : Type 0} → Io A → (A → Io B) → Io B
ret a >>= f = f a
fail >>= f = fail
get k g >>= f = get k (λ r. g r >>= f)
list k g >>= f = list k (λ r. g r >>= f)
create k b g >>= f = create k b (λ r. g r >>= f)
delete k g >>= f = delete k (λ r. g r >>= f)
put k b g >>= f = put k b (λ r. g r >>= f)
get_range k n m g >>= f = get_range k n m (λ r. g r >>= f)

abbrev pub ◌>>◌ : {A B : Type 0} → Io A → Io B → Io B
m >> k = m >>= λ _. k

-- `?`
abbrev pub or_fail : {A : Type 0} → Option A → Io A
or_fail none = fail
or_fail (some a) = ret a

abbrev pub get? : Bytes → Io (Option Bytes)
get? k = get k or_fail

abbrev pub list? : Bytes → Io (List Bytes)
list? k = list k or_fail

abbrev pub create? : Bytes → Bytes → Io Bool
create? k b = create k b or_fail

abbrev pub delete? : Bytes → Io (Unit {0})
delete? k = delete k or_fail

abbrev pub put? : Bytes → Bytes → Io (Unit {0})
put? k b = put k b or_fail

abbrev pub get_range? : Bytes → ℕ → ℕ → Io (Option Bytes)
get_range? k offset len = get_range k offset len or_fail

-- A program whose error the caller looks at.
unfoldable pub attempt : {A : Type 0} → Io A → Io (Option A)
attempt (ret a) = ret (some a)
attempt fail = ret none
attempt (get k g) = get k (λ r. attempt (g r))
attempt (list k g) = list k (λ r. attempt (g r))
attempt (create k b g) = create k b (λ r. attempt (g r))
attempt (delete k g) = delete k (λ r. attempt (g r))
attempt (put k b g) = put k b (λ r. attempt (g r))
attempt (get_range k n m g) = get_range k n m (λ r. attempt (g r))

-- How a call ends: it takes effect and its answer arrives, or it fails with no effect, or it takes
-- effect and the answer is lost.
pub data Fault : Type 0 where
  sound refused lost : Fault

-- What happens at one call: first the calls that other tasks make, then this one.
pub record Turn : Type 0 where
  pub before : List Call
  pub fault : Fault

abbrev pub Schedule : Type 0
Schedule = List Turn

abbrev pub quiet : Turn
quiet = record { before = []; fault = Fault.sound }

-- With the schedule used up, no other task runs and nothing fails.
abbrev pub next_turn : Schedule → Turn
next_turn [] = quiet
next_turn (t ∷ ts) = t

abbrev pub later : Schedule → Schedule
later [] = []
later (t ∷ ts) = ts

abbrev pub answer : {A : Type 0} → Fault → A → Option A
answer Fault.sound a = some a
answer Fault.refused a = none
answer Fault.lost a = none

abbrev pub outcome_state : Fault → MemInner → MemInner → MemInner
outcome_state Fault.sound s s' = s'
outcome_state Fault.refused s s' = s
outcome_state Fault.lost s s' = s'

-- A run: the result, and the store that it leaves.
unfoldable pub run : {A : Type 0} → Io A → Schedule → MemInner → Option A × MemInner
run (ret a) ts s = (some a, s)
run fail ts s = (none, s)
run (get k g) ts s =
    let t = next_turn ts in
    let s1 = effects s t.before in run (g (answer t.fault (Store.get s1 k))) (later ts) s1
run (list k g) ts s =
    let t = next_turn ts in
    let s1 = effects s t.before in run (g (answer t.fault (Store.list s1 k))) (later ts) s1
run (create k b g) ts s =
    let t = next_turn ts in
    let s1 = effects s t.before in
    let (made, s2) = Store.create s1 k b in
    run (g (answer t.fault made)) (later ts) (outcome_state t.fault s1 s2)
run (delete k g) ts s =
    let t = next_turn ts in
    let s1 = effects s t.before in
    run (g (answer t.fault tt)) (later ts) (outcome_state t.fault s1 (Store.delete s1 k))
run (put k b g) ts s =
    let t = next_turn ts in
    let s1 = effects s t.before in
    run (g (answer t.fault tt)) (later ts) (outcome_state t.fault s1 (Store.put s1 k b))
run (get_range k offset len g) ts s =
    let t = next_turn ts in
    let s1 = effects s t.before in
    run (g (answer t.fault (Store.get_range s1 k offset len))) (later ts) s1
