-- ===== src/Cluster/Clock.antt =====
-- cluster.rs, `NodeClock` and the timing of the lease guard. A duration is its number of nanoseconds
-- and `raw` is the time since the node's birth. `scale` stands for `mul_f64(rate)`, a float product.
use fafo.Prelude.{
  ℕ, ◌+◌, ◌-◌, ◌*◌, ◌/◌, ◌≤◌, ◌<◌, ◌≡◌, ◌↔◌, ap, Bool, true, false, Option, none, some, List, [],
  ◌∷◌, arith, ltb, leb, max, min, if◌then◌else◌,
}

pub data ClockPause : Type 0 where
  running : (skipped : ℕ) → ClockPause
  frozen : (at skipped : ℕ) → ClockPause

-- `NodeClock::new`
abbrev pub new_clock : ClockPause
new_clock = running 0

-- The time that `now` scales; the subtraction saturates.
unfoldable pub effective : ClockPause → ℕ → ℕ
effective (running skipped) raw = raw - skipped
effective (frozen at skipped) raw = at - skipped

unfoldable pub now : (ℕ → ℕ) → ClockPause → ℕ → ℕ
unfolding effective
now scale pause raw = scale (effective pause raw)

unfoldable pub freeze : ClockPause → ℕ → ClockPause
freeze (running skipped) raw = frozen raw skipped
freeze (frozen at skipped) raw = frozen at skipped

unfoldable pub thaw : ClockPause → ℕ → ClockPause
thaw (running skipped) raw = running skipped
thaw (frozen at skipped) raw = running (skipped + (raw - at))

-- What happens to a clock: it is suspended or resumed, at a raw time.
pub data ClockEvent : Type 0 where
  freezing thawing : ℕ → ClockEvent

abbrev raw_time : ClockEvent → ℕ
raw_time (freezing raw) = raw
raw_time (thawing raw) = raw

unfoldable pub clock_step : ClockPause → ClockEvent → ClockPause
unfolding freeze thaw
clock_step pause (freezing raw) = freeze pause raw
clock_step pause (thawing raw) = thaw pause raw

unfoldable pub clock_run : ClockPause → List ClockEvent → ClockPause
unfolding clock_step
clock_run pause [] = pause
clock_run pause (e ∷ es) = clock_run (clock_step pause e) es

-- Raw times that only grow, from `start` up to `end`.
abbrev pub InOrder : ℕ → List ClockEvent → ℕ → Type 0
InOrder start [] end = start ≤ end
InOrder start (e ∷ es) end = (start ≤ raw_time e) × InOrder (raw_time e) es end

-- No more was skipped than has passed, and no freeze is in the future.
IsSane : ClockPause → ℕ → Type 0
IsSane (running skipped) raw = skipped ≤ raw
IsSane (frozen at skipped) raw = (skipped ≤ at) × (at ≤ raw)

-- The real time in which the clock ran, out of the time from `start` to `end`.
unfoldable pub awake : ClockPause → ℕ → List ClockEvent → ℕ → ℕ
unfolding clock_step
awake (running skipped) start [] end = end - start
awake (frozen at skipped) start [] end = 0
awake (running skipped) start (e ∷ es) end =
    (raw_time e - start) + awake (clock_step (running skipped) e) (raw_time e) es end
awake (frozen at skipped) start (e ∷ es) end =
    awake (clock_step (frozen at skipped) e) (raw_time e) es end

effective-clock_run :
    (pause : ClockPause) (start : ℕ) (es : List ClockEvent) (end : ℕ)
    → IsSane pause start
    → InOrder start es end
    → effective (clock_run pause es) end ≡ effective pause start + awake pause start es end
unfolding effective clock_run clock_step freeze thaw awake IsSane
effective-clock_run (running k) start [] end h o = omega arith
effective-clock_run (frozen at k) start [] end h o = omega arith
effective-clock_run (running k) start (freezing raw ∷ es) end h o =
    omega (arith, effective-clock_run (frozen raw k) raw es end (omega arith, omega arith) o.1)
effective-clock_run (running k) start (thawing raw ∷ es) end h o =
    omega (arith, effective-clock_run (running k) raw es end (omega arith) o.1)
effective-clock_run (frozen at k) start (freezing raw ∷ es) end h o =
    omega (arith, effective-clock_run (frozen at k) raw es end (h.0, omega arith) o.1)
effective-clock_run (frozen at k) start (thawing raw ∷ es) end h o =
    omega (arith, effective-clock_run (running (k + (raw - at))) raw es end (omega arith) o.1)

starts_at_zero : effective new_clock 0 ≡ 0
unfolding effective
starts_at_zero = omega arith

-- The clock of a node shows exactly the scaled real time in which it was not suspended: for every
-- sequence of suspends and resumes, repeated ones included, whose raw times only grow.
pub now-awake :
    (scale : ℕ → ℕ) (es : List ClockEvent) (end : ℕ)
    → InOrder 0 es end
    → now scale (clock_run new_clock es) end ≡ scale (awake new_clock 0 es end)
unfolding now
now-awake scale es end o = ap scale (
    omega (
      arith,
      effective-clock_run new_clock 0 es end (unfold IsSane in omega arith) o,
      starts_at_zero,
    ))

abbrev pub millis : ℕ → ℕ
millis n = n * 1000000

unfoldable pub guard_interval : ℕ → ℕ
guard_interval fence_ttl = min (max (fence_ttl / 3) (millis 50)) (millis 5000)

-- The guard interval is shorter than the fence time exactly when the fence time is longer than 50
-- ms: the floor against a busy loop breaks the promise for every other one.
pub guard_interval-lt :
    (fence_ttl : ℕ) → (guard_interval fence_ttl < fence_ttl) ↔ (millis 50 < fence_ttl)
unfolding guard_interval
guard_interval-lt fence_ttl = (λ h. omega arith, λ h. omega arith)

-- The recency stamps of a node and its configuration, as `lease_stale` reads them.
pub record Stamps : Type 0 where
  pub mono : ℕ
  pub wall : ℕ
  pub fence_ttl : ℕ
  pub wall_fence : Bool

-- `duration_since` fails when the wall clock went backwards.
abbrev pub duration_since : ℕ → ℕ → Option ℕ
duration_since later earlier = if leb earlier later then some (later - earlier) else none

unfoldable pub lease_stale : Stamps → ℕ → ℕ → Bool
lease_stale node node_now wall_now =
    if ltb node.fence_ttl (node_now - node.mono)
    then true
    else if node.wall_fence
    then elim (duration_since wall_now node.wall) [ none ↦ false | some d ↦ ltb node.fence_ttl d ]
    else false
