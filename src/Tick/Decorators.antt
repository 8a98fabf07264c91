-- ===== src/Tick/Decorators.antt =====
-- bteng/nodes/decorators and bteng/nodes/subtree.py: the `tick` methods. The value that a feedback
-- message quotes is left out of it. Periods are whole nanoseconds, rounded down.
use bteng.Prelude.{
  ℕ, ◌+◌, ◌*◌, ◌/◌, String, ℤ, pos, negsuc, pos_part, is_positive, Bool, true, false, Option, none,
  some, ltb, leb, if◌then◌else◌,
}
use bteng.Value.{
  Status, running, success, failure, Value, none_value, int, float, int_of, float_of, nano,
}
use bteng.Node.{
  Node, Base, decorator, Decorator, inverter, force_success, force_failure, sub_tree, timeout,
  rate_controller, retry,
}
use bteng.World.{World, Host, read_clock}
use bteng.World.Ports.{get_input}
use bteng.Lifecycle.{halt, is_running}
use bteng.Tick.{Outcome, type_error, returned, raised, Ticked, Child}

abbrev done : Outcome → Node → World → Ticked
done o n w = record { outcome = o; node = n; world = w }

-- Inverter.tick on its child's outcome
unfoldable pub invert : Outcome → Outcome
invert (returned success) = returned failure
invert (returned failure) = returned success
invert o = o

-- ForceSuccess.tick and ForceFailure.tick on their child's outcome
unfoldable pub force : Status → Outcome → Outcome
force s (returned running) = returned running
force s (raised e) = raised e
force s o = returned s

-- A number read from a port, and the feedback message after the reading.
abbrev pub with_message : Base → String → Base
with_message b message = record b { feedback_message = message }

-- Timeout._budget
unfoldable pub timeout_budget : World → Base → ℤ → ℤ × Base
timeout_budget w b duration = elim (float_of (get_input w b.config "duration" (float duration))) [
  | some z ↦ (z, b)
  | none ↦ (duration, with_message b "duration is not a number")
]

-- `now - start > duration`
unfoldable pub has_expired : ℤ → ℕ → ℕ → Bool
has_expired (pos d) start now = ltb (start + d) now
has_expired (negsuc d) start now = ltb start (now + d + 1)

-- Timeout.tick, by whether the child has run out of its time.
unfoldable pub timeout_decided : Host → Base → ℤ → ℕ → Bool → Child → World → Ticked
timeout_decided host b duration start true c w =
    let (n, w') = halt host c.node w in
    done (returned failure) (decorator b (timeout duration (some start)) n) w'
timeout_decided host b duration start false c w =
    let t = c.run w in done t.outcome (decorator b (timeout duration (some start)) t.node) t.world

-- `now - self._start_time` raises TypeError if there is no start time.
unfoldable pub timeout_run : Host → Base → ℤ → ℤ → Option ℕ → ℕ → Child → World → Ticked
unfolding has_expired timeout_decided
timeout_run host b duration budget none now c w =
    done (raised (type_error b.uid)) (decorator b (timeout duration none) c.node) w
timeout_run host b duration budget (some start) now c w =
    timeout_decided host b duration start (has_expired budget start now) c w

-- `if self._status != RUNNING: self._start_time = now`
unfoldable pub timeout_start : Base → Option ℕ → ℕ → Option ℕ
timeout_start b start now = if is_running b then start else some now

unfoldable pub tick_timeout : Host → Base → ℤ → Option ℕ → Child → World → Ticked
unfolding timeout_budget timeout_start timeout_run read_clock
tick_timeout host b duration start c w =
    let (budget, b') = timeout_budget w b duration in
    let (now, w') = read_clock host w in
    timeout_run host b' duration budget (timeout_start b start now) now c w'

-- 1.0 / hz
unfoldable pub period_of : ℤ → ℕ
period_of hz = nano * nano / pos_part hz

-- RateController._period
unfoldable pub rate_period : World → Base → ℤ → ℤ × Base
unfolding period_of
rate_period w b ctor_period = elim (get_input w b.config "hz" none_value) [
  | none_value ↦ (ctor_period, b)
  | raw ↦ elim (float_of raw) [
    | none ↦ (ctor_period, with_message b "hz is not a number; keeping the current rate")
    | some hz ↦
        if is_positive hz
        then (pos (period_of hz), b)
        else (ctor_period, with_message b "hz is not positive; keeping the current rate")
  ]
]

-- `now - last >= period`
unfoldable pub has_elapsed : ℤ → ℕ → ℕ → Bool
has_elapsed (pos p) last now = leb (last + p) now
has_elapsed (negsuc p) last now = leb last (now + p + 1)

unfoldable pub is_due : ℤ → Option ℕ → ℕ → Bool
unfolding has_elapsed
is_due period none now = true
is_due period (some last) now = has_elapsed period last now

-- `_last_status` becomes the child's status, unless the child raised.
unfoldable pub rate_ticked : Base → ℤ → ℕ → Status → Outcome → Node → World → Ticked
rate_ticked b ctor_period now last_status (returned s) n w =
    done (returned s) (decorator b (rate_controller ctor_period (some now) s) n) w
rate_ticked b ctor_period now last_status o n w =
    done o (decorator b (rate_controller ctor_period (some now) last_status) n) w

-- RateController.tick, once the period and the time are known.
unfoldable pub rate_run : Base → ℤ → Option ℕ → Status → ℕ → Bool → Child → World → Ticked
unfolding rate_ticked
rate_run b ctor_period last_tick last_status now true c w =
    let t = c.run w in rate_ticked b ctor_period now last_status t.outcome t.node t.world
rate_run b ctor_period last_tick last_status now false c w =
    done (returned last_status)
      (decorator b (rate_controller ctor_period last_tick last_status) c.node) w

unfoldable pub tick_rate_controller : Host → Base → ℤ → Option ℕ → Status → Child → World → Ticked
unfolding rate_period is_due read_clock rate_run
tick_rate_controller host b ctor_period last_tick last_status c w =
    let (period, b') = rate_period w b ctor_period in
    let (now, w') = read_clock host w in
    rate_run b' ctor_period last_tick last_status now (is_due period last_tick now) c w'

-- `get_input("num_attempts", None)`, else `get_input("max_attempts", self._max_attempts)`
unfoldable pub retry_raw : World → Base → ℤ → Value
retry_raw w b max_attempts = elim (get_input w b.config "num_attempts" none_value) [
  | none_value ↦ get_input w b.config "max_attempts" (int max_attempts)
  | raw ↦ raw
]

-- Retry._budget
unfoldable pub retry_budget : World → Base → ℤ → ℤ × Base
unfolding retry_raw
retry_budget w b max_attempts = elim (int_of (retry_raw w b max_attempts)) [
  | some z ↦ (z, b)
  | none ↦ (max_attempts, with_message b "num_attempts is not an integer")
]

-- What Retry.tick makes of its child's failure: halt it, and RUNNING while attempts are left.
unfoldable pub retry_failed : Host → Base → ℤ → ℤ → ℕ → Node → World → Ticked
retry_failed host b max_attempts budget attempts n w =
    let (n', w') = halt host n w in
    done (returned (if leb (pos_part budget) (attempts + 1) then failure else running))
      (decorator b (retry max_attempts (attempts + 1)) n') w'

-- What Retry.tick makes of its child's outcome.
unfoldable pub retry_result : Host → Base → ℤ → ℤ → ℕ → Outcome → Node → World → Ticked
unfolding retry_failed
retry_result host b max_attempts budget attempts (returned success) n w =
    done (returned success) (decorator b (retry max_attempts 0) n) w
retry_result host b max_attempts budget attempts (returned failure) n w =
    retry_failed host b max_attempts budget attempts n w
retry_result host b max_attempts budget attempts (raised e) n w =
    done (raised e) (decorator b (retry max_attempts attempts) n) w
retry_result host b max_attempts budget attempts o n w =
    done (returned running) (decorator b (retry max_attempts attempts) n) w

-- Retry.tick, by whether the budget is positive.
unfoldable pub retry_run : Host → Base → ℤ → ℤ → ℕ → Bool → Child → World → Ticked
unfolding retry_result
retry_run host b max_attempts budget attempts false c w =
    done (returned failure) (decorator b (retry max_attempts 0) c.node) w
retry_run host b max_attempts budget attempts true c w =
    let t = c.run w in
    retry_result host b max_attempts budget (if is_running b then attempts else 0) t.outcome t.node
      t.world

unfoldable pub tick_retry : Host → Base → ℤ → ℕ → Child → World → Ticked
unfolding retry_budget retry_run
tick_retry host b max_attempts attempts c w =
    let (budget, b') = retry_budget w b max_attempts in
    retry_run host b' max_attempts budget attempts (is_positive budget) c w

-- A decorator that only maps its child's outcome.
abbrev pass : (Outcome → Outcome) → Base → Decorator → Child → World → Ticked
pass f b d c w = let t = c.run w in done (f t.outcome) (decorator b d t.node) t.world

unfoldable pub tick_decorator : Host → Base → Decorator → Child → World → Ticked
unfolding invert force tick_timeout tick_rate_controller tick_retry
tick_decorator host b inverter c w = pass invert b inverter c w
tick_decorator host b force_success c w = pass (force success) b force_success c w
tick_decorator host b force_failure c w = pass (force failure) b force_failure c w
tick_decorator host b sub_tree c w = pass (λ o. o) b sub_tree c w
tick_decorator host b (timeout duration start) c w = tick_timeout host b duration start c w
tick_decorator host b (rate_controller p t s) c w = tick_rate_controller host b p t s c w
tick_decorator host b (retry m a) c w = tick_retry host b m a c w
