-- ===== src/Orderly/Decorators.antt =====
-- bteng/nodes/decorators and bteng/nodes/subtree.py, and the invariant.
use bteng.Prelude.{ℕ, String, ℤ, ◌≡◌, Bool, true, false, Option, none, some, arith}
use bteng.Value.{Status, idle, running, success, failure, Value, none_value, int, int_of}
use bteng.Node.{
  Node, Base, NodeConfig, decorator, Decorator, inverter, force_success, force_failure, sub_tree,
  timeout, rate_controller, retry,
}
use bteng.World.{World, Host, read_clock}
use bteng.World.Ports.{get_input}
use bteng.Tick.{Outcome, returned, invalid, raised, Child}
use bteng.Tick.Decorators.{
  invert, force, timeout_decided, timeout_run, timeout_budget, timeout_start, has_expired,
  rate_ticked, rate_run, rate_period, is_due, retry_budget, retry_failed, retry_result, retry_run,
  tick_decorator,
}
use bteng.Orderly.{IsNotRunning, IsCalm, MemoryCalm, IsUnbound, IsBudgeted}
use bteng.Orderly.Halt.{halt-IsStopped}
use bteng.Orderly.Lists.{IsGood, IsLawful}
use bteng.Orderly.Sweep.{IsBody}
use bteng.Orderly.Reactive.{Body}

-- A decorator that returns what its child returned.
IsGood-IsBody :
    (o : Outcome) (b : Base) (d : Decorator) (n : Node)
    → MemoryCalm b.config d n
    → IsGood o n
    → IsBody o (decorator b d n)
IsGood-IsBody (returned s) b d n m g = (g.0, m, g.1)
IsGood-IsBody invalid b d n m g = absurd g
IsGood-IsBody (raised e) b d n m g = tt

invert-IsBody :
    (o : Outcome) (b : Base) (n : Node) → IsGood o n → IsBody (invert o) (decorator b inverter n)
unfolding invert
invert-IsBody (returned idle) b n g = (g.0, tt, g.1)
invert-IsBody (returned running) b n g = (g.0, tt, g.1)
invert-IsBody (returned success) b n g = (g.0, tt, λ e. g.1 (λ e. cc))
invert-IsBody (returned failure) b n g = (g.0, tt, λ e. g.1 (λ e. cc))
invert-IsBody invalid b n g = absurd g
invert-IsBody (raised e) b n g = tt

force-IsBody :
    (s : Status) (o : Outcome) (b : Base) (d : Decorator) (n : Node)
    → MemoryCalm b.config d n
    → IsGood o n
    → IsBody (force s o) (decorator b d n)
unfolding force
force-IsBody s (returned idle) b d n m g = (g.0, m, λ e. g.1 (λ e. cc))
force-IsBody s (returned running) b d n m g = (g.0, m, g.1)
force-IsBody s (returned success) b d n m g = (g.0, m, λ e. g.1 (λ e. cc))
force-IsBody s (returned failure) b d n m g = (g.0, m, λ e. g.1 (λ e. cc))
force-IsBody s invalid b d n m g = absurd g
force-IsBody s (raised e) b d n m g = tt

module _ (host : Host) (b : Base) (c : Child) (l : IsLawful c) where
  timeout_decided-Body :
      (d : ℤ) (start : ℕ) (expired : Bool) (w : World)
      → Body (timeout_decided host b d start expired c w)
  unfolding timeout_decided
  timeout_decided-Body d start true w =
      let h = halt-IsStopped host c.node w l.orderly in (h.1, tt, λ e. h.0)
  timeout_decided-Body d start false w =
      let t = c.run w in IsGood-IsBody t.outcome b (timeout d (some start)) t.node tt (l.runs w)

  timeout_run-Body :
      (d budget : ℤ) (start : Option ℕ) (now : ℕ) (w : World)
      → Body (timeout_run host b d budget start now c w)
  unfolding timeout_run
  timeout_run-Body d budget none now w = tt
  timeout_run-Body d budget (some start) now w =
      timeout_decided-Body d start (has_expired budget start now) w

  rate_ticked-Body :
      (p : ℤ) (now : ℕ) (s : Status) (o : Outcome) (n : Node) (w : World)
      → IsGood o n
      → Body (rate_ticked b p now s o n w)
  unfolding rate_ticked
  rate_ticked-Body p now s (returned s') n w g = (g.0, g.1, g.1)
  rate_ticked-Body p now s invalid n w g = absurd g
  rate_ticked-Body p now s (raised e) n w g = tt

  rate_run-Body :
      (p : ℤ) (last : Option ℕ) (s : Status) (now : ℕ) (due : Bool) (w : World)
      → (IsNotRunning s → IsCalm c.node)
      → Body (rate_run b p last s now due c w)
  unfolding rate_run
  rate_run-Body p last s now true w m =
      let t = c.run w in rate_ticked-Body p now s t.outcome t.node t.world (l.runs w)
  rate_run-Body p last s now false w m = (l.orderly, m, m)

  retry_result-Body :
      (m budget : ℤ) (attempts : ℕ) (o : Outcome) (n : Node) (w : World)
      → IsBudgeted b.config m
      → IsGood o n
      → Body (retry_result host b m budget attempts o n w)
  unfolding retry_result retry_failed
  retry_result-Body m budget attempts (returned idle) n w k g = (g.0, k, λ e. g.1 (λ e. cc))
  retry_result-Body m budget attempts (returned running) n w k g = (g.0, k, g.1)
  retry_result-Body m budget attempts (returned success) n w k g = (g.0, k, g.1)
  retry_result-Body m budget attempts (returned failure) n w k g =
      let h = halt-IsStopped host n w g.0 in (h.1, k, λ e. h.0)
  retry_result-Body m budget attempts invalid n w k g = absurd g
  retry_result-Body m budget attempts (raised e) n w k g = tt

  retry_run-Body :
      (m budget : ℤ) (attempts : ℕ) (w : World)
      → IsBudgeted b.config m
      → Body (retry_run host b m budget attempts true c w)
  unfolding retry_run
  retry_run-Body m budget attempts w k =
      let t = c.run w in retry_result-Body m budget _ t.outcome t.node t.world k (l.runs w)

-- An unbound port gives the default.
pub get_input_unbound :
    (w : World) (c : NodeConfig) (port : String) (d : Value)
    → IsUnbound c port
    → get_input w c port d ≡ d
unfolding get_input
get_input_unbound w c port d h = ground arith

pub retry_budget_static :
    (w : World) (b : Base) (m : ℤ) → IsBudgeted b.config m → retry_budget w b m ≡ (m, b)
unfolding retry_budget int_of
retry_budget_static w b m h = ground (
  arith,
  get_input_unbound w b.config "num_attempts" none_value h.num_attempts,
  get_input_unbound w b.config "max_attempts" (int m) h.max_attempts_port,
)

pub tick_decorator-Body :
    (host : Host) (b : Base) (d : Decorator) (c : Child) (w : World)
    → IsLawful c
    → MemoryCalm b.config d c.node
    → Body (tick_decorator host b d c w)
unfolding tick_decorator
tick_decorator-Body host b inverter c w l m =
    let t = c.run w in invert-IsBody t.outcome b t.node (l.runs w)
tick_decorator-Body host b force_success c w l m =
    let t = c.run w in force-IsBody success t.outcome b force_success t.node tt (l.runs w)
tick_decorator-Body host b force_failure c w l m =
    let t = c.run w in force-IsBody failure t.outcome b force_failure t.node tt (l.runs w)
tick_decorator-Body host b sub_tree c w l m =
    let t = c.run w in IsGood-IsBody t.outcome b sub_tree t.node tt (l.runs w)
tick_decorator-Body host b (timeout d start) c w l m =
    let (budget, b') = timeout_budget w b d in
    let (now, w') = read_clock host w in
    timeout_run-Body host b' c l d budget (timeout_start b start now) now w'
tick_decorator-Body host b (rate_controller p last s) c w l m =
    let (period, b') = rate_period w b p in
    let (now, w') = read_clock host w in
    rate_run-Body host b' c l p last s now (is_due period last now) w' m
tick_decorator-Body host b (retry n a) c w l m =
    rw (retry_budget_static w b n m) (rw m.positive (retry_run-Body host b c l n n a w m))
