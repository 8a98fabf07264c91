-- ===== src/Orderly/Retry.antt =====
-- bteng/nodes/decorators/retry.py: the attempts of a Retry.
use bteng.Prelude.{ℕ, ◌+◌, ◌<◌, ◌≡◌, refl, ℤ, pos_part, arith, if◌then◌else◌}
use bteng.Value.{idle, running, success, failure}
use bteng.Node.{Node, Base, decorator, retry}
use bteng.World.{World, Host}
use bteng.Lifecycle.{is_running}
use bteng.Tick.{Outcome, returned, invalid, raised, Child}
use bteng.Tick.Decorators.{retry_failed, retry_result, retry_run, tick_retry}
use bteng.Orderly.{IsBudgeted}
use bteng.Orderly.Decorators.{retry_budget_static}

-- The attempts that a Retry remembers.
abbrev pub attempts_of : Node → ℕ
attempts_of (decorator b (retry m a) n) = a
attempts_of n = 0

-- The attempts behind a tick that returned RUNNING, from those before and the child's outcome.
abbrev pub counted : Outcome → ℕ → ℕ
counted (returned failure) a = a + 1
counted o a = a

retry_result-attempts :
    (host : Host) (b : Base) (m budget : ℤ) (a : ℕ) (o : Outcome) (n : Node) (w : World)
    → a < pos_part budget
    → (retry_result host b m budget a o n w).outcome ≡ returned running
    → (attempts_of (retry_result host b m budget a o n w).node ≡ counted o a)
      × (counted o a < pos_part budget)
unfolding retry_result retry_failed
retry_result-attempts host b m budget a (returned idle) n w h e = (refl, h)
retry_result-attempts host b m budget a (returned running) n w h e = (refl, h)
retry_result-attempts host b m budget a (returned success) n w h e = cc
retry_result-attempts host b m budget a (returned failure) n w h e = (refl, ground arith)
retry_result-attempts host b m budget a invalid n w h e = (refl, h)
retry_result-attempts host b m budget a (raised f) n w h e = cc

-- A Retry with a positive budget, the constructor's, and fewer attempts than that: if it returns
-- RUNNING, it has counted one more attempt when its child failed, and none otherwise, from 0 if it was
-- not RUNNING before; and the attempts are still below the budget.
pub tick_retry-attempts :
    (host : Host) (b : Base) (m : ℤ) (a : ℕ) (c : Child) (w : World)
    → IsBudgeted b.config m
    → a < pos_part m
    → (tick_retry host b m a c w).outcome ≡ returned running
    → let before = if is_running b then a else 0 in
      (attempts_of (tick_retry host b m a c w).node ≡ counted (c.run w).outcome before)
      × (counted (c.run w).outcome before < pos_part m)
unfolding tick_retry retry_run
tick_retry-attempts host b m a c w k h e =
    let t = c.run w in
    let before : ℕ = if is_running b then a else 0 in
    let small : before < pos_part m = ground arith in
    let e' : (retry_result host b m m before t.outcome t.node t.world).outcome ≡ returned running =
      rw (retry_budget_static w b m k, k.positive) at e in
    rw (retry_budget_static w b m k)
      (rw k.positive (retry_result-attempts host b m m before t.outcome t.node t.world small e'))
