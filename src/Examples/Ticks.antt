-- ===== src/Examples/Ticks.antt =====
-- Runs of bteng/core/node.py and bteng/nodes.
use bteng.Prelude.{
  ℕ, ◌≡◌, ◌<◌, arith, refl, pos, is_positive, Option, none, some, List, [], ◌∷◌, ◌⊎◌, map,
}
use bteng.Prelude.Dict.{lookup}
use bteng.Value.{running, failure, int_of}
use bteng.Node.{
  Node, Base, base, with_base, status, control, decorator, nil, cons, sequence, retry, Parallel,
}
use bteng.World.{World, read_clock, run_client}
use bteng.World.Ports.{get_input}
use bteng.Lifecycle.{halt, reset_node}
use bteng.Tick.{returned, Ticked, Child}
use bteng.Tick.Decorators.{tick_decorator, retry_run, tick_retry, tick_timeout}
use bteng.Tick.Leaves.{tick_leaf}
use bteng.Tick.Duality.{inverted, dual, tick_fallback-dual}
use bteng.Tick.Sequence.{tick_sequence}
use bteng.Tick.Fallback.{tick_fallback}
use bteng.Tick.Parallel.{tick_parallel}
use bteng.Tick.Thresholds.{
  IsThreshold, IsBelow, HasOpen, results, successes_in, failures_in, thresholds_of,
  tick_parallel-running,
}
use bteng.Execute.{execute_tick, as_children}
use bteng.Execute.Valid.{IsConcluded, execute_tick-IsConcluded}
use bteng.Orderly.{IsCalm, IsOrderly}
use bteng.Orderly.Tick.{
  Reach, here, tick, stopped, execute_tick-IsOrderly, halt-stops, Reach-IsOrderly,
}
use bteng.Orderly.Timeout.{HasCalmChild, IsLate, tick_timeout-deadline}
use bteng.Orderly.Retry.{attempts_of, counted, tick_retry-attempts}
use bteng.Orderly.{IsBudgeted, IsUnbound}
use bteng.Examples.{config, bad, host, world, plain, ok, move, again}

again-IsOrderly : IsOrderly again
unfolding lookup
again-IsOrderly = (
  ((tt, (tt, tt)), (λ e. ((λ f. cc), ((λ f. cc), tt))), tt),
  (λ e. ((λ f. cc), ((λ f. cc), ((λ f. cc), tt)))),
  record {
    positive = refl;
    num_attempts = record { mapped = refl; static = refl };
    max_attempts_port = record { mapped = refl; static = refl };
  },
)

again-running : (execute_tick host again world).outcome ≡ returned running
unfolding execute_tick tick_decorator int_of get_input lookup tick_sequence tick_leaf run_client
    with_base
again-running = refl

abbrev ticked : Ticked
ticked = execute_tick host again world

-- A tick, and a halt behind it.
ticked-Reach : Reach host again world ticked.node ticked.world
ticked-Reach = tick running here again-running

stopped-Reach :
    Reach host again world
      (halt host ticked.node ticked.world).0
      (halt host ticked.node ticked.world).1
stopped-Reach = stopped ticked-Reach

Reach-IsOrderly_example : IsOrderly (halt host ticked.node ticked.world).0
Reach-IsOrderly_example = Reach-IsOrderly again-IsOrderly stopped-Reach

execute_tick-IsOrderly_example : IsOrderly ticked.node × ((running ≡ running) ⊎ IsCalm ticked.node)
execute_tick-IsOrderly_example =
    execute_tick-IsOrderly host again world running again-IsOrderly again-running

halt-stops_example :
    IsCalm (halt host ticked.node ticked.world).0 × IsOrderly (halt host ticked.node ticked.world).0
halt-stops_example =
    halt-stops host ticked.node ticked.world (Reach-IsOrderly again-IsOrderly ticked-Reach)

execute_tick-IsConcluded_example : IsConcluded (base again) (execute_tick host again world)
execute_tick-IsConcluded_example = execute_tick-IsConcluded host again world

abbrev children : List Child
children = as_children host (cons ok (cons move nil))

tick_fallback-dual_example :
    tick_fallback host (plain 0) 0 children world
    ≡ dual (tick_sequence host (plain 0) 0 (map inverted children) world)
tick_fallback-dual_example = tick_fallback-dual host (plain 0) 0 children world

abbrev policy : Parallel
policy = record { policy = none; raw_success_threshold = pos 2; failure_threshold = pos 9 }

abbrev first : Child
first = record { node = ok; run = λ w. execute_tick host ok w }

abbrev second : Child
second = record { node = move; run = λ w. execute_tick host move w }

parallel-running :
    (tick_parallel host (plain 7) policy (first ∷ second ∷ []) world).outcome ≡ returned running
unfolding execute_tick tick_parallel status tick_leaf run_client int_of get_input lookup
parallel-running = refl

tick_parallel-running_example :
    let os = results (first ∷ second ∷ []) world in
    IsThreshold 2 (thresholds_of world (plain 7) policy 2).0
    × IsThreshold 2 (thresholds_of world (plain 7) policy 2).1
    × IsBelow none (thresholds_of world (plain 7) policy 2) (successes_in os) (failures_in os)
    × HasOpen os
tick_parallel-running_example =
    tick_parallel-running host (plain 7) policy first (second ∷ []) world parallel-running

abbrev cursor : Node → Option ℕ
cursor (control b (sequence i) ns) = some i
cursor (decorator b d n) = cursor n
cursor n = none

-- The first child has succeeded, and the reset keeps the cursor behind it.
reset_keeps_cursor : cursor (reset_node host ticked.node ticked.world).0 ≡ some 1
unfolding reset_node execute_tick tick_decorator int_of get_input lookup tick_sequence tick_leaf
    run_client with_base
reset_keeps_cursor = refl

-- A Retry whose budget is no longer positive gives up, and its child goes on.
abbrev spent : Ticked
spent = retry_run host (plain 5) (pos 3) (pos 0) 1 (is_positive (pos 0)) second world

retry_leaves_child :
    (spent.outcome ≡ returned failure) × (spent.node ≡ decorator (plain 5) (retry (pos 3) 0) move)
unfolding retry_run
retry_leaves_child = (refl, refl)

abbrev failing : Child
failing = record { node = bad; run = λ w. execute_tick host bad w }

retry-IsBudgeted : IsBudgeted config (pos 3)
unfolding lookup
retry-IsBudgeted = record {
  positive = refl;
  num_attempts = record { mapped = refl; static = refl };
  max_attempts_port = record { mapped = refl; static = refl };
}

retry-running : (tick_retry host (plain 5) (pos 3) 0 failing world).outcome ≡ returned running
unfolding execute_tick tick_retry int_of get_input lookup tick_leaf
retry-running = refl

tick_retry-attempts_example :
    (attempts_of (tick_retry host (plain 5) (pos 3) 0 failing world).node
      ≡ counted (failing.run world).outcome 0)
    × (counted (failing.run world).outcome 0 < 3)
tick_retry-attempts_example =
    tick_retry-attempts host (plain 5) (pos 3) 0 failing world retry-IsBudgeted (omega arith)
      retry-running

abbrev waiting : Base
waiting = record (plain 8) { status = running }

abbrev later : World
later = record world { reads = 9 }

duration-IsUnbound : IsUnbound config "duration"
unfolding lookup
duration-IsUnbound = record { mapped = refl; static = refl }

tick_timeout-deadline_example :
    let t = tick_timeout host waiting (pos 5) (some 0) second later in
    (IsLate (pos 5) 0 9 × (t.outcome ≡ returned failure) × HasCalmChild t.node)
    ⊎ ((¬ IsLate (pos 5) 0 9) × (t.outcome ≡ (second.run (read_clock host later).1).outcome))
tick_timeout-deadline_example =
    tick_timeout-deadline host waiting (pos 5) 0 second later duration-IsUnbound tt refl
