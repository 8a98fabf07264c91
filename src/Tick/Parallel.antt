-- ===== src/Tick/Parallel.antt =====
-- bteng/nodes/control/parallel.py
use Prim.Native.Nat.{max}
use bteng.Prelude.{
  ℕ, zero, suc, ◌+◌, min, String, ℤ, pos_part, is_positive, Bool, true, false, Option, none, some,
  List, [], ◌∷◌, ltb, leb, length, if◌then◌else◌, or_else,
}
use bteng.Value.{Status, running, success, failure, int, int_of}
use bteng.Node.{
  Node, Nodes, nil, Base, Parallel, control, parallel, ParallelPolicy, require_all_success,
  require_one_success, require_all_complete, status,
}
use bteng.Node.Children.{of_list}
use bteng.World.{World, Host}
use bteng.World.Ports.{get_input}
use bteng.Lifecycle.{halt_running, reset_completed}
use bteng.Tick.{Outcome, Error, returned, raised, Ticked, Child, untouched}

-- The children after the loop, and how many of them have succeeded and failed.
pub record Counted : Type 0 where
  pub successes : ℕ
  pub failures : ℕ
  pub error : Option Error
  pub nodes : List Node
  pub world : World

abbrev pub keep : Node → Counted → Counted
keep n r = record r { nodes = n ∷ r.nodes }

abbrev pub count_success : Node → Counted → Counted
count_success n r = record r { nodes = n ∷ r.nodes; successes = suc r.successes }

abbrev pub count_failure : Node → Counted → Counted
count_failure n r = record r { nodes = n ∷ r.nodes; failures = suc r.failures }

-- The body of the `for` loop behind the child's tick, with what the loop gives behind it.
unfoldable pub count_ticked : Outcome → Node → List Node → World → Counted → Counted
count_ticked (returned success) n later w rest = count_success n rest
count_ticked (returned failure) n later w rest = count_failure n rest
count_ticked (raised e) n later w rest = record {
  successes = 0;
  failures = 0;
  error = some e;
  nodes = n ∷ later;
  world = w;
}
count_ticked o n later w rest = keep n rest

-- A child that has completed is counted and not ticked.
unfoldable pub count_child : Status → Node → Counted → Counted → Counted
count_child success n skipped ticked = count_success n skipped
count_child failure n skipped ticked = count_failure n skipped
count_child s n skipped ticked = ticked

-- The `for` loop.
unfoldable pub parallel_loop : List Child → World → Counted
unfolding count_ticked count_child
parallel_loop [] w = record { successes = 0; failures = 0; error = none; nodes = []; world = w }
parallel_loop (c ∷ cs) w =
    let skipped = parallel_loop cs w in
    let t = c.run w in
    let rest = parallel_loop cs t.world in
    count_child (status c.node) c.node skipped
      (count_ticked t.outcome t.node (untouched cs) t.world rest)

-- `n if raw <= 0 else min(raw, n)`
unfoldable pub clamp_success : ℤ → ℕ → ℕ
clamp_success raw n = if is_positive raw then min (pos_part raw) n else n

-- `min(max(raw, 1), n)`
unfoldable pub clamp_failure : ℤ → ℕ → ℕ
clamp_failure raw n = min (max (pos_part raw) 1) n

-- _effective_thresholds, from the two thresholds that the ports give.
unfoldable pub effective_thresholds : Option ParallelPolicy → ℤ → ℤ → ℕ → ℕ × ℕ
unfolding clamp_success clamp_failure
effective_thresholds policy raw_success raw_failure zero = (0, 0)
effective_thresholds (some require_one_success) raw_success raw_failure n = (1, n)
effective_thresholds (some require_all_success) raw_success raw_failure n = (n, 1)
effective_thresholds (some require_all_complete) raw_success raw_failure n =
    (clamp_success raw_success n, n)
effective_thresholds none raw_success raw_failure n =
    (clamp_success raw_success n, clamp_failure raw_failure n)

-- _raw_threshold_from_port, _failure_from_port
unfoldable pub threshold_from_port : World → Base → String → ℤ → ℤ
threshold_from_port w b port raw = or_else (int_of (get_input w b.config port (int raw))) raw

-- What `tick` makes of the counts: `none` for RUNNING, else the argument of `_finish`.
unfoldable pub verdict : Option ParallelPolicy → ℕ × ℕ → ℕ → ℕ → ℕ → Option Bool
verdict (some require_all_complete) (s, f) n successes failures =
    if ltb (successes + failures) n then none else some (leb s successes)
verdict policy (s, f) n successes failures =
    if leb s successes
    then some true
    else if leb f failures
    then some false
    else if leb n (successes + failures)
    then some false
    else none

-- _finish, on the children
unfoldable pub finish_children : Host → List Node → World → Nodes × World
finish_children host ns w =
    let (ns1, w1) = halt_running host (of_list ns) w in reset_completed host ns1 w1

abbrev pub verdict_status : Bool → Status
verdict_status true = success
verdict_status false = failure

abbrev pub parallel_node : Base → Parallel → Nodes → Outcome → World → Ticked
parallel_node b p ns o w = record { outcome = o; node = control b (parallel p) ns; world = w }

-- How `tick` goes on behind the loop, by its error and the verdict on the counts.
unfoldable pub parallel_result :
    Host → Base → Parallel → Option Error → Option Bool → List Node → World → Ticked
unfolding finish_children
parallel_result host b p (some e) v ns w = parallel_node b p (of_list ns) (raised e) w
parallel_result host b p none none ns w = parallel_node b p (of_list ns) (returned running) w
parallel_result host b p none (some succeeded) ns w =
    let (ns', w') = finish_children host ns w in
    parallel_node b p ns' (returned (verdict_status succeeded)) w'

unfoldable pub tick_parallel : Host → Base → Parallel → List Child → World → Ticked
unfolding parallel_loop effective_thresholds threshold_from_port verdict parallel_result
tick_parallel host b p [] w = parallel_node b p nil (returned success) w
tick_parallel host b p (c ∷ cs) w =
    let n = length (c ∷ cs) in
    let thresholds =
      effective_thresholds p.policy
        (threshold_from_port w b "success_threshold" p.raw_success_threshold)
        (threshold_from_port w b "failure_threshold" p.failure_threshold) n in
    let r = parallel_loop (c ∷ cs) w in
    parallel_result host b p r.error (verdict p.policy thresholds n r.successes r.failures) r.nodes
      r.world
