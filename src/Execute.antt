-- ===== src/Execute.antt =====
-- bteng/core/node.py: TreeNode.execute_tick, on the whole tree.
pub mod Valid
use bteng.Prelude.{
  ℕ, ◌+◌, Bool, true, false, Option, none, some, List, [], ◌∷◌, ◌&&◌, not, if◌then◌else◌,
}
use bteng.Value.{Status, idle, running, success, failure, is_status}
use bteng.Node.{
  Node, Nodes, leaf, control, decorator, nil, cons, Base, base, with_base, Leaf, Decorator, Control,
  sequence, fallback, parallel, reactive_sequence, reactive_fallback,
}
use bteng.World.{World, Host, on_node_tick, log_transition, record_event}
use bteng.Tick.{Outcome, type_error, returned, invalid, raised, Ticked, Child}
use bteng.Tick.Sequence.{tick_sequence}
use bteng.Tick.Fallback.{tick_fallback}
use bteng.Tick.Parallel.{tick_parallel}
use bteng.Tick.ReactiveSequence.{tick_reactive_sequence}
use bteng.Tick.ReactiveFallback.{tick_reactive_fallback}
use bteng.Tick.Decorators.{tick_decorator}
use bteng.Tick.Leaves.{tick_leaf}

-- The tracer, then the inspector.
unfoldable pub report : Base → Status → Status → World → World
unfolding record_event
report b prev new w =
    let traced =
      if b.tracer && not (is_status prev new)
      then record_event (log_transition b.uid prev new) w
      else w in
    if b.inspector
    then record_event (on_node_tick b.uid prev new b.feedback_message) traced
    else traced

-- `execute_tick` behind `tick()`, for an accepted status.
unfoldable pub accept : Status → Status → Node → World → Ticked
unfolding report
accept prev new n w = record {
  outcome = returned new;
  node = with_base n (record (base n) { status = new; tick_count = (base n).tick_count + 1 });
  world = report (base n) prev new w;
}

-- `execute_tick` behind `tick()`, by what it returned; `prev` is the status before it.
unfoldable pub conclude_on : Status → Outcome → Node → World → Ticked
unfolding accept
conclude_on prev (returned running) n w = accept prev running n w
conclude_on prev (returned success) n w = accept prev success n w
conclude_on prev (returned failure) n w = accept prev failure n w
conclude_on prev (raised e) n w = record { outcome = raised e; node = n; world = w }
conclude_on prev o n w = record { outcome = raised (type_error (base n).uid); node = n; world = w }

unfoldable pub conclude : Status → Ticked → Ticked
unfolding conclude_on
conclude prev t = conclude_on prev t.outcome t.node t.world

module _ (host : Host) where
  unfoldable pub tick_control : Base → Control → List Child → World → Ticked
  tick_control b (sequence i) cs w = tick_sequence host b i cs w
  tick_control b (fallback i) cs w = tick_fallback host b i cs w
  tick_control b (parallel p) cs w = tick_parallel host b p cs w
  tick_control b (reactive_sequence r) cs w = tick_reactive_sequence host b r cs w
  tick_control b (reactive_fallback r) cs w = tick_reactive_fallback host b r cs w

  unfoldable mutual
    unfolding tick_control conclude

    pub execute_tick : Node → World → Ticked
    execute_tick (leaf b l) w = conclude b.status (tick_leaf host b l w)
    execute_tick (control b c ns) w = conclude b.status (tick_control b c (as_children ns) w)
    execute_tick (decorator b d n) w =
        conclude b.status
          (tick_decorator host b d (record { node = n; run = λ w'. execute_tick n w' }) w)

    pub as_children : Nodes → List Child
    as_children nil = []
    as_children (cons n ns) = record { node = n; run = λ w'. execute_tick n w' } ∷ as_children ns
