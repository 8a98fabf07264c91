-- ===== src/World/Hooks.antt =====
-- bteng/core/node.py and the node classes: the hooks _on_halt and _on_reset of each class, and
-- _notify_halt. A client's on_halted is taken to return.
use bteng.Prelude.{ℕ, true, none, List, [], ◌∷◌, if◌then◌else◌}
use bteng.Value.{idle}
use bteng.Node.{
  Base, Leaf, stateful_action, Control, sequence, fallback, reactive_sequence, reactive_fallback,
  Reactive, Decorator, timeout, rate_controller, retry,
}
use bteng.World.{
  World, Host, on_halted, on_node_halt, set_dirty, record_event, board_unsubscribe, run_client,
}

unfoldable pub notify_halt : Base → World → World
unfolding record_event
notify_halt b w = if b.inspector then record_event (on_node_halt b.uid) w else w

unfoldable pub unsubscribe_all : List (ℕ × ℕ) → World → World
unfolding board_unsubscribe
unsubscribe_all [] w = w
unsubscribe_all ((id, i) ∷ rest) w = unsubscribe_all rest (board_unsubscribe id i w)

abbrev pub no_run : Reactive
no_run = record { running_child_idx = none; bb_subscriptions = [] }

-- _clear_running
unfoldable pub clear_running : Reactive → World → Reactive × World
unfolding unsubscribe_all
clear_running r w = (no_run, unsubscribe_all r.bb_subscriptions w)

module _ (host : Host) where
  -- _on_halt of a leaf: a StatefulActionNode calls on_halted.
  unfoldable pub leaf_on_halt : Base → Leaf → World → Base × World
  unfolding run_client
  leaf_on_halt b (stateful_action ports) w =
      let (reply, feedback, w') =
        run_client host (record { uid = b.uid; phase = on_halted }) b.feedback_message w in
      (record b { feedback_message = feedback }, w')
  leaf_on_halt b l w = (b, w)

unfoldable pub control_on_halt : Control → World → Control × World
unfolding clear_running
control_on_halt (reactive_sequence r) w =
    let (r', w') = clear_running r w in (reactive_sequence r', w')
control_on_halt (reactive_fallback r) w =
    let (r', w') = clear_running r w in (reactive_fallback r', w')
control_on_halt c w = (c, w)

unfoldable pub decorator_on_halt : Decorator → Decorator
decorator_on_halt (timeout d s) = timeout d none
decorator_on_halt (rate_controller p t s) = rate_controller p none idle
decorator_on_halt (retry m a) = retry m 0
decorator_on_halt d = d

unfoldable pub control_on_reset : Base → Control → World → World
unfolding set_dirty
control_on_reset b (reactive_sequence r) w = set_dirty b.uid true w
control_on_reset b (reactive_fallback r) w = set_dirty b.uid true w
control_on_reset b c w = w

unfoldable pub decorator_on_reset : Decorator → Decorator
decorator_on_reset (rate_controller p t s) = rate_controller p none idle
decorator_on_reset d = d

-- The part of `halt` of SequenceNode and FallbackNode behind `super().halt()`.
unfoldable pub rewind : Control → Control
rewind (sequence i) = sequence 0
rewind (fallback i) = fallback 0
rewind c = c
