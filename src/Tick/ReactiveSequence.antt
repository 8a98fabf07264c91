-- ===== src/Tick/ReactiveSequence.antt =====
-- bteng/nodes/control/reactive_sequence.py
use bteng.Prelude.{ℕ, zero, suc, Bool, true, false, Option, none, some, List, [], ◌∷◌, length}
use bteng.Value.{running, success, failure}
use bteng.Node.{Node, Base, control, Reactive, reactive_sequence}
use bteng.Node.Children.{of_list, is_condition_guard}
use bteng.World.{World, Host, set_dirty}
use bteng.World.Hooks.{no_run, clear_running, unsubscribe_all}
use bteng.Tick.{Outcome, returned, raised, Ticked, Child, Swept, untouched, stop, advance, finished}
use bteng.Tick.Reactive.{
  subscribe, stop_and_halt, FastSwept, advance_fast, on_guard, on_completed, fast_index,
}

-- The body of the loops behind the child's tick.
unfoldable pub sequence_swept : Host → Outcome → Node → List Node → World → Swept → Swept
unfolding stop_and_halt
sequence_swept host (returned failure) n later w rest =
    stop_and_halt host (returned failure) n later w
sequence_swept host (returned running) n later w rest =
    stop_and_halt host (returned running) n later w
sequence_swept host (raised e) n later w rest = stop (raised e) n later w
sequence_swept host o n later w rest = advance n rest

-- The loop over the children that both paths end with.
unfoldable pub sequence_sweep : Host → List Child → World → Swept
unfolding sequence_swept
sequence_sweep host [] w = finished success w
sequence_sweep host (c ∷ cs) w =
    let t = c.run w in
    let rest = sequence_sweep host cs t.world in
    sequence_swept host t.outcome t.node (untouched cs) t.world rest

abbrev pub reactive_sequence_node : Base → Reactive → List Node → Outcome → World → Ticked
reactive_sequence_node b r ns o w = record {
  outcome = o;
  node = control b (reactive_sequence r) (of_list ns);
  world = w;
}

-- The node settles: the subscriptions end.
abbrev pub settle_sequence : Base → Reactive → List Node → Outcome → World → Ticked
settle_sequence b r ns o w = let (r', w') = clear_running r w in reactive_sequence_node b r' ns o w'

-- `if self._running_child_idx is None: self._subscribe()`, then the new index.
unfoldable pub sequence_started : Base → Reactive → Option ℕ → ℕ → List Node → World → Ticked
unfolding subscribe
sequence_started b r none i ns w =
    let (subs, w') = subscribe b.uid ns r.bb_subscriptions w in
    reactive_sequence_node b (record { running_child_idx = some i; bb_subscriptions = subs }) ns
      (returned running) w'
sequence_started b r (some old) i ns w =
    reactive_sequence_node b (record r { running_child_idx = some i }) ns (returned running) w

-- How _full_eval leaves its loop.
unfoldable pub sequence_evaluated : Base → Reactive → Outcome → ℕ → List Node → World → Ticked
unfolding sequence_started clear_running
sequence_evaluated b r (returned running) i ns w = sequence_started b r r.running_child_idx i ns w
sequence_evaluated b r (returned failure) i ns w = settle_sequence b r ns (returned failure) w
sequence_evaluated b r (raised e) i ns w = reactive_sequence_node b r ns (raised e) w
sequence_evaluated b r o i ns w = settle_sequence b r ns (returned success) w

-- _full_eval
unfoldable pub sequence_full_eval : Host → Base → Reactive → List Child → World → Ticked
unfolding sequence_sweep sequence_evaluated
sequence_full_eval host b r cs w =
    let s = sequence_sweep host cs (set_dirty b.uid false w) in
    sequence_evaluated b r s.outcome s.cursor s.nodes s.world

-- The running child's tick and what comes behind it; `w'` is the world without the subscriptions.
unfoldable pub sequence_resumed :
    Host → Outcome → Node → List Node → World → World → Swept → FastSwept
unfolding stop_and_halt
sequence_resumed host (returned running) n later w w' rest =
    on_guard (stop (returned running) n later w)
sequence_resumed host (raised e) n later w w' rest = on_guard (stop (raised e) n later w)
sequence_resumed host (returned failure) n later w w' rest =
    on_completed (stop_and_halt host (returned failure) n later w')
sequence_resumed host o n later w w' rest = on_completed (advance n rest)

-- The running child and those behind it.
unfoldable pub sequence_resume : Host → Reactive → Child → List Child → World → FastSwept
unfolding sequence_sweep sequence_resumed unsubscribe_all
sequence_resume host r c cs w =
    let t = c.run w in
    let w' = unsubscribe_all r.bb_subscriptions t.world in
    sequence_resumed host t.outcome t.node (untouched cs) t.world w' (sequence_sweep host cs w')

-- A guard's tick in the loop over the children before the running one.
unfoldable pub sequence_guarded : Host → Outcome → Node → List Node → World → FastSwept → FastSwept
unfolding stop_and_halt
sequence_guarded host (returned failure) n later w passed =
    on_guard (stop_and_halt host (returned failure) n later w)
sequence_guarded host (returned running) n later w passed =
    on_guard (stop_and_halt host (returned running) n later w)
sequence_guarded host (raised e) n later w passed = on_guard (stop (raised e) n later w)
sequence_guarded host o n later w passed = advance_fast n passed

-- `if not _is_condition_guard(child): continue`
unfoldable pub sequence_guard : Bool → Node → FastSwept → FastSwept → FastSwept
sequence_guard false n skipped ticked = advance_fast n skipped
sequence_guard true n skipped ticked = ticked

-- The loops of _fast_tick: `before` children stand before the running one.
unfoldable pub sequence_fast_loop : Host → Reactive → ℕ → List Child → World → FastSwept
unfolding sequence_resume sequence_guarded sequence_guard
sequence_fast_loop host r before [] w = on_completed (finished success w)
sequence_fast_loop host r zero (c ∷ cs) w = sequence_resume host r c cs w
sequence_fast_loop host r (suc before) (c ∷ cs) w =
    let skipped = sequence_fast_loop host r before cs w in
    let t = c.run w in
    let passed = sequence_fast_loop host r before cs t.world in
    sequence_guard (is_condition_guard c.node) c.node skipped
      (sequence_guarded host t.outcome t.node (untouched cs) t.world passed)

-- How _fast_tick leaves its loops, before and after the running child has completed.
unfoldable pub sequence_interrupted : Base → Reactive → Outcome → ℕ → List Node → World → Ticked
unfolding clear_running
sequence_interrupted b r (returned failure) i ns w = settle_sequence b r ns (returned failure) w
sequence_interrupted b r (returned running) i ns w =
    reactive_sequence_node b (record r { running_child_idx = some i }) ns (returned running) w
sequence_interrupted b r o i ns w = reactive_sequence_node b r ns o w

unfoldable pub sequence_completed : Base → Outcome → ℕ → List Node → World → Ticked
unfolding subscribe
sequence_completed b (returned running) i ns w =
    let (subs, w') = subscribe b.uid ns [] w in
    reactive_sequence_node b (record { running_child_idx = some i; bb_subscriptions = subs }) ns
      (returned running) w'
sequence_completed b o i ns w = reactive_sequence_node b no_run ns o w

unfoldable pub sequence_fast_result : Base → Reactive → Bool → Swept → Ticked
unfolding sequence_interrupted sequence_completed
sequence_fast_result b r false s = sequence_interrupted b r s.outcome s.cursor s.nodes s.world
sequence_fast_result b r true s = sequence_completed b s.outcome s.cursor s.nodes s.world

-- _fast_tick
unfoldable pub sequence_fast_tick : Host → Base → Reactive → ℕ → List Child → World → Ticked
unfolding sequence_fast_loop sequence_fast_result
sequence_fast_tick host b r idx cs w =
    let f = sequence_fast_loop host r idx cs w in sequence_fast_result b r f.completed f.swept

-- `tick`, by the index of the fast path.
unfoldable pub sequence_dispatch : Host → Base → Reactive → Option ℕ → List Child → World → Ticked
unfolding sequence_full_eval sequence_fast_tick
sequence_dispatch host b r none cs w = sequence_full_eval host b r cs w
sequence_dispatch host b r (some i) cs w = sequence_fast_tick host b r i cs w

unfoldable pub tick_reactive_sequence : Host → Base → Reactive → List Child → World → Ticked
unfolding sequence_dispatch fast_index
tick_reactive_sequence host b r cs w =
    sequence_dispatch host b r (fast_index (w.dirty b.uid) r (length cs)) cs w
