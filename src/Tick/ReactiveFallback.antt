-- ===== src/Tick/ReactiveFallback.antt =====
-- bteng/nodes/control/reactive_fallback.py
use bteng.Prelude.{ℕ, zero, suc, Bool, true, false, Option, none, some, List, [], ◌∷◌, length}
use bteng.Value.{running, success, failure}
use bteng.Node.{Node, Base, control, Reactive, reactive_fallback}
use bteng.Node.Children.{of_list, is_condition_guard}
use bteng.World.{World, Host, set_dirty}
use bteng.World.Hooks.{no_run, clear_running, unsubscribe_all}
use bteng.Tick.{Outcome, returned, raised, Ticked, Child, Swept, untouched, stop, advance, finished}
use bteng.Tick.Reactive.{
  subscribe, stop_and_halt, FastSwept, advance_fast, on_guard, on_completed, fast_index,
}

-- The body of the loops behind the child's tick.
unfoldable pub fallback_swept : Host → Outcome → Node → List Node → World → Swept → Swept
unfolding stop_and_halt
fallback_swept host (returned success) n later w rest =
    stop_and_halt host (returned success) n later w
fallback_swept host (returned running) n later w rest =
    stop_and_halt host (returned running) n later w
fallback_swept host (raised e) n later w rest = stop (raised e) n later w
fallback_swept host o n later w rest = advance n rest

-- The loop over the children that both paths end with.
unfoldable pub fallback_sweep : Host → List Child → World → Swept
unfolding fallback_swept
fallback_sweep host [] w = finished failure w
fallback_sweep host (c ∷ cs) w =
    let t = c.run w in
    let rest = fallback_sweep host cs t.world in
    fallback_swept host t.outcome t.node (untouched cs) t.world rest

abbrev pub reactive_fallback_node : Base → Reactive → List Node → Outcome → World → Ticked
reactive_fallback_node b r ns o w = record {
  outcome = o;
  node = control b (reactive_fallback r) (of_list ns);
  world = w;
}

-- The node settles: the subscriptions end.
abbrev pub settle_fallback : Base → Reactive → List Node → Outcome → World → Ticked
settle_fallback b r ns o w = let (r', w') = clear_running r w in reactive_fallback_node b r' ns o w'

-- `if self._running_child_idx is None: self._subscribe()`, then the new index.
unfoldable pub fallback_started : Base → Reactive → Option ℕ → ℕ → List Node → World → Ticked
unfolding subscribe
fallback_started b r none i ns w =
    let (subs, w') = subscribe b.uid ns r.bb_subscriptions w in
    reactive_fallback_node b (record { running_child_idx = some i; bb_subscriptions = subs }) ns
      (returned running) w'
fallback_started b r (some old) i ns w =
    reactive_fallback_node b (record r { running_child_idx = some i }) ns (returned running) w

-- How _full_eval leaves its loop.
unfoldable pub fallback_evaluated : Base → Reactive → Outcome → ℕ → List Node → World → Ticked
unfolding fallback_started clear_running
fallback_evaluated b r (returned running) i ns w = fallback_started b r r.running_child_idx i ns w
fallback_evaluated b r (returned success) i ns w = settle_fallback b r ns (returned success) w
fallback_evaluated b r (raised e) i ns w = reactive_fallback_node b r ns (raised e) w
fallback_evaluated b r o i ns w = settle_fallback b r ns (returned failure) w

-- _full_eval
unfoldable pub fallback_full_eval : Host → Base → Reactive → List Child → World → Ticked
unfolding fallback_sweep fallback_evaluated
fallback_full_eval host b r cs w =
    let s = fallback_sweep host cs (set_dirty b.uid false w) in
    fallback_evaluated b r s.outcome s.cursor s.nodes s.world

-- The running child's tick and what comes behind it; `w'` is the world without the subscriptions.
unfoldable pub fallback_resumed :
    Host → Outcome → Node → List Node → World → World → Swept → FastSwept
unfolding stop_and_halt
fallback_resumed host (returned running) n later w w' rest =
    on_guard (stop (returned running) n later w)
fallback_resumed host (raised e) n later w w' rest = on_guard (stop (raised e) n later w)
fallback_resumed host (returned success) n later w w' rest =
    on_completed (stop_and_halt host (returned success) n later w')
fallback_resumed host o n later w w' rest = on_completed (advance n rest)

-- The running child and those behind it.
unfoldable pub fallback_resume : Host → Reactive → Child → List Child → World → FastSwept
unfolding fallback_sweep fallback_resumed unsubscribe_all
fallback_resume host r c cs w =
    let t = c.run w in
    let w' = unsubscribe_all r.bb_subscriptions t.world in
    fallback_resumed host t.outcome t.node (untouched cs) t.world w' (fallback_sweep host cs w')

-- A guard's tick in the loop over the children before the running one.
unfoldable pub fallback_guarded : Host → Outcome → Node → List Node → World → FastSwept → FastSwept
unfolding stop_and_halt
fallback_guarded host (returned success) n later w passed =
    on_guard (stop_and_halt host (returned success) n later w)
fallback_guarded host (returned running) n later w passed =
    on_guard (stop_and_halt host (returned running) n later w)
fallback_guarded host (raised e) n later w passed = on_guard (stop (raised e) n later w)
fallback_guarded host o n later w passed = advance_fast n passed

-- `if not _is_condition_guard(child): continue`
unfoldable pub fallback_guard : Bool → Node → FastSwept → FastSwept → FastSwept
fallback_guard false n skipped ticked = advance_fast n skipped
fallback_guard true n skipped ticked = ticked

-- The loops of _fast_tick: `before` children stand before the running one.
unfoldable pub fallback_fast_loop : Host → Reactive → ℕ → List Child → World → FastSwept
unfolding fallback_resume fallback_guarded fallback_guard
fallback_fast_loop host r before [] w = on_completed (finished failure w)
fallback_fast_loop host r zero (c ∷ cs) w = fallback_resume host r c cs w
fallback_fast_loop host r (suc before) (c ∷ cs) w =
    let skipped = fallback_fast_loop host r before cs w in
    let t = c.run w in
    let passed = fallback_fast_loop host r before cs t.world in
    fallback_guard (is_condition_guard c.node) c.node skipped
      (fallback_guarded host t.outcome t.node (untouched cs) t.world passed)

-- How _fast_tick leaves its loops, before and after the running child has completed.
unfoldable pub fallback_interrupted : Base → Reactive → Outcome → ℕ → List Node → World → Ticked
unfolding clear_running
fallback_interrupted b r (returned success) i ns w = settle_fallback b r ns (returned success) w
fallback_interrupted b r (returned running) i ns w =
    reactive_fallback_node b (record r { running_child_idx = some i }) ns (returned running) w
fallback_interrupted b r o i ns w = reactive_fallback_node b r ns o w

unfoldable pub fallback_completed : Base → Outcome → ℕ → List Node → World → Ticked
unfolding subscribe
fallback_completed b (returned running) i ns w =
    let (subs, w') = subscribe b.uid ns [] w in
    reactive_fallback_node b (record { running_child_idx = some i; bb_subscriptions = subs }) ns
      (returned running) w'
fallback_completed b o i ns w = reactive_fallback_node b no_run ns o w

unfoldable pub fallback_fast_result : Base → Reactive → Bool → Swept → Ticked
unfolding fallback_interrupted fallback_completed
fallback_fast_result b r false s = fallback_interrupted b r s.outcome s.cursor s.nodes s.world
fallback_fast_result b r true s = fallback_completed b s.outcome s.cursor s.nodes s.world

-- _fast_tick
unfoldable pub fallback_fast_tick : Host → Base → Reactive → ℕ → List Child → World → Ticked
unfolding fallback_fast_loop fallback_fast_result
fallback_fast_tick host b r idx cs w =
    let f = fallback_fast_loop host r idx cs w in fallback_fast_result b r f.completed f.swept

-- `tick`, by the index of the fast path.
unfoldable pub fallback_dispatch : Host → Base → Reactive → Option ℕ → List Child → World → Ticked
unfolding fallback_full_eval fallback_fast_tick
fallback_dispatch host b r none cs w = fallback_full_eval host b r cs w
fallback_dispatch host b r (some i) cs w = fallback_fast_tick host b r i cs w

unfoldable pub tick_reactive_fallback : Host → Base → Reactive → List Child → World → Ticked
unfolding fallback_dispatch fast_index
tick_reactive_fallback host b r cs w =
    fallback_dispatch host b r (fast_index (w.dirty b.uid) r (length cs)) cs w
