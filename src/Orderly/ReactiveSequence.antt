-- ===== src/Orderly/ReactiveSequence.antt =====
-- bteng/nodes/control/reactive_sequence.py and the invariant.
use bteng.Prelude.{
  ℕ, zero, suc, ◌≡◌, refl, Bool, true, false, Option, none, some, List, [], ◌∷◌, length,
  Option-cases, inl, inr, ◌⊎◌,
}
use bteng.Value.{idle, running, success, failure}
use bteng.Node.{Node, Base, Reactive}
use bteng.Node.Children.{of_list, is_condition_guard}
use bteng.World.{World, Host, set_dirty}
use bteng.World.Hooks.{unsubscribe_all}
use bteng.Tick.{Outcome, returned, invalid, raised, Child, Swept, untouched}
use bteng.Tick.Reactive.{FastSwept, fast_index}
use bteng.Tick.ReactiveSequence.{
  sequence_swept, sequence_sweep, sequence_started, sequence_evaluated, sequence_full_eval,
  sequence_resumed, sequence_resume, sequence_guarded, sequence_guard, sequence_fast_loop,
  sequence_interrupted, sequence_completed, sequence_fast_result, sequence_fast_tick,
  sequence_dispatch, tick_reactive_sequence,
}
use bteng.Orderly.{IsOrderly, IsCalm}
use bteng.Orderly.Halt.{AllCalm-BeforeRunning}
use bteng.Orderly.Lists.{
  ListOrderly, ListPrefixCalm, of_list-AllOrderly, of_list-AllCalm, of_list-PrefixCalm, IsGood,
  AllLawful, untouched-ListOrderly,
}
use bteng.Orderly.Reactive.{
  ReactiveAt, Leaves, ReactiveAt-advance, stop_and_halt-Leaves, Body, FastLeaves, ListBefore,
  fast_index-eq-running,
}

sequence_swept-Leaves :
    (host : Host) (o : Outcome) (n : Node) (later : List Node) (w : World) (rest : Swept)
    → IsGood o n
    → ListOrderly later
    → Leaves rest
    → Leaves (sequence_swept host o n later w rest)
unfolding sequence_swept
sequence_swept-Leaves host (returned idle) n later w rest g os h =
    ReactiveAt-advance rest.outcome rest.cursor n rest.nodes g.0 (g.1 (λ e. cc)) h
sequence_swept-Leaves host (returned running) n later w rest g os h =
    stop_and_halt-Leaves host running n later w g os
sequence_swept-Leaves host (returned success) n later w rest g os h =
    ReactiveAt-advance rest.outcome rest.cursor n rest.nodes g.0 (g.1 (λ e. cc)) h
sequence_swept-Leaves host (returned failure) n later w rest g os h =
    stop_and_halt-Leaves host failure n later w g os
sequence_swept-Leaves host invalid n later w rest g os h = absurd g
sequence_swept-Leaves host (raised e) n later w rest g os h = tt

sequence_sweep-Leaves :
    (host : Host) (cs : List Child) (w : World) → AllLawful cs → Leaves (sequence_sweep host cs w)
unfolding sequence_sweep
sequence_sweep-Leaves host [] w l = (tt, tt)
sequence_sweep-Leaves host (c ∷ cs) w l =
    let t = c.run w in
    sequence_swept-Leaves host t.outcome t.node (untouched cs) t.world
      (sequence_sweep host cs t.world) (l.0.runs w) (untouched-ListOrderly cs l.1)
      (sequence_sweep-Leaves host cs t.world l.1)

sequence_started-IsBody :
    (b : Base) (r : Reactive) (old : Option ℕ) (i : ℕ) (ns : List Node) (w : World)
    → ListOrderly ns × ListPrefixCalm i ns
    → Body (sequence_started b r old i ns w)
unfolding sequence_started
sequence_started-IsBody b r none i ns w h =
    (of_list-AllOrderly ns h.0, of_list-PrefixCalm i ns h.1, λ e. absurd (e refl))
sequence_started-IsBody b r (some old) i ns w h =
    (of_list-AllOrderly ns h.0, of_list-PrefixCalm i ns h.1, λ e. absurd (e refl))

sequence_evaluated-IsBody :
    (b : Base) (r : Reactive) (o : Outcome) (i : ℕ) (ns : List Node) (w : World)
    → ReactiveAt o i ns
    → Body (sequence_evaluated b r o i ns w)
unfolding sequence_evaluated
sequence_evaluated-IsBody b r (returned idle) i ns w h =
    (of_list-AllOrderly ns h.0, tt, λ e. of_list-AllCalm ns h.1)
sequence_evaluated-IsBody b r (returned running) i ns w h =
    sequence_started-IsBody b r r.running_child_idx i ns w h
sequence_evaluated-IsBody b r (returned success) i ns w h =
    (of_list-AllOrderly ns h.0, tt, λ e. of_list-AllCalm ns h.1)
sequence_evaluated-IsBody b r (returned failure) i ns w h =
    (of_list-AllOrderly ns h.0, tt, λ e. of_list-AllCalm ns h.1)
sequence_evaluated-IsBody b r invalid i ns w h = absurd h
sequence_evaluated-IsBody b r (raised e) i ns w h = tt

sequence_resumed-FastLeaves :
    (host : Host) (o : Outcome) (n : Node) (later : List Node) (w w' : World) (rest : Swept)
    → IsGood o n
    → ListOrderly later
    → Leaves rest
    → FastLeaves (sequence_resumed host o n later w w' rest)
unfolding sequence_resumed
sequence_resumed-FastLeaves host (returned idle) n later w w' rest g os h =
    ReactiveAt-advance rest.outcome rest.cursor n rest.nodes g.0 (g.1 (λ e. cc)) h
sequence_resumed-FastLeaves host (returned running) n later w w' rest g os h = ((g.0, os), tt)
sequence_resumed-FastLeaves host (returned success) n later w w' rest g os h =
    ReactiveAt-advance rest.outcome rest.cursor n rest.nodes g.0 (g.1 (λ e. cc)) h
sequence_resumed-FastLeaves host (returned failure) n later w w' rest g os h =
    stop_and_halt-Leaves host failure n later w' g os
sequence_resumed-FastLeaves host invalid n later w w' rest g os h = absurd g
sequence_resumed-FastLeaves host (raised e) n later w w' rest g os h = tt

sequence_guarded-FastLeaves :
    (host : Host) (o : Outcome) (n : Node) (later : List Node) (w : World) (passed : FastSwept)
    → IsGood o n
    → ListOrderly later
    → FastLeaves passed
    → FastLeaves (sequence_guarded host o n later w passed)
unfolding sequence_guarded
sequence_guarded-FastLeaves host (returned idle) n later w passed g os h =
    let s = passed.swept in ReactiveAt-advance s.outcome s.cursor n s.nodes g.0 (g.1 (λ e. cc)) h
sequence_guarded-FastLeaves host (returned running) n later w passed g os h =
    stop_and_halt-Leaves host running n later w g os
sequence_guarded-FastLeaves host (returned success) n later w passed g os h =
    let s = passed.swept in ReactiveAt-advance s.outcome s.cursor n s.nodes g.0 (g.1 (λ e. cc)) h
sequence_guarded-FastLeaves host (returned failure) n later w passed g os h =
    stop_and_halt-Leaves host failure n later w g os
sequence_guarded-FastLeaves host invalid n later w passed g os h = absurd g
sequence_guarded-FastLeaves host (raised e) n later w passed g os h = tt

sequence_guard-FastLeaves :
    (guard : Bool) (n : Node) (skipped ticked : FastSwept)
    → IsOrderly n
    → IsCalm n
    → FastLeaves skipped
    → FastLeaves ticked
    → FastLeaves (sequence_guard guard n skipped ticked)
unfolding sequence_guard
sequence_guard-FastLeaves false n skipped ticked o c h k =
    let s = skipped.swept in ReactiveAt-advance s.outcome s.cursor n s.nodes o c h
sequence_guard-FastLeaves true n skipped ticked o c h k = k

sequence_fast_loop-FastLeaves :
    (host : Host) (r : Reactive) (before : ℕ) (cs : List Child) (w : World)
    → AllLawful cs
    → ListPrefixCalm before (untouched cs)
    → FastLeaves (sequence_fast_loop host r before cs w)
unfolding sequence_fast_loop sequence_resume
sequence_fast_loop-FastLeaves host r zero [] w l p = (tt, tt)
sequence_fast_loop-FastLeaves host r (suc before) [] w l p = (tt, tt)
sequence_fast_loop-FastLeaves host r zero (c ∷ cs) w l p =
    let t = c.run w in
    let w' = unsubscribe_all r.bb_subscriptions t.world in
    sequence_resumed-FastLeaves host t.outcome t.node (untouched cs) t.world w'
      (sequence_sweep host cs w') (l.0.runs w) (untouched-ListOrderly cs l.1)
      (sequence_sweep-Leaves host cs w' l.1)
sequence_fast_loop-FastLeaves host r (suc before) (c ∷ cs) w l p =
    let t = c.run w in
    let passed = sequence_fast_loop host r before cs t.world in
    sequence_guard-FastLeaves (is_condition_guard c.node) c.node
      (sequence_fast_loop host r before cs w)
      (sequence_guarded host t.outcome t.node (untouched cs) t.world passed) l.0.orderly p.0
      (sequence_fast_loop-FastLeaves host r before cs w l.1 p.1)
      (sequence_guarded-FastLeaves host t.outcome t.node (untouched cs) t.world passed (l.0.runs w)
        (untouched-ListOrderly cs l.1)
        (sequence_fast_loop-FastLeaves host r before cs t.world l.1 p.1))

sequence_interrupted-IsBody :
    (b : Base) (r : Reactive) (o : Outcome) (i : ℕ) (ns : List Node) (w : World)
    → ReactiveAt o i ns
    → Body (sequence_interrupted b r o i ns w)
unfolding sequence_interrupted
sequence_interrupted-IsBody b r (returned idle) i ns w h =
    let c = of_list-AllCalm ns h.1 in
    (of_list-AllOrderly ns h.0, AllCalm-BeforeRunning r.running_child_idx (of_list ns) c, λ e. c)
sequence_interrupted-IsBody b r (returned running) i ns w h =
    (of_list-AllOrderly ns h.0, of_list-PrefixCalm i ns h.1, λ e. absurd (e refl))
sequence_interrupted-IsBody b r (returned success) i ns w h =
    let c = of_list-AllCalm ns h.1 in
    (of_list-AllOrderly ns h.0, AllCalm-BeforeRunning r.running_child_idx (of_list ns) c, λ e. c)
sequence_interrupted-IsBody b r (returned failure) i ns w h =
    (of_list-AllOrderly ns h.0, tt, λ e. of_list-AllCalm ns h.1)
sequence_interrupted-IsBody b r invalid i ns w h = absurd h
sequence_interrupted-IsBody b r (raised e) i ns w h = tt

sequence_completed-IsBody :
    (b : Base) (o : Outcome) (i : ℕ) (ns : List Node) (w : World)
    → ReactiveAt o i ns
    → Body (sequence_completed b o i ns w)
unfolding sequence_completed
sequence_completed-IsBody b (returned idle) i ns w h =
    (of_list-AllOrderly ns h.0, tt, λ e. of_list-AllCalm ns h.1)
sequence_completed-IsBody b (returned running) i ns w h =
    (of_list-AllOrderly ns h.0, of_list-PrefixCalm i ns h.1, λ e. absurd (e refl))
sequence_completed-IsBody b (returned success) i ns w h =
    (of_list-AllOrderly ns h.0, tt, λ e. of_list-AllCalm ns h.1)
sequence_completed-IsBody b (returned failure) i ns w h =
    (of_list-AllOrderly ns h.0, tt, λ e. of_list-AllCalm ns h.1)
sequence_completed-IsBody b invalid i ns w h = absurd h
sequence_completed-IsBody b (raised e) i ns w h = tt

sequence_fast_result-IsBody :
    (b : Base) (r : Reactive) (completed : Bool) (s : Swept)
    → Leaves s
    → Body (sequence_fast_result b r completed s)
unfolding sequence_fast_result
sequence_fast_result-IsBody b r false s h =
    sequence_interrupted-IsBody b r s.outcome s.cursor s.nodes s.world h
sequence_fast_result-IsBody b r true s h =
    sequence_completed-IsBody b s.outcome s.cursor s.nodes s.world h

sequence_dispatch-IsBody :
    (host : Host) (b : Base) (r : Reactive) (fast : Option ℕ) (cs : List Child) (w : World)
    → AllLawful cs
    → ListBefore fast (untouched cs)
    → Body (sequence_dispatch host b r fast cs w)
unfolding sequence_dispatch sequence_full_eval sequence_fast_tick
sequence_dispatch-IsBody host b r none cs w l p =
    let w' = set_dirty b.uid false w in
    let s = sequence_sweep host cs w' in
    sequence_evaluated-IsBody b r s.outcome s.cursor s.nodes s.world
      (sequence_sweep-Leaves host cs w' l)
sequence_dispatch-IsBody host b r (some i) cs w l p =
    let f = sequence_fast_loop host r i cs w in
    sequence_fast_result-IsBody b r f.completed f.swept
      (sequence_fast_loop-FastLeaves host r i cs w l p)

pub tick_reactive_sequence-IsBody :
    (host : Host) (b : Base) (r : Reactive) (cs : List Child) (w : World)
    → AllLawful cs
    → ListBefore r.running_child_idx (untouched cs)
    → Body (tick_reactive_sequence host b r cs w)
unfolding tick_reactive_sequence
tick_reactive_sequence-IsBody host b r cs w l p =
    let fast = fast_index (w.dirty b.uid) r (length cs) in
    sequence_dispatch-IsBody host b r fast cs w l (before (Option-cases fast))
  where
    before :
        (fast_index (w.dirty b.uid) r (length cs) ≡ none)
          ⊎ ((i : ℕ) × (fast_index (w.dirty b.uid) r (length cs) ≡ some i))
        → ListBefore (fast_index (w.dirty b.uid) r (length cs)) (untouched cs)
    before (inl slow) = rw slow tt
    before (inr (i, quick)) =
        rw quick (rw (fast_index-eq-running (w.dirty b.uid) r (length cs) quick) at p)
