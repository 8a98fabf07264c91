-- ===== src/Orderly/ReactiveFallback.antt =====
-- bteng/nodes/control/reactive_fallback.py and the invariant.
use bteng.Prelude.{
  ℕ, zero, suc, ◌≡◌, refl, Bool, true, false, Option, none, some, List, [], ◌∷◌, length,
  Option-cases, inl, inr, ◌⊎◌,
}
use bteng.Value.{idle, running, failure, success}
use bteng.Node.{Node, Base, Reactive}
use bteng.Node.Children.{of_list, is_condition_guard}
use bteng.World.{World, Host, set_dirty}
use bteng.World.Hooks.{unsubscribe_all}
use bteng.Tick.{Outcome, returned, invalid, raised, Child, Swept, untouched}
use bteng.Tick.Reactive.{FastSwept, fast_index}
use bteng.Tick.ReactiveFallback.{
  fallback_swept, fallback_sweep, fallback_started, fallback_evaluated, fallback_full_eval,
  fallback_resumed, fallback_resume, fallback_guarded, fallback_guard, fallback_fast_loop,
  fallback_interrupted, fallback_completed, fallback_fast_result, fallback_fast_tick,
  fallback_dispatch, tick_reactive_fallback,
}
use bteng.Orderly.{IsOrderly, IsCalm}
use bteng.Orderly.Halt.{AllCalm-BeforeRunning}
use bteng.Orderly.Lists.{
  ListOrderly, ListPrefixCalm, of_list-AllOrderly, of_list-AllCalm, of_list-PrefixCalm, IsGood,
  AllLawful, untouched-ListOrderly,
}
use bteng.Orderly.Reactive.{
  ReactiveAt, Leaves, ReactiveAt-advance, stop_and_halt-Leaves, Body, FastLeaves, ListBefore,
  fast_index-eq-running,
}

fallback_swept-Leaves :
    (host : Host) (o : Outcome) (n : Node) (later : List Node) (w : World) (rest : Swept)
    → IsGood o n
    → ListOrderly later
    → Leaves rest
    → Leaves (fallback_swept host o n later w rest)
unfolding fallback_swept
fallback_swept-Leaves host (returned idle) n later w rest g os h =
    ReactiveAt-advance rest.outcome rest.cursor n rest.nodes g.0 (g.1 (λ e. cc)) h
fallback_swept-Leaves host (returned running) n later w rest g os h =
    stop_and_halt-Leaves host running n later w g os
fallback_swept-Leaves host (returned failure) n later w rest g os h =
    ReactiveAt-advance rest.outcome rest.cursor n rest.nodes g.0 (g.1 (λ e. cc)) h
fallback_swept-Leaves host (returned success) n later w rest g os h =
    stop_and_halt-Leaves host success n later w g os
fallback_swept-Leaves host invalid n later w rest g os h = absurd g
fallback_swept-Leaves host (raised e) n later w rest g os h = tt

fallback_sweep-Leaves :
    (host : Host) (cs : List Child) (w : World) → AllLawful cs → Leaves (fallback_sweep host cs w)
unfolding fallback_sweep
fallback_sweep-Leaves host [] w l = (tt, tt)
fallback_sweep-Leaves host (c ∷ cs) w l =
    let t = c.run w in
    fallback_swept-Leaves host t.outcome t.node (untouched cs) t.world
      (fallback_sweep host cs t.world) (l.0.runs w) (untouched-ListOrderly cs l.1)
      (fallback_sweep-Leaves host cs t.world l.1)

fallback_started-IsBody :
    (b : Base) (r : Reactive) (old : Option ℕ) (i : ℕ) (ns : List Node) (w : World)
    → ListOrderly ns × ListPrefixCalm i ns
    → Body (fallback_started b r old i ns w)
unfolding fallback_started
fallback_started-IsBody b r none i ns w h =
    (of_list-AllOrderly ns h.0, of_list-PrefixCalm i ns h.1, λ e. absurd (e refl))
fallback_started-IsBody b r (some old) i ns w h =
    (of_list-AllOrderly ns h.0, of_list-PrefixCalm i ns h.1, λ e. absurd (e refl))

fallback_evaluated-IsBody :
    (b : Base) (r : Reactive) (o : Outcome) (i : ℕ) (ns : List Node) (w : World)
    → ReactiveAt o i ns
    → Body (fallback_evaluated b r o i ns w)
unfolding fallback_evaluated
fallback_evaluated-IsBody b r (returned idle) i ns w h =
    (of_list-AllOrderly ns h.0, tt, λ e. of_list-AllCalm ns h.1)
fallback_evaluated-IsBody b r (returned running) i ns w h =
    fallback_started-IsBody b r r.running_child_idx i ns w h
fallback_evaluated-IsBody b r (returned failure) i ns w h =
    (of_list-AllOrderly ns h.0, tt, λ e. of_list-AllCalm ns h.1)
fallback_evaluated-IsBody b r (returned success) i ns w h =
    (of_list-AllOrderly ns h.0, tt, λ e. of_list-AllCalm ns h.1)
fallback_evaluated-IsBody b r invalid i ns w h = absurd h
fallback_evaluated-IsBody b r (raised e) i ns w h = tt

fallback_resumed-FastLeaves :
    (host : Host) (o : Outcome) (n : Node) (later : List Node) (w w' : World) (rest : Swept)
    → IsGood o n
    → ListOrderly later
    → Leaves rest
    → FastLeaves (fallback_resumed host o n later w w' rest)
unfolding fallback_resumed
fallback_resumed-FastLeaves host (returned idle) n later w w' rest g os h =
    ReactiveAt-advance rest.outcome rest.cursor n rest.nodes g.0 (g.1 (λ e. cc)) h
fallback_resumed-FastLeaves host (returned running) n later w w' rest g os h = ((g.0, os), tt)
fallback_resumed-FastLeaves host (returned failure) n later w w' rest g os h =
    ReactiveAt-advance rest.outcome rest.cursor n rest.nodes g.0 (g.1 (λ e. cc)) h
fallback_resumed-FastLeaves host (returned success) n later w w' rest g os h =
    stop_and_halt-Leaves host success n later w' g os
fallback_resumed-FastLeaves host invalid n later w w' rest g os h = absurd g
fallback_resumed-FastLeaves host (raised e) n later w w' rest g os h = tt

fallback_guarded-FastLeaves :
    (host : Host) (o : Outcome) (n : Node) (later : List Node) (w : World) (passed : FastSwept)
    → IsGood o n
    → ListOrderly later
    → FastLeaves passed
    → FastLeaves (fallback_guarded host o n later w passed)
unfolding fallback_guarded
fallback_guarded-FastLeaves host (returned idle) n later w passed g os h =
    let s = passed.swept in ReactiveAt-advance s.outcome s.cursor n s.nodes g.0 (g.1 (λ e. cc)) h
fallback_guarded-FastLeaves host (returned running) n later w passed g os h =
    stop_and_halt-Leaves host running n later w g os
fallback_guarded-FastLeaves host (returned failure) n later w passed g os h =
    let s = passed.swept in ReactiveAt-advance s.outcome s.cursor n s.nodes g.0 (g.1 (λ e. cc)) h
fallback_guarded-FastLeaves host (returned success) n later w passed g os h =
    stop_and_halt-Leaves host success n later w g os
fallback_guarded-FastLeaves host invalid n later w passed g os h = absurd g
fallback_guarded-FastLeaves host (raised e) n later w passed g os h = tt

fallback_guard-FastLeaves :
    (guard : Bool) (n : Node) (skipped ticked : FastSwept)
    → IsOrderly n
    → IsCalm n
    → FastLeaves skipped
    → FastLeaves ticked
    → FastLeaves (fallback_guard guard n skipped ticked)
unfolding fallback_guard
fallback_guard-FastLeaves false n skipped ticked o c h k =
    let s = skipped.swept in ReactiveAt-advance s.outcome s.cursor n s.nodes o c h
fallback_guard-FastLeaves true n skipped ticked o c h k = k

fallback_fast_loop-FastLeaves :
    (host : Host) (r : Reactive) (before : ℕ) (cs : List Child) (w : World)
    → AllLawful cs
    → ListPrefixCalm before (untouched cs)
    → FastLeaves (fallback_fast_loop host r before cs w)
unfolding fallback_fast_loop fallback_resume
fallback_fast_loop-FastLeaves host r zero [] w l p = (tt, tt)
fallback_fast_loop-FastLeaves host r (suc before) [] w l p = (tt, tt)
fallback_fast_loop-FastLeaves host r zero (c ∷ cs) w l p =
    let t = c.run w in
    let w' = unsubscribe_all r.bb_subscriptions t.world in
    fallback_resumed-FastLeaves host t.outcome t.node (untouched cs) t.world w'
      (fallback_sweep host cs w') (l.0.runs w) (untouched-ListOrderly cs l.1)
      (fallback_sweep-Leaves host cs w' l.1)
fallback_fast_loop-FastLeaves host r (suc before) (c ∷ cs) w l p =
    let t = c.run w in
    let passed = fallback_fast_loop host r before cs t.world in
    fallback_guard-FastLeaves (is_condition_guard c.node) c.node
      (fallback_fast_loop host r before cs w)
      (fallback_guarded host t.outcome t.node (untouched cs) t.world passed) l.0.orderly p.0
      (fallback_fast_loop-FastLeaves host r before cs w l.1 p.1)
      (fallback_guarded-FastLeaves host t.outcome t.node (untouched cs) t.world passed (l.0.runs w)
        (untouched-ListOrderly cs l.1)
        (fallback_fast_loop-FastLeaves host r before cs t.world l.1 p.1))

fallback_interrupted-IsBody :
    (b : Base) (r : Reactive) (o : Outcome) (i : ℕ) (ns : List Node) (w : World)
    → ReactiveAt o i ns
    → Body (fallback_interrupted b r o i ns w)
unfolding fallback_interrupted
fallback_interrupted-IsBody b r (returned idle) i ns w h =
    let c = of_list-AllCalm ns h.1 in
    (of_list-AllOrderly ns h.0, AllCalm-BeforeRunning r.running_child_idx (of_list ns) c, λ e. c)
fallback_interrupted-IsBody b r (returned running) i ns w h =
    (of_list-AllOrderly ns h.0, of_list-PrefixCalm i ns h.1, λ e. absurd (e refl))
fallback_interrupted-IsBody b r (returned failure) i ns w h =
    let c = of_list-AllCalm ns h.1 in
    (of_list-AllOrderly ns h.0, AllCalm-BeforeRunning r.running_child_idx (of_list ns) c, λ e. c)
fallback_interrupted-IsBody b r (returned success) i ns w h =
    (of_list-AllOrderly ns h.0, tt, λ e. of_list-AllCalm ns h.1)
fallback_interrupted-IsBody b r invalid i ns w h = absurd h
fallback_interrupted-IsBody b r (raised e) i ns w h = tt

fallback_completed-IsBody :
    (b : Base) (o : Outcome) (i : ℕ) (ns : List Node) (w : World)
    → ReactiveAt o i ns
    → Body (fallback_completed b o i ns w)
unfolding fallback_completed
fallback_completed-IsBody b (returned idle) i ns w h =
    (of_list-AllOrderly ns h.0, tt, λ e. of_list-AllCalm ns h.1)
fallback_completed-IsBody b (returned running) i ns w h =
    (of_list-AllOrderly ns h.0, of_list-PrefixCalm i ns h.1, λ e. absurd (e refl))
fallback_completed-IsBody b (returned failure) i ns w h =
    (of_list-AllOrderly ns h.0, tt, λ e. of_list-AllCalm ns h.1)
fallback_completed-IsBody b (returned success) i ns w h =
    (of_list-AllOrderly ns h.0, tt, λ e. of_list-AllCalm ns h.1)
fallback_completed-IsBody b invalid i ns w h = absurd h
fallback_completed-IsBody b (raised e) i ns w h = tt

fallback_fast_result-IsBody :
    (b : Base) (r : Reactive) (completed : Bool) (s : Swept)
    → Leaves s
    → Body (fallback_fast_result b r completed s)
unfolding fallback_fast_result
fallback_fast_result-IsBody b r false s h =
    fallback_interrupted-IsBody b r s.outcome s.cursor s.nodes s.world h
fallback_fast_result-IsBody b r true s h =
    fallback_completed-IsBody b s.outcome s.cursor s.nodes s.world h

fallback_dispatch-IsBody :
    (host : Host) (b : Base) (r : Reactive) (fast : Option ℕ) (cs : List Child) (w : World)
    → AllLawful cs
    → ListBefore fast (untouched cs)
    → Body (fallback_dispatch host b r fast cs w)
unfolding fallback_dispatch fallback_full_eval fallback_fast_tick
fallback_dispatch-IsBody host b r none cs w l p =
    let w' = set_dirty b.uid false w in
    let s = fallback_sweep host cs w' in
    fallback_evaluated-IsBody b r s.outcome s.cursor s.nodes s.world
      (fallback_sweep-Leaves host cs w' l)
fallback_dispatch-IsBody host b r (some i) cs w l p =
    let f = fallback_fast_loop host r i cs w in
    fallback_fast_result-IsBody b r f.completed f.swept
      (fallback_fast_loop-FastLeaves host r i cs w l p)

pub tick_reactive_fallback-IsBody :
    (host : Host) (b : Base) (r : Reactive) (cs : List Child) (w : World)
    → AllLawful cs
    → ListBefore r.running_child_idx (untouched cs)
    → Body (tick_reactive_fallback host b r cs w)
unfolding tick_reactive_fallback
tick_reactive_fallback-IsBody host b r cs w l p =
    let fast = fast_index (w.dirty b.uid) r (length cs) in
    fallback_dispatch-IsBody host b r fast cs w l (before (Option-cases fast))
  where
    before :
        (fast_index (w.dirty b.uid) r (length cs) ≡ none)
          ⊎ ((i : ℕ) × (fast_index (w.dirty b.uid) r (length cs) ≡ some i))
        → ListBefore (fast_index (w.dirty b.uid) r (length cs)) (untouched cs)
    before (inl slow) = rw slow tt
    before (inr (i, quick)) =
        rw quick (rw (fast_index-eq-running (w.dirty b.uid) r (length cs) quick) at p)
