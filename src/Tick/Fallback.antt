-- ===== src/Tick/Fallback.antt =====
-- bteng/nodes/control/fallback.py
use bteng.Prelude.{ℕ, zero, suc, List, [], ◌∷◌}
use bteng.Value.{running, success, failure}
use bteng.Node.{Node, Base, control, fallback}
use bteng.Node.Children.{of_list}
use bteng.World.{World, Host}
use bteng.Tick.{
  Outcome, returned, raised, Ticked, Child, Swept, untouched, stop, advance, finished, halt_list,
}

-- The body of the `while` loop behind the child's tick: the child, those behind it, and what the
-- loop gives there if it goes on.
unfoldable pub fallback_after : Outcome → Node → List Node → World → Swept → Swept
fallback_after (returned running) n later w rest = stop (returned running) n later w
fallback_after (returned success) n later w rest = stop (returned success) n later w
fallback_after (raised e) n later w rest = stop (raised e) n later w
fallback_after o n later w rest = advance n rest

-- The `while` loop: `skip` children stand before the cursor.
unfoldable pub fallback_loop : ℕ → List Child → World → Swept
unfolding fallback_after
fallback_loop skip [] w = finished failure w
fallback_loop (suc skip) (c ∷ cs) w = advance c.node (fallback_loop skip cs w)
fallback_loop zero (c ∷ cs) w =
    let t = c.run w in
    let rest = fallback_loop zero cs t.world in
    fallback_after t.outcome t.node (untouched cs) t.world rest

abbrev pub fallback_node : Base → ℕ → List Node → Outcome → World → Ticked
fallback_node b i ns o w = record {
  outcome = o;
  node = control b (fallback i) (of_list ns);
  world = w;
}

-- How `tick` leaves the loop, by its outcome.
unfoldable pub fallback_result : Host → Base → Outcome → ℕ → List Node → World → Ticked
fallback_result host b (returned running) i ns w = fallback_node b i ns (returned running) w
fallback_result host b (returned success) i ns w =
    let (ns', w') = halt_list host ns w in fallback_node b 0 ns' (returned success) w'
fallback_result host b (raised e) i ns w = fallback_node b i ns (raised e) w
fallback_result host b o i ns w = fallback_node b 0 ns (returned failure) w

unfoldable pub tick_fallback : Host → Base → ℕ → List Child → World → Ticked
unfolding fallback_loop fallback_result
tick_fallback host b current_idx cs w =
    let s = fallback_loop current_idx cs w in
    fallback_result host b s.outcome s.cursor s.nodes s.world
