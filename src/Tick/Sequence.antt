-- ===== src/Tick/Sequence.antt =====
-- bteng/nodes/control/sequence.py
use bteng.Prelude.{ℕ, zero, suc, List, [], ◌∷◌}
use bteng.Value.{running, success, failure}
use bteng.Node.{Node, Base, control, sequence}
use bteng.Node.Children.{of_list}
use bteng.World.{World, Host}
use bteng.Tick.{
  Outcome, returned, raised, Ticked, Child, Swept, untouched, stop, advance, finished, halt_list,
}

-- The body of the `while` loop behind the child's tick: the child, those behind it, and what the
-- loop gives there if it goes on.
unfoldable pub sequence_after : Outcome → Node → List Node → World → Swept → Swept
sequence_after (returned running) n later w rest = stop (returned running) n later w
sequence_after (returned failure) n later w rest = stop (returned failure) n later w
sequence_after (raised e) n later w rest = stop (raised e) n later w
sequence_after o n later w rest = advance n rest

-- The `while` loop: `skip` children stand before the cursor.
unfoldable pub sequence_loop : ℕ → List Child → World → Swept
unfolding sequence_after
sequence_loop skip [] w = finished success w
sequence_loop (suc skip) (c ∷ cs) w = advance c.node (sequence_loop skip cs w)
sequence_loop zero (c ∷ cs) w =
    let t = c.run w in
    let rest = sequence_loop zero cs t.world in
    sequence_after t.outcome t.node (untouched cs) t.world rest

abbrev pub sequence_node : Base → ℕ → List Node → Outcome → World → Ticked
sequence_node b i ns o w = record {
  outcome = o;
  node = control b (sequence i) (of_list ns);
  world = w;
}

-- How `tick` leaves the loop, by its outcome.
unfoldable pub sequence_result : Host → Base → Outcome → ℕ → List Node → World → Ticked
sequence_result host b (returned running) i ns w = sequence_node b i ns (returned running) w
sequence_result host b (returned failure) i ns w =
    let (ns', w') = halt_list host ns w in sequence_node b 0 ns' (returned failure) w'
sequence_result host b (raised e) i ns w = sequence_node b i ns (raised e) w
sequence_result host b o i ns w = sequence_node b 0 ns (returned success) w

unfoldable pub tick_sequence : Host → Base → ℕ → List Child → World → Ticked
unfolding sequence_loop sequence_result
tick_sequence host b current_idx cs w =
    let s = sequence_loop current_idx cs w in
    sequence_result host b s.outcome s.cursor s.nodes s.world
