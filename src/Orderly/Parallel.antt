-- ===== src/Orderly/Parallel.antt =====
-- bteng/nodes/control/parallel.py and the invariant.
use bteng.Prelude.{refl, Bool, true, false, Option, none, some, List, [], ◌∷◌}
use bteng.Value.{Status, idle, running, success, failure}
use bteng.Node.{Node, Base, status}
use bteng.Node.Children.{of_list}
use bteng.World.{World, Host}
use bteng.Lifecycle.{halt_running}
use bteng.Tick.{Outcome, Error, returned, invalid, raised, Child, untouched}
use bteng.Tick.Parallel.{
  Counted, count_ticked, count_child, parallel_loop, parallel_result, finish_children,
  tick_parallel,
}
use bteng.Orderly.{IsOrderly}
use bteng.Orderly.Halt.{halt_running-AllStopped, reset_completed-AllStopped, AllStopped}
use bteng.Orderly.Lists.{ListOrderly, of_list-AllOrderly, IsGood, AllLawful}
use bteng.Orderly.Sweep.{IsBody}

abbrev CountedAt : Option Error → List Node → Type 0
CountedAt none ns = ListOrderly ns
CountedAt (some e) ns = Unit

abbrev Counts : Counted → Type 0
Counts r = CountedAt r.error r.nodes

keep-CountedAt :
    (e : Option Error) (n : Node) (ns : List Node)
    → IsOrderly n
    → CountedAt e ns
    → CountedAt e (n ∷ ns)
keep-CountedAt none n ns o h = (o, h)
keep-CountedAt (some e) n ns o h = tt

count_ticked-Counts :
    (o : Outcome) (n : Node) (later : List Node) (w : World) (rest : Counted)
    → IsGood o n
    → Counts rest
    → Counts (count_ticked o n later w rest)
unfolding count_ticked
count_ticked-Counts (returned idle) n later w rest g h =
    keep-CountedAt rest.error n rest.nodes g.0 h
count_ticked-Counts (returned running) n later w rest g h =
    keep-CountedAt rest.error n rest.nodes g.0 h
count_ticked-Counts (returned success) n later w rest g h =
    keep-CountedAt rest.error n rest.nodes g.0 h
count_ticked-Counts (returned failure) n later w rest g h =
    keep-CountedAt rest.error n rest.nodes g.0 h
count_ticked-Counts invalid n later w rest g h = absurd g
count_ticked-Counts (raised e) n later w rest g h = tt

count_child-Counts :
    (s : Status) (n : Node) (skipped ticked : Counted)
    → IsOrderly n
    → Counts skipped
    → Counts ticked
    → Counts (count_child s n skipped ticked)
unfolding count_child
count_child-Counts idle n skipped ticked o h k = k
count_child-Counts running n skipped ticked o h k = k
count_child-Counts success n skipped ticked o h k = keep-CountedAt skipped.error n skipped.nodes o h
count_child-Counts failure n skipped ticked o h k = keep-CountedAt skipped.error n skipped.nodes o h

parallel_loop-Counts : (cs : List Child) (w : World) → AllLawful cs → Counts (parallel_loop cs w)
unfolding parallel_loop
parallel_loop-Counts [] w l = tt
parallel_loop-Counts (c ∷ cs) w l =
    let t = c.run w in
    let rest = parallel_loop cs t.world in
    count_child-Counts (status c.node) c.node (parallel_loop cs w)
      (count_ticked t.outcome t.node (untouched cs) t.world rest) l.0.orderly
      (parallel_loop-Counts cs w l.1)
      (count_ticked-Counts t.outcome t.node (untouched cs) t.world rest (l.0.runs w)
        (parallel_loop-Counts cs t.world l.1))

finish_children-AllStopped :
    (host : Host) (ns : List Node) (w : World)
    → ListOrderly ns
    → AllStopped (finish_children host ns w).0
unfolding finish_children
finish_children-AllStopped host ns w h =
    let (ns', w') = halt_running host (of_list ns) w in
    reset_completed-AllStopped host ns' w'
      (halt_running-AllStopped host (of_list ns) w (of_list-AllOrderly ns h))

parallel_result-IsBody :
    (host : Host) (b : Base) (p : bteng.Node.Parallel) (e : Option Error) (v : Option Bool)
    (ns : List Node) (w : World)
    → CountedAt e ns
    → (let t = parallel_result host b p e v ns w in IsBody t.outcome t.node)
unfolding parallel_result
parallel_result-IsBody host b p (some e) v ns w h = tt
parallel_result-IsBody host b p none none ns w h =
    (of_list-AllOrderly ns h, tt, λ e. absurd (e refl))
parallel_result-IsBody host b p none (some true) ns w h =
    let (c, o) = finish_children-AllStopped host ns w h in (o, tt, λ e. c)
parallel_result-IsBody host b p none (some false) ns w h =
    let (c, o) = finish_children-AllStopped host ns w h in (o, tt, λ e. c)

pub tick_parallel-IsBody :
    (host : Host) (b : Base) (p : bteng.Node.Parallel) (cs : List Child) (w : World)
    → AllLawful cs
    → (let t = tick_parallel host b p cs w in IsBody t.outcome t.node)
unfolding tick_parallel
tick_parallel-IsBody host b p [] w l = (tt, tt, λ e. tt)
tick_parallel-IsBody host b p (c ∷ cs) w l =
    let r = parallel_loop (c ∷ cs) w in
    parallel_result-IsBody host b p r.error _ r.nodes r.world (parallel_loop-Counts (c ∷ cs) w l)
