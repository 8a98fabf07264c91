-- ===== src/Orderly/Sweep.antt =====
-- bteng/nodes/control/sequence.py and fallback.py: the loops and the invariant.
use bteng.Prelude.{ℕ, zero, suc, refl, List, [], ◌∷◌}
use bteng.Value.{Status, idle, running, success, failure}
use bteng.Node.{Node, Base, leaf, control, decorator}
use bteng.World.{World, Host}
use bteng.Tick.{Outcome, returned, invalid, raised, Child, Swept, untouched}
use bteng.Tick.Sequence.{sequence_after, sequence_loop, sequence_result, tick_sequence}
use bteng.Tick.Fallback.{fallback_after, fallback_loop, fallback_result, tick_fallback}
use bteng.Orderly.{IsNotRunning, IsCalm, AllCalm, IsOrderly, AllOrderly, CursorCalm, MemoryCalm}
use bteng.Orderly.Lists.{
  ListOrderly, ListCalm, ListPrefixCalm, of_list-AllOrderly, of_list-AllCalm, of_list-PrefixCalm,
  halt_list-ListStopped, IsGood, AllLawful, untouched-ListOrderly,
}

-- What holds of the children where a loop left: `last` is the status on which it goes on.
abbrev pub SweptAt : Status → Outcome → ℕ → List Node → Type 0
SweptAt last (returned running) i ns = ListOrderly ns × ListPrefixCalm i ns
SweptAt success (returned failure) i ns = ListOrderly ns
SweptAt failure (returned success) i ns = ListOrderly ns
SweptAt last (returned s) i ns = ListOrderly ns × ListCalm ns
SweptAt last invalid i ns = ⊥
SweptAt last (raised e) i ns = Unit

-- What is below a node where its `tick` returned.
abbrev pub IsBody : Outcome → Node → Type 0
IsBody (returned s) (control b c ns) =
    AllOrderly ns × CursorCalm c ns × (IsNotRunning s → AllCalm ns)
IsBody (returned s) (decorator b d n) =
    IsOrderly n × MemoryCalm b.config d n × (IsNotRunning s → IsCalm n)
IsBody (returned s) (leaf b l) = Unit
IsBody invalid n = Unit
IsBody (raised e) n = Unit

sequence_advance :
    (o : Outcome) (i : ℕ) (n : Node) (ns : List Node)
    → IsOrderly n
    → IsCalm n
    → SweptAt success o i ns
    → SweptAt success o (suc i) (n ∷ ns)
sequence_advance (returned idle) i n ns o c h = ((o, h.0), (c, h.1))
sequence_advance (returned running) i n ns o c h = ((o, h.0), (c, h.1))
sequence_advance (returned success) i n ns o c h = ((o, h.0), (c, h.1))
sequence_advance (returned failure) i n ns o c h = (o, h)
sequence_advance invalid i n ns o c h = h
sequence_advance (raised e) i n ns o c h = tt

-- What `SweptAt` says of the loop's exit.
abbrev pub Leaves : Status → Swept → Type 0
Leaves last s = SweptAt last s.outcome s.cursor s.nodes

sequence_after-Leaves :
    (o : Outcome) (n : Node) (later : List Node) (w : World) (rest : Swept)
    → IsGood o n
    → ListOrderly later
    → Leaves success rest
    → Leaves success (sequence_after o n later w rest)
unfolding sequence_after
sequence_after-Leaves (returned idle) n later w rest g os h =
    sequence_advance rest.outcome rest.cursor n rest.nodes g.0 (g.1 (λ e. cc)) h
sequence_after-Leaves (returned running) n later w rest g os h = ((g.0, os), tt)
sequence_after-Leaves (returned success) n later w rest g os h =
    sequence_advance rest.outcome rest.cursor n rest.nodes g.0 (g.1 (λ e. cc)) h
sequence_after-Leaves (returned failure) n later w rest g os h = (g.0, os)
sequence_after-Leaves invalid n later w rest g os h = absurd g
sequence_after-Leaves (raised e) n later w rest g os h = tt

sequence_loop-Leaves :
    (skip : ℕ) (cs : List Child) (w : World)
    → AllLawful cs
    → ListPrefixCalm skip (untouched cs)
    → Leaves success (sequence_loop skip cs w)
unfolding sequence_loop
sequence_loop-Leaves zero [] w l p = (tt, tt)
sequence_loop-Leaves (suc skip) [] w l p = (tt, tt)
sequence_loop-Leaves (suc skip) (c ∷ cs) w l p =
    let rest = sequence_loop skip cs w in
    sequence_advance rest.outcome rest.cursor c.node rest.nodes l.0.orderly p.0
      (sequence_loop-Leaves skip cs w l.1 p.1)
sequence_loop-Leaves zero (c ∷ cs) w l p =
    let t = c.run w in
    sequence_after-Leaves t.outcome t.node (untouched cs) t.world (sequence_loop zero cs t.world)
      (l.0.runs w) (untouched-ListOrderly cs l.1) (sequence_loop-Leaves zero cs t.world l.1 tt)

sequence_result-IsBody :
    (host : Host) (b : Base) (o : Outcome) (i : ℕ) (ns : List Node) (w : World)
    → SweptAt success o i ns
    → (let t = sequence_result host b o i ns w in IsBody t.outcome t.node)
unfolding sequence_result
sequence_result-IsBody host b (returned idle) i ns w h =
    (of_list-AllOrderly ns h.0, tt, λ e. of_list-AllCalm ns h.1)
sequence_result-IsBody host b (returned running) i ns w h =
    (of_list-AllOrderly ns h.0, of_list-PrefixCalm i ns h.1, λ e. absurd (e refl))
sequence_result-IsBody host b (returned success) i ns w h =
    (of_list-AllOrderly ns h.0, tt, λ e. of_list-AllCalm ns h.1)
sequence_result-IsBody host b (returned failure) i ns w h =
    let (c, o) = halt_list-ListStopped host ns w h in
    (of_list-AllOrderly _ o, tt, λ e. of_list-AllCalm _ c)
sequence_result-IsBody host b invalid i ns w h = absurd h
sequence_result-IsBody host b (raised e) i ns w h = tt

pub tick_sequence-IsBody :
    (host : Host) (b : Base) (i : ℕ) (cs : List Child) (w : World)
    → AllLawful cs
    → ListPrefixCalm i (untouched cs)
    → (let t = tick_sequence host b i cs w in IsBody t.outcome t.node)
unfolding tick_sequence
tick_sequence-IsBody host b i cs w l p =
    let s = sequence_loop i cs w in
    sequence_result-IsBody host b s.outcome s.cursor s.nodes s.world
      (sequence_loop-Leaves i cs w l p)

fallback_advance :
    (o : Outcome) (i : ℕ) (n : Node) (ns : List Node)
    → IsOrderly n
    → IsCalm n
    → SweptAt failure o i ns
    → SweptAt failure o (suc i) (n ∷ ns)
fallback_advance (returned idle) i n ns o c h = ((o, h.0), (c, h.1))
fallback_advance (returned running) i n ns o c h = ((o, h.0), (c, h.1))
fallback_advance (returned failure) i n ns o c h = ((o, h.0), (c, h.1))
fallback_advance (returned success) i n ns o c h = (o, h)
fallback_advance invalid i n ns o c h = h
fallback_advance (raised e) i n ns o c h = tt

fallback_after-Leaves :
    (o : Outcome) (n : Node) (later : List Node) (w : World) (rest : Swept)
    → IsGood o n
    → ListOrderly later
    → Leaves failure rest
    → Leaves failure (fallback_after o n later w rest)
unfolding fallback_after
fallback_after-Leaves (returned idle) n later w rest g os h =
    fallback_advance rest.outcome rest.cursor n rest.nodes g.0 (g.1 (λ e. cc)) h
fallback_after-Leaves (returned running) n later w rest g os h = ((g.0, os), tt)
fallback_after-Leaves (returned failure) n later w rest g os h =
    fallback_advance rest.outcome rest.cursor n rest.nodes g.0 (g.1 (λ e. cc)) h
fallback_after-Leaves (returned success) n later w rest g os h = (g.0, os)
fallback_after-Leaves invalid n later w rest g os h = absurd g
fallback_after-Leaves (raised e) n later w rest g os h = tt

fallback_loop-Leaves :
    (skip : ℕ) (cs : List Child) (w : World)
    → AllLawful cs
    → ListPrefixCalm skip (untouched cs)
    → Leaves failure (fallback_loop skip cs w)
unfolding fallback_loop
fallback_loop-Leaves zero [] w l p = (tt, tt)
fallback_loop-Leaves (suc skip) [] w l p = (tt, tt)
fallback_loop-Leaves (suc skip) (c ∷ cs) w l p =
    let rest = fallback_loop skip cs w in
    fallback_advance rest.outcome rest.cursor c.node rest.nodes l.0.orderly p.0
      (fallback_loop-Leaves skip cs w l.1 p.1)
fallback_loop-Leaves zero (c ∷ cs) w l p =
    let t = c.run w in
    fallback_after-Leaves t.outcome t.node (untouched cs) t.world (fallback_loop zero cs t.world)
      (l.0.runs w) (untouched-ListOrderly cs l.1) (fallback_loop-Leaves zero cs t.world l.1 tt)

fallback_result-IsBody :
    (host : Host) (b : Base) (o : Outcome) (i : ℕ) (ns : List Node) (w : World)
    → SweptAt failure o i ns
    → (let t = fallback_result host b o i ns w in IsBody t.outcome t.node)
unfolding fallback_result
fallback_result-IsBody host b (returned idle) i ns w h =
    (of_list-AllOrderly ns h.0, tt, λ e. of_list-AllCalm ns h.1)
fallback_result-IsBody host b (returned running) i ns w h =
    (of_list-AllOrderly ns h.0, of_list-PrefixCalm i ns h.1, λ e. absurd (e refl))
fallback_result-IsBody host b (returned failure) i ns w h =
    (of_list-AllOrderly ns h.0, tt, λ e. of_list-AllCalm ns h.1)
fallback_result-IsBody host b (returned success) i ns w h =
    let (c, o) = halt_list-ListStopped host ns w h in
    (of_list-AllOrderly _ o, tt, λ e. of_list-AllCalm _ c)
fallback_result-IsBody host b invalid i ns w h = absurd h
fallback_result-IsBody host b (raised e) i ns w h = tt

pub tick_fallback-IsBody :
    (host : Host) (b : Base) (i : ℕ) (cs : List Child) (w : World)
    → AllLawful cs
    → ListPrefixCalm i (untouched cs)
    → (let t = tick_fallback host b i cs w in IsBody t.outcome t.node)
unfolding tick_fallback
tick_fallback-IsBody host b i cs w l p =
    let s = fallback_loop i cs w in
    fallback_result-IsBody host b s.outcome s.cursor s.nodes s.world
      (fallback_loop-Leaves i cs w l p)
