-- ===== src/Orderly/Reactive.antt =====
-- What the two reactive nodes have in common: the children where a loop left.
use bteng.Prelude.{ℕ, suc, ◌≡◌, Option, none, some, Bool, List, ◌∷◌, arith}
use bteng.Value.{Status, idle, running, success, failure}
use bteng.Node.{Node}
use bteng.World.{World, Host}
use bteng.Tick.{Outcome, returned, invalid, raised, Swept, Ticked}
use bteng.Tick.Reactive.{stop_and_halt, FastSwept, fast_index}
use bteng.Orderly.{IsOrderly, IsCalm}
use bteng.Orderly.Lists.{ListOrderly, ListCalm, ListPrefixCalm, halt_list-ListStopped, IsGood}
use bteng.Orderly.Sweep.{IsBody}

-- What holds where a reactive loop left.
abbrev pub ReactiveAt : Outcome → ℕ → List Node → Type 0
ReactiveAt (returned running) i ns = ListOrderly ns × ListPrefixCalm i ns
ReactiveAt (returned s) i ns = ListOrderly ns × ListCalm ns
ReactiveAt invalid i ns = ⊥
ReactiveAt (raised e) i ns = Unit

abbrev pub Leaves : Swept → Type 0
Leaves s = ReactiveAt s.outcome s.cursor s.nodes

pub ReactiveAt-advance :
    (o : Outcome) (i : ℕ) (n : Node) (ns : List Node)
    → IsOrderly n
    → IsCalm n
    → ReactiveAt o i ns
    → ReactiveAt o (suc i) (n ∷ ns)
ReactiveAt-advance (returned idle) i n ns o c h = ((o, h.0), (c, h.1))
ReactiveAt-advance (returned running) i n ns o c h = ((o, h.0), (c, h.1))
ReactiveAt-advance (returned success) i n ns o c h = ((o, h.0), (c, h.1))
ReactiveAt-advance (returned failure) i n ns o c h = ((o, h.0), (c, h.1))
ReactiveAt-advance invalid i n ns o c h = h
ReactiveAt-advance (raised e) i n ns o c h = tt

pub stop_and_halt-Leaves :
    (host : Host) (s : Status) (n : Node) (later : List Node) (w : World)
    → IsGood (returned s) n
    → ListOrderly later
    → Leaves (stop_and_halt host (returned s) n later w)
unfolding stop_and_halt
stop_and_halt-Leaves host idle n later w g os =
    let (c, o) = halt_list-ListStopped host later w os in ((g.0, o), (g.1 (λ e. cc), c))
stop_and_halt-Leaves host running n later w g os =
    let (c, o) = halt_list-ListStopped host later w os in ((g.0, o), tt)
stop_and_halt-Leaves host success n later w g os =
    let (c, o) = halt_list-ListStopped host later w os in ((g.0, o), (g.1 (λ e. cc), c))
stop_and_halt-Leaves host failure n later w g os =
    let (c, o) = halt_list-ListStopped host later w os in ((g.0, o), (g.1 (λ e. cc), c))

abbrev pub Body : Ticked → Type 0
Body t = IsBody t.outcome t.node

abbrev pub FastLeaves : FastSwept → Type 0
FastLeaves f = Leaves f.swept

abbrev pub ListBefore : Option ℕ → List Node → Type 0
ListBefore none ns = Unit
ListBefore (some i) ns = ListPrefixCalm i ns

-- The fast path starts from the index of the child that runs.
pub fast_index-eq-running :
    (dirty : Bool) (r : bteng.Node.Reactive) (n : ℕ) {i : ℕ}
    → fast_index dirty r n ≡ some i
    → r.running_child_idx ≡ some i
unfolding fast_index
fast_index-eq-running dirty r n e = ground arith
