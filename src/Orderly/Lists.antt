-- ===== src/Orderly/Lists.antt =====
-- The invariant on children as a list, and what is expected of a child's `execute_tick`.
use bteng.Prelude.{ℕ, zero, suc, List, [], ◌∷◌}
use bteng.Node.{Node, Nodes, nil, cons}
use bteng.Node.Children.{to_list, of_list}
use bteng.World.{World, Host}
use bteng.Tick.{Outcome, returned, invalid, raised, Child, untouched, halt_list}
use bteng.Orderly.{IsNotRunning, IsCalm, AllCalm, PrefixCalm, IsOrderly, AllOrderly}
use bteng.Orderly.Halt.{AllStopped, halt_children-AllStopped}

abbrev pub ListOrderly : List Node → Type 0
ListOrderly [] = Unit
ListOrderly (n ∷ ns) = IsOrderly n × ListOrderly ns

abbrev pub ListCalm : List Node → Type 0
ListCalm [] = Unit
ListCalm (n ∷ ns) = IsCalm n × ListCalm ns

abbrev pub ListPrefixCalm : ℕ → List Node → Type 0
ListPrefixCalm zero ns = Unit
ListPrefixCalm (suc i) [] = Unit
ListPrefixCalm (suc i) (n ∷ ns) = IsCalm n × ListPrefixCalm i ns

pub of_list-AllOrderly : (ns : List Node) → ListOrderly ns → AllOrderly (of_list ns)
unfolding of_list
of_list-AllOrderly [] h = tt
of_list-AllOrderly (n ∷ ns) h = (h.0, of_list-AllOrderly ns h.1)

pub of_list-AllCalm : (ns : List Node) → ListCalm ns → AllCalm (of_list ns)
unfolding of_list
of_list-AllCalm [] h = tt
of_list-AllCalm (n ∷ ns) h = (h.0, of_list-AllCalm ns h.1)

pub of_list-PrefixCalm : (i : ℕ) (ns : List Node) → ListPrefixCalm i ns → PrefixCalm i (of_list ns)
unfolding of_list
of_list-PrefixCalm zero ns h = tt
of_list-PrefixCalm (suc i) [] h = tt
of_list-PrefixCalm (suc i) (n ∷ ns) h = (h.0, of_list-PrefixCalm i ns h.1)

to_list-ListStopped :
    (ns : Nodes) → AllStopped ns → ListCalm (to_list ns) × ListOrderly (to_list ns)
unfolding to_list
to_list-ListStopped nil h = (tt, tt)
to_list-ListStopped (cons n ns) ((c, cs), (o, os)) =
    let ih = to_list-ListStopped ns (cs, os) in ((c, ih.0), (o, ih.1))

pub halt_list-ListStopped :
    (host : Host) (ns : List Node) (w : World)
    → ListOrderly ns
    → ListCalm (halt_list host ns w).0 × ListOrderly (halt_list host ns w).0
unfolding halt_list
halt_list-ListStopped host ns w h =
    to_list-ListStopped _ (halt_children-AllStopped host (of_list ns) w (of_list-AllOrderly ns h))

-- A tick that returned left an orderly node, and a calm one if it did not return RUNNING.
abbrev pub IsGood : Outcome → Node → Type 0
IsGood (returned s) n = IsOrderly n × (IsNotRunning s → IsCalm n)
IsGood invalid n = ⊥
IsGood (raised e) n = Unit

pub record IsLawful (c : Child) : Type 0 where
  pub orderly : IsOrderly c.node
  pub runs : (w : World) → IsGood (c.run w).outcome (c.run w).node

abbrev pub AllLawful : List Child → Type 0
AllLawful [] = Unit
AllLawful (c ∷ cs) = IsLawful c × AllLawful cs

pub untouched-ListOrderly : (cs : List Child) → AllLawful cs → ListOrderly (untouched cs)
untouched-ListOrderly [] h = tt
untouched-ListOrderly (c ∷ cs) h = (h.0.orderly, untouched-ListOrderly cs h.1)
