-- ===== src/Orderly/Tick.antt =====
-- bteng/core/node.py: execute_tick and the invariant on the whole tree.
use bteng.Prelude.{ℕ, zero, suc, ◌≡◌, refl, subst, Bool-cases, ◌⊎◌, inl, inr, Option, none, some}
use bteng.Value.{Status, idle, running, success, failure, Value, none_value, text}
use bteng.Node.{
  Node, Nodes, leaf, control, decorator, nil, cons, Base, base, with_base, Leaf, Control, sequence,
  fallback, parallel, reactive_sequence, reactive_fallback, set_blackboard, check_blackboard,
}
use bteng.World.{World, Host, board_has}
use bteng.Lifecycle.{halt}
use bteng.Tick.{Outcome, returned, invalid, raised, Ticked, Child, untouched}
use bteng.Tick.Leaves.{tick_leaf, write_key, check_key}
use bteng.Tick.Decorators.{tick_decorator}
use bteng.Execute.{accept, conclude_on, conclude, tick_control, execute_tick, as_children}
use bteng.Orderly.{
  IsNotRunning, IsCalm, IsOrderly, AllOrderly, PrefixCalm, CursorCalm, BeforeRunning,
}
use bteng.Orderly.Halt.{halt-IsStopped}
use bteng.Orderly.Lists.{IsGood, AllLawful, ListPrefixCalm}
use bteng.Orderly.Sweep.{IsBody, tick_sequence-IsBody, tick_fallback-IsBody}
use bteng.Orderly.Parallel.{tick_parallel-IsBody}
use bteng.Orderly.Reactive.{Body, ListBefore}
use bteng.Orderly.ReactiveSequence.{tick_reactive_sequence-IsBody}
use bteng.Orderly.ReactiveFallback.{tick_reactive_fallback-IsBody}
use bteng.Orderly.Decorators.{tick_decorator-Body}

abbrev Good : Ticked → Type 0
Good t = IsGood t.outcome t.node

accept-Good :
    (prev s : Status) (n : Node) (w : World) → IsBody (returned s) n → Good (accept prev s n w)
unfolding accept base with_base
accept-Good prev s (leaf b l) w h = (tt, λ e. e)
accept-Good prev s (control b c ns) w h = ((h.0, h.2, h.1), λ e. (e, h.2 e))
accept-Good prev s (decorator b d n) w h = ((h.0, h.2, h.1), λ e. (e, h.2 e))

conclude-Good :
    (prev : Status) (o : Outcome) (n : Node) (w : World)
    → IsBody o n
    → Good (conclude_on prev o n w)
unfolding conclude_on
conclude-Good prev (returned idle) n w h = tt
conclude-Good prev (returned running) n w h = accept-Good prev running n w h
conclude-Good prev (returned success) n w h = accept-Good prev success n w h
conclude-Good prev (returned failure) n w h = accept-Good prev failure n w h
conclude-Good prev invalid n w h = tt
conclude-Good prev (raised e) n w h = tt

-- A leaf has nothing below it.
abbrev IsLeaf : Node → Type 0
IsLeaf (leaf b l) = Unit
IsLeaf n = ⊥

leaf-IsBody : (o : Outcome) (n : Node) → IsLeaf n → IsBody o n
leaf-IsBody (returned s) (leaf b l) h = tt
leaf-IsBody (returned s) (control b c ns) h = absurd h
leaf-IsBody (returned s) (decorator b d n) h = absurd h
leaf-IsBody invalid n h = tt
leaf-IsBody (raised e) n h = tt

write_key-IsLeaf :
    (host : Host) (b : Base) (board : Option ℕ) (key : Value) (w : World)
    → IsLeaf (write_key host b board key w).node
unfolding write_key
write_key-IsLeaf host b board none_value w = tt
write_key-IsLeaf host b none key w = tt
write_key-IsLeaf host b (some id) (text key) w = tt
write_key-IsLeaf host b (some id) key w = tt

check_key-IsLeaf :
    (b : Base) (board : Option ℕ) (key : Value) (w : World) → IsLeaf (check_key b board key w).node
unfolding check_key
check_key-IsLeaf b board none_value w = tt
check_key-IsLeaf b none key w = tt
check_key-IsLeaf b (some id) (text key) w = elim (Bool-cases (board_has w id key)) [
  | inl there ↦ rw there tt
  | inr absent ↦ rw absent tt
]
check_key-IsLeaf b (some id) key w = tt

tick_leaf-IsLeaf :
    (host : Host) (b : Base) (l : Leaf) (w : World) → IsLeaf (tick_leaf host b l w).node
unfolding tick_leaf
tick_leaf-IsLeaf host b set_blackboard w = write_key-IsLeaf host b _ _ w
tick_leaf-IsLeaf host b check_blackboard w = check_key-IsLeaf b _ _ w
tick_leaf-IsLeaf host b l w = tt

untouched-PrefixCalm :
    (host : Host) (i : ℕ) (ns : Nodes)
    → PrefixCalm i ns
    → ListPrefixCalm i (untouched (as_children host ns))
unfolding as_children
untouched-PrefixCalm host zero ns h = tt
untouched-PrefixCalm host (suc i) nil h = tt
untouched-PrefixCalm host (suc i) (cons n ns) h = (h.0, untouched-PrefixCalm host i ns h.1)

untouched-BeforeRunning :
    (host : Host) (i : Option ℕ) (ns : Nodes)
    → BeforeRunning i ns
    → ListBefore i (untouched (as_children host ns))
untouched-BeforeRunning host none ns h = tt
untouched-BeforeRunning host (some i) ns h = untouched-PrefixCalm host i ns h

tick_control-Body :
    (host : Host) (b : Base) (c : Control) (ns : Nodes) (w : World)
    → AllLawful (as_children host ns)
    → CursorCalm c ns
    → Body (tick_control host b c (as_children host ns) w)
unfolding tick_control
tick_control-Body host b (sequence i) ns w l h =
    tick_sequence-IsBody host b i (as_children host ns) w l (untouched-PrefixCalm host i ns h)
tick_control-Body host b (fallback i) ns w l h =
    tick_fallback-IsBody host b i (as_children host ns) w l (untouched-PrefixCalm host i ns h)
tick_control-Body host b (parallel p) ns w l h =
    tick_parallel-IsBody host b p (as_children host ns) w l
tick_control-Body host b (reactive_sequence r) ns w l h =
    tick_reactive_sequence-IsBody host b r (as_children host ns) w l
      (untouched-BeforeRunning host r.running_child_idx ns h)
tick_control-Body host b (reactive_fallback r) ns w l h =
    tick_reactive_fallback-IsBody host b r (as_children host ns) w l
      (untouched-BeforeRunning host r.running_child_idx ns h)

module _ (host : Host) where
  mutual
    unfolding execute_tick conclude

    execute_tick-Good : (n : Node) (w : World) → IsOrderly n → Good (execute_tick host n w)
    execute_tick-Good (leaf b l) w o =
        let t = tick_leaf host b l w in
        conclude-Good b.status t.outcome t.node t.world
          (leaf-IsBody t.outcome t.node (tick_leaf-IsLeaf host b l w))
    execute_tick-Good (control b c ns) w o =
        let t = tick_control host b c (as_children host ns) w in
        conclude-Good b.status t.outcome t.node t.world
          (tick_control-Body host b c ns w (as_children-AllLawful ns o.0) o.2)
    execute_tick-Good (decorator b d n) w o =
        let child : Child = record { node = n; run = λ w'. execute_tick host n w' } in
        let t = tick_decorator host b d child w in
        conclude-Good b.status t.outcome t.node t.world (
          tick_decorator-Body host b d child w
            (record { orderly = o.0; runs = λ w'. execute_tick-Good n w' o.0 }) o.2)

    as_children-AllLawful : (ns : Nodes) → AllOrderly ns → AllLawful (as_children host ns)
    as_children-AllLawful nil o = tt
    as_children-AllLawful (cons n ns) o = (
      record { orderly = o.0; runs = λ w'. execute_tick-Good n w' o.0 },
      as_children-AllLawful ns o.1,
    )

settled_or_running : (s : Status) → (s ≡ running) ⊎ IsNotRunning s
settled_or_running idle = inr (λ e. cc)
settled_or_running running = inl refl
settled_or_running success = inr (λ e. cc)
settled_or_running failure = inr (λ e. cc)

returned-IsOrderly :
    (o : Outcome) (s : Status) (n : Node)
    → o ≡ returned s
    → IsGood o n
    → IsOrderly n × ((s ≡ running) ⊎ IsCalm n)
returned-IsOrderly o s n e good =
    let good' : IsGood (returned s) n = subst (λ r. IsGood r n) e good in
    elim (settled_or_running s) [
      | inl on ↦ (good'.0, inl on)
      | inr settled ↦ (good'.0, inr (good'.1 settled))
    ]

-- From an orderly tree, whatever the client's code does: a tick that returns leaves an orderly tree,
-- and unless it returned RUNNING no node of the tree is RUNNING any more.
pub execute_tick-IsOrderly :
    (host : Host) (n : Node) (w : World) (s : Status)
    → IsOrderly n
    → (execute_tick host n w).outcome ≡ returned s
    → IsOrderly (execute_tick host n w).node × ((s ≡ running) ⊎ IsCalm (execute_tick host n w).node)
execute_tick-IsOrderly host n w s o e =
    returned-IsOrderly (execute_tick host n w).outcome s (execute_tick host n w).node e
      (execute_tick-Good host n w o)

-- After `halt` of an orderly tree no node of it is RUNNING, and it is orderly again.
pub halt-stops :
    (host : Host) (n : Node) (w : World)
    → IsOrderly n
    → IsCalm (halt host n w).0 × IsOrderly (halt host n w).0
halt-stops host n w o = halt-IsStopped host n w o

-- What can happen to a tree between two structural changes: ticks that return, halts, and anything
-- in the world around it.
pub data Reach (host : Host) (start : Node) (before : World) : Node → World → Type 0 where
  here : Reach host start before start before
  tick :
      {n : Node} {w : World} (s : Status)
      → Reach host start before n w
      → (execute_tick host n w).outcome ≡ returned s
      → Reach host start before (execute_tick host n w).node (execute_tick host n w).world
  stopped :
      {n : Node} {w : World}
      → Reach host start before n w
      → Reach host start before (halt host n w).0 (halt host n w).1
  elsewhere :
      {n : Node} {w : World} (w' : World)
      → Reach host start before n w
      → Reach host start before n w'

-- The invariant holds of every tree that ticks without exceptions, halts and changes of the
-- surroundings make from an orderly one.
pub Reach-IsOrderly :
    {host : Host} {start : Node} {before : World} {n : Node} {w : World}
    → IsOrderly start
    → Reach host start before n w
    → IsOrderly n
Reach-IsOrderly o here = o
Reach-IsOrderly {host} o (tick {n} {w} s r e) =
    (execute_tick-IsOrderly host n w s (Reach-IsOrderly o r) e).0
Reach-IsOrderly {host} o (stopped {n} {w} r) = (halt-stops host n w (Reach-IsOrderly o r)).1
Reach-IsOrderly o (elsewhere w' r) = Reach-IsOrderly o r
