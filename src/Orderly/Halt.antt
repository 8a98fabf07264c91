-- ===== src/Orderly/Halt.antt =====
-- bteng/core/node.py: halts and resets of orderly nodes.
use bteng.Prelude.{ℕ, zero, suc, ◌≡◌, false, Option, none, some, arith, Bool-cases, inl, inr}
use bteng.Value.{Status, idle, running, is_status}
use bteng.Node.{
  Node, Nodes, NodeConfig, leaf, control, decorator, nil, cons, Base, Control, sequence, fallback,
  parallel, reactive_sequence, reactive_fallback, Decorator, rate_controller, retry, timeout,
  inverter, force_success, force_failure, sub_tree, status,
}
use bteng.World.{World, Host}
use bteng.World.Hooks.{decorator_on_halt, decorator_on_reset, control_on_reset, rewind}
use bteng.Lifecycle.{
  control_halt_hook, decorator_halt_hook, notify_if_running, reset_subtree, reset_subtrees,
  reset_completed, is_settled, halt, halt_children, halt_running, cleared, with_idle, is_running,
}
use bteng.Orderly.{
  BeforeRunning, IsNotRunning, IsCalm, AllCalm, PrefixCalm, CursorCalm, MemoryCalm, IsOrderly,
  AllOrderly,
}

abbrev pub IsStopped : Node → Type 0
IsStopped n = IsCalm n × IsOrderly n

abbrev pub AllStopped : Nodes → Type 0
AllStopped ns = AllCalm ns × AllOrderly ns

AllCalm-PrefixCalm : (i : ℕ) (ns : Nodes) → AllCalm ns → PrefixCalm i ns
AllCalm-PrefixCalm zero ns h = tt
AllCalm-PrefixCalm (suc i) nil h = tt
AllCalm-PrefixCalm (suc i) (cons n ns) h = (h.0, AllCalm-PrefixCalm i ns h.1)

pub AllCalm-BeforeRunning : (i : Option ℕ) (ns : Nodes) → AllCalm ns → BeforeRunning i ns
AllCalm-BeforeRunning none ns h = tt
AllCalm-BeforeRunning (some i) ns h = AllCalm-PrefixCalm i ns h

pub AllCalm-CursorCalm : (c : Control) (ns : Nodes) → AllCalm ns → CursorCalm c ns
AllCalm-CursorCalm (sequence i) ns h = AllCalm-PrefixCalm i ns h
AllCalm-CursorCalm (fallback i) ns h = AllCalm-PrefixCalm i ns h
AllCalm-CursorCalm (parallel p) ns h = tt
AllCalm-CursorCalm (reactive_sequence r) ns h = AllCalm-BeforeRunning r.running_child_idx ns h
AllCalm-CursorCalm (reactive_fallback r) ns h = AllCalm-BeforeRunning r.running_child_idx ns h

-- A node that is not RUNNING is calm, if it is orderly.
pub IsCalm-of_status : (n : Node) → IsOrderly n → IsNotRunning (status n) → IsCalm n
unfolding status
IsCalm-of_status (leaf b l) o h = h
IsCalm-of_status (control b c ns) o h = (h, o.1 h)
IsCalm-of_status (decorator b d n) o h = (h, o.1 h)

off-IsNotRunning : (s : Status) → is_status s running ≡ false → IsNotRunning s
off-IsNotRunning s h = ground arith

idle-IsNotRunning : IsNotRunning idle
idle-IsNotRunning e = cc

MemoryCalm-keep :
    (c : NodeConfig) (d : Decorator) (n n' : Node)
    → MemoryCalm c d n
    → IsCalm n'
    → MemoryCalm c d n'
MemoryCalm-keep c (rate_controller p t s) n n' m h = λ e. h
MemoryCalm-keep c (retry m a) n n' b h = b
MemoryCalm-keep c (timeout d s) n n' m h = tt
MemoryCalm-keep c inverter n n' m h = tt
MemoryCalm-keep c force_success n n' m h = tt
MemoryCalm-keep c force_failure n n' m h = tt
MemoryCalm-keep c sub_tree n n' m h = tt

MemoryCalm-halt_hook :
    (b : Base) (d : Decorator) (n n' : Node)
    → MemoryCalm b.config d n
    → IsCalm n'
    → MemoryCalm b.config (decorator_halt_hook b d) n'
unfolding decorator_halt_hook
MemoryCalm-halt_hook b d n n' m h = elim (Bool-cases (is_running b)) [
  | inl on ↦ rw on (halted d m)
  | inr off ↦ rw off (MemoryCalm-keep b.config d n n' m h)
]
  where
    halted :
        (d : Decorator) → MemoryCalm b.config d n → MemoryCalm b.config (decorator_on_halt d) n'
    halted (rate_controller p t s) m = λ e. h
    halted (retry m a) b = b
    halted (timeout d s) m = tt
    halted inverter m = tt
    halted force_success m = tt
    halted force_failure m = tt
    halted sub_tree m = tt

MemoryCalm-on_reset :
    (c : NodeConfig) (d : Decorator) (n : Node)
    → MemoryCalm c d n
    → IsCalm n
    → MemoryCalm c (decorator_on_reset d) n
unfolding decorator_on_reset
MemoryCalm-on_reset c (rate_controller p t s) n m h = λ e. h
MemoryCalm-on_reset c (retry m a) n b h = b
MemoryCalm-on_reset c (timeout d s) n m h = tt
MemoryCalm-on_reset c inverter n m h = tt
MemoryCalm-on_reset c force_success n m h = tt
MemoryCalm-on_reset c force_failure n m h = tt
MemoryCalm-on_reset c sub_tree n m h = tt

IsStopped-control :
    (b : Base) (c : Control) (ns : Nodes)
    → IsNotRunning b.status
    → AllStopped ns
    → IsStopped (control b c ns)
IsStopped-control b c ns s h = ((s, h.0), (h.1, (λ e. h.0), AllCalm-CursorCalm c ns h.0))

IsStopped-decorator :
    (b : Base) (d : Decorator) (n : Node)
    → IsNotRunning b.status
    → IsStopped n
    → MemoryCalm b.config d n
    → IsStopped (decorator b d n)
IsStopped-decorator b d n s h m = ((s, h.0), (h.1, (λ e. h.0), m))

module _ (host : Host) where
  mutual
    unfolding reset_subtree

    reset_subtree-IsStopped :
        (n : Node) (w : World) → IsOrderly n → IsStopped (reset_subtree host n w).0
    reset_subtree-IsStopped (leaf b l) w o = (idle-IsNotRunning, tt)
    reset_subtree-IsStopped (control b c ns) w o =
        let (c', w1) = control_halt_hook b c w in
        IsStopped-control (cleared b) c' _ idle-IsNotRunning
          (reset_subtrees-AllStopped ns (control_on_reset b c' w1) o.0)
    reset_subtree-IsStopped (decorator b d n) w o =
        let ih = reset_subtree-IsStopped n w o.0 in
        let n' = (reset_subtree host n w).0 in
        IsStopped-decorator (cleared b) _ n' idle-IsNotRunning ih
          (MemoryCalm-on_reset b.config _ n' (MemoryCalm-halt_hook b d n n' o.2 ih.0) ih.0)

    reset_subtrees-AllStopped :
        (ns : Nodes) (w : World) → AllOrderly ns → AllStopped (reset_subtrees host ns w).0
    reset_subtrees-AllStopped nil w o = (tt, tt)
    reset_subtrees-AllStopped (cons n ns) w o =
        let ih = reset_subtree-IsStopped n w o.0 in
        let ihs = reset_subtrees-AllStopped ns (reset_subtree host n w).1 o.1 in
        ((ih.0, ihs.0), (ih.1, ihs.1))

  -- ParallelNode._reset_children_status keeps stopped children stopped.
  pub reset_completed-AllStopped :
      (ns : Nodes) (w : World) → AllStopped ns → AllStopped (reset_completed host ns w).0
  unfolding reset_completed
  reset_completed-AllStopped nil w h = h
  reset_completed-AllStopped (cons n ns) w ((c, cs), (o, os)) =
      elim (Bool-cases (is_settled (status n))) [
        | inl settled ↦
            let ih = reset_subtree-IsStopped n w o in
            let ihs = reset_completed-AllStopped ns (reset_subtree host n w).1 (cs, os) in
            rw settled ((ih.0, ihs.0), (ih.1, ihs.1))
        | inr open' ↦
            let ihs = reset_completed-AllStopped ns w (cs, os) in rw open' ((c, ihs.0), (o, ihs.1))
      ]

  mutual
    unfolding halt

    pub halt-IsStopped : (n : Node) (w : World) → IsOrderly n → IsStopped (halt host n w).0
    halt-IsStopped (leaf b l) w o = (idle-IsNotRunning, tt)
    halt-IsStopped (control b (parallel p) ns) w o =
        let (c', w1) = control_halt_hook b (parallel p) w in
        let w2 = notify_if_running b w1 in
        let (ns', w3) = halt_running host ns w2 in
        IsStopped-control (with_idle b) (rewind c') _ idle-IsNotRunning
          (reset_completed-AllStopped ns' w3 (halt_running-AllStopped ns w2 o.0))
    halt-IsStopped (control b c ns) w o =
        let (c', w1) = control_halt_hook b c w in
        IsStopped-control (with_idle b) (rewind c') _ idle-IsNotRunning
          (halt_children-AllStopped ns (notify_if_running b w1) o.0)
    halt-IsStopped (decorator b d n) w o =
        let ih = halt-IsStopped n (notify_if_running b w) o.0 in
        let n' = (halt host n (notify_if_running b w)).0 in
        IsStopped-decorator (with_idle b) _ n' idle-IsNotRunning ih
          (MemoryCalm-halt_hook b d n n' o.2 ih.0)

    pub halt_children-AllStopped :
        (ns : Nodes) (w : World) → AllOrderly ns → AllStopped (halt_children host ns w).0
    halt_children-AllStopped nil w o = (tt, tt)
    halt_children-AllStopped (cons n ns) w o =
        let ih = halt-IsStopped n w o.0 in
        let ihs = halt_children-AllStopped ns (halt host n w).1 o.1 in
        ((ih.0, ihs.0), (ih.1, ihs.1))

    pub halt_running-AllStopped :
        (ns : Nodes) (w : World) → AllOrderly ns → AllStopped (halt_running host ns w).0
    halt_running-AllStopped nil w o = (tt, tt)
    halt_running-AllStopped (cons n ns) w o = elim (Bool-cases (is_status (status n) running)) [
      | inl on ↦
          let ih = halt-IsStopped n w o.0 in
          let ihs = halt_running-AllStopped ns (halt host n w).1 o.1 in
          rw on ((ih.0, ihs.0), (ih.1, ihs.1))
      | inr off ↦
          let ihs = halt_running-AllStopped ns w o.1 in
          rw off ((IsCalm-of_status n o.0 (off-IsNotRunning (status n) off), ihs.0), (o.0, ihs.1))
    ]
