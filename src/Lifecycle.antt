-- ===== src/Lifecycle.antt =====
-- bteng/core/node.py: halt and reset_node of TreeNode, ControlNode and DecoratorNode, and the
-- versions of ParallelNode (bteng/nodes/control/parallel.py).
use bteng.Prelude.{Bool, true, false, if◌then◌else◌}
use bteng.Value.{Status, idle, running, success, failure, is_status}
use bteng.Node.{
  Node, Nodes, leaf, control, decorator, nil, cons, Base, Leaf, Control, Decorator, parallel,
  status,
}
use bteng.World.{World, Host}
use bteng.World.Hooks.{
  leaf_on_halt, control_on_halt, decorator_on_halt, control_on_reset, decorator_on_reset,
  notify_halt, rewind,
}

-- `self._status = IDLE; self._feedback_message = ""`
abbrev pub cleared : Base → Base
cleared b = record b { status = idle; feedback_message = "" }

abbrev pub with_idle : Base → Base
with_idle b = record b { status = idle }

abbrev pub is_running : Base → Bool
is_running b = is_status b.status running

-- `status not in (RUNNING, IDLE)`
abbrev pub is_settled : Status → Bool
is_settled idle = false
is_settled running = false
is_settled success = true
is_settled failure = true

-- `if self._status == RUNNING: self._on_halt()` of each kind of node
module _ (host : Host) where
  unfoldable pub leaf_halt_hook : Base → Leaf → World → Base × World
  unfolding leaf_on_halt
  leaf_halt_hook b l w = if is_running b then leaf_on_halt host b l w else (b, w)

unfoldable pub control_halt_hook : Base → Control → World → Control × World
unfolding control_on_halt
control_halt_hook b c w = if is_running b then control_on_halt c w else (c, w)

unfoldable pub decorator_halt_hook : Base → Decorator → Decorator
unfolding decorator_on_halt
decorator_halt_hook b d = if is_running b then decorator_on_halt d else d

unfoldable pub notify_if_running : Base → World → World
unfolding notify_halt
notify_if_running b w = if is_running b then notify_halt b w else w

module _ (host : Host) where
  -- ParallelNode._reset_subtree
  unfoldable mutual
    unfolding leaf_halt_hook control_halt_hook decorator_halt_hook control_on_reset
        decorator_on_reset

    pub reset_subtree : Node → World → Node × World
    reset_subtree (leaf b l) w =
        let (b', w1) = leaf_halt_hook host b l w in (leaf (cleared b') l, w1)
    reset_subtree (control b c ns) w =
        let (c', w1) = control_halt_hook b c w in
        let (ns', w2) = reset_subtrees ns (control_on_reset b c' w1) in
        (control (cleared b) c' ns', w2)
    reset_subtree (decorator b d n) w =
        let (n', w1) = reset_subtree n w in
        (decorator (cleared b) (decorator_on_reset (decorator_halt_hook b d)) n', w1)

    pub reset_subtrees : Nodes → World → Nodes × World
    reset_subtrees nil w = (nil, w)
    reset_subtrees (cons n ns) w =
        let (n', w1) = reset_subtree n w in
        let (ns', w2) = reset_subtrees ns w1 in (cons n' ns', w2)

  -- ParallelNode._reset_children_status
  unfoldable pub reset_completed : Nodes → World → Nodes × World
  unfolding status
  reset_completed nil w = (nil, w)
  reset_completed (cons n ns) w =
      let (n', w1) = if is_settled (status n) then reset_subtree n w else (n, w) in
      let (ns', w2) = reset_completed ns w1 in (cons n' ns', w2)

  unfoldable mutual
    unfolding leaf_halt_hook control_halt_hook decorator_halt_hook notify_if_running rewind
        reset_completed

    pub halt : Node → World → Node × World
    halt (leaf b l) w =
        let (b', w1) = leaf_halt_hook host b l w in (leaf (with_idle b') l, notify_if_running b w1)
    halt (control b c ns) w =
        let (c', w1) = control_halt_hook b c w in
        let w2 = notify_if_running b w1 in
        let below : Nodes × World = elim c [
          | parallel p ↦ let (ns1, w4) = halt_running ns w2 in reset_completed ns1 w4
          | _ ↦ halt_children ns w2
        ] in
        let (ns', w3) = below in (control (with_idle b) (rewind c') ns', w3)
    halt (decorator b d n) w =
        let (n', w1) = halt n (notify_if_running b w) in
        (decorator (with_idle b) (decorator_halt_hook b d) n', w1)

    -- ControlNode._halt_children
    pub halt_children : Nodes → World → Nodes × World
    halt_children nil w = (nil, w)
    halt_children (cons n ns) w =
        let (n', w1) = halt n w in let (ns', w2) = halt_children ns w1 in (cons n' ns', w2)

    -- ParallelNode._halt_running_children
    pub halt_running : Nodes → World → Nodes × World
    halt_running nil w = (nil, w)
    halt_running (cons n ns) w =
        let halted = halt n w in
        let (n', w1) = if is_status (status n) running then halted else (n, w) in
        let (ns', w2) = halt_running ns w1 in (cons n' ns', w2)

  -- TreeNode.reset_node
  unfoldable mutual
    unfolding leaf_on_halt control_on_halt decorator_on_halt control_on_reset decorator_on_reset

    pub reset_node : Node → World → Node × World
    reset_node (leaf b l) w = let (b', w1) = leaf_on_halt host b l w in (leaf (cleared b') l, w1)
    reset_node (control b c ns) w =
        let (c', w1) = control_on_halt c w in
        let (ns', w2) = reset_nodes ns (control_on_reset b c' w1) in
        (control (cleared b) c' ns', w2)
    reset_node (decorator b d n) w =
        let (n', w1) = reset_node n w in
        (decorator (cleared b) (decorator_on_reset (decorator_on_halt d)) n', w1)

    pub reset_nodes : Nodes → World → Nodes × World
    reset_nodes nil w = (nil, w)
    reset_nodes (cons n ns) w =
        let (n', w1) = reset_node n w in let (ns', w2) = reset_nodes ns w1 in (cons n' ns', w2)
