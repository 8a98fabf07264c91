-- ===== src/Node/Children.antt =====
-- bteng/core/node.py: get_children, and the walks over a tree that only read it.

use bteng.Prelude.{Bool, true, false, Option, none, some, List, [], ◌∷◌, ◌++◌, ◌&&◌, if◌then◌else◌}
use bteng.Value.{running, is_status}
use bteng.Node.{Node, Nodes, leaf, control, decorator, nil, cons, NodeType, node_type, condition}

unfoldable pub to_list : Nodes → List Node
to_list nil = []
to_list (cons n ns) = n ∷ to_list ns

unfoldable pub of_list : List Node → Nodes
of_list [] = nil
of_list (n ∷ ns) = cons n (of_list ns)

unfoldable pub get_children : Node → List Node
unfolding to_list
get_children (leaf b l) = []
get_children (control b c ns) = to_list ns
get_children (decorator b d n) = n ∷ []

-- tip: the deepest node that is RUNNING, in the first branch that has one.
unfoldable mutual
  pub tip : Node → Option Node
  tip (leaf b l) = if is_status b.status running then some (leaf b l) else none
  tip (control b c ns) = elim (tip_first ns) [
    | some t ↦ some t
    | none ↦ if is_status b.status running then some (control b c ns) else none
  ]
  tip (decorator b d n) = elim (tip n) [
    | some t ↦ some t
    | none ↦ if is_status b.status running then some (decorator b d n) else none
  ]

  pub tip_first : Nodes → Option Node
  tip_first nil = none
  tip_first (cons n ns) = elim (tip n) [ some t ↦ some t | none ↦ tip_first ns ]

is_condition : NodeType → Bool
is_condition condition = true
is_condition _ = false

-- _is_condition_guard of reactive_sequence.py and reactive_fallback.py
unfoldable mutual
  unfolding is_condition node_type

  pub is_condition_guard : Node → Bool
  is_condition_guard (leaf b l) = is_condition (node_type (leaf b l))
  is_condition_guard (control b c nil) = false
  is_condition_guard (control b c (cons n ns)) = is_condition_guard n && all_guards ns
  is_condition_guard (decorator b d n) = is_condition_guard n

  pub all_guards : Nodes → Bool
  all_guards nil = true
  all_guards (cons n ns) = is_condition_guard n && all_guards ns

-- All nodes of a tree, each before its children: the order of `visit`.
unfoldable mutual
  pub preorder : Node → List Node
  preorder (leaf b l) = leaf b l ∷ []
  preorder (control b c ns) = control b c ns ∷ preorder_all ns
  preorder (decorator b d n) = decorator b d n ∷ preorder n

  pub preorder_all : Nodes → List Node
  preorder_all nil = []
  preorder_all (cons n ns) = preorder n ++ preorder_all ns
