-- ===== src/Tree.antt =====
-- bteng/core/tree.py: Tree, its queue of structural modifications, the lookups and the registry.
-- A Tree's lock is not modelled: each method is one step. A node that leaves the tree is gone, and
-- a node that is installed is a tree of its own.
pub mod Search
pub mod Lookup
pub mod Replace
pub mod Queue
use bteng.Prelude.{
  ℕ, zero, suc, String, ℤ, pos, negsuc, pos_part, Bool, true, false, Option, none, some, List, [],
  ◌∷◌, ◌++◌, ◌==◌, ltb, min, length, if◌then◌else◌, str_eq, get_elem?,
}
use bteng.Prelude.Dict.{lookup, insert}
use bteng.Value.{Status}
use bteng.Node.{Node, Nodes, leaf, control, decorator, nil, cons, Base, base, uid}
use bteng.Node.Children.{to_list, of_list, tip, preorder}
use bteng.World.{World, Host}
use bteng.Lifecycle.{halt, reset_node}
use bteng.Tick.{Ticked}
use bteng.Execute.{execute_tick}
use bteng.Tree.Search.{replace_in_subtree, modify_first}

pub data ModificationType : Type 0 where
  insert_child remove_child replace_node hot_swap_subtree : ModificationType

-- `target_uid` is `none` for the empty text.
pub record TreeModification : Type 0 where
  pub type : ModificationType
  pub target_uid : Option ℕ
  pub child_index : ℤ
  pub new_node : Option Node

pub record Tree : Type 0 where
  pub id : String
  pub root : Node
  pub blackboard : ℕ
  pub pending_mods : List TreeModification

-- _REQUIRES_NEW_NODE
unfoldable pub requires_new_node : ModificationType → Bool
requires_new_node insert_child = true
requires_new_node remove_child = false
requires_new_node replace_node = true
requires_new_node hot_swap_subtree = true

-- queue_modification; `none` where it raises ValueError.
unfoldable pub queue_modification : Tree → TreeModification → Option Tree
unfolding requires_new_node
queue_modification t m = elim m.target_uid [
  | none ↦ none
  | some target ↦ elim m.new_node [
    | none ↦
        if requires_new_node m.type
        then none
        else some (record t { pending_mods = t.pending_mods ++ m ∷ [] })
    | some n ↦ some (record t { pending_mods = t.pending_mods ++ m ∷ [] })
  ]
]

-- Why a modification did nothing, or more than it says.
pub data Warning : Type 0 where
  unmatched only_child_replaced leaf_ignored out_of_range removal_refused : Warning

-- list.insert(idx, node) for an index within the list, and list.pop(idx)
unfoldable pub insert_at : ℕ → Node → Nodes → Nodes
insert_at zero x ns = cons x ns
insert_at (suc i) x nil = cons x nil
insert_at (suc i) x (cons n ns) = cons n (insert_at i x ns)

unfoldable pub pop_at : ℕ → Nodes → Option (Node × Nodes)
pop_at i nil = none
pop_at zero (cons n ns) = some (n, ns)
pop_at (suc i) (cons n ns) = elim (pop_at i ns) [
  | none ↦ none
  | some (x, rest) ↦ some (x, cons n rest)
]

-- `child_index` as an index for pop: `none` if it is negative.
unfoldable pub natural : ℤ → Option ℕ
natural (pos n) = some n
natural (negsuc n) = none

module _ (host : Host) where
  abbrev pub Change : Type 0
  Change = Node → World → Node × World × Option Warning

  -- INSERT_CHILD at its target; `min(max(child_index, 0), len(children))`.
  unfoldable pub insert_into : ℤ → Node → Change
  unfolding insert_at
  insert_into i x (control b c ns) w =
      let index = min (pos_part i) (length (to_list ns)) in
      let (n', w') = halt host (control b c (insert_at index x ns)) w in (n', w', none)
  insert_into i x (decorator b d n) w =
      let (old, w1) = halt host n w in
      let (n', w2) = halt host (decorator b d x) w1 in (n', w2, some only_child_replaced)
  insert_into i x (leaf b l) w = (leaf b l, w, some leaf_ignored)

  -- REMOVE_CHILD of a ControlNode, for the child that was popped.
  unfoldable pub remove_popped :
      Node → (Nodes → Node) → Option (Node × Nodes) → World → Node × World × Option Warning
  remove_popped n rebuild none w = (n, w, some out_of_range)
  remove_popped n rebuild (some (removed, rest)) w =
      let (gone, w1) = halt host removed w in
      let (n', w2) = halt host (rebuild rest) w1 in (n', w2, none)

  unfoldable pub remove_from : ℤ → Change
  unfolding pop_at natural remove_popped
  remove_from i (control b c ns) w =
      let popped : Option (Node × Nodes) = elim (natural i) [
        | none ↦ none
        | some k ↦ pop_at k ns
      ] in
      remove_popped (control b c ns) (λ rest. control b c rest) popped w
  remove_from i (decorator b d n) w = (decorator b d n, w, some removal_refused)
  remove_from i (leaf b l) w = (leaf b l, w, some leaf_ignored)

  -- hot_swap_subtree, and REPLACE_NODE: False if the uid is not in the tree.
  unfoldable pub hot_swap_subtree_root : ℕ → Node → Node → World → Bool × Node × World
  hot_swap_subtree_root target new root w =
      let (old, halted) = halt host root w in
      if uid root == target then (true, new, halted) else replace_in_subtree host target new root w

  unfoldable pub swap_node : ℕ → Node → Node → World → Node × World × Option Warning
  unfolding hot_swap_subtree_root
  swap_node target new root w =
      let (found, root', w') = hot_swap_subtree_root target new root w in
      (root', w', if found then none else some unmatched)

  unfoldable pub change_at : ℕ → Change → Node → World → Node × World × Option Warning
  change_at target change root w = elim (modify_first target change root w) [
    | none ↦ (root, w, some unmatched)
    | some r ↦ r
  ]

  -- _apply_modification on the root, for a modification that `queue_modification` accepted.
  unfoldable pub apply_to_root :
      ModificationType → ℕ → ℤ → Option Node → Node → World → Node × World × Option Warning
  unfolding swap_node change_at insert_into remove_from
  apply_to_root remove_child target i new root w = change_at target (remove_from i) root w
  apply_to_root insert_child target i (some x) root w = change_at target (insert_into i x) root w
  apply_to_root replace_node target i (some x) root w = swap_node target x root w
  apply_to_root hot_swap_subtree target i (some x) root w = swap_node target x root w
  apply_to_root type target i none root w = (root, w, some unmatched)

  unfoldable pub apply_modification :
      TreeModification → Node → World → Node × World × Option Warning
  unfolding apply_to_root
  apply_modification m root w = elim m.target_uid [
    | none ↦ (root, w, some unmatched)
    | some target ↦ apply_to_root m.type target m.child_index m.new_node root w
  ]

  unfoldable pub apply_all : List TreeModification → Node → World → Node × World
  unfolding apply_modification
  apply_all [] root w = (root, w)
  apply_all (m ∷ ms) root w =
      let (root', w', warning) = apply_modification m root w in apply_all ms root' w'

  unfoldable pub apply_pending_modifications : Tree → World → Tree × World
  unfolding apply_all
  apply_pending_modifications t w =
      let (root', w') = apply_all t.pending_mods t.root w in
      (record t { root = root'; pending_mods = [] }, w')

  -- Tree.tick_once: the tree afterwards with what the root's tick gave.
  unfoldable pub tick_once : Tree → World → Tree × Ticked
  unfolding apply_pending_modifications
  tick_once t w =
      let (t', w') = apply_pending_modifications t w in
      let ticked = execute_tick host t'.root w' in (record t' { root = ticked.node }, ticked)

  unfoldable pub halt_all : Tree → World → Tree × World
  halt_all t w = let (root', w') = halt host t.root w in (record t { root = root' }, w')

  unfoldable pub reset_all : Tree → World → Tree × World
  reset_all t w = let (root', w') = reset_node host t.root w in (record t { root = root' }, w')

-- TreeRegistry
abbrev pub TreeRegistry : Type 0
TreeRegistry = List (String × Tree)

unfoldable pub register_tree : TreeRegistry → Tree → TreeRegistry
register_tree r t = insert t.id t r

unfoldable pub registered : TreeRegistry → String → Option Tree
registered r id = lookup id r
