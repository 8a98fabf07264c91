-- ===== src/Examples/Trees.antt =====
-- Runs of bteng/core/tree.py and bteng/core/validation.py.
use bteng.Prelude.{◌≡◌, ◌≢◌, refl, pos, true, false, none, some, is_some, [], ◌∷◌, ◌⊎◌}
use bteng.Node.{uid}
use bteng.Execute.{execute_tick}
use bteng.Executor.{set_tree, inject}
use bteng.Tree.{
  Tree, TreeModification, replace_node, queue_modification, apply_pending_modifications,
  apply_modification, tick_once, hot_swap_subtree_root,
}
use bteng.Tree.Search.{find_node}
use bteng.Tree.Replace.{hot_swap_subtree_root-find}
use bteng.Tree.Queue.{tick_once-queue}
use bteng.Validation.Sound.{IsValid, set_tree-IsValid}
use bteng.Examples.{host, world, crash, again, tree, executor}

hot_swap_subtree_root-find_example :
    let r = hot_swap_subtree_root host 2 crash again world in
    ((r.0 ≡ true)
      × (is_some (find_node 2 again) ≡ true)
      × (is_some (find_node (uid crash) r.1) ≡ true))
    ⊎ ((find_node 2 again ≡ none) × (r ≡ (false, again, world)))
hot_swap_subtree_root-find_example = hot_swap_subtree_root-find host 2 crash again world

abbrev swap : TreeModification
swap = record {
  type = replace_node;
  target_uid = some 1;
  child_index = pos 0;
  new_node = some crash;
}

abbrev queued : Tree
queued = record tree { pending_mods = swap ∷ [] }

accepted : queue_modification tree swap ≡ some queued
unfolding queue_modification
accepted = refl

tick_once-queue_example :
    let before = apply_pending_modifications host tree world in
    let changed = apply_modification host swap before.0.root before.1 in
    let ticked = execute_tick host changed.0 changed.1 in
    tick_once host queued world ≡ (record tree { root = ticked.node; pending_mods = [] }, ticked)
tick_once-queue_example = tick_once-queue host tree queued swap world accepted

set_tree-IsValid_example :
    (IsValid tree.root
      × ((set_tree executor tree).0 ≡ [])
      × ((set_tree executor tree).1.tree ≡ some (inject executor.inspector executor.tracer tree)))
    ⊎ ((IsValid tree.root → ⊥)
        × ((set_tree executor tree).0 ≢ [])
        × ((set_tree executor tree).1 ≡ executor))
set_tree-IsValid_example = set_tree-IsValid executor tree
