-- ===== src/Tree/Queue.antt =====
-- bteng/core/tree.py: the queue of modifications.
use bteng.Prelude.{
  ◌≡◌, refl, Bool, true, false, none, some, is_some, not, List, [], ◌∷◌, ◌++◌, ◌&&◌, ◌||◌, arith,
}
use bteng.Node.{Node}
use bteng.World.{World, Host}
use bteng.Execute.{execute_tick}
use bteng.Tree.{
  Tree, TreeModification, requires_new_node, queue_modification, apply_modification, apply_all,
  apply_pending_modifications, tick_once,
}

-- What a modification lacks, for queue_modification.
abbrev is_complete : TreeModification → Bool
is_complete m = is_some m.target_uid && (not (requires_new_node m.type) || is_some m.new_node)

queue_modification_lem :
    (t : Tree) (m : TreeModification)
    → queue_modification t m ≡ (elim (is_complete m) [
      | true ↦ some (record t { pending_mods = t.pending_mods ++ m ∷ [] })
      | false ↦ none
    ])
unfolding queue_modification requires_new_node
queue_modification_lem t m = ground arith

apply_all-append :
    (host : Host) (ms later : List TreeModification) (root : Node) (w : World)
    → apply_all host (ms ++ later) root w
      ≡ apply_all host later (apply_all host ms root w).0 (apply_all host ms root w).1
unfolding apply_all
apply_all-append host [] later root w = refl
apply_all-append host (m ∷ ms) later root w =
    let r = apply_modification host m root w in apply_all-append host ms later r.0 r.1

queue_modification-last :
    (t queued : Tree) (m : TreeModification)
    → queue_modification t m ≡ some queued
    → queued ≡ record t { pending_mods = t.pending_mods ++ m ∷ [] }
unfolding queue_modification requires_new_node
queue_modification-last t queued m e = ground arith

-- The tick of a tree with a modification queued last: the others are applied first, in their order,
-- then that one, then the root of what they leave is ticked, and no modification is pending.
pub tick_once-queue :
    (host : Host) (t queued : Tree) (m : TreeModification) (w : World)
    → queue_modification t m ≡ some queued
    → let before = apply_pending_modifications host t w in
      let changed = apply_modification host m before.0.root before.1 in
      let ticked = execute_tick host changed.0 changed.1 in
      tick_once host queued w ≡ (record t { root = ticked.node; pending_mods = [] }, ticked)
unfolding tick_once apply_pending_modifications apply_all
tick_once-queue host t queued m w e =
    rw
      (queue_modification-last t queued m e, apply_all-append host t.pending_mods (m ∷ []) t.root w)
      refl
