-- ===== src/Executor.antt =====
-- bteng/core/executor.py: TreeExecutor. The loggers and the thread pool are not modelled, and the
-- sleeps change nothing. The inspector and the tracer are attached or not; what they are told is in
-- the world's events and in `frames`.
pub mod Loop
pub mod Run
pub mod Setup
use bteng.Prelude.{
  ℕ, zero, suc, ◌+◌, String, Bool, true, false, Option, none, some, List, [], ◌∷◌, ◌++◌, ◌==◌, ◌&&◌,
  not, leb, if◌then◌else◌, get_elem?, set,
}
use bteng.Value.{Status, idle, running, success, failure, Value, is_status}
use bteng.Node.{Node, Nodes, leaf, control, decorator, nil, cons, Base, base, uid}
use bteng.World.{World, Host}
use bteng.Blackboard.{take_snapshot_if_dirty}
use bteng.Tick.{Outcome, no_tree, returned, invalid, raised, Ticked}
use bteng.Tick.Reactive.{mem}
use bteng.Tree.{Tree, TreeModification, apply_pending_modifications, tick_once, halt_all, reset_all}
use bteng.Validation.{PortValidationError, validate_tree}

-- A call of a node's one-time hook.
pub data Hook : Type 0 where
  setup shutdown : (uid : ℕ) → Hook

-- `calls` are the hooks that were called, the newest first; `completions` the completion callback's.
pub record Executor : Type 0 where
  pub halt_on_completion : Bool
  pub has_callback : Bool
  pub tree : Option Tree
  pub inspector : Bool
  pub tracer : Bool
  pub tick_count : ℕ
  pub final_status : Option Status
  pub nodes_setup : Bool
  pub setup_uids : List ℕ
  pub hooks : List Hook
  pub frames : List (ℕ × Option (List (String × Value)))
  pub completions : List Status
  pub loop_running : Bool
  pub paused : Bool

-- _inject_inspector and _inject_tracer
unfoldable mutual
  pub map_bases : (Base → Base) → Node → Node
  map_bases f (leaf b l) = leaf (f b) l
  map_bases f (control b c ns) = control (f b) c (map_bases_all f ns)
  map_bases f (decorator b d n) = decorator (f b) d (map_bases f n)

  pub map_bases_all : (Base → Base) → Nodes → Nodes
  map_bases_all f nil = nil
  map_bases_all f (cons n ns) = cons (map_bases f n) (map_bases_all f ns)

abbrev pub with_inspector : Base → Base
with_inspector b = record b { inspector = true }

abbrev pub with_tracer : Base → Base
with_tracer b = record b { tracer = true }

unfoldable pub inject : Bool → Bool → Tree → Tree
unfolding map_bases
inject inspector tracer t =
    let t' = if inspector then record t { root = map_bases with_inspector t.root } else t in
    if tracer then record t' { root = map_bases with_tracer t'.root } else t'

-- What _setup_nodes and _shutdown_nodes change.
pub record Lifecycle : Type 0 where
  pub uids : List ℕ
  pub hooks : List Hook

unfoldable pub setup_one : ℕ → Lifecycle → Lifecycle
unfolding mem
setup_one i s = if mem i s.uids then s else record { uids = i ∷ s.uids; hooks = setup i ∷ s.hooks }

unfoldable pub discard : ℕ → List ℕ → List ℕ
discard i [] = []
discard i (j ∷ js) = let rest = discard i js in if j == i then rest else j ∷ rest

unfoldable pub shutdown_one : ℕ → Lifecycle → Lifecycle
unfolding discard
shutdown_one i s = record { uids = discard i s.uids; hooks = shutdown i ∷ s.hooks }

unfoldable mutual
  unfolding setup_one uid

  pub setup_nodes : Node → Lifecycle → Lifecycle
  setup_nodes (leaf b l) s = setup_one b.uid s
  setup_nodes (control b c ns) s = setup_all ns (setup_one b.uid s)
  setup_nodes (decorator b d n) s = setup_nodes n (setup_one b.uid s)

  pub setup_all : Nodes → Lifecycle → Lifecycle
  setup_all nil s = s
  setup_all (cons n ns) s = setup_all ns (setup_nodes n s)

unfoldable mutual
  unfolding shutdown_one uid

  pub shutdown_nodes : Node → Lifecycle → Lifecycle
  shutdown_nodes (leaf b l) s = shutdown_one b.uid s
  shutdown_nodes (control b c ns) s = shutdown_all ns (shutdown_one b.uid s)
  shutdown_nodes (decorator b d n) s = shutdown_nodes n (shutdown_one b.uid s)

  pub shutdown_all : Nodes → Lifecycle → Lifecycle
  shutdown_all nil s = s
  shutdown_all (cons n ns) s = shutdown_all ns (shutdown_nodes n s)

abbrev pub lifecycle : Executor → Lifecycle
lifecycle x = record { uids = x.setup_uids; hooks = x.hooks }

abbrev pub with_lifecycle : Executor → Lifecycle → Executor
with_lifecycle x s = record x { setup_uids = s.uids; hooks = s.hooks }

-- What set_tree does with the errors of the validation: it raises them, or installs the tree.
unfoldable pub install :
    List PortValidationError → Executor → Tree → List PortValidationError × Executor
unfolding inject
install [] x t = (
  [],
  record x { tree = some (inject x.inspector x.tracer t); nodes_setup = false; setup_uids = [] },
)
install (e ∷ es) x t = (e ∷ es, x)

-- set_tree; the errors of the TreeValidationError, if it raises one.
unfoldable pub set_tree : Executor → Tree → List PortValidationError × Executor
unfolding install validate_tree
set_tree x t = install (validate_tree t.root) x t

-- The part of _do_tick above the tick: the first set-up, or the new nodes of pending modifications.
unfoldable pub prepare : Host → Executor → Tree → World → Executor × Tree × World
unfolding setup_nodes inject
prepare host x t w =
    let first : Executor × Tree × World =
      (record (with_lifecycle x (setup_nodes t.root (lifecycle x))) { nodes_setup = true }, t, w) in
    let (installed, w') = apply_pending_modifications host t w in
    let t' = inject x.inspector x.tracer installed in
    let again : Executor × Tree × World =
      (with_lifecycle x (setup_nodes t'.root (lifecycle x)), t', w') in
    elim x.nodes_setup [
      | false ↦ first
      | true ↦ elim t.pending_mods [ [] ↦ (x, t, w) | m ∷ ms ↦ again ]
    ]

-- begin_frame, end_frame, and the snapshot of the tree's blackboard between them.
unfoldable pub end_frame : Executor → Tree → World → Executor × World
end_frame x t w =
    if x.tracer
    then elim (get_elem? w.boards t.blackboard) [
      | none ↦ (record x { frames = (x.tick_count, none) ∷ x.frames }, w)
      | some b ↦
          let (snapshot, b') = take_snapshot_if_dirty b in
          (
            record x { frames = (x.tick_count, snapshot) ∷ x.frames },
            record w { boards = set w.boards t.blackboard b' },
          )
    ]
    else (x, w)

pub record Ran : Type 0 where
  pub outcome : Outcome
  pub executor : Executor
  pub world : World

-- What _do_tick makes of the outcome of the tick: an exception leaves the frame open.
unfoldable pub after_outcome : Outcome → Executor → Executor × World → World → Ran
after_outcome (returned s) x framed w = record {
  outcome = returned s;
  executor = record framed.0 { tick_count = framed.0.tick_count + 1 };
  world = framed.1;
}
after_outcome o x framed w = record { outcome = o; executor = x; world = w }

unfoldable pub after_tick : Executor → Tree → Ticked → Ran
unfolding end_frame after_outcome
after_tick x t r =
    let x' = record x { tree = some t } in
    after_outcome r.outcome x' (end_frame x' t r.world) r.world

module _ (host : Host) where
  -- _do_tick on the executor's tree
  unfoldable pub do_tick : Executor → Tree → World → Ran
  unfolding prepare after_tick
  do_tick x t w =
      let (x', t', w') = prepare host x t w in
      let (t'', ticked) = tick_once host t' w' in after_tick x' t'' ticked

  -- `self._tree.halt_all()` under halt_on_completion
  unfoldable pub halt_completed : Executor → World → Executor × World
  halt_completed x w = elim x.tree [
    | none ↦ (x, w)
    | some t ↦
        let (t', w') = halt_all host t w in
        if x.halt_on_completion then (record x { tree = some t' }, w') else (x, w)
  ]

  abbrev pub notify_completion : Status → Executor → Executor
  notify_completion s x = if x.has_callback then record x { completions = s ∷ x.completions } else x

  -- What tick_until_result does with a status that is not RUNNING.
  unfoldable pub complete : Status → Executor → World → Ran
  unfolding halt_completed
  complete s x w =
      let (x', w') = halt_completed (record x { final_status = some s }) w in
      record { outcome = returned s; executor = notify_completion s x'; world = w' }
