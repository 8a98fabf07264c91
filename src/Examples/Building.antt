-- ===== src/Examples/Building.antt =====
-- Runs of bteng/core/tree_builder.py.
use bteng.Prelude.{
  ◌≤◌, String, ◌≡◌, refl, pos, none, some, Option, List, [], ◌∷◌, str_eq, if◌then◌else◌,
}
use bteng.Node.{
  leaf, control, nil, cons, NodeConfig, Control, Leaf, set_blackboard, function_action,
}
use bteng.Tree.{Tree}
use bteng.Orderly.{IsOrderly}
use bteng.Orderly.Tick.{here}
use bteng.Builder.{Builder, new_base, end_scope, done, new_builder, build}
use bteng.Builder.Scopes
use bteng.Builder.Calls.{
  Call, control_call, decorator_call, leaf_call, end_call, sequence, retry, action, node_call,
  literal, map, run,
}
use bteng.Builder.Plan.{Plan, leaf_plan, control_plan, decorator_plan, no_plans, also, calls, grow}
use bteng.Builder.Plan.Frames.{ids_of}
use bteng.Builder.Plan.Build.{build-calls}
use bteng.Builder.Uids.{occurs, perform_all, build_unique}
use bteng.Builder.Idle.{IsUnticked, build-IsUnticked, build-IsOrderly}
use bteng.Examples.{host, world, boards}

abbrev classes : String → Option Leaf
classes type_name = if str_eq type_name "SetBlackboard" then some set_blackboard else none

-- Retry 3 times to open the door, then note it.
abbrev plan : Plan
plan = control_plan sequence "main" [] (
    also (decorator_plan (retry (pos 3)) "" [] (leaf_plan (action "open") [])) (
      also
        (leaf_plan (node_call "SetBlackboard" "" [])
          (map "value" "door" ∷ literal "key" (bteng.Value.text "seen") ∷ []))
        no_plans))

build-calls_example :
    (b : Builder) × (run classes (calls plan []) (new_builder (some 1)) ≡ done b)
    × (build b boards
        ≡ some (
          record {
            id = "";
            root = (grow classes (some 1) plan (ids_of (new_builder (some 1)))).0;
            blackboard = 1;
            pending_mods = [];
          },
          boards,
        ))
unfolding grow new_builder
build-calls_example = build-calls classes plan 1 boards ((refl, tt), (refl, tt))

-- The first decorator has no child, so its end raises, and the client goes on without it.
abbrev hasty : List Call
hasty =
    control_call sequence "main"
    ∷ decorator_call (retry (pos 3)) "again"
    ∷ end_call
    ∷ leaf_call (action "open")
    ∷ end_call
    ∷ []

abbrev config : NodeConfig
config = record {
  blackboard = some 1;
  input_ports = [];
  output_ports = [];
  params = [];
  node_id = 1;
}

abbrev hasty_tree : Tree
hasty_tree = record {
  id = "";
  root =
      control (new_base 0 "main" config) (Control.sequence 0)
        (cons (leaf (new_base 3 "open" config) function_action) nil);
  blackboard = 1;
  pending_mods = [];
}

hasty-build :
    build (perform_all classes hasty (new_builder (some 1))) boards ≡ some (hasty_tree, boards)
unfolding new_base build perform_all new_builder end_scope Scopes.action Scopes.retry
    Scopes.sequence
hasty-build = refl

build_unique_example : occurs 3 hasty_tree.root ≤ 1
build_unique_example = build_unique 3 classes hasty (some 1) boards boards hasty_tree hasty-build

build-IsUnticked_example : IsUnticked hasty_tree.root
build-IsUnticked_example =
    build-IsUnticked classes hasty (some 1) boards boards hasty_tree hasty-build

hasty_tree-IsOrderly : IsOrderly hasty_tree.root
hasty_tree-IsOrderly =
    build-IsOrderly classes hasty (some 1) boards boards hasty_tree host world world hasty_tree.root
      hasty-build (tt, tt) here
