-- ===== src/Builder/Plan.antt =====
-- bteng/core/tree_builder.py: the tree that a client means by nested calls, built by recursion, to
-- compare the builder's stack with.
pub mod Frames
pub mod Steps
pub mod Build
use bteng.Prelude.{
  ℕ, ◌+◌, String, ◌≡◌, Bool, true, false, Option, none, some, List, [], ◌∷◌, str_eq, is_some,
  or_else, if◌then◌else◌,
}
use bteng.Value.{Value}
use bteng.Node.{
  Node, Nodes, leaf, control, decorator, nil, cons, base, NodeConfig, Leaf, function_action,
  function_condition,
}
use bteng.Builder.{new_base, placeholder_name}
use bteng.Builder.Names.{numbered}
use bteng.Builder.Scopes.{reconfigure}
use bteng.Builder.Calls.{
  ControlCall, DecoratorCall, LeafCall, action, condition, node_call, Mapping, change, Call,
  control_call, decorator_call, leaf_call, mapping, end_call, control_type, control_of,
  decorator_type, decorator_of,
}

-- A node with the mappings that follow its call, and what stands in its scope.
mutual
  pub data Plan : Type 0 where
    leaf_plan : LeafCall → List Mapping → Plan
    control_plan : ControlCall → (name : String) → List Mapping → Plans → Plan
    decorator_plan : DecoratorCall → (name : String) → List Mapping → Plan → Plan

  pub data Plans : Type 0 where
    no_plans : Plans
    also : Plan → Plans → Plans

unfoldable pub mappings : List Mapping → List Call → List Call
mappings [] rest = rest
mappings (m ∷ ms) rest = mapping m ∷ mappings ms rest

-- The calls for a plan, in front of others.
unfoldable mutual
  unfolding mappings

  pub calls : Plan → List Call → List Call
  calls (leaf_plan c ms) rest = leaf_call c ∷ mappings ms rest
  calls (control_plan c name ms ps) rest =
      control_call c name ∷ mappings ms (calls_all ps (end_call ∷ rest))
  calls (decorator_plan c name ms p) rest =
      decorator_call c name ∷ mappings ms (calls p (end_call ∷ rest))

  pub calls_all : Plans → List Call → List Call
  calls_all no_plans rest = rest
  calls_all (also p ps) rest = calls p (calls_all ps rest)

-- The numbers that name nodes and tell them apart.
pub record Ids : Type 0 where
  pub next_id : ℕ
  pub next_uid : ℕ

unfoldable pub name_in : String → String → Ids → String × Ids
name_in type_name name ids =
    if str_eq name ""
    then (numbered type_name ids.next_id, record ids { next_id = ids.next_id + 1 })
    else (name, ids)

unfoldable pub next : Ids → Ids
next ids = record ids { next_uid = ids.next_uid + 1 }

unfoldable pub configured : List Mapping → NodeConfig → NodeConfig
configured [] c = c
configured (m ∷ ms) c = configured ms (change m c)

abbrev pub config_in : Option ℕ → List (String × Value) → Ids → NodeConfig
config_in blackboard params ids = record {
  blackboard = blackboard;
  input_ports = [];
  output_ports = [];
  params = params;
  node_id = ids.next_id;
}

module _ (classes : String → Option Leaf) (blackboard : Option ℕ) where
  unfoldable pub grow_leaf : LeafCall → Ids → Node × Ids
  unfolding name_in next new_base
  grow_leaf (action name) ids =
      (leaf (new_base ids.next_uid name (config_in blackboard [] ids)) function_action, next ids)
  grow_leaf (condition name) ids =
      (leaf (new_base ids.next_uid name (config_in blackboard [] ids)) function_condition, next ids)
  grow_leaf (node_call type_name name attrs) ids =
      let (name', named) = name_in type_name name ids in
      (
        leaf (new_base named.next_uid name' (config_in blackboard attrs named))
            (or_else (classes type_name) function_action),
        next named,
      )

  unfoldable mutual
    unfolding name_in next new_base configured reconfigure grow_leaf

    pub grow : Plan → Ids → Node × Ids
    grow (leaf_plan c ms) ids =
        let (n, grown) = grow_leaf c ids in (reconfigure (configured ms) n, grown)
    grow (control_plan c name ms ps) ids =
        let (name', named) = name_in (control_type c) name ids in
        let (ns, grown) = grow_all ps (next named) in
        (
          control (new_base named.next_uid name' (configured ms (config_in blackboard [] named)))
              (control_of c) ns,
          grown,
        )
    grow (decorator_plan c name ms p) ids =
        let (name', named) = name_in (decorator_type c) name (next ids) in
        let (n, grown) = grow p (next named) in
        (
          decorator (new_base named.next_uid name' (configured ms (config_in blackboard [] named)))
              (decorator_of c) n,
          grown,
        )

    pub grow_all : Plans → Ids → Nodes × Ids
    grow_all no_plans ids = (nil, ids)
    grow_all (also p ps) ids =
        let (n, grown) = grow p ids in let (ns, grown') = grow_all ps grown in (cons n ns, grown')

  -- The classes that the plan names are registered, and no child of a decorator has the name that
  -- marks the missing child.
  abbrev mutual
    pub IsSound : Plan → Ids → Type 0
    IsSound (leaf_plan (node_call type_name name attrs) ms) ids = is_some (classes type_name) ≡ true
    IsSound (leaf_plan _ ms) ids = Unit
    IsSound (control_plan c name ms ps) ids =
        AllSound ps (next (name_in (control_type c) name ids).1)
    IsSound (decorator_plan c name ms p) ids =
        let start = next (name_in (decorator_type c) name (next ids)).1 in
        (str_eq (base (grow p start).0).name placeholder_name ≡ false) × IsSound p start

    pub AllSound : Plans → Ids → Type 0
    AllSound no_plans ids = Unit
    AllSound (also p ps) ids = IsSound p ids × AllSound ps (grow p ids).1
