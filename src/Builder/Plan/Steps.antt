-- ===== src/Builder/Plan/Steps.antt =====
-- bteng/core/tree_builder.py: what the calls that create a node do, by the numbers that they draw.
use bteng.Prelude.{
  ℕ, String, ◌≡◌, refl, true, Option, none, List, [], str_eq, is_some, Bool-cases, Option-cases,
  inl, inr,
}
use bteng.Node.{Node, control, decorator, nil, Leaf, Control, Decorator}
use bteng.Builder.{
  Builder, done, auto_name, name_or_auto, make_config, new_base, placeholder, draw_uid, push_frame,
  attach_leaf,
}
use bteng.Builder.Scopes.{open_control, open_decorator, add_function, node, action, condition}
use bteng.Builder.Calls.{LeafCall, Mapping, perform_leaf, node_call}
use bteng.Builder.Calls
use bteng.Builder.Plan.{Ids, name_in, next, config_in, grow_leaf, leaf_plan, IsSound}
use bteng.Builder.Plan.Frames.{ids_of, with_ids}

-- The node that opens a scope of a control node.
abbrev pub opened : Option ℕ → String → Control → String → Ids → Node
opened blackboard type_name c name ids =
    let (name', named) = name_in type_name name ids in
    control (new_base named.next_uid name' (config_in blackboard [] named)) c nil

pub open_control-opened :
    (type_name : String) (c : Control) (name : String) (b : Builder)
    → open_control type_name c name b
      ≡ push_frame
          (opened b.blackboard type_name c name (ids_of b))
          (with_ids (next (name_in type_name name (ids_of b)).1) b)
unfolding open_control name_or_auto auto_name make_config draw_uid push_frame name_in next
open_control-opened type_name c name b = elim (Bool-cases (str_eq name "")) [
  | inl empty ↦ rw empty refl
  | inr given ↦ rw given refl
]

-- The same for a decorator, whose placeholder draws a number first.
abbrev pub opened_decorator : Option ℕ → String → Decorator → String → Ids → Node
opened_decorator blackboard type_name d name ids =
    let (name', named) = name_in type_name name (next ids) in
    decorator (new_base named.next_uid name' (config_in blackboard [] named)) d
      (placeholder ids.next_uid)

pub open_decorator-opened :
    (type_name : String) (d : Decorator) (name : String) (b : Builder)
    → open_decorator type_name d name b
      ≡ push_frame
          (opened_decorator b.blackboard type_name d name (ids_of b))
          (with_ids (next (name_in type_name name (next (ids_of b))).1) b)
unfolding open_decorator name_or_auto auto_name make_config draw_uid push_frame name_in next
open_decorator-opened type_name d name b = elim (Bool-cases (str_eq name "")) [
  | inl empty ↦ rw empty refl
  | inr given ↦ rw given refl
]

-- A leaf whose class is registered.
pub perform_leaf-grow_leaf :
    (classes : String → Option Leaf) (c : LeafCall) (ms : List Mapping) (b : Builder)
    → IsSound classes b.blackboard (leaf_plan c ms) (ids_of b)
    → perform_leaf classes c b
      ≡ done (
          attach_leaf
            (grow_leaf classes b.blackboard c (ids_of b)).0
            (with_ids (grow_leaf classes b.blackboard c (ids_of b)).1 b))
unfolding perform_leaf action condition add_function node grow_leaf name_or_auto auto_name
    make_config draw_uid name_in next
perform_leaf-grow_leaf classes (Calls.action name) ms b h = refl
perform_leaf-grow_leaf classes (Calls.condition name) ms b h = refl
perform_leaf-grow_leaf classes (node_call type_name name attrs) ms b h =
    elim (Option-cases (classes type_name)) [
      | inl unknown ↦ let no' : is_some {A = Leaf} none ≡ true = rw unknown at h in cc
      | inr (l, known) ↦ elim (Bool-cases (str_eq name "")) [
        | inl empty ↦ rw (node, known) (rw empty refl)
        | inr given ↦ rw (node, known) (rw given refl)
      ]
    ]
