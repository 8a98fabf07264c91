-- ===== src/Builder.antt =====
-- bteng/core/tree_builder.py: TreeBuilder, a stack of open scopes. A node is a value here, so
-- `_last_node`, which is one of the nodes in the builder, is the place where that node stands.
-- uuid4 is taken never to repeat itself: uids are numbered in the order in which they are drawn.
pub mod Names
pub mod Scopes
pub mod Calls
pub mod Plan
pub mod Uids
pub mod Idle
use bteng.Prelude.{
  ℕ, zero, suc, ◌+◌, String, Bool, true, false, Option, none, some, List, [], ◌∷◌, length, ◌++◌,
  str_eq, if◌then◌else◌, or_else,
}
use bteng.Prelude.Dict.{insert}
use bteng.Value.{Status, idle, success, failure, Value, truthy}
use bteng.Blackboard.{Board, new_board}
use bteng.Node.{
  Node, Nodes, leaf, control, decorator, nil, cons, Base, base, with_base, NodeConfig, Leaf,
  function_action, function_condition, Control, Decorator,
}
use bteng.Tree.{Tree}
use bteng.Builder.Names.{numbered}

pub record TreeMetadata : Type 0 where
  pub id : String
  pub description : String
  pub version : String

-- Where the node of `_last_node` stands: it is the top of the stack, the newest child of the top,
-- the root, or a node that is in the builder no more.
pub data Last : Type 0 where
  no_node top newest_child at_root detached : Last

-- The stack has its top first.
pub record Builder : Type 0 where
  pub meta : TreeMetadata
  pub blackboard : Option ℕ
  pub stack : List Node
  pub root : Option Node
  pub last : Last
  pub next_id : ℕ
  pub next_uid : ℕ

unfoldable pub new_builder : Option ℕ → Builder
new_builder blackboard = record {
  meta = record { id = ""; description = ""; version = "1.0.0" };
  blackboard = blackboard;
  stack = [];
  root = none;
  last = no_node;
  next_id = 1;
  next_uid = 0;
}

unfoldable pub tree_id : String → Builder → Builder
tree_id id b = record b { meta = record b.meta { id = id } }

unfoldable pub description : String → Builder → Builder
description desc b = record b { meta = record b.meta { description = desc } }

unfoldable pub version : String → Builder → Builder
version v b = record b { meta = record b.meta { version = v } }

unfoldable pub auto_name : String → Builder → String × Builder
auto_name type_name b = (numbered type_name b.next_id, record b { next_id = b.next_id + 1 })

-- `name or self._auto_name(type_name)`
unfoldable pub name_or_auto : String → String → Builder → String × Builder
unfolding auto_name
name_or_auto name type_name b = if str_eq name "" then auto_name type_name b else (name, b)

unfoldable pub make_config : List (String × Value) → Builder → NodeConfig
make_config params b = record {
  blackboard = b.blackboard;
  input_ports = [];
  output_ports = [];
  params = params;
  node_id = b.next_id;
}

-- The fields of a node that was just created.
unfoldable pub new_base : ℕ → String → NodeConfig → Base
new_base uid name config = record {
  uid = uid;
  name = name;
  config = config;
  status = idle;
  tick_count = 0;
  feedback_message = "";
  inspector = false;
  tracer = false;
}

abbrev pub default_config : NodeConfig
default_config = record {
  blackboard = none;
  input_ports = [];
  output_ports = [];
  params = [];
  node_id = 0;
}

abbrev pub placeholder_name : String
placeholder_name = "__placeholder__"

unfoldable pub placeholder : ℕ → Node
unfolding new_base
placeholder uid = leaf (new_base uid placeholder_name default_config) function_action

-- A draw of a uuid.
unfoldable pub draw_uid : Builder → ℕ × Builder
draw_uid b = (b.next_uid, record b { next_uid = b.next_uid + 1 })

unfoldable pub push_frame : Node → Builder → Builder
push_frame n b = record b { last = top; stack = n ∷ b.stack }

unfoldable pub append : Nodes → Node → Nodes
append nil x = cons x nil
append (cons n ns) x = cons n (append ns x)

-- `top._children.append(node)` or `top._child = node`; a leaf has neither.
unfoldable pub adopt : Node → Node → Node
unfolding append
adopt (leaf b l) x = leaf b l
adopt (control b c ns) x = control b c (append ns x)
adopt (decorator b d n) x = decorator b d x

abbrev pub at_top : (Node → Node) → List Node → List Node
at_top f [] = []
at_top f (n ∷ rest) = f n ∷ rest

abbrev pub if_empty {ℓ} : {A : Type ℓ} → List Node → A → A → A
if_empty [] x y = x
if_empty (n ∷ rest) x y = y

-- A finished node goes to the top, or is the root; `inside` is where `_last_node` then is.
unfoldable pub place : Node → Last → Builder → Builder
unfolding adopt
place x inside b = record b {
  stack = at_top (λ t. adopt t x) b.stack;
  root = if_empty b.stack (some x) b.root;
  last = if_empty b.stack at_root inside;
}

unfoldable pub attach_leaf : Node → Builder → Builder
unfolding place
attach_leaf n b = place n newest_child b

-- What a call leaves: the builder, or the builder that an exception leaves behind.
pub data Result : Type 0 where
  done raised : Builder → Result

unfoldable pub after : Result → Builder
after (done b) = b
after (raised b) = b

-- `isinstance(node, DecoratorNode) and node._child.name == "__placeholder__"`
unfoldable pub has_placeholder : Node → Bool
unfolding base
has_placeholder (leaf b l) = false
has_placeholder (control b c ns) = false
has_placeholder (decorator b d n) = str_eq (base n).name placeholder_name

-- end: the frame is popped before the check.
unfoldable pub end_scope : Builder → Result
unfolding has_placeholder place
end_scope b = elim b.stack [
  | [] ↦ raised b
  | n ∷ rest ↦
      if has_placeholder n
      then raised (record b { stack = rest; last = detached })
      else done (place n top (record b { stack = rest }))
]

-- build; `none` where it raises. A new scope is appended to the blackboards.
unfoldable pub build : Builder → List Board → Option (Tree × List Board)
build b boards = elim b.stack [
  | n ∷ rest ↦ none
  | [] ↦ elim b.root [
    | none ↦ none
    | some root ↦ elim b.blackboard [
      | some id ↦
          some (record { id = b.meta.id; root = root; blackboard = id; pending_mods = [] }, boards)
      | none ↦ some (
        record { id = b.meta.id; root = root; blackboard = length boards; pending_mods = [] },
        boards ++ new_board (if str_eq b.meta.id "" then "__tree__" else b.meta.id) none [] ∷ [],
      )
    ]
  ]
]

-- _adapt_fn: what the adapted function makes of the client's result.
unfoldable pub adapted : Value → Status
adapted (Value.status s) = s
adapted v = if truthy v then success else failure
