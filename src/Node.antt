-- ===== src/Node.antt =====
-- bteng/core/node.py: the node classes as data. A node is the fields of TreeNode, the tag of its
-- class with the fields that the class adds, and its children.
-- The classes are those of bteng/nodes; the timing metrics of TreeNode are not modelled.
pub mod Children
use bteng.Prelude.{ℕ, String, ℤ, pos, negsuc, Bool, true, false, Option, none, some, List, [], ◌∷◌}
use bteng.Value.{Status, running, Value, none_value, int, float, nano}

pub data NodeType : Type 0 where
  action condition control decorator : NodeType

pub data PortDirection : Type 0 where
  input output inout : PortDirection

pub record PortDefinition : Type 0 where
  pub name : String
  pub direction : PortDirection
  pub default : Value

unfoldable pub is_input : PortDirection → Bool
is_input input = true
is_input output = false
is_input inout = true

unfoldable pub is_output : PortDirection → Bool
is_output input = false
is_output output = true
is_output inout = true

abbrev pub input_port : String → Value → PortDefinition
input_port name default = record { name = name; direction = input; default = default }

pub record NodeConfig : Type 0 where
  pub blackboard : Option ℕ
  pub input_ports : List (String × String)
  pub output_ports : List (String × String)
  pub params : List (String × Value)
  pub node_id : ℕ

-- TreeNode's fields. `inspector` and `tracer` say whether one is attached.
pub record Base : Type 0 where
  pub uid : ℕ
  pub name : String
  pub config : NodeConfig
  pub status : Status
  pub tick_count : ℕ
  pub feedback_message : String
  pub inspector : Bool
  pub tracer : Bool

-- The leaf classes. The classes whose code is the client's carry the ports that they declare.
pub data Leaf : Type 0 where
  function_action function_condition : Leaf
  custom_action custom_condition stateful_action : List PortDefinition → Leaf
  always_success always_failure always_running : Leaf
  set_blackboard check_blackboard : Leaf

pub data ParallelPolicy : Type 0 where
  require_all_success require_one_success require_all_complete : ParallelPolicy

pub record Parallel : Type 0 where
  pub policy : Option ParallelPolicy
  pub raw_success_threshold : ℤ
  pub failure_threshold : ℤ

-- `_running_child_idx` and `_bb_subscriptions`: the scope and the subscription's id.
-- `_dirty` is in the world, since the callbacks of the blackboards set it.
pub record Reactive : Type 0 where
  pub running_child_idx : Option ℕ
  pub bb_subscriptions : List (ℕ × ℕ)

pub data Control : Type 0 where
  sequence fallback : (current_idx : ℕ) → Control
  parallel : Parallel → Control
  reactive_sequence reactive_fallback : Reactive → Control

-- Durations and periods are in nanoseconds.
pub data Decorator : Type 0 where
  inverter force_success force_failure sub_tree : Decorator
  timeout : (duration : ℤ) (start_time : Option ℕ) → Decorator
  rate_controller : (ctor_period : ℤ) (last_tick : Option ℕ) (last_status : Status) → Decorator
  retry : (max_attempts : ℤ) (attempts : ℕ) → Decorator

mutual
  pub data Node : Type 0 where
    leaf : Base → Leaf → Node
    control : Base → Control → Nodes → Node
    decorator : Base → Decorator → Node → Node

  pub data Nodes : Type 0 where
    nil : Nodes
    cons : Node → Nodes → Nodes

unfoldable pub base : Node → Base
base (leaf b l) = b
base (control b c ns) = b
base (decorator b d n) = b

unfoldable pub with_base : Node → Base → Node
with_base (leaf b l) b' = leaf b' l
with_base (control b c ns) b' = control b' c ns
with_base (decorator b d n) b' = decorator b' d n

unfoldable pub status : Node → Status
unfolding base
status n = (base n).status

unfoldable pub uid : Node → ℕ
unfolding base
uid n = (base n).uid

abbrev pub with_status : Base → Status → Base
with_status b s = record b { status = s }

leaf_type : Leaf → NodeType
leaf_type function_condition = condition
leaf_type (custom_condition ports) = condition
leaf_type check_blackboard = condition
leaf_type _ = action

-- The class attribute `node_type`.
unfoldable pub node_type : Node → NodeType
unfolding leaf_type
node_type (leaf b l) = leaf_type l
node_type (control b c ns) = control
node_type (decorator b d n) = decorator

leaf_ports : Leaf → List PortDefinition
leaf_ports (custom_action ports) = ports
leaf_ports (custom_condition ports) = ports
leaf_ports (stateful_action ports) = ports
leaf_ports set_blackboard = input_port "key" none_value ∷ input_port "value" none_value ∷ []
leaf_ports check_blackboard = input_port "key" none_value ∷ []
leaf_ports _ = []

control_ports : Control → List PortDefinition
control_ports (parallel p) =
    input_port "success_threshold" (int (negsuc 0))
    ∷ input_port "failure_threshold" (int (pos 1))
    ∷ []
control_ports _ = []

decorator_ports : Decorator → List PortDefinition
decorator_ports (timeout d s) = input_port "duration" (float (pos nano)) ∷ []
decorator_ports (rate_controller p t s) = input_port "hz" (float (pos nano)) ∷ []
decorator_ports (retry m a) =
    input_port "num_attempts" (int (pos 3)) ∷ input_port "max_attempts" (int (pos 3)) ∷ []
decorator_ports _ = []

-- The class method `provided_ports`.
unfoldable pub provided_ports : Node → List PortDefinition
unfolding leaf_ports control_ports decorator_ports
provided_ports (leaf b l) = leaf_ports l
provided_ports (control b c ns) = control_ports c
provided_ports (decorator b d n) = decorator_ports d
