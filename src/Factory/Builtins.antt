-- ===== src/Factory/Builtins.antt =====
-- bteng/factory/factory.py: the classes that are registered from the start.
use bteng.Prelude.{ℕ, String, pos, negsuc, false, none, some, List, [], ◌∷◌}
use bteng.Value.{idle, nano}
use bteng.Node.{
  Node, nil, leaf, Base, always_success, Control, Reactive, Decorator, NodeType, provided_ports,
}
use bteng.Factory.{NodeClass, NodeFactory, control_class, decorator_class, register_many}

abbrev blank : Base
blank = record {
  uid = 0;
  name = "";
  config = record {
    blackboard = none;
    input_ports = [];
    output_ports = [];
    params = [];
    node_id = 0;
  };
  status = idle;
  tick_count = 0;
  feedback_message = "";
  inspector = false;
  tracer = false;
}

abbrev unstarted : Reactive
unstarted = record { running_child_idx = none; bb_subscriptions = [] }

-- A class of bteng/nodes, with the arguments that it has by default.
control_builtin : ℕ → String → String → Control → NodeClass
control_builtin identity class_name module_name c = record {
  identity = identity;
  class_name = class_name;
  module_name = module_name;
  abstract_class = false;
  node_type = NodeType.control;
  provided = some (provided_ports (Node.control blank c nil));
  constructor = control_class c;
}

decorator_builtin : ℕ → String → String → Decorator → NodeClass
decorator_builtin identity class_name module_name d = record {
  identity = identity;
  class_name = class_name;
  module_name = module_name;
  abstract_class = false;
  node_type = NodeType.decorator;
  provided = some (provided_ports (Node.decorator blank d (leaf blank always_success)));
  constructor = decorator_class d;
}

unfoldable pub builtins : List (String × NodeClass)
unfolding control_builtin decorator_builtin
builtins =
    (
      "Sequence",
      control_builtin 0 "SequenceNode" "bteng.nodes.control.sequence" (Control.sequence 0),
    )
    ∷ (
      "Fallback",
      control_builtin 1 "FallbackNode" "bteng.nodes.control.fallback" (Control.fallback 0),
    )
    ∷ (
      "Selector",
      control_builtin 1 "FallbackNode" "bteng.nodes.control.fallback" (Control.fallback 0),
    )
    ∷ (
      "Parallel",
      control_builtin 2 "ParallelNode" "bteng.nodes.control.parallel" (
          Control.parallel (record {
            policy = none;
            raw_success_threshold = negsuc 0;
            failure_threshold = pos 1;
          })),
    )
    ∷ (
      "ReactiveSequence",
      control_builtin 3 "ReactiveSequenceNode" "bteng.nodes.control.reactive_sequence"
          (Control.reactive_sequence unstarted),
    )
    ∷ (
      "ReactiveFallback",
      control_builtin 4 "ReactiveFallbackNode" "bteng.nodes.control.reactive_fallback"
          (Control.reactive_fallback unstarted),
    )
    ∷ (
      "Inverter",
      decorator_builtin 5 "Inverter" "bteng.nodes.decorators.inverter" Decorator.inverter,
    )
    ∷ (
      "Retry",
      decorator_builtin 6 "Retry" "bteng.nodes.decorators.retry" (Decorator.retry (pos 3) 0),
    )
    ∷ (
      "Timeout",
      decorator_builtin 7 "Timeout" "bteng.nodes.decorators.timeout"
          (Decorator.timeout (pos nano) none),
    )
    ∷ (
      "RateController",
      decorator_builtin 8 "RateController" "bteng.nodes.decorators.rate_controller"
          (Decorator.rate_controller (pos nano) none idle),
    )
    ∷ (
      "ForceSuccess",
      decorator_builtin 9 "ForceSuccess" "bteng.nodes.decorators.force_result"
          Decorator.force_success,
    )
    ∷ (
      "ForceFailure",
      decorator_builtin 10 "ForceFailure" "bteng.nodes.decorators.force_result"
          Decorator.force_failure,
    )
    ∷ ("SubTree", decorator_builtin 11 "SubTree" "bteng.nodes.subtree" Decorator.sub_tree)
    ∷ []

-- A factory with _register_builtins.
unfoldable pub new_factory : NodeFactory
unfolding builtins
new_factory = register_many builtins (record { registry = []; manifests = []; warnings = [] })
