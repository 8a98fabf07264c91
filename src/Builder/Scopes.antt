-- ===== src/Builder/Scopes.antt =====
-- bteng/core/tree_builder.py: the methods that open a scope or add a leaf, and the port mappings.
use bteng.Prelude.{zero, suc, ◌+◌, ◌/◌, String, ℤ, pos, negsuc, Option, none, some, List, []}
use bteng.Prelude.Dict.{insert}
use bteng.Value.{Value}
use bteng.Node.{
  Node, Nodes, leaf, control, decorator, nil, cons, base, with_base, NodeConfig, Leaf,
  function_action, function_condition, Control, Reactive, Decorator,
}
use bteng.Builder.{
  Builder, Result, done, raised, top, newest_child, at_root, name_or_auto, make_config, new_base,
  at_top, placeholder, draw_uid, push_frame, attach_leaf,
}

-- The methods for control nodes, which differ in the class.
unfoldable pub open_control : String → Control → String → Builder → Builder
unfolding name_or_auto make_config draw_uid new_base push_frame
open_control type_name c name b =
    let (name', named) = name_or_auto name type_name b in
    let (uid, drawn) = draw_uid named in
    push_frame (control (new_base uid name' (make_config [] named)) c nil) drawn

unfoldable pub sequence : String → Builder → Builder
unfolding open_control
sequence name = open_control "Sequence" (Control.sequence 0) name

unfoldable pub fallback : String → Builder → Builder
unfolding open_control
fallback name = open_control "Fallback" (Control.fallback 0) name

unfoldable pub parallel : String → ℤ → ℤ → Builder → Builder
unfolding open_control
parallel name success_threshold failure_threshold =
    open_control "Parallel"
      (Control.parallel (record {
        policy = none;
        raw_success_threshold = success_threshold;
        failure_threshold = failure_threshold;
      }))
      name

abbrev pub unstarted : Reactive
unstarted = record { running_child_idx = none; bb_subscriptions = [] }

unfoldable pub reactive_sequence : String → Builder → Builder
unfolding open_control
reactive_sequence name = open_control "ReactiveSequence" (Control.reactive_sequence unstarted) name

unfoldable pub reactive_fallback : String → Builder → Builder
unfolding open_control
reactive_fallback name = open_control "ReactiveFallback" (Control.reactive_fallback unstarted) name

-- The methods for decorators, which differ in the class. The placeholder is created first.
unfoldable pub open_decorator : String → Decorator → String → Builder → Builder
unfolding name_or_auto make_config draw_uid new_base placeholder push_frame
open_decorator type_name d name b =
    let (held, b') = draw_uid b in
    let (name', named) = name_or_auto name type_name b' in
    let (uid, drawn) = draw_uid named in
    push_frame (decorator (new_base uid name' (make_config [] named)) d (placeholder held)) drawn

unfoldable pub inverter : String → Builder → Builder
unfolding open_decorator
inverter name = open_decorator "Inverter" Decorator.inverter name

unfoldable pub retry : ℤ → String → Builder → Builder
unfolding open_decorator
retry max_attempts name = open_decorator "Retry" (Decorator.retry max_attempts 0) name

-- x / 1000.0, of a number of 10^-9
abbrev pub thousandth : ℤ → ℤ
thousandth (pos n) = pos (n / 1000)
thousandth (negsuc n) = elim ((n + 1) / 1000) [ zero ↦ pos 0 | suc k ↦ negsuc k ]

unfoldable pub timeout : ℤ → String → Builder → Builder
unfolding open_decorator
timeout msec name = open_decorator "Timeout" (Decorator.timeout (thousandth msec) none) name

unfoldable pub force_success : String → Builder → Builder
unfolding open_decorator
force_success name = open_decorator "ForceSuccess" Decorator.force_success name

unfoldable pub force_failure : String → Builder → Builder
unfolding open_decorator
force_failure name = open_decorator "ForceFailure" Decorator.force_failure name

-- action and condition, with the tag of the class; what the function does is the client's.
unfoldable pub add_function : Leaf → String → Builder → Builder
unfolding make_config draw_uid new_base attach_leaf
add_function l name b =
    let (uid, drawn) = draw_uid b in
    attach_leaf (leaf (new_base uid name (make_config [] b)) l) drawn

unfoldable pub action : String → Builder → Builder
unfolding add_function
action name = add_function function_action name

unfoldable pub condition : String → Builder → Builder
unfolding add_function
condition name = add_function function_condition name

-- node, with the class that the factory has under the name: a leaf class, or `none` where
-- create_leaf raises. A control or decorator class under that name is not modelled.
unfoldable pub node :
    (String → Option Leaf) → String → String → List (String × Value) → Builder → Result
unfolding name_or_auto make_config draw_uid new_base attach_leaf
node classes type_name node_name attrs b =
    let (name, named) = name_or_auto node_name type_name b in
    elim (classes type_name) [
      | none ↦ raised named
      | some l ↦
          let (uid, drawn) = draw_uid named in
          done (attach_leaf (leaf (new_base uid name (make_config attrs named)) l) drawn)
    ]

-- A change of the configuration of one node.
unfoldable pub reconfigure : (NodeConfig → NodeConfig) → Node → Node
unfolding base with_base
reconfigure f n = with_base n (record (base n) { config = f (base n).config })

unfoldable pub reconfigure_newest : (NodeConfig → NodeConfig) → Nodes → Nodes
unfolding reconfigure
reconfigure_newest f nil = nil
reconfigure_newest f (cons n nil) = cons (reconfigure f n) nil
reconfigure_newest f (cons n (cons m ns)) = cons n (reconfigure_newest f (cons m ns))

unfoldable pub reconfigure_child : (NodeConfig → NodeConfig) → Node → Node
unfolding reconfigure reconfigure_newest
reconfigure_child f (leaf b l) = leaf b l
reconfigure_child f (control b c ns) = control b c (reconfigure_newest f ns)
reconfigure_child f (decorator b d n) = decorator b d (reconfigure f n)

-- A change of `self._last_node._config`.
unfoldable pub configure_last : (NodeConfig → NodeConfig) → Builder → Builder
unfolding reconfigure reconfigure_child
configure_last f b = elim b.last [
  | top ↦ record b { stack = at_top (reconfigure f) b.stack }
  | newest_child ↦ record b { stack = at_top (reconfigure_child f) b.stack }
  | at_root ↦ record b { root = elim b.root [ none ↦ none | some n ↦ some (reconfigure f n) ] }
  | _ ↦ b
]

abbrev pub with_input : String → String → NodeConfig → NodeConfig
with_input port key c = record c { input_ports = insert port key c.input_ports }

abbrev pub with_output : String → String → NodeConfig → NodeConfig
with_output port key c = record c { output_ports = insert port key c.output_ports }

abbrev pub with_param : String → Value → NodeConfig → NodeConfig
with_param port value c = record c { params = insert port value c.params }

unfoldable pub map : String → String → Builder → Builder
unfolding configure_last
map port blackboard_key = configure_last (with_input port blackboard_key)

unfoldable pub map_output : String → String → Builder → Builder
unfolding configure_last
map_output port blackboard_key = configure_last (with_output port blackboard_key)

unfoldable pub literal : String → Value → Builder → Builder
unfolding configure_last
literal port value = configure_last (with_param port value)
