-- ===== src/Builder/Calls.antt =====
-- bteng/core/tree_builder.py: the calls of a client, one after another. An exception ends them.
use bteng.Prelude.{String, ℤ, ◌≡◌, refl, Option, none, List, [], ◌∷◌}
use bteng.Value.{Value}
use bteng.Node.{NodeConfig, Leaf, Control, Decorator}
use bteng.Builder.{Builder, Result, done, raised, end_scope}
use bteng.Builder.Scopes
use bteng.Builder.Scopes.{
  open_control, open_decorator, add_function, unstarted, thousandth, with_input, with_output,
  with_param, configure_last, node,
}

-- The methods that open the scope of a control node, but for the name that they take.
pub data ControlCall : Type 0 where
  sequence fallback reactive_sequence reactive_fallback : ControlCall
  parallel : (success_threshold failure_threshold : ℤ) → ControlCall

-- The same for a decorator.
pub data DecoratorCall : Type 0 where
  inverter force_success force_failure : DecoratorCall
  retry : (max_attempts : ℤ) → DecoratorCall
  timeout : (msec : ℤ) → DecoratorCall

pub data LeafCall : Type 0 where
  action condition : (name : String) → LeafCall
  node_call : (type_name node_name : String) (attrs : List (String × Value)) → LeafCall

pub data Mapping : Type 0 where
  map map_output : (port key : String) → Mapping
  literal : (port : String) (value : Value) → Mapping

pub data Call : Type 0 where
  control_call : ControlCall → (name : String) → Call
  decorator_call : DecoratorCall → (name : String) → Call
  leaf_call : LeafCall → Call
  mapping : Mapping → Call
  end_call : Call

unfoldable pub perform_control : ControlCall → String → Builder → Builder
perform_control sequence name = Scopes.sequence name
perform_control fallback name = Scopes.fallback name
perform_control reactive_sequence name = Scopes.reactive_sequence name
perform_control reactive_fallback name = Scopes.reactive_fallback name
perform_control (parallel s f) name = Scopes.parallel name s f

unfoldable pub perform_decorator : DecoratorCall → String → Builder → Builder
perform_decorator inverter name = Scopes.inverter name
perform_decorator force_success name = Scopes.force_success name
perform_decorator force_failure name = Scopes.force_failure name
perform_decorator (retry n) name = Scopes.retry n name
perform_decorator (timeout msec) name = Scopes.timeout msec name

abbrev pub change : Mapping → NodeConfig → NodeConfig
change (map port key) = with_input port key
change (map_output port key) = with_output port key
change (literal port value) = with_param port value

unfoldable pub perform_mapping : Mapping → Builder → Builder
perform_mapping (map port key) = Scopes.map port key
perform_mapping (map_output port key) = Scopes.map_output port key
perform_mapping (literal port value) = Scopes.literal port value

module _ (classes : String → Option Leaf) where
  unfoldable pub perform_leaf : LeafCall → Builder → Result
  perform_leaf (action name) b = done (Scopes.action name b)
  perform_leaf (condition name) b = done (Scopes.condition name b)
  perform_leaf (node_call type_name node_name attrs) b = node classes type_name node_name attrs b

  unfoldable pub perform : Call → Builder → Result
  unfolding perform_control perform_decorator perform_leaf perform_mapping
  perform (control_call c name) b = done (perform_control c name b)
  perform (decorator_call c name) b = done (perform_decorator c name b)
  perform (leaf_call c) b = perform_leaf c b
  perform (mapping m) b = done (perform_mapping m b)
  perform end_call b = end_scope b

  unfoldable pub run : List Call → Builder → Result
  unfolding perform
  run [] b = done b
  run (c ∷ cs) b = elim (perform c b) [ done b' ↦ run cs b' | raised b' ↦ raised b' ]

-- What the methods that open a scope have in common.
abbrev pub control_type : ControlCall → String
control_type sequence = "Sequence"
control_type fallback = "Fallback"
control_type reactive_sequence = "ReactiveSequence"
control_type reactive_fallback = "ReactiveFallback"
control_type (parallel s f) = "Parallel"

abbrev pub control_of : ControlCall → Control
control_of sequence = Control.sequence 0
control_of fallback = Control.fallback 0
control_of reactive_sequence = Control.reactive_sequence unstarted
control_of reactive_fallback = Control.reactive_fallback unstarted
control_of (parallel s f) =
    Control.parallel (record { policy = none; raw_success_threshold = s; failure_threshold = f })

abbrev pub decorator_type : DecoratorCall → String
decorator_type inverter = "Inverter"
decorator_type force_success = "ForceSuccess"
decorator_type force_failure = "ForceFailure"
decorator_type (retry n) = "Retry"
decorator_type (timeout msec) = "Timeout"

abbrev pub decorator_of : DecoratorCall → Decorator
decorator_of inverter = Decorator.inverter
decorator_of force_success = Decorator.force_success
decorator_of force_failure = Decorator.force_failure
decorator_of (retry n) = Decorator.retry n 0
decorator_of (timeout msec) = Decorator.timeout (thousandth msec) none

pub perform_control-open :
    (c : ControlCall) (name : String) (b : Builder)
    → perform_control c name b ≡ open_control (control_type c) (control_of c) name b
unfolding perform_control Scopes.sequence Scopes.fallback Scopes.reactive_sequence
    Scopes.reactive_fallback Scopes.parallel
perform_control-open sequence name b = refl
perform_control-open fallback name b = refl
perform_control-open reactive_sequence name b = refl
perform_control-open reactive_fallback name b = refl
perform_control-open (parallel s f) name b = refl

pub perform_decorator-open :
    (c : DecoratorCall) (name : String) (b : Builder)
    → perform_decorator c name b ≡ open_decorator (decorator_type c) (decorator_of c) name b
unfolding perform_decorator Scopes.inverter Scopes.force_success Scopes.force_failure Scopes.retry
    Scopes.timeout
perform_decorator-open inverter name b = refl
perform_decorator-open force_success name b = refl
perform_decorator-open force_failure name b = refl
perform_decorator-open (retry n) name b = refl
perform_decorator-open (timeout msec) name b = refl

pub perform_mapping-change :
    (m : Mapping) (b : Builder) → perform_mapping m b ≡ configure_last (change m) b
unfolding perform_mapping Scopes.map Scopes.map_output Scopes.literal
perform_mapping-change (map port key) b = refl
perform_mapping-change (map_output port key) b = refl
perform_mapping-change (literal port value) b = refl
