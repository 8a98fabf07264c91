-- ===== src/Tick/Leaves.antt =====
-- bteng/nodes/leaf: action.py, condition.py, stateful_action.py and builtins.py.
-- A blackboard key that is not a text is taken to raise TypeError, and what a feedback message
-- quotes is left out of it.
use bteng.Prelude.{ℕ, String, Option, none, some, if◌then◌else◌}
use bteng.Value.{Status, running, success, failure, Value, none_value, text, truthy}
use bteng.Node.{
  Base, Leaf, leaf, function_action, function_condition, custom_action, custom_condition,
  stateful_action, always_success, always_failure, always_running, set_blackboard, check_blackboard,
}
use bteng.World.{World, Host, Phase, call, on_start, on_running, run_client, board_set, board_has}
use bteng.World.Ports.{get_input}
use bteng.Lifecycle.{is_running}
use bteng.Tick.{Outcome, type_error, client_error, returned, invalid, raised, Ticked}

-- What the client's function returned, or raised.
unfoldable pub function_outcome : ℕ → Option Value → Outcome
function_outcome uid none = raised (client_error uid)
function_outcome uid (some (Value.status s)) = returned s
function_outcome uid (some v) = returned (if truthy v then success else failure)

-- What the client's `tick` returned: not converted.
unfoldable pub method_outcome : ℕ → Option Value → Outcome
method_outcome uid none = raised (client_error uid)
method_outcome uid (some (Value.status s)) = returned s
method_outcome uid (some v) = invalid

-- A call of the client's code at a leaf.
unfoldable pub run_leaf : Host → (Option Value → Outcome) → Phase → Base → Leaf → World → Ticked
run_leaf host outcome phase b l w =
    let (reply, feedback, w') =
      run_client host (record { uid = b.uid; phase = phase }) b.feedback_message w in
    record {
      outcome = outcome reply;
      node = leaf (record b { feedback_message = feedback }) l;
      world = w';
    }

abbrev pub builtin : Outcome → Base → String → Leaf → World → Ticked
builtin o b message l w = record {
  outcome = o;
  node = leaf (record b { feedback_message = message }) l;
  world = w;
}

-- SetBlackboard.tick, for the node's blackboard and the value of the port "key".
unfoldable pub write_key : Host → Base → Option ℕ → Value → World → Ticked
write_key host b board none_value w =
    builtin (returned failure) b "port 'key' not set" set_blackboard w
write_key host b none key w = builtin (returned failure) b "no blackboard attached" set_blackboard w
write_key host b (some id) (text key) w =
    builtin (returned success) b key set_blackboard
      (board_set host id key (get_input w b.config "value" none_value) (some b.uid) w)
write_key host b (some id) key w =
    builtin (raised (type_error b.uid)) b b.feedback_message set_blackboard w

-- CheckBlackboard.tick
unfoldable pub check_key : Base → Option ℕ → Value → World → Ticked
check_key b board none_value w =
    builtin (returned failure) b "port 'key' not set" check_blackboard w
check_key b none key w = builtin (returned failure) b "not set" check_blackboard w
check_key b (some id) (text key) w =
    if board_has w id key
    then builtin (returned success) b key check_blackboard w
    else builtin (returned failure) b "not set" check_blackboard w
check_key b (some id) key w =
    builtin (raised (type_error b.uid)) b b.feedback_message check_blackboard w

abbrev pub constant : Status → Base → Leaf → World → Ticked
constant s b l w = record { outcome = returned s; node = leaf b l; world = w }

unfoldable pub tick_leaf : Host → Base → Leaf → World → Ticked
unfolding function_outcome method_outcome run_leaf write_key check_key
tick_leaf host b function_action w = run_leaf host (function_outcome b.uid) call b function_action w
tick_leaf host b function_condition w =
    run_leaf host (function_outcome b.uid) call b function_condition w
tick_leaf host b (custom_action ports) w =
    run_leaf host (method_outcome b.uid) call b (custom_action ports) w
tick_leaf host b (custom_condition ports) w =
    run_leaf host (method_outcome b.uid) call b (custom_condition ports) w
tick_leaf host b (stateful_action ports) w =
    run_leaf host (method_outcome b.uid) (if is_running b then on_running else on_start) b
      (stateful_action ports) w
tick_leaf host b always_success w = constant success b always_success w
tick_leaf host b always_failure w = constant failure b always_failure w
tick_leaf host b always_running w = constant running b always_running w
tick_leaf host b set_blackboard w =
    write_key host b b.config.blackboard (get_input w b.config "key" none_value) w
tick_leaf host b check_blackboard w =
    check_key b b.config.blackboard (get_input w b.config "key" none_value) w
