-- ===== src/Examples.antt =====
-- Concrete trees, worlds and client code for the runs of the children of this module.
pub mod Ticks
pub mod Boards
pub mod Snapshots
pub mod Trees
pub mod Runs
pub mod Tasks
pub mod Coroutines
pub mod Tools
pub mod Building
pub mod Factories
pub mod Documents
use bteng.Prelude.{
  ℕ, zero, suc, String, ℤ, pos, Bool, true, false, Option, none, some, List, [], ◌∷◌, ◌==◌,
  if◌then◌else◌,
}
use bteng.Value.{Status, idle, running, success, failure, Value, int, text}
use bteng.Blackboard.{Board, Callback, new_board}
use bteng.Node.{
  Node, Nodes, leaf, control, decorator, nil, cons, Base, NodeConfig, sequence, fallback, parallel,
  require_all_complete, retry, always_success, always_failure, stateful_action, set_blackboard,
}
use bteng.World.{World, Host, Answer, Call, set_value}
use bteng.Tree.{Tree}
use bteng.Executor.{Executor}

abbrev pub config : NodeConfig
config = record {
  blackboard = some 1;
  input_ports = [];
  output_ports = [];
  params = [];
  node_id = 0;
}

abbrev pub plain : ℕ → Base
plain uid = record {
  uid = uid;
  name = "node";
  config = config;
  status = idle;
  tick_count = 0;
  feedback_message = "";
  inspector = true;
  tracer = false;
}

-- A scope, and a child that redirects "speed" to "velocity".
abbrev pub boards : List Board
boards = new_board "root" none [] ∷ new_board "child" (some 0) (("speed", "velocity") ∷ []) ∷ []

abbrev pub world : World
world = record {
  boards = boards;
  dirty = λ i. false;
  reads = 0;
  events = [];
  calls = [];
  notified = [];
}

-- The action 2 goes on for ever, 4 raises, all others succeed; each writes to the board.
abbrev pub reply : ℕ → Option Value
reply uid =
    if uid == 2
    then some (Value.status running)
    else if uid == 4
    then none
    else some (Value.status success)

abbrev pub answer : World → Call → Answer
answer w c = record { reply = reply c.uid; effects = set_value 1 "speed" (int (pos 5)) ∷ [] }

abbrev pub host : Host
host = record { answer = answer; reading = λ k. k; alive = λ k c. true }

abbrev pub ok : Node
ok = leaf (plain 1) always_success

abbrev pub move : Node
move = leaf (plain 2) (stateful_action [])

abbrev pub crash : Node
crash = leaf (plain 4) (stateful_action [])

abbrev pub bad : Node
bad = leaf (plain 6) always_failure

abbrev pub goal : Node
goal = control (plain 0) (sequence 0) (cons ok (cons move nil))

abbrev pub again : Node
again = decorator (plain 5) (retry (pos 3) 0) goal

abbrev pub tree : Tree
tree = record { id = "main"; root = again; blackboard = 0; pending_mods = [] }

abbrev pub executor : Executor
executor = record {
  halt_on_completion = true;
  has_callback = true;
  tree = some tree;
  inspector = true;
  tracer = true;
  tick_count = 0;
  final_status = none;
  nodes_setup = false;
  setup_uids = [];
  hooks = [];
  frames = [];
  completions = [];
  loop_running = false;
  paused = false;
}
