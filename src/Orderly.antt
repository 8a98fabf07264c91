-- ===== src/Orderly.antt =====
-- bteng/core/node.py and bteng/nodes: the invariant of a tree between ticks. A tree is calm if no node
-- of it is RUNNING, and orderly if what is below a node that is not RUNNING is calm.
pub mod Halt
pub mod Lists
pub mod Sweep
pub mod Parallel
pub mod Reactive
pub mod ReactiveSequence
pub mod ReactiveFallback
pub mod Decorators
pub mod Tick
pub mod Tip
pub mod Retry
pub mod Timeout
use bteng.Prelude.{
  ℕ, zero, suc, String, ℤ, is_positive, ◌≡◌, ◌≢◌, Bool, true, false, Option, none, some,
}
use bteng.Prelude.Dict.{lookup}
use bteng.Value.{Status, running}
use bteng.Node.{
  Node, Nodes, leaf, control, decorator, nil, cons, Base, NodeConfig, Control, sequence, fallback,
  parallel, reactive_sequence, reactive_fallback, Decorator, rate_controller, retry,
}

abbrev pub IsNotRunning : Status → Type 0
IsNotRunning s = s ≢ running

-- No node of the tree is RUNNING.
abbrev mutual
  pub IsCalm : Node → Type 0
  IsCalm (leaf b l) = IsNotRunning b.status
  IsCalm (control b c ns) = IsNotRunning b.status × AllCalm ns
  IsCalm (decorator b d n) = IsNotRunning b.status × IsCalm n

  pub AllCalm : Nodes → Type 0
  AllCalm nil = Unit
  AllCalm (cons n ns) = IsCalm n × AllCalm ns

-- The first children are calm.
abbrev pub PrefixCalm : ℕ → Nodes → Type 0
PrefixCalm zero ns = Unit
PrefixCalm (suc i) nil = Unit
PrefixCalm (suc i) (cons n ns) = IsCalm n × PrefixCalm i ns

abbrev pub BeforeRunning : Option ℕ → Nodes → Type 0
BeforeRunning none ns = Unit
BeforeRunning (some i) ns = PrefixCalm i ns

-- The children before the cursor, or before the child that runs, are calm.
abbrev pub CursorCalm : Control → Nodes → Type 0
CursorCalm (sequence i) ns = PrefixCalm i ns
CursorCalm (fallback i) ns = PrefixCalm i ns
CursorCalm (parallel p) ns = Unit
CursorCalm (reactive_sequence r) ns = BeforeRunning r.running_child_idx ns
CursorCalm (reactive_fallback r) ns = BeforeRunning r.running_child_idx ns

-- The port is neither mapped nor set, so the constructor's value counts.
pub record IsUnbound (c : NodeConfig) (port : String) : Type 0 where
  pub mapped : lookup port c.input_ports ≡ none
  pub static : lookup port c.params ≡ none

-- A Retry's budget is the constructor's, and positive. (At a budget of 0 it gives up without halting.)
pub record IsBudgeted (c : NodeConfig) (max_attempts : ℤ) : Type 0 where
  pub positive : is_positive max_attempts ≡ true
  pub num_attempts : IsUnbound c "num_attempts"
  pub max_attempts_port : IsUnbound c "max_attempts"

-- What a RateController remembers fits its child.
abbrev pub MemoryCalm : NodeConfig → Decorator → Node → Type 0
MemoryCalm c (rate_controller p t s) n = IsNotRunning s → IsCalm n
MemoryCalm c (retry m a) n = IsBudgeted c m
MemoryCalm c d n = Unit

abbrev mutual
  pub IsOrderly : Node → Type 0
  IsOrderly (leaf b l) = Unit
  IsOrderly (control b c ns) =
      AllOrderly ns × (IsNotRunning b.status → AllCalm ns) × CursorCalm c ns
  IsOrderly (decorator b d n) =
      IsOrderly n × (IsNotRunning b.status → IsCalm n) × MemoryCalm b.config d n

  pub AllOrderly : Nodes → Type 0
  AllOrderly nil = Unit
  AllOrderly (cons n ns) = IsOrderly n × AllOrderly ns
