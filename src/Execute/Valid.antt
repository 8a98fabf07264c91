-- ===== src/Execute/Valid.antt =====
-- What `execute_tick` reports, and what it records in the node.
use bteng.Prelude.{ℕ, ◌+◌, ◌≡◌, ◌≢◌, refl, Option, List, [], ◌∷◌, arith}
use bteng.Value.{Status, idle, running, success, failure, Value}
use bteng.Node.{
  Node, Base, base, with_base, Leaf, leaf, control, decorator, Control, Decorator, timeout,
  rate_controller, retry, set_blackboard, check_blackboard, sequence, fallback, parallel,
  reactive_sequence, reactive_fallback, Parallel, Reactive,
}
use bteng.World.{World, Host}
use bteng.Tick.{returned, invalid, raised, Ticked, Child}
use bteng.Tick.Sequence.{tick_sequence}
use bteng.Tick.Fallback.{tick_fallback}
use bteng.Tick.Parallel.{tick_parallel}
use bteng.Tick.ReactiveSequence.{tick_reactive_sequence}
use bteng.Tick.ReactiveFallback.{tick_reactive_fallback}
use bteng.Tick.Decorators.{tick_decorator}
use bteng.Tick.Leaves.{tick_leaf, write_key, check_key}
use bteng.Execute.{conclude, tick_control, execute_tick, as_children}

-- The fields that the body of `tick` leaves alone: all but the feedback message.
abbrev pub SameFields : Base → Base → Type 0
SameFields b b' = b' ≡ record b { feedback_message = b'.feedback_message }

abbrev pub Keeps : Base → Ticked → Type 0
Keeps b t = SameFields b (base t.node)

module _ (host : Host) (b : Base) where
  write_key-Keeps :
      (board : Option ℕ) (key : Value) (w : World) → Keeps b (write_key host b board key w)
  unfolding write_key base
  write_key-Keeps board key w = ground arith

  check_key-Keeps : (board : Option ℕ) (key : Value) (w : World) → Keeps b (check_key b board key w)
  unfolding check_key base
  check_key-Keeps board key w = ground arith

  leaf-Keeps : (l : Leaf) (w : World) → Keeps b (tick_leaf host b l w)
  unfolding tick_leaf base
  leaf-Keeps set_blackboard w = write_key-Keeps _ _ w
  leaf-Keeps check_blackboard w = check_key-Keeps _ _ w
  leaf-Keeps l w = ground arith

  sequence-Keeps : (i : ℕ) (cs : List Child) (w : World) → Keeps b (tick_sequence host b i cs w)
  unfolding tick_sequence base
  sequence-Keeps i cs w = ground arith

  fallback-Keeps : (i : ℕ) (cs : List Child) (w : World) → Keeps b (tick_fallback host b i cs w)
  unfolding tick_fallback base
  fallback-Keeps i cs w = ground arith

  parallel-Keeps :
      (p : Parallel) (cs : List Child) (w : World) → Keeps b (tick_parallel host b p cs w)
  unfolding tick_parallel base
  parallel-Keeps p [] w = refl
  parallel-Keeps p (c ∷ cs) w = ground arith

  reactive_sequence-Keeps :
      (r : Reactive) (cs : List Child) (w : World) → Keeps b (tick_reactive_sequence host b r cs w)
  unfolding tick_reactive_sequence base
  reactive_sequence-Keeps r cs w = ground arith

  reactive_fallback-Keeps :
      (r : Reactive) (cs : List Child) (w : World) → Keeps b (tick_reactive_fallback host b r cs w)
  unfolding tick_reactive_fallback base
  reactive_fallback-Keeps r cs w = ground arith

  control-Keeps : (c : Control) (cs : List Child) (w : World) → Keeps b (tick_control host b c cs w)
  unfolding tick_control
  control-Keeps (sequence i) cs w = sequence-Keeps i cs w
  control-Keeps (fallback i) cs w = fallback-Keeps i cs w
  control-Keeps (parallel p) cs w = parallel-Keeps p cs w
  control-Keeps (reactive_sequence r) cs w = reactive_sequence-Keeps r cs w
  control-Keeps (reactive_fallback r) cs w = reactive_fallback-Keeps r cs w

  decorator-Keeps : (d : Decorator) (c : Child) (w : World) → Keeps b (tick_decorator host b d c w)
  unfolding tick_decorator base
  decorator-Keeps (timeout d start) c w = ground arith
  decorator-Keeps (rate_controller p t s) c w = ground arith
  decorator-Keeps (retry m a) c w = ground arith
  decorator-Keeps d c w = ground arith

-- What is expected of a tick of a node with the fields `b`.
abbrev pub IsConcluded : Base → Ticked → Type 0
IsConcluded b t = elim t.outcome [
  | returned s ↦
      (s ≢ idle)
      × ((base t.node).status ≡ s)
      × ((base t.node).tick_count ≡ b.tick_count + 1)
      × ((base t.node).uid ≡ b.uid)
  | invalid ↦ ⊥
  | raised e ↦
      ((base t.node).status ≡ b.status)
      × ((base t.node).tick_count ≡ b.tick_count)
      × ((base t.node).uid ≡ b.uid)
]

base-with_base : (n : Node) (b : Base) → base (with_base n b) ≡ b
unfolding base with_base
base-with_base (leaf b l) b' = refl
base-with_base (control b c ns) b' = refl
base-with_base (decorator b d n) b' = refl

abbrev concluded : Base → Status → Base
concluded b s = record b { status = s; tick_count = b.tick_count + 1 }

conclude-IsConcluded : (b : Base) (t : Ticked) → Keeps b t → IsConcluded b (conclude b.status t)
unfolding conclude
conclude-IsConcluded b t k = ground (
  arith,
  base-with_base t.node (concluded (base t.node) running),
  base-with_base t.node (concluded (base t.node) success),
  base-with_base t.node (concluded (base t.node) failure),
)

-- For every node and client code, `execute_tick` returns RUNNING, SUCCESS or FAILURE and raises
-- otherwise. A returned status is the node's status afterwards and the tick is counted; an
-- exception leaves the node's own status and count as they were. The uid stays.
pub execute_tick-IsConcluded :
    (host : Host) (n : Node) (w : World) → IsConcluded (base n) (execute_tick host n w)
unfolding execute_tick base
execute_tick-IsConcluded host (leaf b l) w =
    conclude-IsConcluded b (tick_leaf host b l w) (leaf-Keeps host b l w)
execute_tick-IsConcluded host (control b c ns) w =
    conclude-IsConcluded b (tick_control host b c (as_children host ns) w)
      (control-Keeps host b c (as_children host ns) w)
execute_tick-IsConcluded host (decorator b d n) w =
    let child : Child = record { node = n; run = λ w'. execute_tick host n w' } in
    conclude-IsConcluded b (tick_decorator host b d child w) (decorator-Keeps host b d child w)
