-- ===== src/Tick.antt =====
-- What a tick returns, and a child as its parent sees it: the node and its `execute_tick`.
-- The children of this module are the `tick` methods of the classes of bteng/nodes.
pub mod Sequence
pub mod Fallback
pub mod Parallel
pub mod Thresholds
pub mod Duality
pub mod Reactive
pub mod ReactiveSequence
pub mod ReactiveFallback
pub mod Decorators
pub mod Leaves
use bteng.Prelude.{ℕ, zero, suc, List, [], ◌∷◌, map}
use bteng.Value.{Status}
use bteng.Node.{Node, Nodes}
use bteng.Node.Children.{to_list, of_list}
use bteng.World.{World, Host}
use bteng.Lifecycle.{halt_children}

pub data Error : Type 0 where
  type_error client_error : (uid : ℕ) → Error
  no_tree : Error

-- A status, another object (`invalid`), or an exception.
pub data Outcome : Type 0 where
  returned : Status → Outcome
  invalid : Outcome
  raised : Error → Outcome

pub record Ticked : Type 0 where
  pub outcome : Outcome
  pub node : Node
  pub world : World

pub record Child : Type 0 where
  pub node : Node
  pub run : World → Ticked

-- Where a loop over the children left: with what, at which child, the children and the world.
pub record Swept : Type 0 where
  pub outcome : Outcome
  pub cursor : ℕ
  pub nodes : List Node
  pub world : World

abbrev pub untouched : List Child → List Node
untouched cs = map (λ c. c.node) cs

-- The loop left at this child.
abbrev pub stop : Outcome → Node → List Node → World → Swept
stop o n ns w = record { outcome = o; cursor = 0; nodes = n ∷ ns; world = w }

-- The loop went on behind this child.
abbrev pub advance : Node → Swept → Swept
advance n s = record s { cursor = suc s.cursor; nodes = n ∷ s.nodes }

abbrev pub finished : Status → World → Swept
finished o w = record { outcome = returned o; cursor = 0; nodes = []; world = w }

-- `_halt_from` and `_halt_children` on the children as a list.
unfoldable pub halt_list : Host → List Node → World → List Node × World
unfolding to_list of_list
halt_list host ns w = let (ns', w') = halt_children host (of_list ns) w in (to_list ns', w')
