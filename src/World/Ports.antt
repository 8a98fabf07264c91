-- ===== src/World/Ports.antt =====
-- bteng/core/node.py: get_input and set_output.
use bteng.Prelude.{ℕ, String, Bool, true, false, Option, none, some, or_else}
use bteng.Prelude.Dict.{lookup}
use bteng.Value.{Value}
use bteng.Node.{Base, NodeConfig}
use bteng.World.{World, Host, board_get, board_set}

-- The port's scope and key, if the port is mapped and the node has a blackboard.
unfoldable pub bound_key : Option ℕ → Option String → Option (ℕ × String)
bound_key (some id) (some key) = some (id, key)
bound_key _ _ = none

unfoldable pub get_input : World → NodeConfig → String → Value → Value
unfolding bound_key
get_input w c port default = elim (bound_key c.blackboard (lookup port c.input_ports)) [
  | some (id, key) ↦ board_get w id key default
  | none ↦ or_else (lookup port c.params) default
]

unfoldable pub set_output : Host → Base → String → Value → World → Bool × World
unfolding bound_key
set_output host b port value w =
    elim (bound_key b.config.blackboard (lookup port b.config.output_ports)) [
      | some (id, key) ↦ (true, board_set host id key value (some b.uid) w)
      | none ↦ (false, w)
    ]
