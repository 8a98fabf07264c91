-- ===== src/Examples/Factories.antt =====
-- Runs of bteng/factory/factory.py.
use bteng.Prelude.{ℕ, String, ◌≡◌, refl, false, none, some, List, [], ◌∷◌}
use bteng.Prelude.Dict.{lookup, insert}
use bteng.Node.{action, stateful_action}
use bteng.Factory.{NodeClass, leaf_class, register, register_many}
use bteng.Factory.Builtins.{new_factory}
use bteng.Factory.Singleton.{
  Operation, decorated, was_reset, asked, operate_all, at_import, get_instance, reset_instance,
  last_under, noted_all,
}
use bteng.Factory.Replay.{get_instance_lem}
use bteng.Factory.Plugins.{Execution, body_raises, load_plugin}

abbrev client_class : ℕ → String → NodeClass
client_class identity class_name = record {
  identity = identity;
  class_name = class_name;
  module_name = "robot";
  abstract_class = false;
  node_type = action;
  provided = none;
  constructor = leaf_class (stateful_action []);
}

-- A class takes over a built-in name, and another is registered under its own name.
abbrev session : List Operation
session =
    decorated (client_class 20 "Sequence") none
    ∷ asked
    ∷ decorated (client_class 21 "Door") (some "open_door")
    ∷ was_reset
    ∷ []

get_instance_lem_example :
    lookup "open_door" (get_instance (operate_all session at_import)).0.registry
    ≡ last_under "open_door" (noted_all session []) (lookup "open_door" new_factory.registry)
get_instance_lem_example = get_instance_lem "open_door" session

door_found :
    lookup "open_door" (get_instance (operate_all session at_import)).0.registry
    ≡ some (client_class 21 "Door")
unfolding lookup get_instance operate_all reset_instance register_many insert new_factory
door_found = refl

-- Its body imports another module and registers a class, and raises.
abbrev raising : Execution
raising = body_raises 9 (record {
  imports = λ d. ("helper", 5) ∷ d;
  registers = register (client_class 22 "Lamp") none none;
})

raising_found :
    let r = load_plugin "plugin_1" raising (("plugin_1", 4) ∷ []) new_factory in
    (lookup "plugin_1" r.sys_modules ≡ some 4)
    × (lookup "Lamp" r.factory.registry ≡ some (client_class 22 "Lamp"))
unfolding load_plugin lookup insert register new_factory register_many
raising_found = (refl, refl)
