-- ===== src/Factory/Plugins.antt =====
-- bteng/factory/factory.py: load_plugin and load_module. Running the body of a module is importlib's
-- and the client's, so its outcome and what it does to sys.modules and to the factory are parameters.
-- A module is known by a number, and `mod_key` is the text made of the path's hash.
use text.Mathlib.Text.{starts_with}
use bteng.Prelude.{
  ℕ, String, Bool, true, false, not, ◌&&◌, ◌||◌, Option, none, some, List, [], ◌∷◌, str_eq,
  if◌then◌else◌,
}
use bteng.Prelude.Dict.{lookup, insert, erase}
use bteng.Factory.{NodeClass, NodeFactory, register}

-- A name of `dir(mod)`, in its order, and the subclass of TreeNode behind it, if there is one.
pub record Attribute : Type 0 where
  pub name : String
  pub class_ : Option NodeClass

-- `bteng_nodes` is BTENG_NODES, if the module has it; an entry is `none` where its unpacking, or
-- register at its start, raises.
pub record Module : Type 0 where
  pub identity : ℕ
  pub name : String
  pub bteng_nodes : Option (List (Option (String × NodeClass)))
  pub attributes : List Attribute

-- The class is registered: not private, defined in the module, not abstract.
unfoldable pub is_exported : String → String → NodeClass → Bool
is_exported mod_name attr_name c =
    not (starts_with attr_name "_")
    && (str_eq mod_name "" || str_eq c.module_name mod_name)
    && not c.abstract_class

unfoldable pub discover_one : String → Attribute → NodeFactory → NodeFactory
unfolding is_exported
discover_one mod_name a f = elim a.class_ [
  | none ↦ f
  | some c ↦ if is_exported mod_name a.name c then register c none none f else f
]

-- _auto_discover
unfoldable pub auto_discover : String → List Attribute → NodeFactory → NodeFactory
unfolding discover_one
auto_discover mod_name [] f = f
auto_discover mod_name (a ∷ rest) f = auto_discover mod_name rest (discover_one mod_name a f)

-- The loop over BTENG_NODES, and whether it was completed: an entry that is `none` raises, where the
-- entries before it are registered.
unfoldable pub register_entries :
    List (Option (String × NodeClass)) → NodeFactory → NodeFactory × Bool
register_entries [] f = (f, true)
register_entries (none ∷ rest) f = (f, false)
register_entries (some (name, c) ∷ rest) f = register_entries rest (register c (some name) none f)

unfoldable pub register_module : Module → NodeFactory → NodeFactory × Bool
unfolding auto_discover register_entries
register_module m f = elim m.bteng_nodes [
  | some nodes ↦ register_entries nodes f
  | none ↦ (auto_discover m.name m.attributes f, true)
]

-- What the body of a module does to sys.modules and to the factory, before it ends or raises.
pub record Body : Type 0 where
  pub imports : List (String × ℕ) → List (String × ℕ)
  pub registers : NodeFactory → NodeFactory

-- What comes of a path: no loader for it, a body that raises, or a module.
pub data Execution : Type 0 where
  no_loader : Execution
  body_raises : (identity : ℕ) → Body → Execution
  executed : Module → Body → Execution

-- The exception, sys.modules and the factory behind load_plugin. An exception of the loop over
-- BTENG_NODES is let through.
pub data LoadError : Type 0 where
  import_error plugin_load_error registration_error : LoadError

pub record Loaded : Type 0 where
  pub error : Option LoadError
  pub sys_modules : List (String × ℕ)
  pub factory : NodeFactory

abbrev pub error_of : Bool → Option LoadError
error_of true = none
error_of false = some registration_error

-- The `finally` of a body that raised: what was under the key is put back, or the key is removed.
unfoldable pub restore : String → Option ℕ → List (String × ℕ) → List (String × ℕ)
restore mod_key (some previous) modules = insert mod_key previous modules
restore mod_key none modules = erase mod_key modules

unfoldable pub load_plugin : String → Execution → List (String × ℕ) → NodeFactory → Loaded
unfolding restore register_module
load_plugin mod_key no_loader modules f = record {
  error = some import_error;
  sys_modules = modules;
  factory = f;
}
load_plugin mod_key (body_raises identity body) modules f = record {
  error = some plugin_load_error;
  sys_modules =
      restore mod_key (lookup mod_key modules) (body.imports (insert mod_key identity modules));
  factory = body.registers f;
}
load_plugin mod_key (executed m body) modules f =
    let (f', completed) = register_module m (body.registers f) in
    record {
      error = error_of completed;
      sys_modules = body.imports (insert mod_key m.identity modules);
      factory = f';
    }

-- load_module, where the import gives the module: whether the registration was completed.
unfoldable pub load_module : Module → Body → NodeFactory → NodeFactory × Bool
unfolding register_module
load_module m body f = register_module m (body.registers f)
