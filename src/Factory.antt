-- ===== src/Factory.antt =====
-- bteng/factory/factory.py: NodeFactory, its registry and its singleton, and the loading of plugins.
-- A class is known by its identity. A manifest's description and version are left out, and so are the
-- XML export and keyword arguments beyond the name, the children and the configuration.
pub mod Builtins
pub mod Singleton
pub mod Plugins
pub mod Loading
pub mod Replay
use bteng.Prelude.{
  ℕ, zero, suc, ◌+◌, String, ℤ, pos, Bool, true, false, not, Option, none, some, List, [], ◌∷◌,
  ◌++◌, map, ◌==◌, str_eq, if◌then◌else◌, or_else, is_some, ◌&&◌, ◌||◌,
}
use bteng.Prelude.Dict.{lookup, insert, keys}
use bteng.Node.{
  Node, Nodes, leaf, control, decorator, nil, cons, Base, Leaf, Control, Decorator, NodeType,
  PortDefinition,
}
use bteng.Node.Children.{of_list}

-- What a call of the class makes, in its state before the first tick.
pub data Constructor : Type 0 where
  leaf_class : Leaf → Constructor
  control_class : Control → Constructor
  decorator_class : Decorator → Constructor

-- `provided` is what `provided_ports` returns, or `none` where it raises.
pub record NodeClass : Type 0 where
  pub identity : ℕ
  pub class_name : String
  pub module_name : String
  pub abstract_class : Bool
  pub node_type : NodeType
  pub provided : Option (List PortDefinition)
  pub constructor : Constructor

pub record NodeManifest : Type 0 where
  pub type_name : String
  pub node_type : NodeType
  pub ports : List PortDefinition

-- `warnings` are the keys that the log says are being overwritten, the newest first.
pub record NodeFactory : Type 0 where
  pub registry : List (String × NodeClass)
  pub manifests : List (String × NodeManifest)
  pub warnings : List String

-- `name or node_class.__name__`
unfoldable pub key_of : NodeClass → Option String → String
key_of c none = c.class_name
key_of c (some name) = if str_eq name "" then c.class_name else name

unfoldable pub default_manifest : String → NodeClass → NodeManifest
default_manifest key c = record {
  type_name = key;
  node_type = c.node_type;
  ports = or_else c.provided [];
}

-- `existing is not None and existing is not node_class`
unfoldable pub is_shadowed : Option NodeClass → NodeClass → Bool
is_shadowed none c = false
is_shadowed (some existing) c = not (existing.identity == c.identity)

unfoldable pub register :
    NodeClass → Option String → Option NodeManifest → NodeFactory → NodeFactory
unfolding key_of default_manifest is_shadowed
register c name manifest f =
    let key = key_of c name in
    record {
      registry = insert key c f.registry;
      manifests = insert key (or_else manifest (default_manifest key c)) f.manifests;
      warnings = if is_shadowed (lookup key f.registry) c then key ∷ f.warnings else f.warnings;
    }

unfoldable pub register_many : List (String × NodeClass) → NodeFactory → NodeFactory
unfolding register
register_many [] f = f
register_many ((name, c) ∷ rest) f = register_many rest (register c (some name) none f)

unfoldable pub is_registered : String → NodeFactory → Bool
is_registered name f = is_some (lookup name f.registry)

unfoldable pub registered_names : NodeFactory → List String
registered_names f = keys f.registry

unfoldable pub manifest : String → NodeFactory → Option NodeManifest
manifest name f = lookup name f.manifests

-- _lookup; `none` where it raises KeyError.
unfoldable pub lookup_class : String → NodeFactory → Option NodeClass
lookup_class name f = lookup name f.registry

-- A node, KeyError, TypeError, or a decorator whose child is None, which no tick survives.
pub data Creation : Type 0 where
  created : Node → Creation
  unknown_type wrong_signature : Creation
  without_child : Base → Decorator → Creation

unfoldable pub instantiate_leaf : Constructor → Base → Creation
instantiate_leaf (leaf_class l) b = created (leaf b l)
instantiate_leaf (control_class c) b = created (control b c nil)
instantiate_leaf (decorator_class d) b = without_child b d

unfoldable pub create_leaf : String → Base → NodeFactory → Creation
unfolding lookup_class instantiate_leaf
create_leaf type_name b f = elim (lookup_class type_name f) [
  | none ↦ unknown_type
  | some c ↦ instantiate_leaf c.constructor b
]

unfoldable pub instantiate_control : Constructor → Base → List Node → Creation
instantiate_control (control_class c) b children = created (control b c (of_list children))
instantiate_control (leaf_class l) b children = wrong_signature
instantiate_control (decorator_class d) b children = wrong_signature

unfoldable pub create_control : String → Base → List Node → NodeFactory → Creation
unfolding lookup_class instantiate_control
create_control type_name b children f = elim (lookup_class type_name f) [
  | none ↦ unknown_type
  | some c ↦ instantiate_control c.constructor b children
]

unfoldable pub instantiate_decorator : Constructor → Base → Node → Creation
instantiate_decorator (decorator_class d) b child = created (decorator b d child)
instantiate_decorator (leaf_class l) b child = wrong_signature
instantiate_decorator (control_class c) b child = wrong_signature

unfoldable pub create_decorator : String → Base → Node → NodeFactory → Creation
unfolding lookup_class instantiate_decorator
create_decorator type_name b child f = elim (lookup_class type_name f) [
  | none ↦ unknown_type
  | some c ↦ instantiate_decorator c.constructor b child
]

-- create: the children decide, then the child.
unfoldable pub create_node :
    String → Base → Option (List Node) → Option Node → NodeFactory → Creation
unfolding create_control create_decorator create_leaf
create_node type_name b (some children) child f = create_control type_name b children f
create_node type_name b none (some child) f = create_decorator type_name b child f
create_node type_name b none none f = create_leaf type_name b f
