-- ===== src/Validation.antt =====
-- bteng/core/validation.py: the ports of a node's configuration against those that it declares.
pub mod Sound
use bteng.Prelude.{
  ℕ, String, Bool, true, false, Option, none, some, List, [], ◌∷◌, ◌++◌, ◌&&◌, not, is_some,
  if◌then◌else◌, map,
}
use bteng.Prelude.Dict.{lookup, keys}
use bteng.Value.{Value, none_value}
use bteng.Node.{
  Node, Nodes, leaf, control, decorator, nil, cons, Base, base, NodeConfig, PortDefinition,
  is_input, provided_ports,
}

pub data Fault : Type 0 where
  undeclared_input undeclared_output unmapped_required : Fault

-- PortValidationError; the type's name and the text of the message are left out.
pub record PortValidationError : Type 0 where
  pub node_uid : ℕ
  pub port_name : String
  pub fault : Fault

-- `{p.name: p for p in ports}`, read by `in` only
abbrev pub declared : List PortDefinition → List (String × PortDefinition)
declared ports = map (λ p. (p.name, p)) ports

unfoldable pub undeclared : ℕ → Fault → List PortDefinition → List String → List PortValidationError
undeclared node fault ports [] = []
undeclared node fault ports (name ∷ names) =
    let rest = undeclared node fault ports names in
    if is_some (lookup name (declared ports))
    then rest
    else record { node_uid = node; port_name = name; fault = fault } ∷ rest

unfoldable pub is_none : Value → Bool
is_none none_value = true
is_none v = false

-- `p.is_input() and p.default is None`, and neither a mapping nor a static value
unfoldable pub is_unmet : NodeConfig → PortDefinition → Bool
unfolding is_none
is_unmet c p =
    is_input p.direction
    && is_none p.default
    && not (is_some (lookup p.name c.input_ports))
    && not (is_some (lookup p.name c.params))

unfoldable pub unmet : ℕ → NodeConfig → List PortDefinition → List PortValidationError
unfolding is_unmet
unmet node c [] = []
unmet node c (p ∷ ps) =
    let rest = unmet node c ps in
    if is_unmet c p
    then record { node_uid = node; port_name = p.name; fault = unmapped_required } ∷ rest
    else rest

unfoldable pub check_ports : ℕ → NodeConfig → List PortDefinition → List PortValidationError
unfolding undeclared unmet
check_ports node c [] = []
check_ports node c (p ∷ ps) =
    undeclared node undeclared_input (p ∷ ps) (keys c.input_ports)
    ++ (undeclared node undeclared_output (p ∷ ps) (keys c.output_ports) ++ unmet node c (p ∷ ps))

unfoldable pub validate_node : Node → List PortValidationError
unfolding check_ports
validate_node n = check_ports (base n).uid (base n).config (provided_ports n)

-- The stack gives a node first, and its last child, with all below it, before the others.
unfoldable mutual
  pub validate_tree : Node → List PortValidationError
  validate_tree (leaf b l) = validate_node (leaf b l)
  validate_tree (control b c ns) = validate_node (control b c ns) ++ validate_trees ns
  validate_tree (decorator b d n) = validate_node (decorator b d n) ++ validate_tree n

  pub validate_trees : Nodes → List PortValidationError
  validate_trees nil = []
  validate_trees (cons n ns) = validate_trees ns ++ validate_tree n
