-- ===== src/Examples/Documents.antt =====
-- Documents that bteng/xml_parser/parser.py parses.
use bteng.Prelude.{
  ℕ, String, ◌≡◌, ◌≢◌, refl, Bool, true, false, none, some, List, [], ◌∷◌, inl, map,
}
use bteng.Value.{none_value, int_of}
use bteng.Node.{NodeType, inout, set_blackboard, Node, leaf, NodeConfig, always_success}
use bteng.Blackboard.{Callback}
use bteng.Factory.Builtins.{new_factory}
use bteng.Factory.{NodeClass, leaf_class, register, default_manifest, register_many}
use bteng.Xml.{
  Element, element, Elements, Outcome, XmlTreeParser, new_parser, Surroundings, out_of_fuel,
  load_document, XmlError, raised, cyclic, childless,
}
use bteng.Xml.Document.{parse_root, parse_all_to_registry, target_of}
use bteng.Prelude.Dict.{lookup, insert}
use bteng.Xml.Attributes.{generic_config}
use bteng.Xml.Termination.{parse_ends}
use bteng.Xml.References.{Chain, tree_refs}
use bteng.Xml.Cycles.{parse_root_raises}
use bteng.Xml.State.{parse_forgets}
use bteng.Xml.Sources.{port_named, default_for, last_with, first_tagged}
use bteng.Xml.Directions.{directions, generic_config_lem}
use bteng.Xml.Text.{parse_attr}
use bteng.Prelude.{◌≤◌}
use bteng.Builder.Idle.{IsUnticked}
use bteng.Builder.Uids.{occurs}
use bteng.Xml.Fresh.{IsFreshFactory}
use bteng.Xml.Idle.{parse_root-IsUnticked}
use bteng.Examples.{boards}

abbrev live : Callback → Bool
live k = true

abbrev single : Element → Elements
single el = Elements.cons el Elements.nil

abbrev around : Surroundings
around = record { store = record { boards = boards; instances = [] }; next_uid = 0 }

-- <tag attributes/>
abbrev empty : String → List (String × String) → Element
empty tag attrib = element tag attrib Elements.nil

abbrev tree : String → Element → Element
tree id root = element "Tree" (("ID", id) ∷ []) (single root)

-- The tree "main" waits for the subtree "pick", which notes a key; "bad" names no class.
abbrev main_tree : Element
main_tree = tree "main" (
    element "Retry" (("num_attempts", "3") ∷ [])
      (single (empty "SubTree" (("ID", "pick") ∷ ("target", "{goal}") ∷ ("speed", "slow") ∷ []))))

abbrev pick_tree : Element
pick_tree =
    tree "pick" (empty "Action" (("ID", "Note") ∷ ("key", "done") ∷ ("value", "{target}") ∷ []))

abbrev bad_tree : Element
bad_tree = tree "bad" (empty "Action" (("ID", "Missing") ∷ []))

abbrev document : Element
document = element "BTEng" [] (Elements.cons main_tree (Elements.cons pick_tree (single bad_tree)))

-- A class of the client with the port "value", which may be read and written.
abbrev note : NodeClass
note = record {
  identity = 100;
  class_name = "Note";
  module_name = "client";
  abstract_class = false;
  node_type = NodeType.action;
  provided = some (record { name = "value"; direction = inout; default = none_value } ∷ []);
  constructor = leaf_class set_blackboard;
}

abbrev parser : XmlTreeParser
parser = new_parser (register note none none new_factory)

abbrev parsed : Outcome Node
parsed = (parse_root live 0 document none (some 1) parser around).0.0

abbrev root_of : Outcome Node → Node
root_of (Outcome.ok n) = n
root_of _ = leaf (bteng.Examples.plain 0) always_success

parse_ends_example :
    ((parse_root live 0 document none (some 1) parser around).0.0 ≢ out_of_fuel)
    × ((parse_all_to_registry live 0 document (some 1) parser around).0.0 ≢ out_of_fuel)
parse_ends_example = parse_ends live 0 document none (some 1) parser around

-- A tree that is its own subtree.
abbrev circular : Element
circular = element "BTEng" [] (single (tree "a" (empty "SubTree" (("ID", "a") ∷ []))))

parse_root_raises_example :
    (e : XmlError) × ((parse_root live 0 circular none (some 1) parser around).0.0 ≡ raised e)
unfolding parse_root load_document tree_refs target_of lookup insert new_parser
parse_root_raises_example =
    parse_root_raises live 0 parser circular none (some 1) around "a" "a" refl (inl refl)
      (Chain.one refl)

-- A parser that has parsed the document, and an unused one.
parse_forgets_example :
    (parse_root live 0 document none none
        (parse_root live 0 document none none parser around).1
        around
      ≡ parse_root live 0 document none none parser around)
    × (parse_all_to_registry live 0 document none
          (parse_root live 0 document none none parser around).1
          around
        ≡ parse_all_to_registry live 0 document none parser around)
unfolding parse_root load_document
parse_forgets_example =
    parse_forgets live 0 (parse_root live 0 document none none parser around).1 parser document none
      none around refl refl

abbrev attributes : List (String × String)
attributes = ("ID", "Note") ∷ ("key", "done") ∷ ("value", "{target}") ∷ []

abbrev note_config : NodeConfig
note_config =
    generic_config (load_document document parser).0 "Note" (some (default_manifest "Note" note)) 1
      attributes

generic_config_lem_example :
    (lookup "value" note_config.input_ports ≡ some "target")
    × (lookup "value" note_config.output_ports ≡ some "target")
    × (lookup "value" note_config.params ≡ none)
unfolding lookup insert parse_attr last_with first_tagged port_named default_for directions
    new_parser default_manifest
generic_config_lem_example =
    generic_config_lem parser document "Note" (some (default_manifest "Note" note)) 1 attributes
      "value" (refl, (refl, (refl, tt)))

-- "bad" fails, the others are registered.
failures :
    map (λ e. e.0) (parse_all_to_registry live 0 document none parser around).1.registry_errors
    ≡ "bad" ∷ []
unfolding parse_all_to_registry new_factory lookup insert new_parser register register_many
    parse_attr int_of
failures = refl

cycle : (parse_root live 0 circular none none parser around).0.0 ≡ raised cyclic
unfolding parse_root new_factory lookup insert
cycle = refl

-- The children of a generic element are not built, so an Inverter is left with none.
dropped_child :
    (parse_root live 0
      (element "BTEng" [] (
        single (
          tree "main" (
            element "Node"
              (("type", "Inverter") ∷ [])
              (single (empty "Action" (("ID", "Note") ∷ [])))))))
      none
      none
      parser
      around).0.0
    ≡ raised childless
unfolding parse_root new_factory lookup insert new_parser register register_many
dropped_child = refl

parser-IsFresh : IsFreshFactory parser.factory
unfolding new_factory new_parser register register_many insert
parser-IsFresh =
    (refl, (refl, (refl, (tt, (refl, (refl, (tt, (tt, (tt, (tt, (tt, (tt, (tt, (tt, tt))))))))))))))

parse_root-IsUnticked_example :
    IsUnticked (root_of parsed) × ((i : ℕ) → occurs i (root_of parsed) ≤ 1)
unfolding parse_root new_factory lookup insert new_parser register register_many parse_attr int_of
parse_root-IsUnticked_example =
    parse_root-IsUnticked live 0 parser document none (some 1) around (root_of parsed)
      parser-IsFresh refl
