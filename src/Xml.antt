-- ===== src/Xml.antt =====
-- bteng/xml_parser/parser.py: XMLTreeParser, from the elements that the XML library gives on. That
-- library leaves comments out, so _is_whitespace holds of no element.
pub mod Text
pub mod Attributes
pub mod Build
pub mod Document
pub mod Fuel
pub mod Settles
pub mod Termination
pub mod State
pub mod Ports
pub mod Sources
pub mod Directions
pub mod Named
pub mod Registry
pub mod Fresh
pub mod Draws
pub mod Grown
pub mod Idle
pub mod References
pub mod Returned
pub mod Built
pub mod Cycles
use bteng.Prelude.{ℕ, String, Option, none, some, List, [], ◌∷◌, str_eq, if◌then◌else◌, or_else}
use bteng.Prelude.Dict.{lookup, insert}
use bteng.Blackboard.Scopes.{Store}
use bteng.Factory.{NodeFactory}

mutual
  pub data Element : Type 0 where
    element : String → List (String × String) → Elements → Element

  pub data Elements : Type 0 where
    nil : Elements
    cons : Element → Elements → Elements

abbrev pub tag : Element → String
tag (element t attrib children) = t

abbrev pub attrib_of : Element → List (String × String)
attrib_of (element t attrib children) = attrib

abbrev pub children_of : Element → Elements
children_of (element t attrib children) = children

-- What a call raises. `childless` stands for what it may return besides: a decorator whose child is
-- None.
pub data XmlError : Type 0 where
  no_tree duplicate_tree wrong_root missing_type wrong_child_count : XmlError
  unknown_tag missing_id cyclic not_literal not_a_number not_positive : XmlError
  unknown_tree unknown_subtree unregistered : XmlError
  wrong_arguments childless : XmlError

pub data Outcome {ℓ} (A : Type ℓ) : Type ℓ where
  ok : A → Outcome A
  raised : XmlError → Outcome A
  out_of_fuel : Outcome A

-- What the code reads off a text or a list of attributes, or the error that it raises there.
pub data Checked {ℓ} (A : Type ℓ) : Type ℓ where
  valid : A → Checked A
  invalid : XmlError → Checked A

-- The blackboards of the process, and the next uid to be drawn.
pub record Surroundings : Type 0 where
  pub store : Store
  pub next_uid : ℕ

-- A call that builds: it may raise, and leaves the surroundings either way.
abbrev pub Build {ℓ} : Type ℓ → Type ℓ
Build A = Surroundings → Outcome A × Surroundings

abbrev pub follow {ℓ κ} :
    {A : Type ℓ} {B : Type κ} → Outcome A × Surroundings → (A → Build B) → Outcome B × Surroundings
follow (ok a, s) f = f a s
follow (raised e, s) f = (raised e, s)
follow (out_of_fuel, s) f = (out_of_fuel, s)

infixl 20 ◌>>=◌
abbrev pub ◌>>=◌ {ℓ κ} : {A : Type ℓ} {B : Type κ} → Build A → (A → Build B) → Build B
(m >>= f) s = follow (m s) f

abbrev pub return {ℓ} : {A : Type ℓ} → A → Build A
return a s = (ok a, s)

abbrev pub raise {ℓ} : {A : Type ℓ} → XmlError → Build A
raise e s = (raised e, s)

-- A value that has to be there.
abbrev pub some_or {ℓ κ} : {A : Type ℓ} {B : Type κ} → XmlError → Option A → (A → Build B) → Build B
some_or e none f = raise e
some_or e (some a) f = f a

abbrev pub lift {ℓ} : {A : Type ℓ} → Checked A → Build A
lift (valid a) s = (ok a, s)
lift (invalid e) s = (raised e, s)

pub record XmlTreeParser : Type 0 where
  pub factory : NodeFactory
  pub port_model : List (String × List (String × String))
  pub doc_port_model : List (String × List (String × String))
  pub tree_roots : List (String × Element)
  pub building_stack : List String
  pub registry_errors : List (String × XmlError)

unfoldable pub new_parser : NodeFactory → XmlTreeParser
new_parser factory = record {
  factory = factory;
  port_model = [];
  doc_port_model = [];
  tree_roots = [];
  building_stack = [];
  registry_errors = [];
}

-- `el.get(key)`, where the code takes an empty text for no text.
unfoldable pub given : String → List (String × String) → Option String
given key attrib = elim (lookup key attrib) [
  | none ↦ none
  | some v ↦ if str_eq v "" then none else some v
]

unfoldable pub reset_document_state : XmlTreeParser → XmlTreeParser
reset_document_state p = record p {
  tree_roots = [];
  doc_port_model = [];
  building_stack = [];
  registry_errors = [];
}

-- The directions of the ports of one entry of the model.
unfoldable pub load_ports : Elements → List (String × String) → List (String × String)
load_ports nil ports = ports
load_ports (cons el rest) ports =
    load_ports rest (insert (or_else (lookup "name" (attrib_of el)) "") (tag el) ports)

unfoldable pub load_port_model :
    Elements → List (String × List (String × String)) → List (String × List (String × String))
unfolding load_ports
load_port_model nil model = model
load_port_model (cons el rest) model =
    load_port_model rest
      (insert (or_else (lookup "ID" (attrib_of el)) "") (load_ports (children_of el) []) model)

-- `root_el.find(name)`
unfoldable pub find_child : String → Elements → Option Element
find_child name nil = none
find_child name (cons el rest) =
    let later = find_child name rest in if str_eq (tag el) name then some el else later

-- The trees of a document by their IDs, with the error that stops the walk over them.
unfoldable pub index_trees :
    Elements → List (String × Element) → List (String × Element) × Option XmlError
unfolding given
index_trees nil roots = (roots, none)
index_trees (cons el rest) roots =
    let skipped = index_trees rest roots in
    if str_eq (tag el) "Tree"
    then elim (given "ID" (attrib_of el)) [
      | none ↦ skipped
      | some id ↦ elim (lookup id roots) [
        | some other ↦ (roots, some duplicate_tree)
        | none ↦ index_trees rest (insert id el roots)
      ]
    ]
    else skipped

unfoldable pub document_ports :
    Element → List (String × List (String × String)) → List (String × List (String × String))
unfolding find_child load_port_model
document_ports root model = elim (find_child "TreeNodesModel" (children_of root)) [
  | none ↦ model
  | some el ↦ load_port_model (children_of el) model
]

-- _load_document
unfoldable pub load_document : Element → XmlTreeParser → XmlTreeParser × Option XmlError
unfolding reset_document_state document_ports index_trees
load_document root p =
    let cleared = reset_document_state p in
    let (roots, error) = index_trees (children_of root) cleared.tree_roots in
    (
      record cleared {
        doc_port_model = document_ports root cleared.doc_port_model;
        tree_roots = roots;
      },
      error,
    )
