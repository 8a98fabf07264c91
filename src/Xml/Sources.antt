-- ===== src/Xml/Sources.antt =====
-- bteng/xml_parser/parser.py: where the direction and the default of a port come from, read off the
-- document and the class.
use bteng.Prelude.{
  String, ◌≡◌, refl, ◌∙◌, ap, Bool, true, false, Option, none, some, List, [], ◌∷◌, ◌||◌, str_eq,
  if◌then◌else◌, or_else, or_first, arith, Bool-cases, Option-cases, inl, inr,
}
use bteng.Prelude.Dict.{lookup, insert, lookup-insert}
use bteng.Value.{Value, none_value, bool, int, float, text, status, object}
use bteng.Node.{PortDefinition, PortDirection, input, output, inout, is_input, is_output}
use bteng.Xml.{
  Element, Elements, nil, cons, tag, attrib_of, children_of, load_ports, load_port_model,
  find_child, document_ports,
}
use bteng.Xml.Attributes.{or_empty, declared_ports, default_params, is_meta, insert_if}
use bteng.Xml.Ports.{text_for}

-- The text that an attribute gives to a port or a parameter: the others are of the node itself.
abbrev pub port_text : String → List (String × String) → Option String
port_text attr attrib =
    if str_eq "name" attr || (str_eq "ID" attr || str_eq "type" attr)
    then none
    else lookup attr attrib

pub text_for-port_text :
    (attr : String) (attrib : List (String × String)) → text_for attr attrib ≡ port_text attr attrib
unfolding is_meta
text_for-port_text attr attrib = ground arith

abbrev pub sides : PortDirection → Bool × Bool
sides input = (true, false)
sides output = (false, true)
sides inout = (true, true)

pub both-sides : (d : PortDirection) → (is_input d, is_output d) ≡ sides d
unfolding is_input is_output
both-sides input = refl
both-sides output = refl
both-sides inout = refl

-- The last port of a class that has the name.
unfoldable pub port_named : String → List PortDefinition → Option PortDefinition
port_named attr [] = none
port_named attr (p ∷ ps) =
    or_first (port_named attr ps) (if str_eq p.name attr then some p else none)

pub lookup-declared_ports :
    (attr : String) (ps : List PortDefinition) (d : List (String × PortDefinition))
    → lookup attr (declared_ports ps d) ≡ or_first (port_named attr ps) (lookup attr d)
unfolding declared_ports port_named
lookup-declared_ports attr [] d = refl
lookup-declared_ports attr (p ∷ ps) d =
    let ih = lookup-declared_ports attr ps (insert p.name p d) in
    let e = lookup-insert p.name attr p d in ground arith

abbrev pub given_default : Value → Option Value
given_default none_value = none
given_default v = some v

-- The default of the last port that has the name and a default, and is no mere output.
unfoldable pub default_for : String → List PortDefinition → Option Value
default_for attr [] = none
default_for attr (p ∷ ps) = or_first (default_for attr ps) (
    if str_eq p.name attr
    then (if (sides p.direction).0 then given_default p.default else none)
    else none)

insert_if-first :
    (test : Bool) (name attr : String) (v : Value) (d : List (String × Value))
    → lookup attr (insert_if test name v d)
      ≡ or_first
          (if str_eq name attr then (if test then some v else none) else none)
          (lookup attr d)
insert_if-first true name attr v d = let e = lookup-insert name attr v d in ground arith
insert_if-first false name attr v d = ground arith

default_step :
    (test : Bool) (name attr : String) (v : Value) (d : List (String × Value))
    → lookup attr
        (elim v as (λ x. List (String × Value)) [ none_value ↦ d | v' ↦ insert_if test name v' d ])
      ≡ or_first
          (if str_eq name attr then (if test then given_default v else none) else none)
          (lookup attr d)
default_step test name attr none_value d = ground arith
default_step test name attr (bool b) d = insert_if-first test name attr (bool b) d
default_step test name attr (int z) d = insert_if-first test name attr (int z) d
default_step test name attr (float z) d = insert_if-first test name attr (float z) d
default_step test name attr (text s) d = insert_if-first test name attr (text s) d
default_step test name attr (status s) d = insert_if-first test name attr (status s) d
default_step test name attr (object i) d = insert_if-first test name attr (object i) d

or_first_assoc :
    {A : Type 0} (a b c : Option A) → or_first a (or_first b c) ≡ or_first (or_first a b) c
or_first_assoc none b c = refl
or_first_assoc (some x) b c = refl

pub lookup-default_params :
    (attr : String) (ps : List PortDefinition) (d : List (String × Value))
    → lookup attr (default_params ps d) ≡ or_first (default_for attr ps) (lookup attr d)
unfolding default_params default_for
lookup-default_params attr [] d = refl
lookup-default_params attr (p ∷ ps) d =
    lookup-default_params attr ps _
    ∙ (ap (or_first (default_for attr ps)) (
          default_step (is_input p.direction) p.name attr p.default d
          ∙ ap
              (λ test.
                or_first
                  (if str_eq p.name attr
                    then (if test then given_default p.default else none)
                    else none)
                  (lookup attr d))
              (ap (λ s. s.0) (both-sides p.direction)))
        ∙ or_first_assoc (default_for attr ps)
            (if str_eq p.name attr
              then (if (sides p.direction).0 then given_default p.default else none)
              else none)
            (lookup attr d))

-- The last element whose attribute has the value; a missing attribute is an empty one.
unfoldable pub last_with : String → String → Elements → Option Element
last_with key value nil = none
last_with key value (cons el rest) =
    or_first (last_with key value rest)
      (if str_eq (or_else (lookup key (attrib_of el)) "") value then some el else none)

abbrev pub tag_of : Option Element → Option String
tag_of none = none
tag_of (some el) = some (tag el)

unfoldable pub first_tagged : String → Elements → Option Element
first_tagged name nil = none
first_tagged name (cons el rest) =
    let later = first_tagged name rest in if str_eq (tag el) name then some el else later

find_child-first_tagged :
    (name : String) (els : Elements) → find_child name els ≡ first_tagged name els
unfolding find_child first_tagged
find_child-first_tagged name nil = refl
find_child-first_tagged name (cons el rest) =
    ap (λ later. if str_eq (tag el) name then some el else later)
      (find_child-first_tagged name rest)

lookup-load_ports :
    (attr : String) (els : Elements) (ports : List (String × String))
    → lookup attr (load_ports els ports)
      ≡ or_first (tag_of (last_with "name" attr els)) (lookup attr ports)
unfolding load_ports last_with
lookup-load_ports attr nil ports = refl
lookup-load_ports attr (cons el rest) ports =
    let name = or_else (lookup "name" (attrib_of el)) "" in
    let ih = lookup-load_ports attr rest (insert name (tag el) ports) in
    let e = lookup-insert name attr (tag el) ports in
    elim (Option-cases (last_with "name" attr rest)) [
      | inl absent ↦ elim (Bool-cases (str_eq name attr)) [
        | inl same ↦ ih ∙ rw (e, absent, same) refl
        | inr other ↦ ih ∙ rw (e, absent, other) refl
      ]
      | inr (later, there) ↦ ih ∙ rw there refl
    ]

-- The ports of an entry for a class.
abbrev pub entry_ports : Option Element → List (String × String) → List (String × String)
entry_ports none old = old
entry_ports (some el) old = load_ports (children_of el) []

model-load_port_model :
    (node_type : String) (els : Elements) (model : List (String × List (String × String)))
    → or_empty (lookup node_type (load_port_model els model))
      ≡ entry_ports (last_with "ID" node_type els) (or_empty (lookup node_type model))
unfolding load_port_model last_with
model-load_port_model node_type nil model = refl
model-load_port_model node_type (cons el rest) model =
    let id = or_else (lookup "ID" (attrib_of el)) "" in
    let ports = load_ports (children_of el) [] in
    let ih = model-load_port_model node_type rest (insert id ports model) in
    let e = lookup-insert id node_type ports model in
    elim (Option-cases (last_with "ID" node_type rest)) [
      | inl absent ↦ elim (Bool-cases (str_eq id node_type)) [
        | inl same ↦ ih ∙ rw (e, absent, same) refl
        | inr other ↦ ih ∙ rw (e, absent, other) refl
      ]
      | inr (later, there) ↦ ih ∙ rw there refl
    ]

-- The tag of the port's element: the last of the name in the last entry for the class in the first
-- TreeNodesModel.
abbrev pub port_tag : String → Option Element → Option String
port_tag attr none = none
port_tag attr (some entry) = tag_of (last_with "name" attr (children_of entry))

abbrev pub model_tag : String → String → Option Element → Option String
model_tag node_type attr none = none
model_tag node_type attr (some model) = port_tag attr (last_with "ID" node_type (children_of model))

abbrev pub document_tag : Element → String → String → Option String
document_tag root node_type attr =
    model_tag node_type attr (first_tagged "TreeNodesModel" (children_of root))

or_none : {A : Type 0} (o : Option A) → or_first o none ≡ o
or_none none = refl
or_none (some x) = refl

entry-port_tag :
    (attr : String) (o : Option Element) → lookup attr (entry_ports o []) ≡ port_tag attr o
unfolding lookup
entry-port_tag attr none = refl
entry-port_tag attr (some el) = lookup-load_ports attr (children_of el) [] ∙ or_none _

pub lookup-document_ports :
    (root : Element) (node_type attr : String)
    → lookup attr (or_empty (lookup node_type (document_ports root [])))
      ≡ document_tag root node_type attr
unfolding document_ports lookup
lookup-document_ports root node_type attr =
    let els = children_of root in
    let e = find_child-first_tagged "TreeNodesModel" els in
    elim (Option-cases (first_tagged "TreeNodesModel" els)) [
      | inl missing ↦ rw (document_ports, e, missing) refl
      | inr (model, there) ↦
          rw (document_ports, e, there)
            (ap (lookup attr) (model-load_port_model node_type (children_of model) [])
              ∙ entry-port_tag attr (last_with "ID" node_type (children_of model)))
    ]
