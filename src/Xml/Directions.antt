-- ===== src/Xml/Directions.antt =====
-- bteng/xml_parser/parser.py: which declaration decides on the direction of a port.
use bteng.Prelude.{
  ℕ, String, ◌≡◌, refl, sym, ◌∙◌, ap, subst, Bool, true, false, Option, none, some, List, [], ◌∷◌,
  ◌||◌, not, str_eq, if◌then◌else◌, or_else, or_first, arith, eq_iff, Bool-cases, Option-cases, inl,
  inr,
}
use bteng.Prelude.Dict.{lookup, insert, lookup-insert}
use bteng.Node.{PortDefinition}
use bteng.Factory.{NodeManifest}
use bteng.Xml.{
  Element, Elements, nil, cons, tag, attrib_of, children_of, XmlTreeParser, load_ports,
  load_port_model, find_child, document_ports, load_document, reset_document_state,
}
use bteng.Xml.Sources.{
  port_text, text_for-port_text, sides, both-sides, port_named, lookup-declared_ports, default_for,
  lookup-default_params, document_tag, lookup-document_ports,
}
use bteng.Xml.Attributes.{
  merged, or_empty, generic_config, port_directions, resolve_direction, declared_ports,
  default_params, ports_of, is_one_of, plain_config,
}
use bteng.Xml.Ports.{
  insert-HasDistinctKeys, HasDistinctKeys, text_for, reference_or, value_or, bind_attrs-Binds,
}

-- For a direction of a port model and a port of the class: whether it is an input, and an output.
unfoldable pub directions : Option String → Option PortDefinition → Bool × Bool
directions (some tag) port =
    if str_eq "inout_port" tag || str_eq "inout" tag
    then (true, true)
    else if str_eq "output_port" tag || str_eq "output" tag
    then (false, true)
    else (true, false)
directions none (some port) = sides port.direction
directions none none = (true, false)

tag_directions :
    (tag : String) (port : Option PortDefinition)
    → (
      is_one_of tag ("input_port" ∷ "inout_port" ∷ "input" ∷ "inout" ∷ [])
          || not (is_one_of tag ("output_port" ∷ "inout_port" ∷ "output" ∷ "inout" ∷ [])),
      is_one_of tag ("output_port" ∷ "inout_port" ∷ "output" ∷ "inout" ∷ []),
    )
      ≡ directions (some tag) port
unfolding directions
tag_directions tag port = elim (Bool-cases (str_eq "input_port" tag)) [
  | inl same ↦ let e : tag ≡ "input_port" = ground (arith, eq_iff "input_port" tag) in rw e refl
  | inr other ↦ elim (Bool-cases (str_eq "input" tag)) [
    | inl same ↦ let e : tag ≡ "input" = ground (arith, eq_iff "input" tag) in rw e refl
    | inr neither ↦ ground arith
  ]
]

resolve_direction-directions :
    (attr : String) (port_meta : List (String × String)) (declared : List (String × PortDefinition))
    → resolve_direction attr port_meta declared
      ≡ directions (lookup attr port_meta) (lookup attr declared)
unfolding resolve_direction directions
resolve_direction-directions attr port_meta declared = elim (Option-cases (lookup attr port_meta)) [
  | inl missing ↦ elim (Option-cases (lookup attr declared)) [
    | inl unknown ↦ rw (resolve_direction, missing, unknown) refl
    | inr (port, known) ↦ rw (resolve_direction, missing, known) (both-sides port.direction)
  ]
  | inr (direction, there) ↦
      rw (resolve_direction, there) (tag_directions direction (lookup attr declared))
]

lookup-merged :
    (attr : String) (old new : List (String × String))
    → HasDistinctKeys new
    → lookup attr (merged old new) ≡ or_first (lookup attr new) (lookup attr old)
unfolding merged lookup
lookup-merged attr old [] h = refl
lookup-merged attr old ((k, v) ∷ rest) h =
    let ih = lookup-merged attr (insert k v old) rest h.1 in
    let e = lookup-insert k attr v old in
    elim (Bool-cases (str_eq k attr)) [
      | inl same ↦
          let k_is : k ≡ attr = ground (arith, eq_iff k attr) in
          let gone = subst (λ x. lookup x rest ≡ none) k_is h.0 in rw (ih, e, same, gone) refl
      | inr other ↦ rw (ih, e, other) refl
    ]

load_ports-HasDistinctKeys :
    (els : Elements) (ports : List (String × String))
    → HasDistinctKeys ports
    → HasDistinctKeys (load_ports els ports)
unfolding load_ports
load_ports-HasDistinctKeys nil ports h = h
load_ports-HasDistinctKeys (cons el rest) ports h =
    load_ports-HasDistinctKeys rest _ (insert-HasDistinctKeys _ (tag el) ports h)

-- What one port model says of a class.
abbrev pub model_entry : String → List (String × List (String × String)) → List (String × String)
model_entry node_type model = or_empty (lookup node_type model)

load_port_model-HasDistinctKeys :
    (node_type : String) (els : Elements) (model : List (String × List (String × String)))
    → HasDistinctKeys (model_entry node_type model)
    → HasDistinctKeys (model_entry node_type (load_port_model els model))
unfolding load_port_model
load_port_model-HasDistinctKeys node_type nil model h = h
load_port_model-HasDistinctKeys node_type (cons el rest) model h =
    let id = or_else (lookup "ID" (attrib_of el)) "" in
    let ports = load_ports (children_of el) [] in
    let e = lookup-insert id node_type ports model in
    load_port_model-HasDistinctKeys node_type rest _ (elim (Bool-cases (str_eq id node_type)) [
      | inl same ↦ rw (e, same) (load_ports-HasDistinctKeys (children_of el) [] tt)
      | inr other ↦ rw (e, other) h
    ])

document_ports-HasDistinctKeys :
    (node_type : String) (root : Element)
    → HasDistinctKeys (model_entry node_type (document_ports root []))
unfolding document_ports lookup
document_ports-HasDistinctKeys node_type root =
    let P : Option Element → Type 0 = λ o. HasDistinctKeys (
      model_entry node_type
        (elim o [ none ↦ [] | some model ↦ load_port_model (children_of model) [] ])) in
    elim (Option-cases (find_child "TreeNodesModel" (children_of root))) [
      | inl missing ↦ subst P (sym missing) tt
      | inr (model, there) ↦
          subst P (sym there) (load_port_model-HasDistinctKeys node_type (children_of model) [] tt)
    ]

lookup_seeded :
    (seeds declared : List (String × String)) (attr : String)
    → HasDistinctKeys declared
    → lookup attr (elim seeds as (λ s. List (String × String)) [
      | [] ↦ declared
      | seed ∷ rest ↦ merged (seed ∷ rest) declared
    ])
      ≡ or_first (lookup attr declared) (lookup attr seeds)
unfolding lookup
lookup_seeded [] declared attr h = elim (Option-cases (lookup attr declared)) [
  | inl missing ↦ rw missing refl
  | inr (direction, there) ↦ rw there refl
]
lookup_seeded (seed ∷ rest) declared attr h = lookup-merged attr (seed ∷ rest) declared h

lookup-port_directions :
    (p : XmlTreeParser) (node_type attr : String)
    → HasDistinctKeys (model_entry node_type p.doc_port_model)
    → lookup attr (port_directions p node_type)
      ≡ or_first
          (lookup attr (model_entry node_type p.doc_port_model))
          (lookup attr (model_entry node_type p.port_model))
unfolding port_directions
lookup-port_directions p node_type attr h =
    lookup_seeded (model_entry node_type p.port_model) (model_entry node_type p.doc_port_model) attr
      h

-- The direction of a port: the document decides, then the parser, then the class.
abbrev pub direction_for :
    XmlTreeParser → Element → String → Option NodeManifest → String → Bool × Bool
direction_for p root node_type m attr =
    directions
      (or_first (document_tag root node_type attr)
        (lookup attr (model_entry node_type p.port_model)))
      (port_named attr (ports_of m))

or_none : {A : Type 0} (o : Option A) → or_first o none ≡ o
or_none none = refl
or_none (some x) = refl

-- What the parser resolves, and the defaults that it takes, are what the document and the class say.
resolve_direction-direction_for :
    (p : XmlTreeParser) (root : Element) (node_type : String) (m : Option NodeManifest)
    (attr : String)
    → resolve_direction attr
        (port_directions (load_document root p).0 node_type)
        (declared_ports (ports_of m) [])
      ≡ direction_for p root node_type m attr
unfolding load_document reset_document_state lookup
resolve_direction-direction_for p root node_type m attr =
    let p' = (load_document root p).0 in
    let own = lookup attr (model_entry node_type p.port_model) in
    let named : lookup attr (declared_ports (ports_of m) []) ≡ port_named attr (ports_of m) =
      lookup-declared_ports attr (ports_of m) [] ∙ or_none (port_named attr (ports_of m)) in
    let tagged : lookup attr (port_directions p' node_type)
        ≡ or_first (document_tag root node_type attr) own =
      lookup-port_directions p' node_type attr (document_ports-HasDistinctKeys node_type root)
      ∙ ap (λ o. or_first o own) (lookup-document_ports root node_type attr) in
    resolve_direction-directions attr (port_directions p' node_type)
      (declared_ports (ports_of m) [])
    ∙ (ap (λ o. directions o (lookup attr (declared_ports (ports_of m) []))) tagged
        ∙ ap (directions (or_first (document_tag root node_type attr) own)) named)

default_params-default_for :
    (m : Option NodeManifest) (attr : String)
    → lookup attr (default_params (ports_of m) []) ≡ default_for attr (ports_of m)
unfolding lookup
default_params-default_for m attr =
    lookup-default_params attr (ports_of m) [] ∙ or_none (default_for attr (ports_of m))

-- With no attribute twice, the configuration of a leaf binds each name to what its attribute says: a
-- reference, which is a text that parse_attr takes a key from, becomes an input, an output or both by the direction that the document gives the port,
-- or else the parser's own port model, or else the class, or else an input; another text becomes a
-- parameter over the default of the port; name, ID and type bind nothing. The document's direction is
-- the tag of the last element with the port's name, in the last entry for the class of the first
-- TreeNodesModel; the class's is that of its last port with the name, and its default is that of the
-- last such port that has one and is no mere output.
pub generic_config_lem :
    (p : XmlTreeParser) (root : Element) (node_type : String) (m : Option NodeManifest) (bb : ℕ)
    (attrib : List (String × String)) (attr : String)
    → HasDistinctKeys attrib
    → (lookup attr (generic_config (load_document root p).0 node_type m bb attrib).input_ports
        ≡ reference_or (direction_for p root node_type m attr).0 (port_text attr attrib) none)
      × (lookup attr (generic_config (load_document root p).0 node_type m bb attrib).output_ports
          ≡ reference_or (direction_for p root node_type m attr).1 (port_text attr attrib) none)
      × (lookup attr (generic_config (load_document root p).0 node_type m bb attrib).params
          ≡ value_or (port_text attr attrib) (default_for attr (ports_of m)))
unfolding generic_config lookup
generic_config_lem p root node_type m bb attrib attr h =
    let p' = (load_document root p).0 in
    let port_meta = port_directions p' node_type in
    let declared = declared_ports (ports_of m) [] in
    let b =
      bind_attrs-Binds (λ a. resolve_direction a port_meta declared) attr attrib
        (plain_config bb (default_params (ports_of m) [])) h in
    let same = resolve_direction-direction_for p root node_type m attr in
    let says = text_for-port_text attr attrib in
    (
      b.into
          ∙ (ap (λ d. reference_or d.0 (text_for attr attrib) none) same
              ∙ ap (λ raw. reference_or (direction_for p root node_type m attr).0 raw none) says),
      b.out
          ∙ (ap (λ d. reference_or d.1 (text_for attr attrib) none) same
              ∙ ap (λ raw. reference_or (direction_for p root node_type m attr).1 raw none) says),
      b.params
          ∙ (ap (λ raw. value_or raw (lookup attr (default_params (ports_of m) []))) says
              ∙ ap (value_or (port_text attr attrib)) (default_params-default_for m attr)),
    )
