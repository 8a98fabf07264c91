-- ===== src/Xml/Build.antt =====
-- bteng/xml_parser/parser.py: from elements to nodes. The stack of the subtrees that are being built is
-- an argument, since _build_subtree takes off what it has put there whether it raises or not. The
-- recursion into the trees of other SubTree elements takes fuel.
use bteng.Prelude.{
  ℕ, zero, suc, ◌+◌, String, Bool, true, false, none, some, List, [], ◌∷◌, ◌++◌, length, str_eq,
  if◌then◌else◌, or_else,
}
use bteng.Prelude.Dict.{lookup, insert}
use bteng.Value.{text}
use bteng.Node.{Node, NodeConfig, Base, Decorator}
use bteng.Blackboard.{Board, Callback}
use bteng.Blackboard.Scopes.{set_key, create_child_scope}
use bteng.Factory.{
  NodeFactory, Creation, created, unknown_type, wrong_signature, without_child, is_registered,
  manifest, lookup_class, instantiate_control, instantiate_decorator, create_leaf,
}
use bteng.Builder.{new_base, default_config}
use bteng.Xml.{
  Element, Elements, element, nil, cons, tag, attrib_of, children_of, Outcome, Build, ◌>>=◌, return,
  raise, some_or, lift, XmlTreeParser, given, wrong_root, missing_type, wrong_child_count,
  unknown_tag, missing_id, cyclic, unknown_subtree, unregistered, wrong_arguments, childless,
}
use bteng.Xml.Text.{parse_attr}
use bteng.Xml.Attributes.{
  is_meta, Kind, kind_of, subtree_tag, generic_tag, control_tag, decorator_tag, other_tag,
  make_config, generic_config, Keyword, control_kwargs, decorator_kwargs, with_keywords,
}

abbrev pub in_stack : String → List String → Bool
in_stack id [] = false
in_stack id (own ∷ rest) = let below = in_stack id rest in if str_eq own id then true else below

-- What a call of a class leaves: a new node has drawn its uid.
unfoldable pub finish : Creation → Build Node
finish (created n) s = (Outcome.ok n, record s { next_uid = s.next_uid + 1 })
finish unknown_type s = raise unregistered s
finish wrong_signature s = raise wrong_arguments s
finish (without_child b d) s = raise childless s

unfoldable pub construct : (Base → Creation) → String → NodeConfig → Build Node
unfolding new_base finish
construct make name config s = finish (make (new_base s.next_uid name config)) s

-- create_control with keyword arguments
unfoldable pub control_with : NodeFactory → String → List Keyword → List Node → Base → Creation
unfolding lookup_class with_keywords instantiate_control
control_with f type_name ks children b = elim (lookup_class type_name f) [
  | none ↦ unknown_type
  | some c ↦ elim (with_keywords ks c.constructor) [
    | none ↦ wrong_signature
    | some k ↦ instantiate_control k b children
  ]
]

-- create_decorator with keyword arguments
unfoldable pub decorator_with : NodeFactory → String → List Keyword → Node → Base → Creation
unfolding lookup_class with_keywords instantiate_decorator
decorator_with f type_name ks child b = elim (lookup_class type_name f) [
  | none ↦ unknown_type
  | some c ↦ elim (with_keywords ks c.constructor) [
    | none ↦ wrong_signature
    | some k ↦ instantiate_decorator k b child
  ]
]

-- `el.get("name", default)`
abbrev pub name_of : List (String × String) → String → String
name_of attrib default = or_else (lookup "name" attrib) default

-- The references of a SubTree element, which are its remapping.
unfoldable pub remapping_of :
    List (String × String) → List (String × String) → List (String × String)
remapping_of [] d = d
remapping_of ((attr, val) ∷ rest) d =
    if is_meta attr then remapping_of rest d else elim (parse_attr val) [
      | some key ↦ remapping_of rest (insert attr key d)
      | none ↦ remapping_of rest d
    ]

-- Its other attributes.
unfoldable pub static_vals :
    List (String × String) → List (String × String) → List (String × String)
static_vals [] d = d
static_vals ((attr, val) ∷ rest) d =
    if is_meta attr then static_vals rest d else elim (parse_attr val) [
      | some key ↦ static_vals rest d
      | none ↦ static_vals rest (insert attr val d)
    ]

-- The tree of a document that is built for a SubTree element; it has one root.
unfoldable pub build_tree : (Element → ℕ → Build Node) → Elements → ℕ → Build Node
build_tree build nil bb = raise wrong_root
build_tree build (cons root nil) bb = build root bb
build_tree build (cons root (cons other rest)) bb = raise wrong_root

-- SubTree(name, child)
unfoldable pub wrap_subtree : String → Node → Build Node
unfolding construct
wrap_subtree name child =
    construct (λ b. created (Node.decorator b Decorator.sub_tree child)) name default_config

module _ (alive : Callback → Bool) (now : ℕ) where
  unfoldable pub set_all : List (String × String) → ℕ → List Board → List Board
  set_all [] id bs = bs
  set_all ((k, v) ∷ rest) id bs =
      set_all rest id (set_key alive now (length bs) bs id k (text v) none).0

  -- create_child, and the static values in the new scope
  unfoldable pub enter_scope : List (String × String) → ℕ → Build ℕ
  unfolding create_child_scope remapping_of static_vals set_all
  enter_scope attrib parent s =
      let (boards, id) =
        create_child_scope s.store.boards parent "child" (remapping_of attrib []) in
      (
        Outcome.ok id,
        record s { store = record s.store { boards = set_all (static_vals attrib []) id boards } },
      )

  module _ (p : XmlTreeParser) where
    unfoldable pub build_generic : String → String → List (String × String) → ℕ → Build Node
    unfolding generic_config manifest create_leaf construct
    build_generic node_type name attrib bb =
        construct (λ b. create_leaf node_type b p.factory) name
          (generic_config p node_type (manifest node_type p.factory) bb attrib)

    -- Leaf nodes, by the ID or the tag.
    unfoldable pub build_leaf : String → List (String × String) → ℕ → Build Node
    unfolding is_registered build_generic
    build_leaf name attrib bb =
        let id = or_else (lookup "ID" attrib) name in
        if is_registered id p.factory
        then build_generic id (name_of attrib name) attrib bb
        else if is_registered name p.factory
        then build_generic name (name_of attrib name) attrib bb
        else raise unknown_tag

    unfoldable pub build_explicit : String → List (String × String) → ℕ → Build Node
    unfolding given build_generic
    build_explicit name attrib bb =
        some_or missing_type (given "type" attrib)
          (λ node_type. build_generic node_type (name_of attrib name) attrib bb)

    unfoldable pub build_control : String → List (String × String) → ℕ → List Node → Build Node
    unfolding make_config control_kwargs control_with construct
    build_control name attrib bb children = do
      kwargs ← lift (control_kwargs name attrib)
      construct (control_with p.factory name kwargs children) (name_of attrib name)
          (make_config bb attrib)

    unfoldable pub build_decorator : String → List (String × String) → ℕ → Node → Build Node
    unfolding make_config decorator_kwargs decorator_with construct
    build_decorator name attrib bb child = do
      kwargs ← lift (decorator_kwargs name attrib)
      construct (decorator_with p.factory name kwargs child) (name_of attrib name)
          (make_config bb attrib)

    -- Its part behind the checks, in a scope of its own.
    unfoldable pub build_referenced :
        (Element → ℕ → Build Node) → String → Element → List (String × String) → ℕ → Build Node
    unfolding enter_scope build_tree wrap_subtree
    build_referenced inside id tree_el attrib bb = do
      scope ← enter_scope attrib bb
      child ← build_tree inside (children_of tree_el) scope
      wrap_subtree (name_of attrib id) child

    -- _build_subtree; `inside` builds an element of the tree with the given ID.
    unfoldable pub build_subtree :
        (String → Element → ℕ → Build Node) → List String → Element → ℕ → Build Node
    unfolding given build_referenced
    build_subtree inside stack el bb = some_or missing_id (given "ID" (attrib_of el)) (λ id.
        some_or unknown_subtree (lookup id p.tree_roots) (λ tree_el.
          if in_stack id stack
          then raise cyclic
          else build_referenced (inside id) id tree_el (attrib_of el) bb))

    -- _build_node for a kind of tag, given how to build the children, or the only child.
    unfoldable pub build_kind :
        (Element → ℕ → Build Node)
        → Kind
        → Element
        → ℕ
        → Build (List Node)
        → Build Node
        → Build Node
    unfolding build_explicit build_leaf build_control build_decorator
    build_kind subtree subtree_tag el bb all only = subtree el bb
    build_kind subtree generic_tag el bb all only = build_explicit (tag el) (attrib_of el) bb
    build_kind subtree control_tag el bb all only = do
      nodes ← all
      build_control (tag el) (attrib_of el) bb nodes
    build_kind subtree decorator_tag el bb all only = do
      node ← only
      build_decorator (tag el) (attrib_of el) bb node
    build_kind subtree other_tag el bb all only = build_leaf (tag el) (attrib_of el) bb

    module _ (subtree : Element → ℕ → Build Node) where
      unfoldable mutual
        unfolding kind_of build_kind

        -- _build_node
        pub build_node : Element → ℕ → Build Node
        build_node (element name attrib children) bb =
            build_kind subtree (kind_of name) (element name attrib children) bb
              (build_all children bb) (build_only children bb)

        pub build_all : Elements → ℕ → Build (List Node)
        build_all nil bb = return []
        build_all (cons el rest) bb = do
          node ← build_node el bb
          nodes ← build_all rest bb
          return (node ∷ nodes)

        pub build_only : Elements → ℕ → Build Node
        build_only nil bb = raise wrong_child_count
        build_only (cons el nil) bb = build_node el bb
        build_only (cons el (cons other rest)) bb = raise wrong_child_count

    -- _build_subtree inside the subtrees of the stack
    unfoldable pub subtree_in : ℕ → List String → Element → ℕ → Build Node
    unfolding build_subtree build_node
    subtree_in zero stack = build_subtree (λ id root bb s. (Outcome.out_of_fuel, s)) stack
    subtree_in (suc fuel) stack =
        build_subtree (λ id. build_node (subtree_in fuel (stack ++ id ∷ []))) stack

    -- _build_node from outside
    unfoldable pub build : Element → ℕ → Build Node
    unfolding subtree_in build_node
    build = build_node (subtree_in (length p.tree_roots) p.building_stack)
