-- ===== src/Xml/Document.antt =====
-- bteng/xml_parser/parser.py: the calls that parse a document, and what they leave in the parser.
use bteng.Prelude.{
  ℕ, String, Bool, Option, none, some, List, [], ◌∷◌, ◌++◌, str_eq, if◌then◌else◌, or_first,
}
use bteng.Prelude.Dict.{lookup}
use bteng.Node.{Node}
use bteng.Blackboard.{Callback}
use bteng.Blackboard.Scopes.{create, create_child_scope}
use bteng.Tree.{Tree, TreeRegistry, register_tree}
use bteng.Xml.{
  Element, Elements, nil, cons, attrib_of, children_of, Outcome, ok, raised, out_of_fuel, Checked,
  valid, invalid, Build, Surroundings, ◌>>=◌, follow, return, raise, some_or, lift, XmlTreeParser,
  given, load_document, XmlError, no_tree, unknown_tree, wrong_root,
}
use bteng.Xml.Build.{build_tree, build}

-- `blackboard or Blackboard.create()`
unfoldable pub board_or_global : Option ℕ → Build ℕ
unfolding create
board_or_global (some id) s = (ok id, s)
board_or_global none s =
    let (store, id) = create s.store "__global__" in (ok id, record s { store = store })

-- A text that is not empty.
abbrev non_empty : Option String → Option String
non_empty none = none
non_empty (some v) = if str_eq v "" then none else some v

-- The tree to run: the caller's, the document's, or its first.
unfoldable pub target_of :
    Option String → List (String × String) → List (String × Element) → Checked String
unfolding given
target_of tree_id attrib roots =
    elim (or_first (non_empty tree_id) (given "main_tree_to_execute" attrib)) [
      | some id ↦ valid id
      | none ↦ elim roots [ [] ↦ invalid no_tree | (id, el) ∷ rest ↦ valid id ]
    ]

-- What comes behind a call that may have raised.
abbrev pub unless_raised {ℓ} : {A : Type ℓ} → Option XmlError → Checked A → Checked A
unless_raised none o = o
unless_raised (some e) o = invalid e

abbrev pub failures_of :
    Outcome (TreeRegistry × List (String × XmlError)) → List (String × XmlError)
failures_of (ok (registry, failures)) = failures
failures_of _ = []

abbrev pub registry_of : Outcome (TreeRegistry × List (String × XmlError)) → Outcome TreeRegistry
registry_of (ok (registry, failures)) = ok registry
registry_of (raised e) = raised e
registry_of out_of_fuel = out_of_fuel

module _ (alive : Callback → Bool) (now : ℕ) where
  -- The tree with an ID, behind _load_document.
  unfoldable pub build_root : XmlTreeParser → String → ℕ → Build Node
  unfolding build_tree build
  build_root p id bb =
      some_or unknown_tree (lookup id p.tree_roots)
        (λ el. build_tree (build alive now p) (children_of el) bb)

  -- Behind _load_document, whose error comes out behind the call for the blackboard.
  unfoldable pub parse_loaded :
      Element
      → Option String
      → Option ℕ
      → XmlTreeParser × Option XmlError
      → Surroundings
      → (Outcome Node × Surroundings) × XmlTreeParser
  unfolding board_or_global target_of build_root
  parse_loaded root tree_id blackboard (p, error) s =
      let run : Build Node = do
        bb ← board_or_global blackboard
        id ← lift (unless_raised error (target_of tree_id (attrib_of root) p.tree_roots))
        build_root p id bb
      in (run s, p)

  -- _parse_root: what it returns or raises, and the parser that it leaves.
  unfoldable pub parse_root :
      Element
      → Option String
      → Option ℕ
      → XmlTreeParser
      → Surroundings
      → (Outcome Node × Surroundings) × XmlTreeParser
  unfolding load_document parse_loaded
  parse_root root tree_id blackboard p s =
      parse_loaded root tree_id blackboard (load_document root p) s

  -- One tree of a document in a scope of its own.
  unfoldable pub build_registered : XmlTreeParser → ℕ → String → Elements → Build Tree
  unfolding create_child_scope build
  build_registered p bb id nil s = raise wrong_root s
  build_registered p bb id (cons el (cons other rest)) s = raise wrong_root s
  build_registered p bb id (cons el nil) s =
      let (boards, scope) = create_child_scope s.store.boards bb id [] in
      let s' = record s { store = record s.store { boards = boards } } in
      follow (build alive now p el scope s')
        (λ root. return (record { id = id; root = root; blackboard = scope; pending_mods = [] }))

  -- The trees that build, and the errors of the others.
  unfoldable pub build_registry :
      XmlTreeParser
      → ℕ
      → List (String × Element)
      → TreeRegistry
      → List (String × XmlError)
      → Build (TreeRegistry × List (String × XmlError))
  unfolding build_registered register_tree
  build_registry p bb [] registry failures s = (ok (registry, failures), s)
  build_registry p bb ((id, el) ∷ rest) registry failures s =
      let (o, s') = build_registered p bb id (children_of el) s in
      elim o [
        | ok tree ↦ build_registry p bb rest (register_tree registry tree) failures s'
        | raised e ↦ build_registry p bb rest registry (failures ++ (id, e) ∷ []) s'
        | out_of_fuel ↦ (out_of_fuel, s')
      ]

  -- Behind _load_document.
  unfoldable pub register_loaded :
      Option ℕ
      → XmlTreeParser × Option XmlError
      → Surroundings
      → (Outcome TreeRegistry × Surroundings) × XmlTreeParser
  unfolding board_or_global build_registry
  register_loaded blackboard (p, error) s =
      let run : Build (TreeRegistry × List (String × XmlError)) = do
        bb ← board_or_global blackboard
        roots ← lift (unless_raised error (valid p.tree_roots))
        build_registry p bb roots [] []
      in let (o, s') = run s in ((registry_of o, s'), record p { registry_errors = failures_of o })

  -- _parse_all_to_registry
  unfoldable pub parse_all_to_registry :
      Element
      → Option ℕ
      → XmlTreeParser
      → Surroundings
      → (Outcome TreeRegistry × Surroundings) × XmlTreeParser
  unfolding load_document register_loaded
  parse_all_to_registry root blackboard p s = register_loaded blackboard (load_document root p) s
