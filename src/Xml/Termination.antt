-- ===== src/Xml/Termination.antt =====
-- bteng/xml_parser/parser.py: every call on a document ends.
use bteng.Prelude.{ℕ, String, ◌≡◌, ◌≢◌, refl, subst, Bool, Option, none, some, List, [], ◌∷◌, ◌++◌}
use bteng.Prelude.Dict.{lookup}
use bteng.Blackboard.{Callback}
use bteng.Xml.{
  Element, Elements, nil, cons, attrib_of, children_of, Outcome, ok, raised, out_of_fuel, valid,
  Surroundings, lift, XmlTreeParser, XmlError, load_document, reset_document_state,
}
use bteng.Xml.Build.{build}
use bteng.Xml.Document.{
  board_or_global, target_of, build_root, parse_loaded, parse_root, build_registered,
  build_registry, register_loaded, parse_all_to_registry, unless_raised, registry_of,
}
use bteng.Blackboard.Scopes.{create_child_scope}
use bteng.Tree.{TreeRegistry, register_tree}
use bteng.Xml.Fuel.{
  elim_fueled, IsFueled, Settles, follow-IsFueled, bind-Settles, lift-Settles, some_or-Settles,
  build_tree-Settles,
}
use bteng.Xml.Settles.{build-Settles}

board_or_global-Settles : (blackboard : Option ℕ) → Settles (board_or_global blackboard)
unfolding board_or_global
board_or_global-Settles none s = tt
board_or_global-Settles (some id) s = tt

registry_of-IsFueled :
    (o : Outcome (TreeRegistry × List (String × XmlError))) → IsFueled o → IsFueled (registry_of o)
registry_of-IsFueled (ok (registry, failures)) h = h
registry_of-IsFueled (raised e) h = h
registry_of-IsFueled out_of_fuel h = h

module _ (alive : Callback → Bool) (now : ℕ) where
  build_root-Settles :
      (p : XmlTreeParser) (id : String) (bb : ℕ)
      → p.building_stack ≡ []
      → Settles (build_root alive now p id bb)
  unfolding build_root
  build_root-Settles p id bb fresh = some_or-Settles _ (lookup id p.tree_roots) _ (λ el known.
      build_tree-Settles (build alive now p) (children_of el) bb
        (λ root scope. build-Settles alive now p root scope fresh))

  pub build_registered-Settles :
      (p : XmlTreeParser) (bb : ℕ) (id : String) (els : Elements)
      → p.building_stack ≡ []
      → Settles (build_registered alive now p bb id els)
  unfolding build_registered
  build_registered-Settles p bb id nil fresh s = tt
  build_registered-Settles p bb id (cons el (cons other rest)) fresh s = tt
  build_registered-Settles p bb id (cons el nil) fresh s =
      let (boards, scope) = create_child_scope s.store.boards bb id [] in
      let s' : Surroundings = record s { store = record s.store { boards = boards } } in
      follow-IsFueled (build alive now p el scope s') _
        (build-Settles alive now p el scope fresh s') (λ root s''. tt)

  build_registry-Settles :
      (p : XmlTreeParser) (bb : ℕ) (roots : List (String × Element)) (registry : TreeRegistry)
      (failures : List (String × XmlError))
      → p.building_stack ≡ []
      → Settles (build_registry alive now p bb roots registry failures)
  unfolding build_registry
  build_registry-Settles p bb [] registry failures fresh s = tt
  build_registry-Settles p bb ((id, el) ∷ rest) registry failures fresh s =
      let (o, s') = build_registered alive now p bb id (children_of el) s in
      elim_fueled IsFueled o
        (λ tree. build_registry alive now p bb rest (register_tree registry tree) failures s')
        (λ e. build_registry alive now p bb rest registry (failures ++ (id, e) ∷ []) s') s'
        (build_registered-Settles p bb id (children_of el) fresh s)
        (λ tree built.
          build_registry-Settles p bb rest (register_tree registry tree) failures fresh s')
        (λ e failed. build_registry-Settles p bb rest registry (failures ++ (id, e) ∷ []) fresh s')

  parse_root-Settles :
      (root : Element) (tree_id : Option String) (blackboard : Option ℕ) (p : XmlTreeParser)
      (s : Surroundings)
      → IsFueled (parse_root alive now root tree_id blackboard p s).0.0
  unfolding parse_root parse_loaded load_document reset_document_state
  parse_root-Settles root tree_id blackboard p s =
      let (p', error) = load_document root p in
      bind-Settles (board_or_global blackboard) _ (board_or_global-Settles blackboard)
        (λ bb.
          bind-Settles
            (lift (unless_raised error (target_of tree_id (attrib_of root) p'.tree_roots)))
            (λ id. build_root alive now p' id bb) (lift-Settles _)
            (λ id. build_root-Settles p' id bb refl))
        s

  parse_all_to_registry-Settles :
      (root : Element) (blackboard : Option ℕ) (p : XmlTreeParser) (s : Surroundings)
      → IsFueled (parse_all_to_registry alive now root blackboard p s).0.0
  unfolding parse_all_to_registry register_loaded load_document reset_document_state
  parse_all_to_registry-Settles root blackboard p s =
      let (p', error) = load_document root p in
      registry_of-IsFueled _ (
        bind-Settles (board_or_global blackboard) _ (board_or_global-Settles blackboard)
          (λ bb.
            bind-Settles (lift (unless_raised error (valid p'.tree_roots)))
              (λ roots. build_registry alive now p' bb roots [] []) (lift-Settles _)
              (λ roots. build_registry-Settles p' bb roots [] [] refl))
          s)

  -- Whatever document is given to whatever parser, the number of its trees is fuel enough: a parse
  -- returns or raises, and so does the parse of all trees to a registry.
  pub parse_ends :
      (root : Element) (tree_id : Option String) (blackboard : Option ℕ) (p : XmlTreeParser)
      (s : Surroundings)
      → ((parse_root alive now root tree_id blackboard p s).0.0 ≢ out_of_fuel)
        × ((parse_all_to_registry alive now root blackboard p s).0.0 ≢ out_of_fuel)
  parse_ends root tree_id blackboard p s = (
    λ e. subst IsFueled e (parse_root-Settles root tree_id blackboard p s),
    λ e. subst IsFueled e (parse_all_to_registry-Settles root blackboard p s),
  )
