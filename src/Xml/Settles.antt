-- ===== src/Xml/Settles.antt =====
-- bteng/xml_parser/parser.py: the recursion into subtrees ends.
use bteng.Prelude.{
  ℕ, zero, suc, ◌≤◌, String, ◌≡◌, Bool, false, some, List, [], ◌∷◌, ◌++◌, length, or_else, arith,
  Bool-cases, inl, inr,
}
use bteng.Prelude.Dict.{lookup}
use bteng.Node.{Node}
use bteng.Blackboard.{Callback}
use bteng.Factory.{create_leaf, manifest, is_registered}
use bteng.Xml.{
  Element, Elements, element, nil, cons, tag, attrib_of, children_of, Build, follow, XmlTreeParser,
  given, missing_type, missing_id, unknown_subtree,
}
use bteng.Xml.Attributes.{
  Kind, kind_of, subtree_tag, generic_tag, control_tag, decorator_tag, other_tag, generic_config,
  control_kwargs, decorator_kwargs,
}
use bteng.Xml.Build.{
  in_stack, name_of, control_with, decorator_with, build_tree, wrap_subtree, enter_scope,
  build_generic, build_leaf, build_explicit, build_control, build_decorator, build_subtree,
  build_referenced, build_node, build_kind, build_all, build_only, subtree_in, build,
}
use bteng.Xml.Fuel.{
  Settles, follow-IsFueled, lift-Settles, if-Settles, some_or-Settles, construct-Settles,
  build_tree-Settles, wrap_subtree-Settles, remaining, remaining_push, remaining_le,
}

module _ (alive : Callback → Bool) (now : ℕ) (p : XmlTreeParser) where
  build_generic-Settles :
      (node_type name : String) (attrib : List (String × String)) (bb : ℕ)
      → Settles (build_generic alive now p node_type name attrib bb)
  unfolding build_generic
  build_generic-Settles node_type name attrib bb =
      construct-Settles (λ b. create_leaf node_type b p.factory) name
        (generic_config p node_type (manifest node_type p.factory) bb attrib)

  build_explicit-Settles :
      (name : String) (attrib : List (String × String)) (bb : ℕ)
      → Settles (build_explicit alive now p name attrib bb)
  unfolding build_explicit
  build_explicit-Settles name attrib bb =
      some_or-Settles missing_type (given "type" attrib)
        (λ t. build_generic alive now p t (name_of attrib name) attrib bb)
        (λ t there. build_generic-Settles t (name_of attrib name) attrib bb)

  build_leaf-Settles :
      (name : String) (attrib : List (String × String)) (bb : ℕ)
      → Settles (build_leaf alive now p name attrib bb)
  unfolding build_leaf
  build_leaf-Settles name attrib bb s =
      let id = or_else (lookup "ID" attrib) name in
      elim (Bool-cases (is_registered id p.factory)) [
        | inl by_id ↦ rw by_id (build_generic-Settles id _ attrib bb s)
        | inr no_id ↦ elim (Bool-cases (is_registered name p.factory)) [
          | inl by_tag ↦ rw (no_id, by_tag) (build_generic-Settles name _ attrib bb s)
          | inr no_tag ↦ rw (no_id, no_tag) tt
        ]
      ]

  build_control-Settles :
      (name : String) (attrib : List (String × String)) (bb : ℕ) (children : List Node)
      → Settles (build_control alive now p name attrib bb children)
  unfolding build_control
  build_control-Settles name attrib bb children s =
      follow-IsFueled _ _ (lift-Settles (control_kwargs name attrib) s)
        (λ kwargs. construct-Settles (control_with p.factory name kwargs children) _ _)

  build_decorator-Settles :
      (name : String) (attrib : List (String × String)) (bb : ℕ) (child : Node)
      → Settles (build_decorator alive now p name attrib bb child)
  unfolding build_decorator
  build_decorator-Settles name attrib bb child s =
      follow-IsFueled _ _ (lift-Settles (decorator_kwargs name attrib) s)
        (λ kwargs. construct-Settles (decorator_with p.factory name kwargs child) _ _)

  build_kind-Settles :
      (subtree : Element → ℕ → Build Node) (kind : Kind) (el : Element) (bb : ℕ)
      (all : Build (List Node)) (only : Build Node)
      → Settles (subtree el bb)
      → Settles all
      → Settles only
      → Settles (build_kind alive now p subtree kind el bb all only)
  unfolding build_kind
  build_kind-Settles subtree subtree_tag el bb all only h k l s = h s
  build_kind-Settles subtree generic_tag el bb all only h k l s =
      build_explicit-Settles (tag el) (attrib_of el) bb s
  build_kind-Settles subtree control_tag el bb all only h k l s =
      follow-IsFueled (all s) _ (k s) (build_control-Settles (tag el) (attrib_of el) bb)
  build_kind-Settles subtree decorator_tag el bb all only h k l s =
      follow-IsFueled (only s) _ (l s) (build_decorator-Settles (tag el) (attrib_of el) bb)
  build_kind-Settles subtree other_tag el bb all only h k l s =
      build_leaf-Settles (tag el) (attrib_of el) bb s

  module _ (subtree : Element → ℕ → Build Node)
      (ends : (el : Element) (bb : ℕ) → Settles (subtree el bb)) where
    mutual
      unfolding build_node

      build_node-Settles : (el : Element) (bb : ℕ) → Settles (build_node alive now p subtree el bb)
      build_node-Settles (element name attrib children) bb =
          build_kind-Settles subtree (kind_of name) (element name attrib children) bb _ _
            (ends _ bb) (build_all-Settles children bb) (build_only-Settles children bb)

      build_all-Settles : (els : Elements) (bb : ℕ) → Settles (build_all alive now p subtree els bb)
      build_all-Settles nil bb s = tt
      build_all-Settles (cons el rest) bb s =
          follow-IsFueled (build_node alive now p subtree el bb s) _ (build_node-Settles el bb s)
            (λ node s'.
              follow-IsFueled (build_all alive now p subtree rest bb s') _
                (build_all-Settles rest bb s') (λ nodes s''. tt))

      build_only-Settles :
          (els : Elements) (bb : ℕ) → Settles (build_only alive now p subtree els bb)
      build_only-Settles nil bb s = tt
      build_only-Settles (cons el nil) bb s = build_node-Settles el bb s
      build_only-Settles (cons el (cons other rest)) bb s = tt

  build_referenced-Settles :
      (inside : Element → ℕ → Build Node) (id : String) (tree_el : Element)
      (attrib : List (String × String)) (bb : ℕ)
      → ((root : Element) (scope : ℕ) → Settles (inside root scope))
      → Settles (build_referenced alive now p inside id tree_el attrib bb)
  unfolding build_referenced enter_scope
  build_referenced-Settles inside id tree_el attrib bb h s =
      follow-IsFueled (enter_scope alive now attrib bb s)
        (λ scope s'.
          follow (build_tree inside (children_of tree_el) scope s')
            (wrap_subtree (name_of attrib id)))
        tt
        (λ scope s'.
          follow-IsFueled (build_tree inside (children_of tree_el) scope s')
            (wrap_subtree (name_of attrib id))
            (build_tree-Settles inside (children_of tree_el) scope h s')
            (wrap_subtree-Settles (name_of attrib id)))

  build_subtree-Settles :
      (inside : String → Element → ℕ → Build Node) (stack : List String) (el : Element) (bb : ℕ)
      → ((id : String) (tree_el root : Element) (scope : ℕ)
          → lookup id p.tree_roots ≡ some tree_el
          → in_stack id stack ≡ false
          → Settles (inside id root scope))
      → Settles (build_subtree alive now p inside stack el bb)
  unfolding build_subtree
  build_subtree-Settles inside stack el bb h =
      some_or-Settles missing_id (given "ID" (attrib_of el)) _ (λ id has_id.
        some_or-Settles unknown_subtree (lookup id p.tree_roots) _ (λ tree_el known.
          if-Settles (in_stack id stack) _
            (build_referenced alive now p (inside id) id tree_el (attrib_of el) bb) (λ s. tt)
            (λ new.
              build_referenced-Settles (inside id) id tree_el (attrib_of el) bb
                (λ root scope. h id tree_el root scope known new))))

  subtree_in-Settles :
      (fuel : ℕ) (stack : List String) (el : Element) (bb : ℕ)
      → remaining stack p.tree_roots ≤ fuel
      → Settles (subtree_in alive now p fuel stack el bb)
  unfolding subtree_in
  subtree_in-Settles zero stack el bb enough =
      build_subtree-Settles _ stack el bb (λ id tree_el root scope known new.
        let less = remaining_push id stack tree_el p.tree_roots known new in absurd (omega arith))
  subtree_in-Settles (suc fuel) stack el bb enough =
      build_subtree-Settles _ stack el bb (λ id tree_el root scope known new.
        let less = remaining_push id stack tree_el p.tree_roots known new in
        build_node-Settles (subtree_in alive now p fuel (stack ++ id ∷ []))
          (λ el' bb'. subtree_in-Settles fuel (stack ++ id ∷ []) el' bb' (omega arith)) root scope)

  pub build-Settles :
      (el : Element) (bb : ℕ) → p.building_stack ≡ [] → Settles (build alive now p el bb)
  unfolding build
  build-Settles el bb fresh =
      build_node-Settles (subtree_in alive now p (length p.tree_roots) p.building_stack)
        (λ el' bb'.
          subtree_in-Settles (length p.tree_roots) p.building_stack el' bb'
            (remaining_le p.building_stack p.tree_roots))
        el bb
