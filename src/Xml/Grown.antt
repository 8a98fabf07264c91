-- ===== src/Xml/Grown.antt =====
-- bteng/xml_parser/parser.py: what is built has never been ticked, and names no uid twice.
use bteng.Prelude.{ℕ, suc, String, ◌≡◌, ap, subst, List, [], ◌∷◌, arith, inl, inr, Bool-cases}
use bteng.Prelude.Dict.{lookup}
use bteng.Node.{Node, decorator, Decorator}
use bteng.Node.Children.{of_list}
use bteng.Factory.{created, create_leaf}
use bteng.Builder.Uids.{occurs_all}
use bteng.Xml.{Surroundings, ok}
use bteng.Xml.Build.{control_with, decorator_with, wrap_subtree}
use bteng.Blackboard.{Callback}
use bteng.Prelude.{Bool, ◌++◌, length}
use bteng.Xml.{Element, Elements, element, tag, attrib_of, Build, lift, XmlTreeParser, given}
use bteng.Factory.{is_registered}
use bteng.Prelude.{or_else}
use bteng.Xml.Attributes.{
  Kind, kind_of, subtree_tag, generic_tag, control_tag, decorator_tag, other_tag, control_kwargs,
  decorator_kwargs,
}
use bteng.Xml.Build.{
  name_of, build_generic, build_leaf, build_explicit, build_control, build_decorator, build_node,
  build_kind, build_all, build_only, subtree_in, build,
}
use bteng.Xml.References.{follow-ok, some_or-ok}
use bteng.Xml.Built.{build_subtree-ok}
use bteng.Xml.Fresh.{
  IsFreshFactory, Made, control_with-Made, decorator_with-Made, create_leaf-Made, decorator-Made,
}
use bteng.Xml.Draws.{Grows, GrowsAll, construct-Grows, GrowsAll-single, GrowsAll-return, lift_kept}

module _ (alive : Callback → Bool) (now : ℕ) (p : XmlTreeParser)
    (fresh : IsFreshFactory p.factory) where
  build_generic-Grows :
      (node_type name : String) (attrib : List (String × String)) (bb : ℕ) (s s' : Surroundings)
      (n : Node)
      → build_generic alive now p node_type name attrib bb s ≡ (ok n, s')
      → Grows s.next_uid n s'.next_uid
  unfolding build_generic occurs_all of_list
  build_generic-Grows node_type name attrib bb s s' n h =
      construct-Grows (λ b. create_leaf node_type b p.factory) name _ s.next_uid [] s s' n
        (λ b m made. create_leaf-Made p.factory node_type b m fresh made) (tt, λ i. omega arith) h

  build_explicit-Grows :
      (name : String) (attrib : List (String × String)) (bb : ℕ) (s s' : Surroundings) (n : Node)
      → build_explicit alive now p name attrib bb s ≡ (ok n, s')
      → Grows s.next_uid n s'.next_uid
  unfolding build_explicit
  build_explicit-Grows name attrib bb s s' n h =
      let (t, typed, h1) = some_or-ok _ (given "type" attrib) _ n s s' h in
      build_generic-Grows t (name_of attrib name) attrib bb s s' n h1

  build_leaf-Grows :
      (name : String) (attrib : List (String × String)) (bb : ℕ) (s s' : Surroundings) (n : Node)
      → build_leaf alive now p name attrib bb s ≡ (ok n, s')
      → Grows s.next_uid n s'.next_uid
  unfolding build_leaf
  build_leaf-Grows name attrib bb s s' n h =
      let id = or_else (lookup "ID" attrib) name in
      elim (Bool-cases (is_registered id p.factory)) [
        | inl by_id ↦ build_generic-Grows id _ attrib bb s s' n (rw (build_leaf, by_id) at h)
        | inr no_id ↦ elim (Bool-cases (is_registered name p.factory)) [
          | inl by_tag ↦
              build_generic-Grows name _ attrib bb s s' n (rw (build_leaf, no_id, by_tag) at h)
          | inr no_tag ↦ let no = ap (λ q. q.0) (rw (build_leaf, no_id, no_tag) at h) in absurd (cc)
        ]
      ]

  build_control-Grows :
      (name : String) (attrib : List (String × String)) (bb a : ℕ) (ns : List Node)
      (s s' : Surroundings) (n : Node)
      → GrowsAll a ns s.next_uid
      → build_control alive now p name attrib bb ns s ≡ (ok n, s')
      → Grows a n s'.next_uid
  unfolding build_control
  build_control-Grows name attrib bb a ns s s' n g h =
      let (kwargs, s1, lifted, h1) = follow-ok (lift (control_kwargs name attrib) s) _ n s' h in
      construct-Grows (control_with p.factory name kwargs ns) _ _ a ns s1 s' n
        (λ b m made. control_with-Made p.factory name kwargs ns b m fresh made)
        (subst (GrowsAll a ns) (lift_kept (control_kwargs name attrib) kwargs s s1 lifted) g) h1

  build_decorator-Grows :
      (name : String) (attrib : List (String × String)) (bb a : ℕ) (child : Node)
      (s s' : Surroundings) (n : Node)
      → Grows a child s.next_uid
      → build_decorator alive now p name attrib bb child s ≡ (ok n, s')
      → Grows a n s'.next_uid
  unfolding build_decorator
  build_decorator-Grows name attrib bb a child s s' n g h =
      let (kwargs, s1, lifted, h1) = follow-ok (lift (decorator_kwargs name attrib) s) _ n s' h in
      let kept = lift_kept (decorator_kwargs name attrib) kwargs s s1 lifted in
      construct-Grows (decorator_with p.factory name kwargs child) _ _ a (child ∷ []) s1 s' n
        (decorator_with-Made p.factory name kwargs child)
        (subst (GrowsAll a (child ∷ [])) kept (GrowsAll-single a s.next_uid child g)) h1

  module _ (subtree : Element → ℕ → Build Node)
      (grown : (el : Element) (bb : ℕ) (s s' : Surroundings) (n : Node)
        → subtree el bb s ≡ (ok n, s')
        → Grows s.next_uid n s'.next_uid) where
    build_kind-Grows :
        (kind : Kind) (el : Element) (bb : ℕ) (all : Build (List Node)) (only : Build Node)
        (s s' : Surroundings) (n : Node)
        → ((t : Surroundings) (ns : List Node)
            → all s ≡ (ok ns, t)
            → GrowsAll s.next_uid ns t.next_uid)
        → ((t : Surroundings) (m : Node) → only s ≡ (ok m, t) → Grows s.next_uid m t.next_uid)
        → build_kind alive now p subtree kind el bb all only s ≡ (ok n, s')
        → Grows s.next_uid n s'.next_uid
    unfolding build_kind
    build_kind-Grows subtree_tag el bb all only s s' n h k built = grown el bb s s' n built
    build_kind-Grows generic_tag el bb all only s s' n h k built =
        build_explicit-Grows (tag el) (attrib_of el) bb s s' n built
    build_kind-Grows control_tag el bb all only s s' n h k built =
        let (ns, t, made, rest) = follow-ok (all s) _ n s' built in
        build_control-Grows (tag el) (attrib_of el) bb s.next_uid ns t s' n (h t ns made) rest
    build_kind-Grows decorator_tag el bb all only s s' n h k built =
        let (m, t, made, rest) = follow-ok (only s) _ n s' built in
        build_decorator-Grows (tag el) (attrib_of el) bb s.next_uid m t s' n (k t m made) rest
    build_kind-Grows other_tag el bb all only s s' n h k built =
        build_leaf-Grows (tag el) (attrib_of el) bb s s' n built

    mutual
      unfolding build_node of_list occurs_all

      build_node-Grows :
          (el : Element) (bb : ℕ) (s s' : Surroundings) (n : Node)
          → build_node alive now p subtree el bb s ≡ (ok n, s')
          → Grows s.next_uid n s'.next_uid
      build_node-Grows (element name attrib children) bb s s' n built =
          build_kind-Grows (kind_of name) (element name attrib children) bb
            (build_all alive now p subtree children bb) (build_only alive now p subtree children bb)
            s s' n (λ t. build_all-Grows children bb s t) (λ t. build_only-Grows children bb s t)
            built

      build_all-Grows :
          (els : Elements) (bb : ℕ) (s s' : Surroundings) (ns : List Node)
          → build_all alive now p subtree els bb s ≡ (ok ns, s')
          → GrowsAll s.next_uid ns s'.next_uid
      build_all-Grows Elements.nil bb s s' ns built =
          GrowsAll-return s.next_uid [] ns s s' (tt, λ i. omega arith) built
      build_all-Grows (Elements.cons el rest) bb s s' ns built =
          let (m, t, made, further) =
            follow-ok (build_node alive now p subtree el bb s) _ ns s' built in
          let (ms, t', others, end) =
            follow-ok (build_all alive now p subtree rest bb t) _ ns s' further in
          let first = build_node-Grows el bb s t m made in
          let all = build_all-Grows rest bb t t' ms others in
          let both : GrowsAll s.next_uid (m ∷ ms) t'.next_uid =
            ((first.0, all.0), λ i. let c = first.1 i in let d = all.1 i in omega arith) in
          GrowsAll-return s.next_uid (m ∷ ms) ns t' s' both end

      build_only-Grows :
          (els : Elements) (bb : ℕ) (s s' : Surroundings) (n : Node)
          → build_only alive now p subtree els bb s ≡ (ok n, s')
          → Grows s.next_uid n s'.next_uid
      build_only-Grows Elements.nil bb s s' n built = let no = ap (λ q. q.0) built in absurd (cc)
      build_only-Grows (Elements.cons el Elements.nil) bb s s' n built =
          build_node-Grows el bb s s' n built
      build_only-Grows (Elements.cons el (Elements.cons other rest)) bb s s' n built =
          let no = ap (λ q. q.0) built in absurd (cc)

  subtree_in-Grows :
      (fuel : ℕ) (stack : List String) (el : Element) (bb : ℕ) (s s' : Surroundings) (n : Node)
      → subtree_in alive now p fuel stack el bb s ≡ (ok n, s')
      → Grows s.next_uid n s'.next_uid
  unfolding subtree_in wrap_subtree
  subtree_in-Grows ℕ.zero stack el bb s s' n h =
      let e = build_subtree-ok alive now p _ stack el bb s s' n h in
      let no = ap (λ q. q.0) e.built in absurd (cc)
  subtree_in-Grows (suc fuel) stack el bb s s' n h =
      let e = build_subtree-ok alive now p _ stack el bb s s' n h in
      let inner =
        build_node-Grows (subtree_in alive now p fuel (stack ++ e.id ∷ []))
          (subtree_in-Grows fuel (stack ++ e.id ∷ [])) e.root e.scope e.before e.after e.child
          e.built in
      let g = subst (λ a. Grows a e.child e.after.next_uid) e.drawn inner in
      construct-Grows (λ b. created (decorator b Decorator.sub_tree e.child)) _ _ s.next_uid
        (e.child ∷ []) e.after s' n
        (λ b m made.
          let same : decorator b Decorator.sub_tree e.child ≡ m = cc in
          subst (Made b (e.child ∷ [])) same (decorator-Made b Decorator.sub_tree e.child))
        (GrowsAll-single s.next_uid e.after.next_uid e.child g) e.wrapped

  pub build-Grows :
      (el : Element) (bb : ℕ) (s s' : Surroundings) (n : Node)
      → build alive now p el bb s ≡ (ok n, s')
      → Grows s.next_uid n s'.next_uid
  unfolding build
  build-Grows =
      build_node-Grows (subtree_in alive now p (length p.tree_roots) p.building_stack)
        (subtree_in-Grows (length p.tree_roots) p.building_stack)
