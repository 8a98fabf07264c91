-- ===== src/Xml/Built.antt =====
-- bteng/xml_parser/parser.py: what a tree that was built says of its subtrees.
use bteng.Prelude.{
  ℕ, zero, suc, String, ◌≡◌, sym, ap, subst, Bool, false, some, List, [], ◌∷◌, ◌++◌, All,
}
use bteng.Prelude.Dict.{lookup}
use bteng.Node.{Node}
use bteng.Blackboard.{Callback}
use bteng.Xml.{
  Element, Elements, element, nil, cons, attrib_of, children_of, ok, Build, Surroundings, follow,
  XmlTreeParser, given,
}
use bteng.Xml.Attributes.{
  Kind, kind_of, subtree_tag, generic_tag, control_tag, decorator_tag, other_tag,
}
use bteng.Xml.Build.{
  in_stack, build_tree, build_subtree, build_referenced, build_node, build_kind, build_all,
  build_only, subtree_in, enter_scope, wrap_subtree, name_of,
}
use bteng.Xml.References.{
  All-append, follow-ok, some_or-ok, if-ok, build_tree-ok, refs, refs_in, only_refs, list_of,
  refs_of_kind,
}

module _ (alive : Callback → Bool) (now : ℕ) (p : XmlTreeParser) where
  module _ {κ} (subtree : Element → ℕ → Build Node) (P : String → Type κ)
      (found : (el : Element) (bb : ℕ) (s s' : Surroundings) (n : Node)
        → subtree el bb s ≡ (ok n, s')
        → All P (list_of (given "ID" (attrib_of el)))) where
    build_kind-refs :
        (kind : Kind) (el : Element) (bb : ℕ) (all : Build (List Node)) (only : Build Node)
        (xs ys : List String) (s s' : Surroundings) (n : Node)
        → ((t t' : Surroundings) (ns : List Node) → all t ≡ (ok ns, t') → All P xs)
        → ((t t' : Surroundings) (m : Node) → only t ≡ (ok m, t') → All P ys)
        → build_kind alive now p subtree kind el bb all only s ≡ (ok n, s')
        → All P (refs_of_kind kind (given "ID" (attrib_of el)) xs ys)
    unfolding build_kind
    build_kind-refs subtree_tag el bb all only xs ys s s' n h k built = found el bb s s' n built
    build_kind-refs generic_tag el bb all only xs ys s s' n h k built = tt
    build_kind-refs control_tag el bb all only xs ys s s' n h k built =
        let (ns, t, made, rest) = follow-ok (all s) _ n s' built in h s t ns made
    build_kind-refs decorator_tag el bb all only xs ys s s' n h k built =
        let (m, t, made, rest) = follow-ok (only s) _ n s' built in k s t m made
    build_kind-refs other_tag el bb all only xs ys s s' n h k built = tt

    mutual
      unfolding build_node refs

      pub build_node-refs :
          (el : Element) (bb : ℕ) (s s' : Surroundings) (n : Node)
          → build_node alive now p subtree el bb s ≡ (ok n, s')
          → All P (refs el)
      build_node-refs (element name attrib children) bb s s' n built =
          build_kind-refs (kind_of name) (element name attrib children) bb
            (build_all alive now p subtree children bb) (build_only alive now p subtree children bb)
            (refs_in children) (only_refs children) s s' n (build_all-refs children bb)
            (build_only-refs children bb) built

      build_all-refs :
          (els : Elements) (bb : ℕ) (s s' : Surroundings) (ns : List Node)
          → build_all alive now p subtree els bb s ≡ (ok ns, s')
          → All P (refs_in els)
      build_all-refs nil bb s s' ns built = tt
      build_all-refs (cons el rest) bb s s' ns built =
          let (m, t, made, further) =
            follow-ok (build_node alive now p subtree el bb s) _ ns s' built in
          let (ms, t', others, end) =
            follow-ok (build_all alive now p subtree rest bb t) _ ns s' further in
          All-append P (refs el) (refs_in rest) (build_node-refs el bb s t m made)
            (build_all-refs rest bb t t' ms others)

      build_only-refs :
          (els : Elements) (bb : ℕ) (s s' : Surroundings) (n : Node)
          → build_only alive now p subtree els bb s ≡ (ok n, s')
          → All P (only_refs els)
      build_only-refs nil bb s s' n built = tt
      build_only-refs (cons el nil) bb s s' n built = build_node-refs el bb s s' n built
      build_only-refs (cons el (cons other rest)) bb s s' n built = tt

  -- The tree with an ID was built inside these subtrees.
  pub record IsBuilt (fuel : ℕ) (stack : List String) (id : String) : Type 0 where
    pub tree_el : Element
    pub root : Element
    pub scope : ℕ
    pub before : Surroundings
    pub after : Surroundings
    pub node : Node
    pub known : lookup id p.tree_roots ≡ some tree_el
    pub single : children_of tree_el ≡ cons root nil
    pub built :
        build_node alive now p (subtree_in alive now p fuel stack) root scope before
        ≡ (ok node, after)

  -- What _build_subtree has done when it returned.
  pub record Entered (inside : String → Element → ℕ → Build Node) (stack : List String)
      (el : Element) (s s' : Surroundings) (n : Node) : Type 0 where
    pub id : String
    pub tree_el : Element
    pub root : Element
    pub scope : ℕ
    pub before : Surroundings
    pub after : Surroundings
    pub child : Node
    pub has_id : given "ID" (attrib_of el) ≡ some id
    pub known : lookup id p.tree_roots ≡ some tree_el
    pub new : in_stack id stack ≡ false
    pub single : children_of tree_el ≡ cons root nil
    pub drawn : before.next_uid ≡ s.next_uid
    pub built : inside id root scope before ≡ (ok child, after)
    pub wrapped : wrap_subtree (name_of (attrib_of el) id) child after ≡ (ok n, s')

  pub build_subtree-ok :
      (inside : String → Element → ℕ → Build Node) (stack : List String) (el : Element) (bb : ℕ)
      (s s' : Surroundings) (n : Node)
      → build_subtree alive now p inside stack el bb s ≡ (ok n, s')
      → Entered inside stack el s s' n
  unfolding build_subtree build_referenced enter_scope
  build_subtree-ok inside stack el bb s s' n h =
      let (id, has_id, h1) = some_or-ok _ (given "ID" (attrib_of el)) _ n s s' h in
      let (tree_el, known, h2) = some_or-ok _ (lookup id p.tree_roots) _ n s s' h1 in
      let (new, h3) =
        if-ok (in_stack id stack) _
          (build_referenced alive now p (inside id) id tree_el (attrib_of el) bb) n s s' h2 in
      let (scope, t, entered, h4) =
        follow-ok (enter_scope alive now (attrib_of el) bb s)
          (λ scope t.
            follow (build_tree (inside id) (children_of tree_el) scope t)
              (wrap_subtree (name_of (attrib_of el) id)))
          n s' h3 in
      let (m, t', made, wrapped) =
        follow-ok (build_tree (inside id) (children_of tree_el) scope t)
          (wrap_subtree (name_of (attrib_of el) id)) n s' h4 in
      let (root, single, inner) =
        build_tree-ok (inside id) (children_of tree_el) scope t t' m made in
      record {
        id = id;
        tree_el = tree_el;
        root = root;
        scope = scope;
        before = t;
        after = t';
        child = m;
        has_id = has_id;
        known = known;
        new = new;
        single = single;
        drawn = sym (ap (λ q. q.1.next_uid) entered);
        built = inner;
        wrapped = wrapped;
      }

  -- What a tree that was built says of one to which it refers.
  unfoldable pub Inner : List String → String → Type 0
  Inner stack id = (in_stack id stack ≡ false) × (f : ℕ) × IsBuilt f (stack ++ id ∷ []) id

  pub subtree_in-ok :
      (fuel : ℕ) (stack : List String) (el : Element) (bb : ℕ) (s s' : Surroundings) (n : Node)
      → subtree_in alive now p fuel stack el bb s ≡ (ok n, s')
      → All (Inner stack) (list_of (given "ID" (attrib_of el)))
  unfolding subtree_in Inner
  subtree_in-ok zero stack el bb s s' n h =
      let e = build_subtree-ok _ stack el bb s s' n h in
      let no = ap (λ q. q.0) e.built in absurd (cc)
  subtree_in-ok (suc fuel) stack el bb s s' n h =
      let e = build_subtree-ok _ stack el bb s s' n h in
      let inner : IsBuilt fuel (stack ++ e.id ∷ []) e.id = record {
        tree_el = e.tree_el;
        root = e.root;
        scope = e.scope;
        before = e.before;
        after = e.after;
        node = e.child;
        known = e.known;
        single = e.single;
        built = e.built;
      } in
      subst (λ o. All (Inner stack) (list_of o)) (sym e.has_id) ((e.new, fuel, inner), tt)
