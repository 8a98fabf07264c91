-- ===== src/Xml/Cycles.antt =====
-- bteng/xml_parser/parser.py: what is built has no cyclic references.
use bteng.Prelude.{
  ℕ, String, ◌≡◌, ◌≢◌, refl, sym, ◌∙◌, subst, Bool, true, false, Option, List, [], ◌∷◌, ◌++◌,
  length, All, arith, eq_iff, inl, inr, ◌⊎◌,
}
use bteng.Prelude.Dict.{lookup}
use bteng.Node.{Node}
use bteng.Blackboard.{Callback}
use bteng.Xml.{
  Element, nil, cons, attrib_of, children_of, Outcome, ok, raised, out_of_fuel, XmlError,
  Surroundings, XmlTreeParser, valid, load_document,
}
use bteng.Xml.Fuel.{in_stack_snoc}
use bteng.Xml.Build.{in_stack, subtree_in, build}
use bteng.Xml.References.{
  All_at, some_or-ok, build_tree-ok, refs, only_refs, tree_refs, Chain, one, more,
}
use bteng.Xml.Document.{target_of, build_root, parse_root}
use bteng.Xml.Termination.{parse_ends}
use bteng.Xml.Returned.{parse_root-Returned}
use bteng.Xml.Built.{IsBuilt, Inner, subtree_in-ok, build_node-refs}

module _ (alive : Callback → Bool) (now : ℕ) (p : XmlTreeParser) where
  IsBuilt-refs :
      (fuel : ℕ) (stack : List String) (a b : String)
      → IsBuilt alive now p fuel stack a
      → in_stack b (tree_refs p.tree_roots a) ≡ true
      → Inner alive now p stack b
  unfolding tree_refs only_refs
  IsBuilt-refs fuel stack a b h m =
      let all : All (Inner alive now p stack) (refs h.root) =
        build_node-refs alive now p (subtree_in alive now p fuel stack) (Inner alive now p stack)
          (subtree_in-ok alive now p fuel stack) h.root h.scope h.before h.after h.node h.built in
      let found : in_stack b (only_refs (children_of h.tree_el)) ≡ true =
        rw (tree_refs, h.known) at m in
      let single : in_stack b (only_refs (cons h.root nil)) ≡ true =
        subst (λ els. in_stack b (only_refs els) ≡ true) h.single found in
      All_at (Inner alive now p stack) b (refs h.root) all single

  -- From a tree that was built, a chain leads to trees that are not on the stack.
  Chain-new :
      {a c : String} (fuel : ℕ) (stack : List String) (z : String)
      → IsBuilt alive now p fuel stack a
      → Chain p.tree_roots a c
      → in_stack z stack ≡ true
      → c ≢ z
  unfolding Inner
  Chain-new {a} {c} fuel stack z h (one m) there =
      let (new, f, built) = IsBuilt-refs fuel stack a c h m in
      λ e. let same = subst (λ x. in_stack x stack ≡ false) e new in cc
  Chain-new {a} fuel stack z h (more {b = b} m rest) there =
      let (new, f, built) = IsBuilt-refs fuel stack a b h m in
      let kept : in_stack z (stack ++ b ∷ []) ≡ true =
        let e = in_stack_snoc z b stack in ground arith in
      Chain-new f (stack ++ b ∷ []) z built rest kept

  -- It leads to a tree that was built, with itself on the stack.
  Chain-IsBuilt :
      {a c : String} (fuel : ℕ) (stack : List String)
      → IsBuilt alive now p fuel stack a
      → Chain p.tree_roots a c
      → (f : ℕ) × (inner : List String) × (in_stack c inner ≡ true) × IsBuilt alive now p f inner c
  unfolding Inner
  Chain-IsBuilt {a} {c} fuel stack h (one m) =
      let (new, f, built) = IsBuilt-refs fuel stack a c h m in
      let there : in_stack c (stack ++ c ∷ []) ≡ true =
        let e = in_stack_snoc c c stack in ground (arith, eq_iff c c) in
      (f, stack ++ c ∷ [], there, built)
  Chain-IsBuilt {a} fuel stack h (more {b = b} m rest) =
      let (new, f, built) = IsBuilt-refs fuel stack a b h m in
      Chain-IsBuilt f (stack ++ b ∷ []) built rest

  Chain-irreflexive :
      {a : String} (fuel : ℕ) (stack : List String)
      → IsBuilt alive now p fuel stack a
      → in_stack a stack ≡ true
      → Chain p.tree_roots a a
      → ⊥
  Chain-irreflexive {a} fuel stack h there cycle = Chain-new fuel stack a h cycle there refl

  -- Where a tree was built, no chain from it leads into a cycle.
  IsBuilt-acyclic :
      {t a : String} (fuel : ℕ) (stack : List String)
      → IsBuilt alive now p fuel stack t
      → (t ≡ a) ⊎ Chain p.tree_roots t a
      → Chain p.tree_roots a a
      → ⊥
  IsBuilt-acyclic {t} {a} fuel stack h (inl e) cycle =
      let own = subst (λ x. Chain p.tree_roots x x) (sym e) cycle in
      let (f, inner, there, again) = Chain-IsBuilt fuel stack h own in
      Chain-irreflexive f inner again there own
  IsBuilt-acyclic fuel stack h (inr chain) cycle =
      let (f, inner, there, again) = Chain-IsBuilt fuel stack h chain in
      Chain-irreflexive f inner again there cycle

  build_root-IsBuilt :
      (id : String) (bb : ℕ) (s s' : Surroundings) (n : Node)
      → build_root alive now p id bb s ≡ (ok n, s')
      → IsBuilt alive now p (length p.tree_roots) p.building_stack id
  unfolding build_root build
  build_root-IsBuilt id bb s s' n h =
      let (el, known, h1) = some_or-ok _ (lookup id p.tree_roots) _ n s s' h in
      let (root, single, inner) = build_tree-ok (build alive now p) (children_of el) bb s s' n h1 in
      record {
        tree_el = el;
        root = root;
        scope = bb;
        before = s;
        after = s';
        node = n;
        known = known;
        single = single;
        built = inner;
      }

-- If the parse of a document returns a node, no tree that is reached from the target, itself or by
-- SubTree elements that are built for it, leads back to itself.
parse_root_acyclic :
    (alive : Callback → Bool) (now : ℕ) (p : XmlTreeParser) (root : Element)
    (tree_id : Option String) (blackboard : Option ℕ) (s : Surroundings) (n : Node) (t a : String)
    → (parse_root alive now root tree_id blackboard p s).0.0 ≡ ok n
    → target_of tree_id (attrib_of root) (load_document root p).0.tree_roots ≡ valid t
    → (t ≡ a) ⊎ Chain (load_document root p).0.tree_roots t a
    → ¬ Chain (load_document root p).0.tree_roots a a
parse_root_acyclic alive now p root tree_id blackboard s n t a returned target from_t cycle =
    let r = parse_root-Returned alive now p root tree_id blackboard s n returned in
    let p' = (load_document root p).0 in
    let same : r.id ≡ t = let valids : valid r.id ≡ valid t = sym r.target ∙ target in cc in
    IsBuilt-acyclic alive now p' (length p'.tree_roots) p'.building_stack
      (subst (IsBuilt alive now p' (length p'.tree_roots) p'.building_stack) same
        (build_root-IsBuilt alive now p' r.id r.scope r.before r.after n r.built))
      from_t cycle

unbuilt-raises :
    (o : Outcome Node) → o ≢ out_of_fuel → ((n : Node) → o ≢ ok n) → (e : XmlError) × (o ≡ raised e)
unbuilt-raises (ok n) ends unbuilt = absurd (unbuilt n refl)
unbuilt-raises (raised e) ends unbuilt = (e, refl)
unbuilt-raises out_of_fuel ends unbuilt = absurd (ends refl)

-- When the tree that is asked for is on a cycle of SubTree references, or leads to one, the parse
-- raises: it neither returns a tree nor recurses without an end.
pub parse_root_raises :
    (alive : Callback → Bool) (now : ℕ) (p : XmlTreeParser) (root : Element)
    (tree_id : Option String) (blackboard : Option ℕ) (s : Surroundings) (t a : String)
    → target_of tree_id (attrib_of root) (load_document root p).0.tree_roots ≡ valid t
    → (t ≡ a) ⊎ Chain (load_document root p).0.tree_roots t a
    → Chain (load_document root p).0.tree_roots a a
    → (e : XmlError) × ((parse_root alive now root tree_id blackboard p s).0.0 ≡ raised e)
parse_root_raises alive now p root tree_id blackboard s t a target from_t cycle =
    unbuilt-raises _ (parse_ends alive now root tree_id blackboard p s).0 (λ n returned.
      parse_root_acyclic alive now p root tree_id blackboard s n t a returned target from_t cycle)
