-- ===== src/Builder/Uids.antt =====
-- bteng/core/tree_builder.py: no node gets into a tree twice.
use bteng.Prelude.{
  ℕ, ◌+◌, ◌≤◌, String, ◌≡◌, refl, ap, Bool, Option, none, some, List, [], ◌∷◌, ltb, ◌==◌, str_eq,
  if◌then◌else◌, arith, Bool-cases, Option-cases, inl, inr,
}
use bteng.Node.{
  Node, Nodes, leaf, control, decorator, nil, cons, base, with_base, NodeConfig, Leaf, Control,
  Decorator,
}
use bteng.Blackboard.{Board}
use bteng.Tree.{Tree}
use bteng.Builder.{
  Builder, Last, no_node, top, newest_child, at_root, detached, after, new_builder, name_or_auto,
  auto_name, new_base, placeholder, draw_uid, push_frame, at_top, append, adopt, place, attach_leaf,
  has_placeholder, end_scope, build,
}
use bteng.Builder.Scopes.{
  open_control, open_decorator, add_function, node, action, condition, reconfigure,
  reconfigure_newest, reconfigure_child, configure_last,
}
use bteng.Builder.Calls
use bteng.Builder.Calls.{
  LeafCall, node_call, Call, control_call, decorator_call, leaf_call, mapping, end_call, perform,
  perform_control, perform_decorator, perform_leaf, perform_mapping, perform_control-open,
  perform_decorator-open, perform_mapping-change, control_type, control_of, decorator_type,
  decorator_of, change,
}

-- How many nodes of a tree have a uid.
abbrev pub one_if : Bool → ℕ
one_if b = if b then 1 else 0

unfoldable mutual
  pub occurs : ℕ → Node → ℕ
  occurs i (leaf b l) = one_if (b.uid == i)
  occurs i (control b c ns) = one_if (b.uid == i) + occurs_all i ns
  occurs i (decorator b d n) = one_if (b.uid == i) + occurs i n

  pub occurs_all : ℕ → Nodes → ℕ
  occurs_all i nil = 0
  occurs_all i (cons n ns) = occurs i n + occurs_all i ns

abbrev in_stack : ℕ → List Node → ℕ
in_stack i [] = 0
in_stack i (n ∷ rest) = occurs i n + in_stack i rest

abbrev in_root : ℕ → Option Node → ℕ
in_root i none = 0
in_root i (some n) = occurs i n

-- Only numbers that were drawn are in the builder, and each once.
abbrev IsUnique : ℕ → Builder → Type 0
IsUnique i b = in_stack i b.stack + in_root i b.root ≤ one_if (ltb i b.next_uid)

module _ (i : ℕ) where
  occurs_all-append :
      (ns : Nodes) (x : Node) → occurs_all i (append ns x) ≡ occurs_all i ns + occurs i x
  unfolding occurs_all append
  occurs_all-append nil x = omega arith
  occurs_all-append (cons n ns) x = omega (arith, occurs_all-append ns x)

  occurs-adopt : (t x : Node) → occurs i (adopt t x) ≤ occurs i t + occurs i x
  unfolding occurs adopt
  occurs-adopt (leaf b l) x = omega arith
  occurs-adopt (control b c ns) x = omega (arith, occurs_all-append ns x)
  occurs-adopt (decorator b d n) x = omega arith

  in_stack-place :
      (x : Node) (l : Last) (s : List Node) (b : Builder)
      → in_stack i (place x l (record b { stack = s })).stack
          + in_root i (place x l (record b { stack = s })).root
        ≤ in_stack i s + in_root i b.root + occurs i x
  unfolding place
  in_stack-place x l [] b = omega arith
  in_stack-place x l (t ∷ rest) b = omega (arith, occurs-adopt t x)

  occurs-reconfigure :
      (f : NodeConfig → NodeConfig) (n : Node) → occurs i (reconfigure f n) ≡ occurs i n
  unfolding occurs reconfigure base with_base
  occurs-reconfigure f (leaf b l) = refl
  occurs-reconfigure f (control b c ns) = refl
  occurs-reconfigure f (decorator b d n) = refl

  occurs_all-reconfigure_newest :
      (f : NodeConfig → NodeConfig) (ns : Nodes)
      → occurs_all i (reconfigure_newest f ns) ≡ occurs_all i ns
  unfolding occurs_all reconfigure_newest
  occurs_all-reconfigure_newest f nil = refl
  occurs_all-reconfigure_newest f (cons n nil) = omega (arith, occurs-reconfigure f n)
  occurs_all-reconfigure_newest f (cons n (cons m ns)) =
      omega (arith, occurs_all-reconfigure_newest f (cons m ns))

  occurs-reconfigure_child :
      (f : NodeConfig → NodeConfig) (n : Node) → occurs i (reconfigure_child f n) ≡ occurs i n
  unfolding occurs reconfigure_child
  occurs-reconfigure_child f (leaf b l) = refl
  occurs-reconfigure_child f (control b c ns) = omega (arith, occurs_all-reconfigure_newest f ns)
  occurs-reconfigure_child f (decorator b d n) = omega (arith, occurs-reconfigure f n)

  in_stack-at_top :
      (f : Node → Node) (s : List Node)
      → ((n : Node) → occurs i (f n) ≡ occurs i n)
      → in_stack i (at_top f s) ≡ in_stack i s
  in_stack-at_top f [] h = refl
  in_stack-at_top f (n ∷ rest) h = omega (arith, h n)

  in_root-reconfigure :
      (f : NodeConfig → NodeConfig) (r : Option Node)
      → in_root i (elim r [ none ↦ none | some n ↦ some (reconfigure f n) ]) ≡ in_root i r
  in_root-reconfigure f none = refl
  in_root-reconfigure f (some n) = occurs-reconfigure f n

  configure_last-IsUnique :
      (f : NodeConfig → NodeConfig) (l : Last) (b : Builder)
      → IsUnique i b
      → IsUnique i (configure_last f (record b { last = l }))
  unfolding configure_last
  configure_last-IsUnique f no_node b h = h
  configure_last-IsUnique f top b h =
      omega (arith, h, in_stack-at_top (reconfigure f) b.stack (occurs-reconfigure f))
  configure_last-IsUnique f newest_child b h =
      omega (arith, h, in_stack-at_top (reconfigure_child f) b.stack (occurs-reconfigure_child f))
  configure_last-IsUnique f at_root b h = omega (arith, h, in_root-reconfigure f b.root)
  configure_last-IsUnique f detached b h = h

  -- A name costs no uid.
  name_or_auto_kept :
      (name type_name : String) (b : Builder)
      → (n : String) × (k : ℕ) × (name_or_auto name type_name b ≡ (n, record b { next_id = k }))
  unfolding name_or_auto auto_name
  name_or_auto_kept name type_name b = elim (Bool-cases (str_eq name "")) [
    | inl empty ↦ rw empty (_, _, refl)
    | inr given ↦ rw given (_, b.next_id, refl)
  ]

  open_control-IsUnique :
      (type_name : String) (c : Control) (name : String) (b : Builder)
      → IsUnique i b
      → IsUnique i (open_control type_name c name b)
  unfolding open_control draw_uid push_frame occurs occurs_all new_base
  open_control-IsUnique type_name c name b h =
      let (n, k, e) = name_or_auto_kept name type_name b in rw e (ground arith)

  open_decorator-IsUnique :
      (type_name : String) (d : Decorator) (name : String) (b : Builder)
      → IsUnique i b
      → IsUnique i (open_decorator type_name d name b)
  unfolding open_decorator draw_uid push_frame occurs new_base placeholder
  open_decorator-IsUnique type_name d name b h =
      let (n, k, e) = name_or_auto_kept name type_name (record b { next_uid = b.next_uid + 1 }) in
      rw e (ground arith)

  -- A new leaf, which draws the next number.
  attach_leaf-IsUnique :
      (name : String) (c : NodeConfig) (l : Leaf) (b : Builder)
      → IsUnique i b
      → IsUnique i (
          attach_leaf
            (leaf (new_base b.next_uid name c) l)
            (record b { next_uid = b.next_uid + 1 }))
  unfolding attach_leaf occurs new_base
  attach_leaf-IsUnique name c l b h =
      let room : one_if (ltb i b.next_uid) + one_if (b.next_uid == i)
          ≤ one_if (ltb i (b.next_uid + 1)) =
        ground arith in
      omega (
        arith,
        h,
        room,
        in_stack-place (leaf (new_base b.next_uid name c) l) newest_child b.stack
            (record b { next_uid = b.next_uid + 1 }),
      )

  end_scope-IsUnique : (b : Builder) → IsUnique i b → IsUnique i (after (end_scope b))
  unfolding end_scope after
  end_scope-IsUnique b h = ending b.stack b h
    where
      ending :
          (s : List Node) (b : Builder)
          → in_stack i s + in_root i b.root ≤ one_if (ltb i b.next_uid)
          → IsUnique i (after (end_scope (record b { stack = s })))
      ending [] b h = h
      ending (n ∷ rest) b h = elim (Bool-cases (has_placeholder n)) [
        | inl missing ↦ rw missing (omega (arith, h))
        | inr complete ↦ rw complete (omega (arith, h, in_stack-place n top rest b))
      ]

  module _ (classes : String → Option Leaf) where
    perform_leaf-IsUnique :
        (c : LeafCall) (b : Builder) → IsUnique i b → IsUnique i (after (perform_leaf classes c b))
    unfolding perform_leaf action condition add_function node draw_uid after
    perform_leaf-IsUnique (Calls.action name) b h = attach_leaf-IsUnique name _ _ b h
    perform_leaf-IsUnique (Calls.condition name) b h = attach_leaf-IsUnique name _ _ b h
    perform_leaf-IsUnique (node_call type_name name attrs) b h =
        let (n, k, e) = name_or_auto_kept name type_name b in
        elim (Option-cases (classes type_name)) [
          | inl unknown ↦ rw (node, unknown, e) h
          | inr (l, known) ↦
              rw (node, known, e) (attach_leaf-IsUnique n _ l (record b { next_id = k }) h)
        ]

    perform-IsUnique :
        (c : Call) (b : Builder) → IsUnique i b → IsUnique i (after (perform classes c b))
    unfolding perform after
    perform-IsUnique (control_call c name) b h =
        rw (perform_control-open c name b)
          (open_control-IsUnique (control_type c) (control_of c) name b h)
    perform-IsUnique (decorator_call c name) b h =
        rw (perform_decorator-open c name b)
          (open_decorator-IsUnique (decorator_type c) (decorator_of c) name b h)
    perform-IsUnique (leaf_call c) b h = perform_leaf-IsUnique c b h
    perform-IsUnique (mapping m) b h =
        rw (perform_mapping-change m b) (configure_last-IsUnique (change m) b.last b h)
    perform-IsUnique end_call b h = end_scope-IsUnique b h

-- The calls of a client that catches the exceptions and goes on.
unfoldable pub perform_all : (String → Option Leaf) → List Call → Builder → Builder
unfolding perform after
perform_all classes [] b = b
perform_all classes (c ∷ cs) b = perform_all classes cs (after (perform classes c b))

perform_all-IsUnique :
    (i : ℕ) (classes : String → Option Leaf) (cs : List Call) (b : Builder)
    → IsUnique i b
    → IsUnique i (perform_all classes cs b)
unfolding perform_all
perform_all-IsUnique i classes [] b h = h
perform_all-IsUnique i classes (c ∷ cs) b h =
    perform_all-IsUnique i classes cs (after (perform classes c b))
      (perform-IsUnique i classes c b h)

pub build-root :
    (b : Builder) (boards boards' : List Board) (t : Tree)
    → build b boards ≡ some (t, boards')
    → b.root ≡ some t.root
unfolding build
build-root b boards boards' t e = result b.stack b.root b.blackboard e
  where
    result :
        (s : List Node) (r : Option Node) (id : Option ℕ)
        → build (record b { stack = s; root = r; blackboard = id }) boards ≡ some (t, boards')
        → r ≡ some t.root
    result (n ∷ rest) r id e = cc
    result [] none id e = cc
    result [] (some n) none e = ap (λ o. elim o [ none ↦ some n | some x ↦ some x.0.root ]) e
    result [] (some n) (some id) e = ap (λ o. elim o [ none ↦ some n | some x ↦ some x.0.root ]) e

-- Whatever is called on a new builder, exceptions included, no uid stands at two nodes of a tree that
-- `build` returns.
pub build_unique :
    (i : ℕ) (classes : String → Option Leaf) (cs : List Call) (blackboard : Option ℕ)
    (boards boards' : List Board) (t : Tree)
    → build (perform_all classes cs (new_builder blackboard)) boards ≡ some (t, boards')
    → occurs i t.root ≤ 1
unfolding new_builder
build_unique i classes cs blackboard boards boards' t e =
    let b = perform_all classes cs (new_builder blackboard) in
    let h = perform_all-IsUnique i classes cs (new_builder blackboard) (omega arith) in
    let root : in_root i b.root ≡ occurs i t.root =
      ap (in_root i) (build-root b boards boards' t e) in
    ground arith
