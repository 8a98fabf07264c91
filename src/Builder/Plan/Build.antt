-- ===== src/Builder/Plan/Build.antt =====
-- bteng/core/tree_builder.py: the stack of open scopes builds what the nested calls mean.
use bteng.Prelude.{ℕ, String, ◌≡◌, refl, ap, ◌∙◌, false, Option, some, List, [], ◌∷◌}
use bteng.Node.{Node, Nodes, control, nil, cons, Base, base, with_base, Leaf, Control}
use bteng.Blackboard.{Board}
use bteng.Builder.{
  Builder, done, Last, top, newest_child, new_builder, push_frame, append, adopt, place,
  attach_leaf, end_scope, has_placeholder, build,
}
use bteng.Builder.Scopes.{reconfigure}
use bteng.Builder.Calls.{
  Mapping, LeafCall, Call, leaf_call, end_call, run, perform, perform_control-open,
  perform_decorator-open, control_type, control_of, decorator_type, decorator_of,
}
use bteng.Builder.Plan.{
  Plan, leaf_plan, control_plan, decorator_plan, Plans, no_plans, also, calls, calls_all,
  configured, name_in, next, grow, grow_all, grow_leaf, IsSound, AllSound, mappings,
}
use bteng.Builder.Plan.Frames.{
  ids_of, with_ids, run-mappings, configure_all-push, configure_all-attach_leaf,
}
use bteng.Builder.Plan.Steps.{
  opened, opened_decorator, open_control-opened, open_decorator-opened, perform_leaf-grow_leaf,
}

-- Where `_last_node` is after the calls for a plan.
abbrev inside : Plan → Last
inside (leaf_plan c ms) = newest_child
inside (control_plan c name ms ps) = top
inside (decorator_plan c name ms p) = top

last_of : Plans → Last → Last
last_of no_plans l = l
last_of (also p ps) l = last_of ps (inside p)

join : Nodes → Nodes → Nodes
join nil ms = ms
join (cons n ns) ms = cons n (join ns ms)

join-append : (ns : Nodes) (n : Node) (ms : Nodes) → join (append ns n) ms ≡ join ns (cons n ms)
unfolding join append
join-append nil n ms = refl
join-append (cons k ns) n ms = ap (λ l. cons k l) (join-append ns n ms)

-- A builder inside the scope of a control node or a decorator.
abbrev in_frame : Node → Last → Builder → Builder
in_frame frame l b = record b { stack = frame ∷ b.stack; last = l }

join-nil : (ns : Nodes) → ns ≡ join ns nil
unfolding join
join-nil nil = refl
join-nil (cons n ns) = ap (λ l. cons n l) (join-nil ns)

module _ (classes : String → Option Leaf) where
  -- The builder with the grown plan in it.
  abbrev placed : Plan → Builder → Builder
  placed p b =
      let (n, ids) = grow classes b.blackboard p (ids_of b) in place n (inside p) (with_ids ids b)

  -- What the end of a scope leaves.
  run-end :
      (frame : Node) (l : Last) (rest : List Call) (b : Builder)
      → has_placeholder frame ≡ false
      → run classes (end_call ∷ rest) (in_frame frame l b) ≡ run classes rest (place frame top b)
  unfolding run perform end_scope place
  run-end frame l rest b h = rw (run, end_scope, h) refl

  -- Behind the call that opens a scope stand its mappings.
  run-opened :
      (ms : List Mapping) (n : Node) (rest : List Call) (b : Builder)
      → run classes (mappings ms rest) (push_frame n b)
        ≡ run classes rest (in_frame (reconfigure (configured ms) n) top b)
  unfolding push_frame
  run-opened ms n rest b =
      run-mappings classes ms rest (push_frame n b)
      ∙ ap (run classes rest) (configure_all-push ms n b)

  run-leaf :
      (c : LeafCall) (ms : List Mapping) (rest : List Call) (b : Builder)
      → IsSound classes b.blackboard (leaf_plan c ms) (ids_of b)
      → run classes (leaf_call c ∷ rest) b
        ≡ run classes rest (
            attach_leaf
              (grow_leaf classes b.blackboard c (ids_of b)).0
              (with_ids (grow_leaf classes b.blackboard c (ids_of b)).1 b))
  unfolding run perform
  run-leaf c ms rest b h = rw (run, perform_leaf-grow_leaf classes c ms b h) refl

  mutual
    unfolding calls calls_all grow grow_all run perform reconfigure with_base base place adopt join
        has_placeholder last_of attach_leaf

    run-calls :
        (p : Plan) (rest : List Call) (b : Builder)
        → IsSound classes b.blackboard p (ids_of b)
        → run classes (calls p rest) b ≡ run classes rest (placed p b)
    run-calls (leaf_plan c ms) rest b h =
        let (n, ids) = grow_leaf classes b.blackboard c (ids_of b) in
        run-leaf c ms (mappings ms rest) b h
        ∙ run-mappings classes ms rest (attach_leaf n (with_ids ids b))
        ∙ ap (run classes rest) (configure_all-attach_leaf ms n (with_ids ids b))
    run-calls (control_plan c name ms ps) rest b h =
        let named = next (name_in (control_type c) name (ids_of b)).1 in
        let n = opened b.blackboard (control_type c) (control_of c) name (ids_of b) in
        let (ns, ids) = grow_all classes b.blackboard ps named in
        let b' = with_ids named b in
        ap (run classes (mappings ms (calls_all ps (end_call ∷ rest)))) (
          perform_control-open c name b
          ∙ open_control-opened (control_type c) (control_of c) name b)
        ∙ run-opened ms n (calls_all ps (end_call ∷ rest)) b'
        ∙ run-calls_all ps (end_call ∷ rest) _ (control_of c) nil top b' h
        ∙ run-end _ (last_of ps top) rest (with_ids ids b) refl
    run-calls (decorator_plan c name ms p) rest b h =
        let named = next (name_in (decorator_type c) name (next (ids_of b))).1 in
        let n = opened_decorator b.blackboard (decorator_type c) (decorator_of c) name (ids_of b) in
        let b' = with_ids named b in
        let ids = (grow classes b.blackboard p named).1 in
        ap (run classes (mappings ms (calls p (end_call ∷ rest)))) (
          perform_decorator-open c name b
          ∙ open_decorator-opened (decorator_type c) (decorator_of c) name b)
        ∙ run-opened ms n (calls p (end_call ∷ rest)) b'
        ∙ run-calls p (end_call ∷ rest) (in_frame (reconfigure (configured ms) n) top b') h.1
        ∙ run-end _ (inside p) rest (with_ids ids b) h.0

    run-calls_all :
        (ps : Plans) (rest : List Call) (own : Base) (c : Control) (ns : Nodes) (l : Last)
        (b : Builder)
        → AllSound classes b.blackboard ps (ids_of b)
        → run classes (calls_all ps rest) (in_frame (control own c ns) l b)
          ≡ run classes rest (
              in_frame
                (control own c (join ns (grow_all classes b.blackboard ps (ids_of b)).0))
                (last_of ps l)
                (with_ids (grow_all classes b.blackboard ps (ids_of b)).1 b))
    run-calls_all no_plans rest own c ns l b h =
        ap (λ ns'. run classes rest (in_frame (control own c ns') l b)) (join-nil ns)
    run-calls_all (also p ps) rest own c ns l b h =
        let (n, ids) = grow classes b.blackboard p (ids_of b) in
        let (ms, ids') = grow_all classes b.blackboard ps ids in
        run-calls p (calls_all ps rest) (in_frame (control own c ns) l b) h.0
        ∙ run-calls_all ps rest own c (append ns n) (inside p) (with_ids ids b) h.1
        ∙ ap
            (λ ns'.
              run classes rest
                (in_frame (control own c ns') (last_of ps (inside p)) (with_ids ids' b)))
            (join-append ns n ms)

-- The calls for a plan, on a new builder, raise nothing, and `build` then returns a tree whose root is
-- the plan grown by recursion: its nodes, names, uids, ids and port mappings. The classes that the plan
-- names have to be registered, and no child of a decorator may be called "__placeholder__".
pub build-calls :
    (classes : String → Option Leaf) (p : Plan) (id : ℕ) (boards : List Board)
    → IsSound classes (some id) p (ids_of (new_builder (some id)))
    → (b : Builder) × (run classes (calls p []) (new_builder (some id)) ≡ done b)
      × (build b boards
          ≡ some (
            record {
              id = "";
              root = (grow classes (some id) p (ids_of (new_builder (some id)))).0;
              blackboard = id;
              pending_mods = [];
            },
            boards,
          ))
unfolding run new_builder place build
build-calls classes p id boards h = (
  placed classes p (new_builder (some id)),
  run-calls classes p [] (new_builder (some id)) h,
  refl,
)
