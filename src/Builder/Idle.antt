-- ===== src/Builder/Idle.antt =====
-- bteng/core/tree_builder.py: what is in a builder has never been ticked, so a tree that it builds is
-- idle, and orderly where the budgets allow it.
use bteng.Prelude.{
  ℕ, ◌+◌, String, ◌≡◌, refl, subst, Option, none, some, List, [], ◌∷◌, All, str_eq, Bool-cases,
  Option-cases, inl, inr,
}
use bteng.Value.{Status, idle}
use bteng.Node.{
  Node, Nodes, leaf, control, decorator, nil, cons, base, with_base, NodeConfig, Leaf, Control,
  sequence, fallback, parallel, reactive_sequence, reactive_fallback, Decorator, rate_controller,
  retry,
}
use bteng.Blackboard.{Board}
use bteng.World.{World, Host}
use bteng.Tree.{Tree}
use bteng.Orderly.{IsNotRunning, IsCalm, AllCalm, IsOrderly, AllOrderly, CursorCalm, IsBudgeted}
use bteng.Orderly.Tick.{Reach, Reach-IsOrderly}
use bteng.Builder.{
  Builder, Last, no_node, top, newest_child, at_root, detached, after, new_builder, name_or_auto,
  auto_name, new_base, placeholder, draw_uid, push_frame, at_top, append, adopt, place, attach_leaf,
  has_placeholder, end_scope, build,
}
use bteng.Builder.Scopes.{
  open_control, open_decorator, add_function, node, action, condition, reconfigure,
  reconfigure_newest, reconfigure_child, configure_last,
}
use bteng.Builder.Calls
use bteng.Builder.Calls.{
  ControlCall, LeafCall, node_call, Call, control_call, decorator_call, leaf_call, mapping,
  end_call, perform, perform_control, perform_decorator, perform_leaf, perform_mapping,
  perform_control-open, perform_decorator-open, perform_mapping-change, control_type, control_of,
  decorator_type, decorator_of, change,
}
use bteng.Builder.Uids.{perform_all, build-root}

-- The cursor of a control node that has not been ticked.
abbrev pub IsAtStart : Control → Type 0
IsAtStart (sequence i) = i ≡ 0
IsAtStart (fallback i) = i ≡ 0
IsAtStart (parallel p) = Unit
IsAtStart (reactive_sequence r) = r.running_child_idx ≡ none
IsAtStart (reactive_fallback r) = r.running_child_idx ≡ none

-- No node of the tree has been ticked.
abbrev mutual
  pub IsUnticked : Node → Type 0
  IsUnticked (leaf b l) = b.status ≡ idle
  IsUnticked (control b c ns) = (b.status ≡ idle) × IsAtStart c × AllUnticked ns
  IsUnticked (decorator b d n) = (b.status ≡ idle) × IsUnticked n

  pub AllUnticked : Nodes → Type 0
  AllUnticked nil = Unit
  AllUnticked (cons n ns) = IsUnticked n × AllUnticked ns

abbrev OnRoot : Option Node → Type 0
OnRoot none = Unit
OnRoot (some n) = IsUnticked n

abbrev IsNew : Builder → Type 0
IsNew b = All IsUnticked b.stack × OnRoot b.root

AllUnticked-append :
    (ns : Nodes) (x : Node) → AllUnticked ns → IsUnticked x → AllUnticked (append ns x)
unfolding append
AllUnticked-append nil x hs h = (h, tt)
AllUnticked-append (cons n ns) x hs h = (hs.0, AllUnticked-append ns x hs.1 h)

adopt-IsUnticked : (t x : Node) → IsUnticked t → IsUnticked x → IsUnticked (adopt t x)
unfolding adopt
adopt-IsUnticked (leaf b l) x k h = k
adopt-IsUnticked (control b c ns) x k h = (k.0, k.1, AllUnticked-append ns x k.2 h)
adopt-IsUnticked (decorator b d n) x k h = (k.0, h)

place-IsNew :
    (x : Node) (l : Last) (s : List Node) (b : Builder)
    → IsUnticked x
    → All IsUnticked s
    → OnRoot b.root
    → IsNew (place x l (record b { stack = s }))
unfolding place
place-IsNew x l [] b h ks r = (tt, h)
place-IsNew x l (t ∷ rest) b h ks r = ((adopt-IsUnticked t x ks.0 h, ks.1), r)

reconfigure-IsUnticked :
    (f : NodeConfig → NodeConfig) (n : Node) → IsUnticked n → IsUnticked (reconfigure f n)
unfolding reconfigure base with_base
reconfigure-IsUnticked f (leaf b l) h = h
reconfigure-IsUnticked f (control b c ns) h = h
reconfigure-IsUnticked f (decorator b d n) h = h

reconfigure_newest-AllUnticked :
    (f : NodeConfig → NodeConfig) (ns : Nodes)
    → AllUnticked ns
    → AllUnticked (reconfigure_newest f ns)
unfolding reconfigure_newest
reconfigure_newest-AllUnticked f nil h = tt
reconfigure_newest-AllUnticked f (cons n nil) h = (reconfigure-IsUnticked f n h.0, tt)
reconfigure_newest-AllUnticked f (cons n (cons m ns)) h =
    (h.0, reconfigure_newest-AllUnticked f (cons m ns) h.1)

reconfigure_child-IsUnticked :
    (f : NodeConfig → NodeConfig) (n : Node) → IsUnticked n → IsUnticked (reconfigure_child f n)
unfolding reconfigure_child
reconfigure_child-IsUnticked f (leaf b l) h = h
reconfigure_child-IsUnticked f (control b c ns) h =
    (h.0, h.1, reconfigure_newest-AllUnticked f ns h.2)
reconfigure_child-IsUnticked f (decorator b d n) h = (h.0, reconfigure-IsUnticked f n h.1)

at_top-All :
    (f : Node → Node) (s : List Node)
    → ((n : Node) → IsUnticked n → IsUnticked (f n))
    → All IsUnticked s
    → All IsUnticked (at_top f s)
at_top-All f [] k h = tt
at_top-All f (n ∷ rest) k h = (k n h.0, h.1)

reconfigure-OnRoot :
    (f : NodeConfig → NodeConfig) (r : Option Node)
    → OnRoot r
    → OnRoot (elim r [ none ↦ none | some n ↦ some (reconfigure f n) ])
reconfigure-OnRoot f none h = tt
reconfigure-OnRoot f (some n) h = reconfigure-IsUnticked f n h

configure_last-IsNew :
    (f : NodeConfig → NodeConfig) (l : Last) (b : Builder)
    → IsNew b
    → IsNew (configure_last f (record b { last = l }))
unfolding configure_last
configure_last-IsNew f no_node b h = h
configure_last-IsNew f top b h =
    (at_top-All (reconfigure f) b.stack (reconfigure-IsUnticked f) h.0, h.1)
configure_last-IsNew f newest_child b h =
    (at_top-All (reconfigure_child f) b.stack (reconfigure_child-IsUnticked f) h.0, h.1)
configure_last-IsNew f at_root b h = (h.0, reconfigure-OnRoot f b.root h.1)
configure_last-IsNew f detached b h = h

control_of-IsAtStart : (c : ControlCall) → IsAtStart (control_of c)
control_of-IsAtStart Calls.sequence = refl
control_of-IsAtStart Calls.fallback = refl
control_of-IsAtStart Calls.reactive_sequence = refl
control_of-IsAtStart Calls.reactive_fallback = refl
control_of-IsAtStart (Calls.parallel s f) = tt

-- A name changes no node.
name_or_auto-IsNew :
    (name type_name : String) (b : Builder) → IsNew b → IsNew (name_or_auto name type_name b).1
unfolding name_or_auto auto_name
name_or_auto-IsNew name type_name b h = elim (Bool-cases (str_eq name "")) [
  | inl empty ↦ rw empty h
  | inr given ↦ rw given h
]

open_control-IsNew :
    (type_name : String) (c : Control) (name : String) (b : Builder)
    → IsAtStart c
    → IsNew b
    → IsNew (open_control type_name c name b)
unfolding open_control draw_uid push_frame new_base
open_control-IsNew type_name c name b start h =
    let (stack, root) = name_or_auto-IsNew name type_name b h in (((refl, start, tt), stack), root)

open_decorator-IsNew :
    (type_name : String) (d : Decorator) (name : String) (b : Builder)
    → IsNew b
    → IsNew (open_decorator type_name d name b)
unfolding open_decorator draw_uid push_frame new_base placeholder
open_decorator-IsNew type_name d name b h =
    let (stack, root) =
      name_or_auto-IsNew name type_name (record b { next_uid = b.next_uid + 1 }) h in
    (((refl, refl), stack), root)

end_scope-IsNew : (b : Builder) → IsNew b → IsNew (after (end_scope b))
unfolding end_scope after
end_scope-IsNew b h = ending b.stack h.0
  where
    ending : (s : List Node) → All IsUnticked s → IsNew (after (end_scope (record b { stack = s })))
    ending [] k = (tt, h.1)
    ending (n ∷ rest) k = elim (Bool-cases (has_placeholder n)) [
      | inl missing ↦ rw missing (k.1, h.1)
      | inr complete ↦ rw complete (place-IsNew n top rest b k.0 k.1 h.1)
    ]

module _ (classes : String → Option Leaf) where
  perform_leaf-IsNew :
      (c : LeafCall) (b : Builder) → IsNew b → IsNew (after (perform_leaf classes c b))
  unfolding perform_leaf action condition add_function node draw_uid after attach_leaf new_base
  perform_leaf-IsNew (Calls.action name) b h =
      place-IsNew _ newest_child b.stack (record b { next_uid = b.next_uid + 1 }) refl h.0 h.1
  perform_leaf-IsNew (Calls.condition name) b h =
      place-IsNew _ newest_child b.stack (record b { next_uid = b.next_uid + 1 }) refl h.0 h.1
  perform_leaf-IsNew (node_call type_name name attrs) b h =
      let named = name_or_auto-IsNew name type_name b h in
      let b' = (name_or_auto name type_name b).1 in
      elim (Option-cases (classes type_name)) [
        | inl unknown ↦ rw (node, unknown) named
        | inr (l, known) ↦
            rw (node, known)
              (place-IsNew _ newest_child b'.stack (record b' { next_uid = b'.next_uid + 1 }) refl
                named.0 named.1)
      ]

  perform-IsNew : (c : Call) (b : Builder) → IsNew b → IsNew (after (perform classes c b))
  unfolding perform after
  perform-IsNew (control_call c name) b h =
      rw (perform_control-open c name b)
        (open_control-IsNew (control_type c) (control_of c) name b (control_of-IsAtStart c) h)
  perform-IsNew (decorator_call c name) b h =
      rw (perform_decorator-open c name b)
        (open_decorator-IsNew (decorator_type c) (decorator_of c) name b h)
  perform-IsNew (leaf_call c) b h = perform_leaf-IsNew c b h
  perform-IsNew (mapping m) b h =
      rw (perform_mapping-change m b) (configure_last-IsNew (change m) b.last b h)
  perform-IsNew end_call b h = end_scope-IsNew b h

  perform_all-IsNew : (cs : List Call) (b : Builder) → IsNew b → IsNew (perform_all classes cs b)
  unfolding perform_all
  perform_all-IsNew [] b h = h
  perform_all-IsNew (c ∷ cs) b h =
      perform_all-IsNew cs (after (perform classes c b)) (perform-IsNew c b h)

-- The budgets of all Retry nodes are the positive ones of their calls: neither a mapping nor a literal
-- stands in for them.
abbrev mutual
  AreBudgeted : Node → Type 0
  AreBudgeted (leaf b l) = Unit
  AreBudgeted (control b c ns) = AllBudgeted ns
  AreBudgeted (decorator b (retry m a) n) = IsBudgeted b.config m × AreBudgeted n
  AreBudgeted (decorator b d n) = AreBudgeted n

  AllBudgeted : Nodes → Type 0
  AllBudgeted nil = Unit
  AllBudgeted (cons n ns) = AreBudgeted n × AllBudgeted ns

idle-IsNotRunning : (s : Status) → s ≡ idle → IsNotRunning s
idle-IsNotRunning s e r = cc

mutual
  unticked-IsCalm : (n : Node) → IsUnticked n → IsCalm n
  unticked-IsCalm (leaf b l) h = idle-IsNotRunning b.status h
  unticked-IsCalm (control b c ns) h = (idle-IsNotRunning b.status h.0, unticked-AllCalm ns h.2)
  unticked-IsCalm (decorator b d n) h = (idle-IsNotRunning b.status h.0, unticked-IsCalm n h.1)

  unticked-AllCalm : (ns : Nodes) → AllUnticked ns → AllCalm ns
  unticked-AllCalm nil h = tt
  unticked-AllCalm (cons n ns) h = (unticked-IsCalm n h.0, unticked-AllCalm ns h.1)

start-CursorCalm : (c : Control) (ns : Nodes) → IsAtStart c → CursorCalm c ns
start-CursorCalm (sequence i) ns h = rw h tt
start-CursorCalm (fallback i) ns h = rw h tt
start-CursorCalm (parallel p) ns h = tt
start-CursorCalm (reactive_sequence r) ns h = rw h tt
start-CursorCalm (reactive_fallback r) ns h = rw h tt

mutual
  unticked-IsOrderly : (n : Node) → IsUnticked n → AreBudgeted n → IsOrderly n
  unticked-IsOrderly (leaf b l) h k = tt
  unticked-IsOrderly (control b c ns) h k =
      (unticked-AllOrderly ns h.2 k, (λ r. unticked-AllCalm ns h.2), start-CursorCalm c ns h.1)
  unticked-IsOrderly (decorator b (retry m a) n) h k =
      (unticked-IsOrderly n h.1 k.1, (λ r. unticked-IsCalm n h.1), k.0)
  unticked-IsOrderly (decorator b (rate_controller p t s) n) h k =
      (unticked-IsOrderly n h.1 k, (λ r. unticked-IsCalm n h.1), λ r. unticked-IsCalm n h.1)
  unticked-IsOrderly (decorator b d n) h k =
      (unticked-IsOrderly n h.1 k, (λ r. unticked-IsCalm n h.1), tt)

  unticked-AllOrderly : (ns : Nodes) → AllUnticked ns → AllBudgeted ns → AllOrderly ns
  unticked-AllOrderly nil h k = tt
  unticked-AllOrderly (cons n ns) h k =
      (unticked-IsOrderly n h.0 k.0, unticked-AllOrderly ns h.1 k.1)

-- Whatever is called on a new builder, exceptions included: all nodes of a tree that `build` returns
-- are IDLE, with their cursors at the start.
pub build-IsUnticked :
    (classes : String → Option Leaf) (cs : List Call) (blackboard : Option ℕ)
    (boards boards' : List Board) (t : Tree)
    → build (perform_all classes cs (new_builder blackboard)) boards ≡ some (t, boards')
    → IsUnticked t.root
unfolding new_builder
build-IsUnticked classes cs blackboard boards boards' t e =
    let b = perform_all classes cs (new_builder blackboard) in
    let new = perform_all-IsNew classes cs (new_builder blackboard) (tt, tt) in
    subst OnRoot (build-root b boards boards' t e) new.1

-- A tree from a new builder in which each Retry has a positive budget from its constructor, which no
-- mapping and no literal overrides: all that ticks without exceptions and halts make of it is orderly.
pub build-IsOrderly :
    (classes : String → Option Leaf) (cs : List Call) (blackboard : Option ℕ)
    (boards boards' : List Board) (t : Tree) (host : Host) (before w : World) (n : Node)
    → build (perform_all classes cs (new_builder blackboard)) boards ≡ some (t, boards')
    → AreBudgeted t.root
    → Reach host t.root before n w
    → IsOrderly n
build-IsOrderly classes cs blackboard boards boards' t host before w n e k r =
    Reach-IsOrderly
      (unticked-IsOrderly t.root (build-IsUnticked classes cs blackboard boards boards' t e) k) r
