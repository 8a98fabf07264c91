-- ===== src/Executor/Setup.antt =====
-- bteng/core/executor.py: what _setup_nodes calls, over any number of calls.
use bteng.Prelude.{
  ℕ, ◌≡◌, refl, true, false, Bool-cases, inl, inr, List, [], ◌∷◌, ◌++◌, arith, ap, append_assoc,
}
use bteng.Node.{Node, Nodes, leaf, control, decorator, nil, cons}
use bteng.Tick.Reactive.{mem}
use bteng.Executor.{Hook, setup, Lifecycle, setup_one, setup_nodes, setup_all}

-- The hooks of these nodes, in that order.
abbrev pub setups : List ℕ → List Hook
setups [] = []
setups (i ∷ is) = setup i ∷ setups is

abbrev pub IsDistinct : List ℕ → Type 0
IsDistinct [] = Unit
IsDistinct (i ∷ is) = (mem i is ≡ false) × IsDistinct is

-- The uids that came between the states: each new, and its hook called once.
record IsExtended (s s' : Lifecycle) : Type 0 where
  new : List ℕ
  uids : s'.uids ≡ new ++ s.uids
  hooks : s'.hooks ≡ setups new ++ s.hooks
  distinct : IsDistinct s.uids → IsDistinct s'.uids

-- Every node of the tree has its uid among these.
abbrev mutual
  pub IsSetUp : List ℕ → Node → Type 0
  IsSetUp is (leaf b l) = mem b.uid is ≡ true
  IsSetUp is (control b c ns) = (mem b.uid is ≡ true) × AllSetUp is ns
  IsSetUp is (decorator b d n) = (mem b.uid is ≡ true) × IsSetUp is n

  pub AllSetUp : List ℕ → Nodes → Type 0
  AllSetUp is nil = Unit
  AllSetUp is (cons n ns) = IsSetUp is n × AllSetUp is ns

setups-append : (xs ys : List ℕ) → setups (xs ++ ys) ≡ setups xs ++ setups ys
setups-append [] ys = refl
setups-append (x ∷ xs) ys = ap (λ l. setup x ∷ l) (setups-append xs ys)

IsExtended-trans : (a b c : Lifecycle) → IsExtended a b → IsExtended b c → IsExtended a c
IsExtended-trans a b c p q = record {
  new = q.new ++ p.new;
  uids = rw (q.uids, p.uids, append_assoc q.new p.new a.uids) refl;
  hooks =
      rw
        (
          q.hooks,
          p.hooks,
          setups-append q.new p.new,
          append_assoc (setups q.new) (setups p.new) a.hooks,
        )
        refl;
  distinct = λ d. q.distinct (p.distinct d);
}

mem-append : (i : ℕ) (xs ys : List ℕ) → mem i ys ≡ true → mem i (xs ++ ys) ≡ true
unfolding mem
mem-append i [] ys h = h
mem-append i (x ∷ xs) ys h = ground (arith, mem-append i xs ys h)

setup_one-IsExtended : (i : ℕ) (s : Lifecycle) → IsExtended s (setup_one i s)
unfolding setup_one
setup_one-IsExtended i s = elim (Bool-cases (mem i s.uids)) [
  | inl old ↦ rw old (record { new = []; uids = refl; hooks = refl; distinct = λ d. d })
  | inr new ↦ rw new (record { new = i ∷ []; uids = refl; hooks = refl; distinct = λ d. (new, d) })
]

setup_one-mem : (i : ℕ) (s : Lifecycle) → mem i (setup_one i s).uids ≡ true
unfolding setup_one mem
setup_one-mem i s = ground arith

mem-IsExtended :
    (i : ℕ) (s s' : Lifecycle) → IsExtended s s' → mem i s.uids ≡ true → mem i s'.uids ≡ true
mem-IsExtended i s s' x h = rw x.uids (mem-append i x.new s.uids h)

mutual
  IsSetUp-IsExtended :
      (n : Node) (s s' : Lifecycle) → IsExtended s s' → IsSetUp s.uids n → IsSetUp s'.uids n
  IsSetUp-IsExtended (leaf b l) s s' x h = mem-IsExtended b.uid s s' x h
  IsSetUp-IsExtended (control b c ns) s s' x h =
      (mem-IsExtended b.uid s s' x h.0, AllSetUp-IsExtended ns s s' x h.1)
  IsSetUp-IsExtended (decorator b d n) s s' x h =
      (mem-IsExtended b.uid s s' x h.0, IsSetUp-IsExtended n s s' x h.1)

  AllSetUp-IsExtended :
      (ns : Nodes) (s s' : Lifecycle) → IsExtended s s' → AllSetUp s.uids ns → AllSetUp s'.uids ns
  AllSetUp-IsExtended nil s s' x h = tt
  AllSetUp-IsExtended (cons n ns) s s' x h =
      (IsSetUp-IsExtended n s s' x h.0, AllSetUp-IsExtended ns s s' x h.1)

setup_one-again : (i : ℕ) (s : Lifecycle) → mem i s.uids ≡ true → setup_one i s ≡ s
unfolding setup_one
setup_one-again i s h = rw h refl

mutual
  unfolding setup_nodes

  setup_nodes-IsExtended : (n : Node) (s : Lifecycle) → IsExtended s (setup_nodes n s)
  setup_nodes-IsExtended (leaf b l) s = setup_one-IsExtended b.uid s
  setup_nodes-IsExtended (control b c ns) s =
      IsExtended-trans s (setup_one b.uid s) (setup_all ns (setup_one b.uid s))
        (setup_one-IsExtended b.uid s) (setup_all-IsExtended ns (setup_one b.uid s))
  setup_nodes-IsExtended (decorator b d n) s =
      IsExtended-trans s (setup_one b.uid s) (setup_nodes n (setup_one b.uid s))
        (setup_one-IsExtended b.uid s) (setup_nodes-IsExtended n (setup_one b.uid s))

  setup_all-IsExtended : (ns : Nodes) (s : Lifecycle) → IsExtended s (setup_all ns s)
  setup_all-IsExtended nil s = record { new = []; uids = refl; hooks = refl; distinct = λ d. d }
  setup_all-IsExtended (cons n ns) s =
      IsExtended-trans s (setup_nodes n s) (setup_all ns (setup_nodes n s))
        (setup_nodes-IsExtended n s) (setup_all-IsExtended ns (setup_nodes n s))

  setup_nodes-IsSetUp : (n : Node) (s : Lifecycle) → IsSetUp (setup_nodes n s).uids n
  setup_nodes-IsSetUp (leaf b l) s = setup_one-mem b.uid s
  setup_nodes-IsSetUp (control b c ns) s =
      let s' = setup_one b.uid s in
      (
        mem-IsExtended b.uid s' (setup_all ns s') (setup_all-IsExtended ns s')
            (setup_one-mem b.uid s),
        setup_all-AllSetUp ns s',
      )
  setup_nodes-IsSetUp (decorator b d n) s =
      let s' = setup_one b.uid s in
      (
        mem-IsExtended b.uid s' (setup_nodes n s') (setup_nodes-IsExtended n s')
            (setup_one-mem b.uid s),
        setup_nodes-IsSetUp n s',
      )

  setup_all-AllSetUp : (ns : Nodes) (s : Lifecycle) → AllSetUp (setup_all ns s).uids ns
  setup_all-AllSetUp nil s = tt
  setup_all-AllSetUp (cons n ns) s =
      let s' = setup_nodes n s in
      (
        IsSetUp-IsExtended n s' (setup_all ns s') (setup_all-IsExtended ns s')
            (setup_nodes-IsSetUp n s),
        setup_all-AllSetUp ns s',
      )

  setup_nodes-again : (n : Node) (s : Lifecycle) → IsSetUp s.uids n → setup_nodes n s ≡ s
  setup_nodes-again (leaf b l) s h = setup_one-again b.uid s h
  setup_nodes-again (control b c ns) s h =
      rw (setup_one-again b.uid s h.0) (setup_all-again ns s h.1)
  setup_nodes-again (decorator b d n) s h =
      rw (setup_one-again b.uid s h.0) (setup_nodes-again n s h.1)

  setup_all-again : (ns : Nodes) (s : Lifecycle) → AllSetUp s.uids ns → setup_all ns s ≡ s
  setup_all-again nil s h = refl
  setup_all-again (cons n ns) s h = rw (setup_nodes-again n s h.0) (setup_all-again ns s h.1)

-- From a state without duplicates, _setup_nodes calls the hook of each uid that is new, once and in
-- the order of `uids`; then every node of the tree counts as set up, and a second call does nothing.
pub setup_nodes-once :
    (n : Node) (s : Lifecycle)
    → IsDistinct s.uids
    → ((new : List ℕ) × ((setup_nodes n s).uids ≡ new ++ s.uids)
        × ((setup_nodes n s).hooks ≡ setups new ++ s.hooks))
      × IsDistinct (setup_nodes n s).uids
      × IsSetUp (setup_nodes n s).uids n
      × (setup_nodes n (setup_nodes n s) ≡ setup_nodes n s)
setup_nodes-once n s d =
    let x = setup_nodes-IsExtended n s in
    let all = setup_nodes-IsSetUp n s in
    ((x.new, x.uids, x.hooks), x.distinct d, all, setup_nodes-again n (setup_nodes n s) all)
