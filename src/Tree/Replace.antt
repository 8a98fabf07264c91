-- ===== src/Tree/Replace.antt =====
-- bteng/core/tree.py: hot_swap_subtree and REPLACE_NODE against the lookup of their target.
use bteng.Prelude.{
  ℕ, ◌≡◌, refl, Bool, true, false, Bool-cases, inl, inr, Option, none, some, is_some, or_first,
  ◌==◌, ◌||◌, arith, ap, ◌⊎◌,
}
use bteng.Node.{Node, Nodes, leaf, control, decorator, nil, cons, uid}
use bteng.World.{World, Host}
use bteng.Tree.Search.{
  find_first, find_among, find_node, has_uid, replace_in_subtree, replace_among,
}
use bteng.Tree.{hot_swap_subtree_root}

-- Whether the target is below a node.
abbrev below : ℕ → Node → Bool
below target (leaf b l) = false
below target (control b c ns) = is_some (find_among (has_uid target) ns)
below target (decorator b d n) = is_some (find_first (has_uid target) n)

found_here :
    (target : ℕ) (n : Node)
    → is_some (find_first (has_uid target) n) ≡ (has_uid target n || below target n)
unfolding find_first
found_here target (leaf b l) = ground arith
found_here target (control b c ns) = ground arith
found_here target (decorator b d n) = ground arith

is_some-or_first :
    {A : Type 0} (o rest : Option A) → is_some (or_first o rest) ≡ (is_some o || is_some rest)
is_some-or_first none rest = refl
is_some-or_first (some x) rest = refl

module _ (host : Host) (target : ℕ) (new : Node) where
  mutual
    unfolding replace_in_subtree find_first

    replace-found :
        (n : Node) (w : World) → (replace_in_subtree host target new n w).0 ≡ below target n
    replace-found (leaf b l) w = refl
    replace-found (control b c ns) w = replace_among-found ns w
    replace-found (decorator b d n) w =
        let below = replace-found n w in let here = found_here target n in ground arith

    replace_among-found :
        (ns : Nodes) (w : World)
        → (replace_among host target new ns w).0 ≡ is_some (find_among (has_uid target) ns)
    replace_among-found nil w = refl
    replace_among-found (cons n ns) w =
        let r = replace_in_subtree host target new n w in
        let below = replace-found n w in
        let here = found_here target n in
        let later = replace_among-found ns r.2 in
        let whole =
          is_some-or_first (find_first (has_uid target) n) (find_among (has_uid target) ns) in
        ground arith

  mutual
    unfolding replace_in_subtree

    replace-missing :
        (n : Node) (w : World)
        → (replace_in_subtree host target new n w).0 ≡ false
        → replace_in_subtree host target new n w ≡ (false, n, w)
    replace-missing (leaf b l) w h = refl
    replace-missing (control b c ns) w h =
        ap (λ r. (r.0, control b c r.1, r.2)) (replace_among-missing ns w h)
    replace-missing (decorator b d n) w h = elim (Bool-cases (uid n == target)) [
      | inl here ↦ ground arith
      | inr gone ↦
          let h' : (replace_in_subtree host target new n w).0 ≡ false = ground arith in
          rw (gone, replace-missing n w h') refl
    ]

    replace_among-missing :
        (ns : Nodes) (w : World)
        → (replace_among host target new ns w).0 ≡ false
        → replace_among host target new ns w ≡ (false, ns, w)
    replace_among-missing nil w h = refl
    replace_among-missing (cons n ns) w h = elim (Bool-cases (uid n == target)) [
      | inl here ↦ ground arith
      | inr gone ↦
          let h' : (replace_in_subtree host target new n w).0 ≡ false = ground arith in
          let same = replace-missing n w h' in
          let rest : (replace_among host target new ns w).0 ≡ false = rw (gone, same) at h in
          rw (gone, same, replace_among-missing ns w rest) refl
    ]

found_self : (new : Node) → is_some (find_first (has_uid (uid new)) new) ≡ true
unfolding find_first
found_self (leaf b l) = ground arith
found_self (control b c ns) = ground arith
found_self (decorator b d n) = ground arith

among_left :
    (p : Node → Bool) (n : Node) (ns : Nodes)
    → is_some (find_first p n) ≡ true
    → is_some (find_among p (cons n ns)) ≡ true
unfolding find_first
among_left p n ns h =
    let split = is_some-or_first (find_first p n) (find_among p ns) in ground arith

among_right :
    (p : Node → Bool) (n : Node) (ns : Nodes)
    → is_some (find_among p ns) ≡ true
    → is_some (find_among p (cons n ns)) ≡ true
unfolding find_first
among_right p n ns h =
    let split = is_some-or_first (find_first p n) (find_among p ns) in ground arith

below_here :
    (target : ℕ) (n : Node) → below target n ≡ true → is_some (find_first (has_uid target) n) ≡ true
below_here target n h = let here = found_here target n in ground arith

module _ (host : Host) (target : ℕ) (new : Node) where
  mutual
    unfolding replace_in_subtree

    replace-new :
        (n : Node) (w : World)
        → (replace_in_subtree host target new n w).0 ≡ true
        → below (uid new) (replace_in_subtree host target new n w).1 ≡ true
    replace-new (leaf b l) w h = cc
    replace-new (control b c ns) w h = replace_among-new ns w h
    replace-new (decorator b d n) w h =
        let self = found_self new in
        let here = found_here (uid new) (replace_in_subtree host target new n w).1 in
        let deep = replace-new n w in ground arith

    replace_among-new :
        (ns : Nodes) (w : World)
        → (replace_among host target new ns w).0 ≡ true
        → is_some (find_among (has_uid (uid new)) (replace_among host target new ns w).1) ≡ true
    replace_among-new nil w h = cc
    replace_among-new (cons n ns) w h =
        let r = replace_in_subtree host target new n w in
        elim (Bool-cases (uid n == target)) [
          | inl here ↦ rw here (among_left (has_uid (uid new)) new ns (found_self new))
          | inr gone ↦ elim (Bool-cases r.0) [
            | inl found ↦
                rw (gone, found)
                  (among_left (has_uid (uid new)) r.1 ns
                    (below_here (uid new) r.1 (replace-new n w found)))
            | inr missed ↦
                let rest : (replace_among host target new ns r.2).0 ≡ true =
                  rw (gone, missed) at h in
                rw (gone, missed)
                  (among_right (has_uid (uid new)) r.1 (replace_among host target new ns r.2).1
                    (replace_among-new ns r.2 rest))
          ]
        ]

-- hot_swap_subtree answers True exactly if find_node finds its target; then find_node finds the uid
-- of the new node in the tree, and if not, the tree and the world stay as they are.
pub hot_swap_subtree_root-find :
    (host : Host) (target : ℕ) (new root : Node) (w : World)
    → let r = hot_swap_subtree_root host target new root w in
      ((r.0 ≡ true)
        × (is_some (find_node target root) ≡ true)
        × (is_some (find_node (uid new) r.1) ≡ true))
      ⊎ ((find_node target root ≡ none) × (r ≡ (false, root, w)))
unfolding hot_swap_subtree_root find_node
hot_swap_subtree_root-find host target new root w =
    let r = replace_in_subtree host target new root w in
    let below = replace-found host target new root w in
    let here = found_here target root in
    elim (Bool-cases (uid root == target)) [
      | inl top ↦ rw top (inl (refl, ground arith, found_self new))
      | inr lower ↦ elim (Bool-cases r.0) [
        | inl found ↦ rw lower (
            inl (
              found,
              ground arith,
              below_here (uid new) r.1 (replace-new host target new root w found),
            ))
        | inr missed ↦ rw lower (inr (ground arith, replace-missing host target new root w missed))
      ]
    ]
