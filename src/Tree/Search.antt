-- ===== src/Tree/Search.antt =====
-- bteng/core/tree.py: the recursions over a tree that find a node and change it where it stands.
use bteng.Prelude.{
  ℕ, String, Bool, true, false, Option, none, some, List, [], ◌∷◌, ◌++◌, ◌==◌, if◌then◌else◌,
  str_eq, or_first,
}
use bteng.Node.{
  Node, Nodes, leaf, control, decorator, nil, cons, base, uid, NodeType, action, condition,
  node_type,
}
use bteng.World.{World, Host}
use bteng.Lifecycle.{halt}

-- _find_by_uid and _find_by_name: the first node of the walk that passes the test.
unfoldable mutual
  pub find_first : (Node → Bool) → Node → Option Node
  find_first p (leaf b l) = if p (leaf b l) then some (leaf b l) else none
  find_first p (control b c ns) =
      let below = find_among p ns in if p (control b c ns) then some (control b c ns) else below
  find_first p (decorator b d n) =
      let below = find_first p n in if p (decorator b d n) then some (decorator b d n) else below

  pub find_among : (Node → Bool) → Nodes → Option Node
  find_among p nil = none
  find_among p (cons n ns) = or_first (find_first p n) (find_among p ns)

abbrev pub has_uid : ℕ → Node → Bool
has_uid target n = uid n == target

unfoldable pub find_node : ℕ → Node → Option Node
unfolding find_first uid
find_node target root = find_first (has_uid target) root

unfoldable pub find_node_by_name : String → Node → Option Node
unfolding find_first base
find_node_by_name name root = find_first (λ n. str_eq (base n).name name) root

unfoldable pub is_type : NodeType → NodeType → Bool
is_type action action = true
is_type condition condition = true
is_type NodeType.control NodeType.control = true
is_type NodeType.decorator NodeType.decorator = true
is_type _ _ = false

-- _collect_by_type, with the results so far as the accumulator.
unfoldable mutual
  unfolding is_type node_type

  pub collect_by_type : NodeType → Node → List Node → List Node
  collect_by_type t (leaf b l) results =
      if is_type (node_type (leaf b l)) t then results ++ leaf b l ∷ [] else results
  collect_by_type t (control b c ns) results =
      collect_children t ns
        (if is_type (node_type (control b c ns)) t then results ++ control b c ns ∷ [] else results)
  collect_by_type t (decorator b d n) results =
      collect_by_type t n (
        if is_type (node_type (decorator b d n)) t
        then results ++ decorator b d n ∷ []
        else results)

  pub collect_children : NodeType → Nodes → List Node → List Node
  collect_children t nil results = results
  collect_children t (cons n ns) results = collect_children t ns (collect_by_type t n results)

unfoldable pub find_nodes_by_type : NodeType → Node → List Node
unfolding collect_by_type
find_nodes_by_type t root = collect_by_type t root []

module _ (host : Host) (target : ℕ) (replacement : Node) where
  -- _replace_in_subtree: whether the uid was found, and the tree.
  unfoldable mutual
    unfolding uid

    pub replace_in_subtree : Node → World → Bool × Node × World
    replace_in_subtree (leaf b l) w = (false, leaf b l, w)
    replace_in_subtree (control b c ns) w =
        let (found, ns', w') = replace_among ns w in (found, control b c ns', w')
    replace_in_subtree (decorator b d n) w =
        let (old, halted) = halt host n w in
        let (found, n', w') = replace_in_subtree n w in
        if uid n == target
        then (true, decorator b d replacement, halted)
        else (found, decorator b d n', w')

    pub replace_among : Nodes → World → Bool × Nodes × World
    replace_among nil w = (false, nil, w)
    replace_among (cons n ns) w =
        let (old, halted) = halt host n w in
        let (found, n', w') = replace_in_subtree n w in
        let (later, ns', w'') = replace_among ns w' in
        if uid n == target
        then (true, cons replacement ns, halted)
        else if found
        then (true, cons n' ns, w')
        else (later, cons n' ns', w'')

-- A change of the node that `find_node` finds, in its place.
module _ {R : Type 0} (target : ℕ) (change : Node → World → Node × World × R) where
  unfoldable mutual
    unfolding uid

    pub modify_first : Node → World → Option (Node × World × R)
    modify_first (leaf b l) w =
        if has_uid target (leaf b l) then some (change (leaf b l) w) else none
    modify_first (control b c ns) w =
        let below : Option (Node × World × R) = elim (modify_among ns w) [
          | none ↦ none
          | some (ns', w', r) ↦ some (control b c ns', w', r)
        ] in
        if has_uid target (control b c ns) then some (change (control b c ns) w) else below
    modify_first (decorator b d n) w =
        let below : Option (Node × World × R) = elim (modify_first n w) [
          | none ↦ none
          | some (n', w', r) ↦ some (decorator b d n', w', r)
        ] in
        if has_uid target (decorator b d n) then some (change (decorator b d n) w) else below

    pub modify_among : Nodes → World → Option (Nodes × World × R)
    modify_among nil w = none
    modify_among (cons n ns) w = elim (modify_first n w) [
      | some (n', w', r) ↦ some (cons n' ns, w', r)
      | none ↦ elim (modify_among ns w) [
        | none ↦ none
        | some (ns', w', r) ↦ some (cons n ns', w', r)
      ]
    ]
