-- ===== src/Tree/Lookup.antt =====
-- bteng/core/tree.py: the lookups against the list of all nodes, parents first.
use bteng.Prelude.{
  ℕ, ◌≡◌, refl, Bool, true, false, Bool-cases, inl, inr, Option, none, some, List, [], ◌∷◌, ◌++◌,
  if◌then◌else◌, ◌∙◌, ap, append_assoc, sym, or_first,
}
use bteng.Node.{Node, Nodes, leaf, control, decorator, nil, cons, NodeType, node_type}
use bteng.Node.Children.{preorder, preorder_all}
use bteng.Tree.Search.{
  find_first, find_among, is_type, collect_by_type, collect_children, find_nodes_by_type, find_node,
  has_uid,
}

-- The reference: the first element that passes, and all that do.
abbrev pub first {ℓ} : {A : Type ℓ} → (A → Bool) → List A → Option A
first p [] = none
first p (x ∷ xs) = if p x then some x else first p xs

abbrev pub filter {ℓ} : {A : Type ℓ} → (A → Bool) → List A → List A
filter p [] = []
filter p (x ∷ xs) = if p x then x ∷ filter p xs else filter p xs

first-append {ℓ} :
    {A : Type ℓ} (p : A → Bool) (xs ys : List A)
    → first p (xs ++ ys) ≡ or_first (first p xs) (first p ys)
first-append p [] ys = refl
first-append p (x ∷ xs) ys = elim (Bool-cases (p x)) [
  | inl pass ↦ rw pass refl
  | inr fail ↦ rw fail (first-append p xs ys)
]

filter-append {ℓ} :
    {A : Type ℓ} (p : A → Bool) (xs ys : List A) → filter p (xs ++ ys) ≡ filter p xs ++ filter p ys
filter-append p [] ys = refl
filter-append p (x ∷ xs) ys = elim (Bool-cases (p x)) [
  | inl pass ↦ rw pass (ap (λ l. x ∷ l) (filter-append p xs ys))
  | inr fail ↦ rw fail (filter-append p xs ys)
]

mutual
  unfolding find_first preorder

  find_first-walk : (p : Node → Bool) (n : Node) → find_first p n ≡ first p (preorder n)
  find_first-walk p (leaf b l) = refl
  find_first-walk p (control b c ns) = rw (find_among-walk p ns) refl
  find_first-walk p (decorator b d n) = rw (find_first-walk p n) refl

  find_among-walk : (p : Node → Bool) (ns : Nodes) → find_among p ns ≡ first p (preorder_all ns)
  find_among-walk p nil = refl
  find_among-walk p (cons n ns) =
      ap (λ o. or_first o (find_among p ns)) (find_first-walk p n)
      ∙ ap (λ o. or_first (first p (preorder n)) o) (find_among-walk p ns)
      ∙ sym (first-append p (preorder n) (preorder_all ns))

abbrev pub of_type : NodeType → Node → Bool
of_type t n = is_type (node_type n) t

append-nil {ℓ} : {A : Type ℓ} (xs : List A) → xs ++ [] ≡ xs
append-nil [] = refl
append-nil (x ∷ xs) = ap (λ l. x ∷ l) (append-nil xs)

keep_if :
    (b : Bool) (n : Node) (r rest : List Node)
    → (if b then r ++ n ∷ [] else r) ++ rest ≡ r ++ (if b then n ∷ rest else rest)
keep_if true n r rest = append_assoc r (n ∷ []) rest
keep_if false n r rest = refl

mutual
  unfolding collect_by_type preorder

  collect_by_type-walk :
      (t : NodeType) (n : Node) (r : List Node)
      → collect_by_type t n r ≡ r ++ filter (of_type t) (preorder n)
  collect_by_type-walk t (leaf b l) r =
      sym (append-nil (collect_by_type t (leaf b l) r))
      ∙ keep_if (of_type t (leaf b l)) (leaf b l) r []
  collect_by_type-walk t (control b c ns) r =
      let n : Node = control b c ns in
      collect_children-walk t ns (if of_type t n then r ++ n ∷ [] else r)
      ∙ keep_if (of_type t n) n r (filter (of_type t) (preorder_all ns))
  collect_by_type-walk t (decorator b d m) r =
      let n : Node = decorator b d m in
      collect_by_type-walk t m (if of_type t n then r ++ n ∷ [] else r)
      ∙ keep_if (of_type t n) n r (filter (of_type t) (preorder m))

  collect_children-walk :
      (t : NodeType) (ns : Nodes) (r : List Node)
      → collect_children t ns r ≡ r ++ filter (of_type t) (preorder_all ns)
  collect_children-walk t nil r = sym (append-nil r)
  collect_children-walk t (cons n ns) r =
      collect_children-walk t ns (collect_by_type t n r)
      ∙ (rw (collect_by_type-walk t n r, filter-append (of_type t) (preorder n) (preorder_all ns))
          (append_assoc r (filter (of_type t) (preorder n)) (filter (of_type t) (preorder_all ns))))

-- find_node gives the first node with the uid, and find_nodes_by_type all nodes of a type, in the
-- order in which `visit` walks over the tree.
find-walk :
    (target : ℕ) (t : NodeType) (root : Node)
    → (find_node target root ≡ first (has_uid target) (preorder root))
      × (find_nodes_by_type t root ≡ filter (of_type t) (preorder root))
unfolding find_node find_nodes_by_type
find-walk target t root = (find_first-walk (has_uid target) root, collect_by_type-walk t root [])
