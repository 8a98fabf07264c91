-- ===== src/Orderly/Tip.antt =====
-- bteng/core/node.py: `tip` against the nodes of the tree that are RUNNING.
use bteng.Prelude.{
  ◌≡◌, refl, true, false, Option, none, some, Bool-cases, inl, inr, ◌⊎◌, arith, if◌then◌else◌, ◌∙◌,
}
use bteng.Value.{Status, running, is_status}
use bteng.Node.{Node, Nodes, leaf, control, decorator, nil, cons, status}
use bteng.Node.Children.{tip, tip_first}
use bteng.Orderly.{IsNotRunning, IsCalm, AllCalm}

off-IsNotRunning : (s : Status) → is_status s running ≡ false → IsNotRunning s
off-IsNotRunning s h = ground arith

on-running : (s : Status) → is_status s running ≡ true → s ≡ running
on-running s h = ground arith

-- A node that runs, and that has no running node below it.
pub record IsDeepest (t : Node) : Type 0 where
  pub runs : status t ≡ running
  pub last : tip t ≡ some t

-- What a walk that gives `o` says of nodes that are calm, or not.
abbrev Says : Option Node → Type 0 → Type 0
Says none calm = calm
Says (some t) calm = IsDeepest t × (calm → ⊥)

-- At a node that is not a leaf, from what is below it.
at_node :
    (o : Option Node) (n : Node) (calm : Type 0)
    → (o ≡ none → tip n ≡ (if is_status (status n) running then some n else none))
    → Says o calm
    → Says
        (elim o [ some t ↦ some t | none ↦ if is_status (status n) running then some n else none ])
        (IsNotRunning (status n) × calm)
at_node (some t) n calm e h = (h.0, λ c. h.1 c.1)
at_node none n calm e h = elim (Bool-cases (is_status (status n) running)) [
  | inl on ↦
      let runs = on-running (status n) on in
      let last : tip n ≡ some n = e refl ∙ rw on refl in
      rw on (record { runs = runs; last = last }, λ c. c.0 runs)
  | inr off ↦ rw off (off-IsNotRunning (status n) off, h)
]

-- A leaf.
at_leaf :
    (n : Node)
    → tip n ≡ (if is_status (status n) running then some n else none)
    → Says (tip n) (IsNotRunning (status n))
at_leaf n e = elim (Bool-cases (is_status (status n) running)) [
  | inl on ↦
      let runs = on-running (status n) on in
      let last : tip n ≡ some n = e ∙ rw on refl in
      rw last (record { runs = runs; last = last }, λ c. c runs)
  | inr off ↦
      let nothing : tip n ≡ none = e ∙ rw off refl in rw nothing (off-IsNotRunning (status n) off)
]

-- The first branch that has an answer.
first_of :
    (o rest : Option Node) (calm calms : Type 0)
    → Says o calm
    → Says rest calms
    → Says (elim o [ some t ↦ some t | none ↦ rest ]) (calm × calms)
first_of (some t) rest calm calms h k = (h.0, λ c. h.1 c.0)
first_of none (some t) calm calms h k = (k.0, λ c. k.1 c.1)
first_of none none calm calms h k = (h, k)

mutual
  unfolding tip status

  tip-Says : (n : Node) → Says (tip n) (IsCalm n)
  tip-Says (leaf b l) = at_leaf (leaf b l) refl
  tip-Says (control b c ns) =
      at_node (tip_first ns) (control b c ns) (AllCalm ns) (λ e. rw e refl) (tip_first-Says ns)
  tip-Says (decorator b d n) =
      at_node (tip n) (decorator b d n) (IsCalm n) (λ e. rw e refl) (tip-Says n)

  tip_first-Says : (ns : Nodes) → Says (tip_first ns) (AllCalm ns)
  tip_first-Says nil = tt
  tip_first-Says (cons n ns) =
      first_of (tip n) (tip_first ns) (IsCalm n) (AllCalm ns) (tip-Says n) (tip_first-Says ns)

tip_cases :
    (o : Option Node) (calm : Type 0)
    → Says o calm
    → ((o ≡ none) × calm) ⊎ ((t : Node) × (o ≡ some t) × IsDeepest t × (calm → ⊥))
tip_cases none calm h = inl (refl, h)
tip_cases (some t) calm h = inr (t, refl, h.0, h.1)

-- `tip` gives nothing exactly on a tree without a RUNNING node; else it gives a node that is RUNNING
-- and its own tip.
tip_lem :
    (n : Node)
    → ((tip n ≡ none) × IsCalm n) ⊎ ((t : Node) × (tip n ≡ some t) × IsDeepest t × (IsCalm n → ⊥))
tip_lem n = tip_cases (tip n) (IsCalm n) (tip-Says n)
