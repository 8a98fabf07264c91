-- ===== src/Tick/Reactive.antt =====
-- The methods that bteng/nodes/control/reactive_sequence.py and reactive_fallback.py share:
-- _collect_blackboards and _subscribe, and what their loops have in common.
use bteng.Prelude.{
  ℕ, Bool, true, false, Option, none, some, List, [], ◌∷◌, ◌++◌, ◌==◌, if◌then◌else◌, ◌||◌, leb,
}
use bteng.Node.{Node, Nodes, leaf, control, decorator, nil, cons, Reactive}
use bteng.Node.Children.{of_list}
use bteng.Blackboard.{mark_dirty}
use bteng.World.{World, Host, board_subscribe}
use bteng.Tick.{Outcome, Swept, stop, advance, halt_list}

unfoldable pub mem : ℕ → List ℕ → Bool
mem i [] = false
mem i (j ∷ js) = if j == i then true else mem i js

unfoldable pub add_board : Option ℕ → List ℕ → List ℕ
unfolding mem
add_board none seen = seen
add_board (some id) seen = if mem id seen then seen else seen ++ id ∷ []

-- The stack of _collect_blackboards gives the last child, and all below it, first.
unfoldable mutual
  unfolding add_board

  pub collect : Node → List ℕ → List ℕ
  collect (leaf b l) seen = add_board b.config.blackboard seen
  collect (control b c ns) seen = collect_all ns (add_board b.config.blackboard seen)
  collect (decorator b d n) seen = collect n (add_board b.config.blackboard seen)

  pub collect_all : Nodes → List ℕ → List ℕ
  collect_all nil seen = seen
  collect_all (cons n ns) seen = collect n (collect_all ns seen)

unfoldable pub subscribe_all : ℕ → List ℕ → World → List (ℕ × ℕ) × World
unfolding board_subscribe
subscribe_all uid [] w = ([], w)
subscribe_all uid (id ∷ rest) w =
    let (w1, sub) = board_subscribe id (mark_dirty uid) w in
    let (subs, w2) = subscribe_all uid rest w1 in
    elim sub [ none ↦ (subs, w2) | some i ↦ ((id, i) ∷ subs, w2) ]

-- _subscribe: nothing, if there are subscriptions.
unfoldable pub subscribe : ℕ → List Node → List (ℕ × ℕ) → World → List (ℕ × ℕ) × World
unfolding subscribe_all collect of_list
subscribe uid children [] w = subscribe_all uid (collect_all (of_list children) []) w
subscribe uid children (s ∷ ss) w = (s ∷ ss, w)

-- The loop left at this child, and halted those behind it.
unfoldable pub stop_and_halt : Host → Outcome → Node → List Node → World → Swept
stop_and_halt host o n ns w = let (ns', w') = halt_list host ns w in stop o n ns' w'

-- `completed`: the running child has completed, and the subscriptions have ended.
pub record FastSwept : Type 0 where
  pub completed : Bool
  pub swept : Swept

abbrev pub advance_fast : Node → FastSwept → FastSwept
advance_fast n f = record f { swept = advance n f.swept }

abbrev pub on_guard : Swept → FastSwept
on_guard s = record { completed = false; swept = s }

abbrev pub on_completed : Swept → FastSwept
on_completed s = record { completed = true; swept = s }

is_empty {ℓ} : {A : Type ℓ} → List A → Bool
is_empty [] = true
is_empty (x ∷ xs) = false

-- The index of the fast path, if `tick` takes it.
unfoldable pub fast_index : Bool → Reactive → ℕ → Option ℕ
unfolding is_empty
fast_index dirty r n = elim r.running_child_idx [
  | none ↦ none
  | some i ↦ if dirty || is_empty r.bb_subscriptions then none else if leb n i then none else some i
]
