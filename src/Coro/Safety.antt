-- ===== src/Coro/Safety.antt =====
-- bteng/nodes/leaf/coro_action.py: the invariant of a node and the loops, which events on the loops keep.
use bteng.Prelude.{
  ℕ, ◌≡◌, refl, sym, subst, true, false, Option, none, some, ltb, arith, Bool-cases, ◌⊎◌, inl, inr,
}
use bteng.Value.{Status, idle, running, success, failure}
use bteng.AsyncAction.{Work}
use bteng.Bridge.{Loops, task_done}
use bteng.Coro.{CoroAction, coro_finished, conclude}
use bteng.Coro.Steps.{is_known}
use bteng.Coro.Events.{is_live, is_resolved, Shrinks}

-- What is known of the loops, and of the bridges that the node is pinned to and has.
pub record IsSound (pinned bridge : Option ℕ) (w : Loops) : Type 0 where
  pub resolved : (j : ℕ) → is_resolved (w.holders j) ≡ true
  pub known_holders : (j : ℕ) → ltb (w.holders j).bridge w.next_bridge ≡ true
  pub known_default : is_known w.default_bridge w ≡ true
  pub known_bridge : is_known bridge w ≡ true
  pub pins : (pinned ≡ none) ⊎ (bridge ≡ pinned)

abbrev pub IsQuiet : Loops → Type 0
IsQuiet w = (j : ℕ) → is_live w j ≡ false

abbrev pub IsOnly : ℕ → Loops → Type 0
IsOnly k w = (j : ℕ) → is_live w j ≡ true → j ≡ k

-- Nothing is alive, or at most the copy that the node waits for, or the one that it guards against.
pub data IsGuarded (n : CoroAction) (w : Loops) : Type 0 where
  nobody : IsQuiet w → IsGuarded n w
  in_future :
      (k : ℕ)
      → n.status ≡ running
      → n.future ≡ some k
      → n.orphan ≡ none
      → n.bridge ≡ some (w.holders k).bridge
      → IsOnly k w
      → IsGuarded n w
  in_orphan : (k : ℕ) → n.orphan ≡ some k → n.future ≡ none → IsOnly k w → IsGuarded n w

pub record IsSafe (n : CoroAction) (w : Loops) : Type 0 where
  pub sound : IsSound n.pinned n.bridge w
  pub guarded : IsGuarded n w

pub known-next :
    (b : Option ℕ) (w w' : Loops)
    → w'.next_bridge ≡ w.next_bridge
    → is_known b w ≡ true
    → is_known b w' ≡ true
unfolding is_known
known-next none w w' e h = refl
known-next (some i) w w' e h = rw e h

-- The events on the loops keep what is known.
pub Shrinks-IsSound :
    (p b : Option ℕ) (w w' : Loops) → Shrinks w w' → IsSound p b w → IsSound p b w'
Shrinks-IsSound p b w w' e s = record {
  resolved = λ j. e.resolved j (s.resolved j);
  known_holders = λ j. rw (e.same_bridge j, e.same_next) (s.known_holders j);
  known_default =
      subst (λ d. is_known d w' ≡ true) (sym e.same_default)
        (known-next w.default_bridge w w' e.same_next s.known_default);
  known_bridge = known-next b w w' e.same_next s.known_bridge;
  pins = s.pins;
}

pub Shrinks-IsQuiet :
    {p b : Option ℕ} (w w' : Loops) → Shrinks w w' → IsSound p b w → IsQuiet w → IsQuiet w'
Shrinks-IsQuiet w w' e s q j = e.dies j (s.resolved j) (q j)

Shrinks-IsOnly :
    {p b : Option ℕ} (k : ℕ) (w w' : Loops)
    → Shrinks w w'
    → IsSound p b w
    → IsOnly k w
    → IsOnly k w'
Shrinks-IsOnly k w w' e s only j live = elim (Bool-cases (is_live w j)) [
  | inl before ↦ only j before
  | inr dead ↦ let gone = e.dies j (s.resolved j) dead in cc
]

pub Shrinks-IsSafe : (n : CoroAction) (w w' : Loops) → Shrinks w w' → IsSafe n w → IsSafe n w'
Shrinks-IsSafe n w w' e s = record {
  sound = Shrinks-IsSound n.pinned n.bridge w w' e s.sound;
  guarded = elim s.guarded [
    | nobody q ↦ nobody (Shrinks-IsQuiet w w' e s.sound q)
    | in_future k r f o b only ↦
        in_future k r f o (rw (e.same_bridge k) b) (Shrinks-IsOnly k w w' e s.sound only)
    | in_orphan k o f only ↦ in_orphan k o f (Shrinks-IsOnly k w w' e s.sound only)
  ];
}

-- What a tick leaves, once execute_tick has put its status down.
abbrev pub Kept : Status × CoroAction × Loops → Type 0
Kept r = IsSafe (conclude r.0 r.1) r.2

pub quiet-Kept :
    (s : Status) (n : CoroAction) (w : Loops)
    → IsQuiet w
    → IsSound n.pinned n.bridge w
    → Kept (s, n, w)
unfolding conclude
quiet-Kept idle n w q h = record { sound = h; guarded = nobody q }
quiet-Kept running n w q h = record { sound = h; guarded = nobody q }
quiet-Kept success n w q h = record { sound = h; guarded = nobody q }
quiet-Kept failure n w q h = record { sound = h; guarded = nobody q }

-- When the only copy cannot run, none can.
pub only-dead : (k : ℕ) (w : Loops) → IsOnly k w → is_live w k ≡ false → IsQuiet w
only-dead k w only dead j = elim (Bool-cases (is_live w j)) [
  | inr gone ↦ gone
  | inl live ↦
      let same : j ≡ k = only j live in
      let there : is_live w k ≡ true = subst (λ i. is_live w i ≡ true) same live in cc
]

pub finished-dead : (k : ℕ) (w : Loops) → coro_finished w k ≡ true → is_live w k ≡ false
unfolding is_live
finished-dead k w h = rw h refl

pub resolved-dead :
    (k : ℕ) (work : Work) (w : Loops)
    → is_resolved (w.holders k) ≡ true
    → (w.holders k).outcome ≡ some work
    → is_live w k ≡ false
unfolding is_live is_resolved task_done
resolved-dead k work w r h = ground arith
