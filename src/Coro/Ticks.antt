-- ===== src/Coro/Ticks.antt =====
-- bteng/nodes/leaf/coro_action.py: a tick keeps the invariant.
use bteng.Prelude.{
  ℕ, ◌≡◌, refl, ap, sym, subst, true, false, Option, none, some, arith, Bool-cases, Option-cases,
  ◌⊎◌, inl, inr, String,
}
use mathlib.Core.Option.{some-injective}
use bteng.Value.{running, failure}
use bteng.Bridge.{Loops, is_alive}
use bteng.Coro.{
  CoroAction, is_unwinding, loop_died, has_live_bridge, ensure_bridge, discard_future, poll,
  poll_outcome, poll_future, tick_on_bridge, tick, conclude,
}
use bteng.Coro.Events.{is_live, discard_future-Shrinks}
use bteng.Coro.Safety.{
  IsSound, IsQuiet, IsOnly, IsSafe, Shrinks-IsSound, Shrinks-IsQuiet, Kept, quiet-Kept, only-dead,
  finished-dead, resolved-dead, nobody, in_future, in_orphan,
}
use bteng.Coro.Fresh.{ensure_bridge-Fits, on_bridge-Kept}

-- The tick that refuses to start a second copy.
unwinding-Kept :
    (n : CoroAction) (w : Loops) (m : String)
    → is_unwinding n.orphan w ≡ true
    → IsSafe n w
    → Kept (failure, record n { feedback_message = m }, w)
unfolding conclude is_unwinding
unwinding-Kept n w m u h = record {
  sound = h.sound;
  guarded = elim h.guarded [
    | nobody q ↦ nobody q
    | in_future k r f o b only ↦ let no : is_unwinding none w ≡ true = rw o at u in cc
    | in_orphan k o f only ↦ in_orphan k o f only
  ];
}

-- The tick that finds that the loop has died.
died-IsQuiet :
    (n : CoroAction) (w : Loops)
    → is_unwinding n.orphan w ≡ false
    → loop_died n.future n.bridge w ≡ true
    → IsSafe n w
    → IsQuiet w
unfolding is_unwinding loop_died is_live
died-IsQuiet n w u d h = elim h.guarded [
  | nobody q ↦ q
  | in_future k r f o b only ↦
      let died : loop_died (some k) (some (w.holders k).bridge) w ≡ true = rw (f, b) at d in
      only-dead k w only (ground arith)
  | in_orphan k o f only ↦
      let calm : is_unwinding (some k) w ≡ false = rw o at u in
      only-dead k w only (finished-dead k w (ground arith))
]

-- The bridge of a node stays as long as it is alive.
ensure_bridge-same :
    (p : Option ℕ) (b : ℕ) (w : Loops)
    → (p ≡ none) ⊎ (some b ≡ p)
    → is_alive (w.bridges b) ≡ true
    → ensure_bridge p (some b) w ≡ some (b, w)
unfolding ensure_bridge has_live_bridge
ensure_bridge-same none b w pins alive = rw alive refl
ensure_bridge-same (some i) b w (inl free) alive = cc
ensure_bridge-same (some i) b w (inr same) alive =
    let i≡b : i ≡ b = sym (some-injective b i same) in rw (i≡b, alive) refl

-- A tick while the coroutine runs keeps its future.
waiting-Kept :
    (n : CoroAction) (k b : ℕ) (w : Loops)
    → b ≡ (w.holders k).bridge
    → n.status ≡ running
    → n.future ≡ some k
    → (w.holders k).outcome ≡ none
    → is_alive (w.bridges b) ≡ true
    → n.orphan ≡ none
    → n.bridge ≡ some b
    → IsOnly k w
    → IsSound n.pinned n.bridge w
    → Kept (tick_on_bridge n (ensure_bridge n.pinned n.bridge w) w)
unfolding conclude tick_on_bridge poll poll_future poll_outcome
waiting-Kept n k b w at r f open' alive o has only s =
    let pins = subst (λ c. (n.pinned ≡ none) ⊎ (c ≡ n.pinned)) has s.pins in
    let e : ensure_bridge n.pinned n.bridge w ≡ some (b, w) =
      subst (λ c. ensure_bridge n.pinned c w ≡ some (b, w)) (sym has)
        (ensure_bridge-same n.pinned b w pins alive) in
    let t : tick_on_bridge n (some (b, w)) w ≡ (running, record n { bridge = some b }, w) =
      simp (tick_on_bridge, poll, poll_future, poll_outcome, r, f, open') in
    subst (λ r. Kept (tick_on_bridge n r w)) (sym e)
      (subst Kept (sym t) (record {
        sound = subst (λ c. IsSound n.pinned c w) has s;
        guarded = in_future k refl f o (ap some at) only;
      }))

calm-Kept :
    (n : CoroAction) (w : Loops)
    → is_unwinding n.orphan w ≡ false
    → loop_died n.future n.bridge w ≡ false
    → IsSafe n w
    → Kept (tick_on_bridge (record n { orphan = none }) (ensure_bridge n.pinned n.bridge w) w)
unfolding is_unwinding loop_died
calm-Kept n w u d h =
    let n' = record n { orphan = none } in
    let quiet : IsQuiet w → Kept (tick_on_bridge n' (ensure_bridge n.pinned n.bridge w) w) =
      λ q. on_bridge-Kept n' _ w refl q h.sound (ensure_bridge-Fits _ _ w q h.sound) in
    elim h.guarded [
      | nobody q ↦ quiet q
      | in_future k r f o b only ↦ elim (Option-cases (w.holders k).outcome) [
        | inl open' ↦
            let on : loop_died (some k) (some (w.holders k).bridge) w ≡ false = rw (f, b) at d in
            let alive : is_alive (w.bridges (w.holders k).bridge) ≡ true = ground arith in
            waiting-Kept n' k _ w refl r f open' alive refl b only h.sound
        | inr (work, done) ↦
            quiet (only-dead k w only (resolved-dead k work w (h.sound.resolved k) done))
      ]
      | in_orphan k o f only ↦
          let calm : is_unwinding (some k) w ≡ false = rw o at u in
          quiet (only-dead k w only (finished-dead k w (ground arith)))
    ]

pub tick-Kept : (n : CoroAction) (w : Loops) → IsSafe n w → Kept (tick n w)
unfolding tick
tick-Kept n w h = elim (Bool-cases (is_unwinding n.orphan w)) [
  | inl u ↦
      let m : String = "previous coroutine still unwinding" in
      let e : tick n w ≡ (failure, record n { feedback_message = m }, w) = rw (tick, u) refl in
      subst Kept (sym e) (unwinding-Kept n w m u h)
  | inr calm ↦ elim (Bool-cases (loop_died n.future n.bridge w)) [
    | inl died ↦
        let n' = record n {
          orphan = none;
          future = none;
          feedback_message = "event loop died while the coroutine was in flight";
        } in
        let w' = discard_future n.future w in
        let e : tick n w ≡ (failure, n', w') = rw (tick, calm, died) refl in
        let shrinks = discard_future-Shrinks n.future w in
        let quiet = Shrinks-IsQuiet w w' shrinks h.sound (died-IsQuiet n w calm died h) in
        subst Kept (sym e)
          (quiet-Kept failure n' w' quiet (Shrinks-IsSound _ _ w w' shrinks h.sound))
    | inr on ↦
        let e : tick n w
            ≡ tick_on_bridge (record n { orphan = none }) (ensure_bridge n.pinned n.bridge w) w =
          rw (tick, calm, on) refl in
        subst Kept (sym e) (calm-Kept n w calm on h)
  ]
]
