-- ===== src/Executor/Run.antt =====
-- bteng/core/executor.py: the ends of tick_until_result and of the event loop.
use bteng.Prelude.{
  ℕ, zero, suc, ◌+◌, ◌≤◌, ◌<◌, ◌≡◌, refl, Bool, true, false, Option-cases, inl, inr, Option, none,
  some, arith, ◌∙◌,
}
use bteng.Value.{Status, idle, running, success, failure}
use bteng.World.{World, Host}
use bteng.Tree.{Tree, tick_once}
use bteng.Tick.{Outcome, returned, invalid, raised}
use bteng.Executor.{
  Executor, Ran, prepare, end_frame, after_outcome, after_tick, do_tick, halt_completed, complete,
}
use bteng.Executor.Loop.{
  is_limit, after_round, tick_loop, tick_until_result, after_loop_tick, loop_round,
  start_event_loop,
}

-- What a tick leaves of an executor: the loop's flags, and at most one more tick.
record IsStep (x x' : Executor) : Type 0 where
  ticks : x'.tick_count ≤ x.tick_count + 1
  loop : x'.loop_running ≡ x.loop_running

abbrev Same : Executor → Executor → Type 0
Same x x' = (x'.tick_count ≡ x.tick_count) × (x'.loop_running ≡ x.loop_running)

prepare-Same : (host : Host) (x : Executor) (t : Tree) (w : World) → Same x (prepare host x t w).0
unfolding prepare
prepare-Same host x t w = ground arith

end_frame-Same : (x : Executor) (t : Tree) (w : World) → Same x (end_frame x t w).0
unfolding end_frame
end_frame-Same x t w = ground arith

after_outcome-IsStep :
    (o : Outcome) (x : Executor) (framed : Executor × World) (w : World)
    → Same x framed.0
    → IsStep x (after_outcome o x framed w).executor
unfolding after_outcome
after_outcome-IsStep (returned s) x framed w h = record { ticks = omega (arith, h.0); loop = h.1 }
after_outcome-IsStep invalid x framed w h = record { ticks = omega arith; loop = refl }
after_outcome-IsStep (raised e) x framed w h = record { ticks = omega arith; loop = refl }

do_tick-IsStep :
    (host : Host) (x : Executor) (t : Tree) (w : World) → IsStep x (do_tick host x t w).executor
unfolding do_tick after_tick
do_tick-IsStep host x t w =
    let p = prepare host x t w in
    let r = tick_once host p.1 p.2 in
    let x' : Executor = record p.0 { tree = some r.0 } in
    let s : IsStep x' (do_tick host x t w).executor =
      after_outcome-IsStep r.1.outcome x' (end_frame x' r.0 r.1.world) r.1.world
        (end_frame-Same x' r.0 r.1.world) in
    let q = prepare-Same host x t w in
    record { ticks = omega (arith, s.ticks, q.0); loop = s.loop ∙ q.1 }

complete-ticks :
    (host : Host) (s : Status) (x : Executor) (w : World)
    → (complete host s x w).executor.tick_count ≡ x.tick_count
unfolding complete halt_completed
complete-ticks host s x w = ground arith

-- The result is there, with at most so many ticks done.
abbrev IsBounded : ℕ → Option Ran → Type 0
IsBounded bound none = ⊥
IsBounded bound (some r) = r.executor.tick_count ≤ bound

after_round-IsBounded :
    (host : Host) (o : Outcome) (limit : Bool) (r : Ran) (more : Option Ran) (bound : ℕ)
    → r.executor.tick_count ≤ bound
    → (limit ≡ false → IsBounded bound more)
    → IsBounded bound (after_round host o limit r more)
unfolding after_round
after_round-IsBounded host (returned running) true r more bound h k = h
after_round-IsBounded host (returned running) false r more bound h k = k refl
after_round-IsBounded host (returned idle) limit r more bound h k =
    omega (arith, h, complete-ticks host idle r.executor r.world)
after_round-IsBounded host (returned success) limit r more bound h k =
    omega (arith, h, complete-ticks host success r.executor r.world)
after_round-IsBounded host (returned failure) limit r more bound h k =
    omega (arith, h, complete-ticks host failure r.executor r.world)
after_round-IsBounded host invalid limit r more bound h k = h
after_round-IsBounded host (raised e) limit r more bound h k = h

is_limit-more : (host : Host) (m c : ℕ) → 1 ≤ m → is_limit host m c ≡ false → c < m
is_limit-more host m c h k = ground arith

tick_loop-IsBounded :
    (host : Host) (fuel m count : ℕ) (x : Executor) (w : World) (bound : ℕ)
    → 1 ≤ m
    → count < m
    → m ≤ count + fuel
    → x.tick_count + m ≤ bound + count
    → IsBounded bound (tick_loop host fuel m count x w)
unfolding tick_loop
tick_loop-IsBounded host zero m count x w bound h lt f b = absurd (omega arith)
tick_loop-IsBounded host (suc fuel) m count x w bound h lt f b = elim (Option-cases x.tree) [
  | inl e ↦ rw e (omega arith)
  | inr (t, e) ↦
      let x' : Executor = record x { tree = some t } in
      let r = do_tick host x' t w in
      let step : IsStep x' r.executor = do_tick-IsStep host x' t w in
      let more = tick_loop host fuel m (count + 1) r.executor r.world in
      let bounded : IsBounded bound
          (after_round host r.outcome (is_limit host m (count + 1)) r more) =
        after_round-IsBounded host r.outcome (is_limit host m (count + 1)) r more bound
          (omega (arith, step.ticks))
          (λ k.
            tick_loop-IsBounded host fuel m (count + 1) r.executor r.world bound h
              (is_limit-more host m (count + 1) h k) (omega arith) (omega (arith, step.ticks))) in
      rw e bounded
]

result_of :
    (bound : ℕ) (o : Option Ran)
    → IsBounded bound o
    → (r : Ran) × (o ≡ some r) × (r.executor.tick_count ≤ bound)
result_of bound none h = absurd h
result_of bound (some r) h = (r, refl, h)

-- With a limit of at least one tick, and as much fuel, tick_until_result returns, after at most
-- `max_ticks` ticks.
pub tick_until_result-returns :
    (host : Host) (max_ticks fuel : ℕ) (x : Executor) (w : World)
    → 1 ≤ max_ticks
    → max_ticks ≤ fuel
    → (r : Ran) × (tick_until_result host fuel max_ticks x w ≡ some r)
      × (r.executor.tick_count ≤ x.tick_count + max_ticks)
unfolding tick_until_result
tick_until_result-returns host m fuel x w h f =
    result_of (x.tick_count + m) (tick_loop host fuel m 0 x w)
      (tick_loop-IsBounded host fuel m 0 x w (x.tick_count + m) h h (omega arith) (omega arith))

abbrev pub Raises : Outcome → Type 0
Raises (returned s) = ⊥
Raises invalid = Unit
Raises (raised e) = Unit

-- A running loop that is not paused, at a tree: it leaves after an exception.
after_loop_tick-Raises :
    (host : Host) (r : Ran)
    → Raises r.outcome
    → ((after_loop_tick host r).0.loop_running ≡ r.executor.loop_running)
      × ((after_loop_tick host r).0.final_status ≡ some failure)
      × ((after_loop_tick host r).2 ≡ false)
unfolding after_loop_tick
after_loop_tick-Raises host r h = ground arith

-- When the tick of a running loop ends in an exception, the loop ends with the final status FAILURE,
-- but the executor still counts as running, so that start_event_loop does nothing.
pub loop_round-stuck :
    (host : Host) (x : Executor) (t : Tree) (w : World)
    → x.loop_running ≡ true
    → x.paused ≡ false
    → x.tree ≡ some t
    → Raises (do_tick host x t w).outcome
    → ((loop_round host x w).2 ≡ false)
      × ((loop_round host x w).0.final_status ≡ some failure)
      × (start_event_loop host (loop_round host x w).0 ≡ (loop_round host x w).0)
unfolding loop_round start_event_loop
loop_round-stuck host x t w on go e h =
    let r = do_tick host x t w in
    let s = after_loop_tick-Raises host r h in let d = do_tick-IsStep host x t w in ground arith
