-- ===== src/Executor/Loop.antt =====
-- bteng/core/executor.py: the loops and the controls of TreeExecutor. `max_ticks` is not negative.
use bteng.Prelude.{
  ℕ, zero, suc, ◌+◌, Bool, true, false, Option, none, some, ◌&&◌, leb, if◌then◌else◌,
}
use bteng.Value.{running, failure}
use bteng.World.{World, Host}
use bteng.Node.{Base}
use bteng.Tick.{Outcome, no_tree, returned, raised}
use bteng.Tree.{Tree, halt_all, reset_all}
use bteng.Executor.{
  Executor, Ran, map_bases, with_inspector, with_tracer, lifecycle, with_lifecycle, shutdown_nodes,
  do_tick, halt_completed, notify_completion, complete,
}

module _ (host : Host) where
  -- tick_once
  unfoldable pub tick_executor : Executor → World → Ran
  unfolding do_tick
  tick_executor x w = elim x.tree [
    | none ↦ record { outcome = raised no_tree; executor = x; world = w }
    | some t ↦ do_tick host x t w
  ]

  unfoldable pub halt_tree : Executor → World → Executor × World
  halt_tree x w = elim x.tree [
    | none ↦ (x, w)
    | some t ↦ let (t', w') = halt_all host t w in (record x { tree = some t' }, w')
  ]

  unfoldable pub reset_tree : Executor → World → Executor × World
  reset_tree x w = elim x.tree [
    | none ↦ (x, w)
    | some t ↦ let (t', w') = reset_all host t w in (record x { tree = some t' }, w')
  ]

  -- `max_ticks > 0 and count >= max_ticks`
  abbrev pub is_limit : ℕ → ℕ → Bool
  is_limit max_ticks count = leb 1 max_ticks && leb max_ticks count

  -- How the loop of tick_until_result goes on behind a tick, with the rest of the loop.
  unfoldable pub after_round : Outcome → Bool → Ran → Option Ran → Option Ran
  unfolding complete
  after_round (returned running) limit r more = if limit then some r else more
  after_round (returned s) limit r more = some (complete host s r.executor r.world)
  after_round o limit r more = some r

  -- The loop of tick_until_result: `count` ticks are done, and `max_ticks` is 0 for no limit.
  -- `none` means that the fuel ran out.
  unfoldable pub tick_loop : ℕ → ℕ → ℕ → Executor → World → Option Ran
  unfolding do_tick after_round
  tick_loop zero max_ticks count x w = none
  tick_loop (suc fuel) max_ticks count x w = elim x.tree [
    | none ↦ some (record { outcome = raised no_tree; executor = x; world = w })
    | some t ↦
        let r = do_tick host x t w in
        let more = tick_loop fuel max_ticks (count + 1) r.executor r.world in
        after_round r.outcome (is_limit max_ticks (count + 1)) r more
  ]

  unfoldable pub tick_until_result : ℕ → ℕ → Executor → World → Option Ran
  unfolding tick_loop
  tick_until_result fuel max_ticks x w = tick_loop fuel max_ticks 0 x w

  -- shutdown, without the thread pool
  unfoldable pub shut_down : Executor → Executor
  unfolding shutdown_nodes
  shut_down x = elim x.tree [
    | none ↦ x
    | some t ↦
        if x.nodes_setup
        then record (with_lifecycle x (shutdown_nodes t.root (lifecycle x))) { nodes_setup = false }
        else x
  ]

  -- What the event loop does with the outcome of a tick: the executor, and whether it goes on.
  unfoldable pub after_loop_tick : Ran → Executor × World × Bool
  unfolding halt_completed shut_down
  after_loop_tick r = elim r.outcome [
    | returned running ↦ (r.executor, r.world, true)
    | returned s ↦
        let (x', w') = halt_completed host (record r.executor { final_status = some s }) r.world in
        (notify_completion host s (shut_down (record x' { loop_running = false })), w', false)
    | o ↦ (
      notify_completion host failure (record r.executor { final_status = some failure }),
      r.world,
      false,
    )
  ]

  -- One round of _event_loop_body.
  unfoldable pub loop_round : Executor → World → Executor × World × Bool
  unfolding do_tick after_loop_tick
  loop_round x w =
      if x.loop_running
      then (if x.paused then (x, w, true) else elim x.tree [
        | none ↦
            (notify_completion host failure (record x { final_status = some failure }), w, false)
        | some t ↦ after_loop_tick (do_tick host x t w)
      ])
      else (x, w, false)

  -- start_event_loop, without the thread itself.
  unfoldable pub start_event_loop : Executor → Executor
  start_event_loop x =
      if x.loop_running then x else record x { loop_running = true; paused = false }

  -- stop_event_loop, after the loop's thread has ended.
  unfoldable pub stop_event_loop : Executor → Executor
  unfolding shut_down
  stop_event_loop x = shut_down (record x { loop_running = false; paused = false })

  unfoldable pub pause : Executor → Executor
  pause x = record x { paused = true }

  unfoldable pub resume : Executor → Executor
  resume x = record x { paused = false }

-- `self._inject_inspector(self._tree.root, inspector)`, and the same for the tracer
unfoldable pub injected : (Base → Base) → Option Tree → Option Tree
unfolding map_bases
injected f none = none
injected f (some t) = some (record t { root = map_bases f t.root })

unfoldable pub set_inspector : Executor → Executor
unfolding injected
set_inspector x = record x { inspector = true; tree = injected with_inspector x.tree }

unfoldable pub set_tracer : Executor → Executor
unfolding injected
set_tracer x = record x { tracer = true; tree = injected with_tracer x.tree }

unfoldable pub on_completion : Executor → Executor
on_completion x = record x { has_callback = true }
