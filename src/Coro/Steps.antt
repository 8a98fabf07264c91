-- ===== src/Coro/Steps.antt =====
-- bteng/nodes/leaf/coro_action.py: the interleavings of a node's ticks and halts with the event loops.
use bteng.Prelude.{ℕ, ◌≡◌, Bool, true, false, ltb, Option, none, some}
use bteng.AsyncAction.{Work}
use bteng.Bridge.{
  Loops, run_task, finish_task, resolve_future, shutdown, set_default_bridge, update,
}
use bteng.Coro.{CoroAction, tick, conclude, halt, reset, cancel_future}

pub record System : Type 0 where
  pub node : CoroAction
  pub loops : Loops

-- A bridge, if there is one, was created before.
unfoldable pub is_known : Option ℕ → Loops → Bool
is_known none w = true
is_known (some i) w = ltb i w.next_bridge

-- execute_tick
abbrev pub ticked : System → System
ticked s =
    let (status, node, loops) = tick s.node s.loops in
    record { node = conclude status node; loops = loops }

-- A step of the tick thread, of a loop, or of the host. The cancellation within a halt is a step, and
-- what happens until the halt ends are steps too. A loop that has died never runs again. Only an owned
-- bridge shuts down here: the loop of an attached one goes on.
pub data Step : System → System → Type 0 where
  tick_step : (s : System) → Step s (ticked s)
  cancel_step : (s : System) → Step s (record s { loops = cancel_future s.node.future s.loops })
  halt_step : (s : System) → Step s (record s { node = halt s.node s.loops })
  reset_step : (s : System) → Step s (record s { node = reset s.node s.loops })
  task_starts :
      (s : System) (j : ℕ)
      → (s.loops.holders j).started ≡ false
      → (s.loops.holders j).task_finished ≡ false
      → Step s (record s { loops = run_task j s.loops })
  task_ends :
      (s : System) (j : ℕ)
      → (s.loops.holders j).task_finished ≡ false
      → Step s (record s { loops = finish_task j s.loops })
  future_resolves :
      (s : System) (j : ℕ) (work : Work)
      → (s.loops.holders j).task_finished ≡ true
      → (s.loops.holders j).outcome ≡ none
      → Step s (record s { loops = resolve_future j work s.loops })
  loop_dies :
      (s : System) (i : ℕ)
      → Step s (record s {
        loops = record s.loops {
          bridges =
              update s.loops.bridges i
                (record (s.loops.bridges i) { loop_error = true; loop_running = false });
        };
      })
  loop_stops :
      (s : System) (i : ℕ)
      → Step s (record s {
        loops = record s.loops {
          bridges = update s.loops.bridges i (record (s.loops.bridges i) { loop_running = false });
        };
      })
  shuts_down :
      (s : System) (in_loop_thread : Bool) (i : ℕ) {w : Loops}
      → (s.loops.bridges i).owned ≡ true
      → shutdown in_loop_thread i s.loops ≡ some w
      → Step s (record s { loops = w })
  sets_default :
      (s : System) (b : Option ℕ)
      → is_known b s.loops ≡ true
      → Step s (record s { loops = set_default_bridge b s.loops })

pub data Reach (first : System) : System → Type 0 where
  here : Reach first first
  more : {s s' : System} → Reach first s → Step s s' → Reach first s'
