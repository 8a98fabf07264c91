-- ===== src/Coro.antt =====
-- bteng/nodes/leaf/coro_action.py: CoroActionNode on the loops of its bridges. A bridge that set_bridge
-- pins is there from the start.
pub mod Steps
pub mod Events
pub mod Safety
pub mod Fresh
pub mod Ticks
pub mod Single
pub mod Honest
use bteng.Prelude.{
  ℕ, String, Bool, true, false, not, ◌&&◌, Option, none, some, is_some, or_else, if◌then◌else◌,
}
use bteng.Value.{Status, idle, running, success, failure, is_status, Value}
use bteng.AsyncAction
use bteng.AsyncAction.{Work}
use bteng.Bridge.{
  Loops, Holder, is_alive, task_done, submit, discard, cancel_task, get_default_bridge,
}

-- `bridge` is `_thread_pool`, and `pinned` is `_bridge`.
pub record CoroAction : Type 0 where
  pub status : Status
  pub feedback_message : String
  pub pinned : Option ℕ
  pub bridge : Option ℕ
  pub future : Option ℕ
  pub orphan : Option ℕ
  pub token_cancelled : Bool

-- _coro_finished
abbrev pub coro_finished : Loops → ℕ → Bool
coro_finished w j = task_done (w.holders j)

-- A previous halt left work that is still unwinding.
unfoldable pub is_unwinding : Option ℕ → Loops → Bool
is_unwinding none w = false
is_unwinding (some j) w = not (coro_finished w j)

-- A future is in flight on a loop that has died.
unfoldable pub loop_died : Option ℕ → Option ℕ → Loops → Bool
loop_died (some j) (some b) w = not (is_some (w.holders j).outcome) && not (is_alive (w.bridges b))
loop_died _ _ w = false

-- `getattr(bridge, "is_alive", ...)` of the bridge that the node has
unfoldable pub has_live_bridge : Option ℕ → Loops → Bool
has_live_bridge none w = false
has_live_bridge (some b) w = is_alive (w.bridges b)

-- _ensure_bridge: the bridge, or `none` where it raises RuntimeError.
unfoldable pub ensure_bridge : Option ℕ → Option ℕ → Loops → Option (ℕ × Loops)
unfolding has_live_bridge
ensure_bridge (some b) bridge w = if is_alive (w.bridges b) then some (b, w) else none
ensure_bridge none none w = some (get_default_bridge w)
ensure_bridge none (some b) w =
    if is_alive (w.bridges b) then some (b, w) else some (get_default_bridge w)

unfoldable pub discard_future : Option ℕ → Loops → Loops
discard_future none w = w
discard_future (some j) w = discard j w

-- The branch of AsyncActionNode.tick that starts fresh, on the bridge as its pool.
unfoldable pub start : CoroAction → ℕ → Loops → Status × CoroAction × Loops
start n b w =
    let n' = record n { bridge = some b; token_cancelled = false } in
    elim (submit b w) [
      | none ↦ (failure, record n' { feedback_message = "AsyncioBridge: submit rejected" }, w)
      | some (w', j) ↦ (running, record n' { future = some j }, w')
    ]

-- Its branch that checks for completion: there is no thread.
unfoldable pub poll_outcome : Option Work → CoroAction → Loops → Status × CoroAction × Loops
poll_outcome none n w = (running, n, w)
poll_outcome (some work) n w =
    let (s, feedback) = AsyncAction.settle work in
    (s, record n { feedback_message = or_else feedback n.feedback_message }, w)

unfoldable pub poll_future : Option ℕ → CoroAction → Loops → Status × CoroAction × Loops
unfolding poll_outcome
poll_future none n w = (running, n, w)
poll_future (some j) n w = poll_outcome (w.holders j).outcome n w

unfoldable pub poll : CoroAction → ℕ → Loops → Status × CoroAction × Loops
unfolding poll_future
poll n b w = poll_future n.future (record n { bridge = some b }) w

unfoldable pub tick_on_bridge :
    CoroAction → Option (ℕ × Loops) → Loops → Status × CoroAction × Loops
unfolding start poll
tick_on_bridge n none w =
    (failure, record n { feedback_message = "pinned to an unusable bridge" }, w)
tick_on_bridge n (some (b, w')) w = if is_status n.status running then poll n b w' else start n b w'

unfoldable pub tick : CoroAction → Loops → Status × CoroAction × Loops
unfolding is_unwinding loop_died discard_future ensure_bridge tick_on_bridge
tick n w =
    let clear = record n { orphan = none } in
    if is_unwinding n.orphan w
    then (failure, record n { feedback_message = "previous coroutine still unwinding" }, w)
    else if loop_died n.future n.bridge w
    then (
      failure,
      record clear {
        future = none;
        feedback_message = "event loop died while the coroutine was in flight";
      },
      discard_future n.future w,
    )
    else tick_on_bridge clear (ensure_bridge n.pinned n.bridge w) w

-- `self._orphan = future` if the coroutine has not finished
unfoldable pub keep_orphan : Option ℕ → Option ℕ → Loops → Option ℕ
keep_orphan none orphan w = orphan
keep_orphan (some j) orphan w = if coro_finished w j then orphan else some j

-- The end of _on_halt, behind what it waits for.
unfoldable pub end_halt : CoroAction → Loops → CoroAction
unfolding keep_orphan
end_halt n w = record n {
  future = none;
  orphan = keep_orphan n.future n.orphan w;
  token_cancelled = true;
}

-- The cancellation in _on_halt: at once on the loop thread, or when HALT_GRACE has passed.
unfoldable pub cancel_future : Option ℕ → Loops → Loops
cancel_future none w = w
cancel_future (some j) w = cancel_task j w

-- TreeNode.halt
unfoldable pub halt : CoroAction → Loops → CoroAction
unfolding end_halt
halt n w =
    if is_status n.status running
    then record (end_halt n w) { status = idle }
    else record n { status = idle }

-- TreeNode.reset_node
unfoldable pub reset : CoroAction → Loops → CoroAction
unfolding end_halt
reset n w = record (end_halt n w) { status = idle; feedback_message = "" }

-- What execute_tick does with the status: it raises TypeError for IDLE.
unfoldable pub conclude : Status → CoroAction → CoroAction
conclude idle n = n
conclude s n = record n { status = s }
