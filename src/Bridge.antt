-- ===== src/Bridge.antt =====
-- bteng/concurrency/asyncio_bridge.py: AsyncioBridge and its default, with the event loops behind them.
-- A submission is known by a number, and so is a bridge. Only the submissions of one node are in the
-- model. The check of `cancelled` in `_runner` and the entry of its task are one step.
use bteng.Prelude.{
  ℕ, ◌+◌, ◌-◌, Bool, true, false, not, ◌&&◌, ◌||◌, Option, none, some, ◌==◌, if◌then◌else◌, is_some,
}
use bteng.AsyncAction.{Work}

-- _TaskHolder with its Task and its Future: whether the task has started and is done, what the future
-- was resolved with, and the bridge.
pub record Holder : Type 0 where
  pub bridge : ℕ
  pub started : Bool
  pub task_finished : Bool
  pub outcome : Option Work
  pub cancelled : Bool
  pub settled : Bool

-- `loop_running` is the life of an owned loop's thread, or what an attached loop says.
pub record AsyncioBridge : Type 0 where
  pub owned : Bool
  pub stopped : Bool
  pub loop_closed : Bool
  pub loop_error : Bool
  pub loop_running : Bool
  pub pending_count : ℕ

pub record Loops : Type 0 where
  pub holders : ℕ → Holder
  pub next_holder : ℕ
  pub bridges : ℕ → AsyncioBridge
  pub next_bridge : ℕ
  pub default_bridge : Option ℕ

-- An assignment to one entry of a function.
abbrev pub update {ℓ} : {A : Type ℓ} → (ℕ → A) → ℕ → A → ℕ → A
update f i x j = if i == j then x else f j

unfoldable pub new_bridge : Bool → AsyncioBridge
new_bridge owned = record {
  owned = owned;
  stopped = false;
  loop_closed = false;
  loop_error = false;
  loop_running = true;
  pending_count = 0;
}

pub data Reason : Type 0 where
  bridge_shut_down loop_is_closed thread_died thread_not_running loop_not_running : Reason

unfoldable pub unusable_reason : AsyncioBridge → Option Reason
unusable_reason b =
    if b.stopped
    then some bridge_shut_down
    else if b.loop_closed
    then some loop_is_closed
    else if b.loop_error
    then some thread_died
    else if b.loop_running
    then none
    else if b.owned
    then some thread_not_running
    else some loop_not_running

unfoldable pub is_alive : AsyncioBridge → Bool
unfolding unusable_reason
is_alive b = not (is_some (unusable_reason b))

-- task_done, of a future that came from a bridge
unfoldable pub task_done : Holder → Bool
task_done h = if h.started then h.task_finished else h.cancelled || is_some h.outcome

unfoldable pub new_holder : ℕ → Holder
new_holder bridge = record {
  bridge = bridge;
  started = false;
  task_finished = false;
  outcome = none;
  cancelled = false;
  settled = false;
}

-- submit of a coroutine; `none` where it raises RuntimeError. The number is that of the submission.
unfoldable pub submit : ℕ → Loops → Option (Loops × ℕ)
unfolding is_alive new_holder
submit i w =
    let b = w.bridges i in
    if is_alive b
    then some (
      record w {
        holders = update w.holders w.next_holder (new_holder i);
        next_holder = w.next_holder + 1;
        bridges = update w.bridges i (record b { pending_count = b.pending_count + 1 });
      },
      w.next_holder,
    )
    else none

-- _settle
unfoldable pub settle : ℕ → Loops → Loops
settle j w =
    let h = w.holders j in
    let b = w.bridges h.bridge in
    if h.settled then w else record w {
      holders = update w.holders j (record h { settled = true });
      bridges = update w.bridges h.bridge (record b { pending_count = b.pending_count - 1 });
    }

unfoldable pub discard : ℕ → Loops → Loops
unfolding settle
discard j w = settle j w

-- cancel_task; a task that runs is asked to stop, which is up to it.
unfoldable pub cancel_task : ℕ → Loops → Loops
cancel_task j w = record w {
  holders = update w.holders j (record (w.holders j) { cancelled = true });
}

-- The task is done: its coroutine has ended.
unfoldable pub finish_task : ℕ → Loops → Loops
finish_task j w = record w {
  holders = update w.holders j (record (w.holders j) { task_finished = true });
}

-- The loop starts `_runner`, which gives up at once if it was cancelled before.
unfoldable pub run_task : ℕ → Loops → Loops
unfolding finish_task
run_task j w =
    if (w.holders j).cancelled
    then finish_task j w
    else record w { holders = update w.holders j (record (w.holders j) { started = true }) }

-- The future of a task that is done is resolved, and its callback runs.
unfoldable pub resolve_future : ℕ → Work → Loops → Loops
unfolding settle
resolve_future j work w =
    settle j
      (record w { holders = update w.holders j (record (w.holders j) { outcome = some work }) })

-- shutdown behind the drain, which cancels what still runs; `none` where it raises RuntimeError.
unfoldable pub shutdown : Bool → ℕ → Loops → Option Loops
shutdown in_loop_thread i w =
    let b = w.bridges i in
    if b.owned && not b.loop_closed && in_loop_thread
    then none
    else if b.stopped
    then some w
    else if not b.owned || b.loop_closed
    then some (record w { bridges = update w.bridges i (record b { stopped = true }) })
    else some (record w {
      bridges =
          update w.bridges i
            (record b { stopped = true; loop_closed = true; loop_running = false });
    })

unfoldable pub set_default_bridge : Option ℕ → Loops → Loops
set_default_bridge b w = record w { default_bridge = b }

-- get_default_bridge, which creates an owned loop on first use
unfoldable pub get_default_bridge : Loops → ℕ × Loops
unfolding new_bridge
get_default_bridge w = elim w.default_bridge [
  | some i ↦ (i, w)
  | none ↦ (
    w.next_bridge,
    record w {
      bridges = update w.bridges w.next_bridge (new_bridge true);
      next_bridge = w.next_bridge + 1;
      default_bridge = some w.next_bridge;
    },
  )
]

unfoldable pub shutdown_default_bridge : Bool → Loops → Option Loops
unfolding shutdown
shutdown_default_bridge in_loop_thread w = elim w.default_bridge [
  | none ↦ some w
  | some i ↦ elim (shutdown in_loop_thread i w) [
    | none ↦ none
    | some w' ↦ some (record w' { default_bridge = none })
  ]
]
