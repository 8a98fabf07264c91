-- ===== src/Examples/Tools.antt =====
-- Runs of bteng/introspection/inspector.py, bteng/logging/tracer.py and
-- bteng/concurrency/thread_pool.py.
use bteng.Prelude.{
  ℕ, zero, suc, ◌+◌, ◌≡◌, refl, pos, Bool, false, none, some, List, [], ◌∷◌, length, min, arith,
  String,
}
use bteng.Prelude.Buffer.{newest}
use bteng.Prelude.Table.{put, pop, member, without}
use bteng.Value.{Status, idle, running, success, failure, Value}
use bteng.Node.{action}
use bteng.Inspector.{
  Report, new_inspector, on_node_tick, on_node_halt, subscribe, unsubscribe, active_path,
  running_nodes, stats_for,
}
use bteng.Inspector.Operations.{Operation, ticked, halted, subscribed, unsubscribed, operate_all}
use bteng.Inspector.Path.{Follows, is_active, active_path_lem}
use bteng.Inspector.Stats.{summary, reported, stats_for_lem}
use bteng.Inspector.History.{enter_all}
use bteng.Tracer.{Traced, new_tracer, frame_count}
use bteng.Tracer.Durations
use bteng.Tracer.Durations.{logged, began, recorded, ended, latest}
use bteng.Tracer.Frames
use bteng.Tracer.Frames.{blank, frames_lem}
use bteng.ThreadPool.{
  ThreadPool, new_pool, new_task, begin_submit, hand_over, cancel_task, mark_stopped,
  close_executor, pending_tasks, wait_all, Sight,
}
use bteng.ThreadPool.Count.{
  Run, here, more, submits, hands_over, cancels, active, pending_tasks_lem, is_refused, stops,
  closes,
}
use bteng.ThreadPool.Wait.{Explains, wait_all-returns}

abbrev told_of : ℕ → Status → Report
told_of uid s = record {
  uid = uid;
  name = "move";
  node_type = action;
  old_status = idle;
  new_status = s;
  duration = 5;
  tick_time = none;
  feedback_message = "";
}

-- The node 1 runs, the node 2 fails, and the node 3 runs and is halted.
abbrev told : List Operation
told =
    subscribed 7
    ∷ ticked 10 (told_of 1 running)
    ∷ ticked 20 (told_of 2 failure)
    ∷ ticked 30 (told_of 3 running)
    ∷ subscribed 8
    ∷ halted 3 "timeout"
    ∷ unsubscribed 0
    ∷ []

active_path_lem_example :
    Follows 1 (is_active 1 told false) (active_path (operate_all told (new_inspector 2)))
    × Follows 1 (is_active 1 told false) (running_nodes (operate_all told (new_inspector 2)))
active_path_lem_example = active_path_lem 1 2 told

told-active_path : active_path (operate_all told (new_inspector 2)) ≡ 1 ∷ []
unfolding active_path operate_all unsubscribe on_node_halt without subscribe on_node_tick member
    new_inspector
told-active_path = refl

stats_for_lem_example :
    stats_for (operate_all told (new_inspector 2)) 2 ≡ summary (reported 2 told [])
stats_for_lem_example = stats_for_lem 2 2 told

told-called : (on_node_tick 40 (told_of 1 success) (operate_all told (new_inspector 2))).1 ≡ 8 ∷ []
unfolding on_node_tick operate_all unsubscribe pop on_node_halt subscribe put new_inspector
told-called = refl

abbrev text_of : Value → String
text_of v = "value"

abbrev traced : Traced
traced = record { uid = 1; name = "move"; class_name = "MoveAction" }

abbrev trace : List Durations.Operation
trace = logged 1000000 traced idle running ∷ began 0 0 ∷ ended none ∷ began 5 1 ∷ ended none ∷ []

frames_lem_example :
    ((Durations.operate_all text_of trace (new_tracer (pos 1))).frames
      ≡ newest
          (Frames.enter_all text_of trace (blank 1)).limit
          (Frames.enter_all text_of trace (blank 1)).closed)
    × (frame_count (Durations.operate_all text_of trace (new_tracer (pos 1)))
        ≡ min
            (Frames.enter_all text_of trace (blank 1)).limit
            (length (Frames.enter_all text_of trace (blank 1)).closed))
frames_lem_example = frames_lem text_of 1 trace (tt, (tt, (tt, (tt, (tt, tt)))))

-- One task is cancelled in the queue, and a second is refused, since the pool is shut down meanwhile.
abbrev pool : ThreadPool
pool = new_pool none (pos 2)

abbrev counted : ThreadPool
counted = record pool { pending_count = 1; submitting = 1 }

abbrev queued_pool : ThreadPool
queued_pool = (hand_over counted).0

abbrev emptied : ThreadPool
emptied = cancel_task 0 queued_pool

abbrev counted_again : ThreadPool
counted_again = record emptied { pending_count = 1; submitting = 1 }

abbrev closed_pool : ThreadPool
closed_pool = close_executor (mark_stopped counted_again)

counted-Run : Run pool counted 0
unfolding begin_submit new_pool
counted-Run = more here (submits {p = pool} {p' = counted} refl)

emptied-Run : Run pool emptied 0
unfolding new_pool hand_over
emptied-Run =
    more (more counted-Run (hands_over {k = 0} refl refl)) (cancels 0 (new_task, refl, refl))

closed_pool-Run : Run pool closed_pool 0
unfolding begin_submit new_pool hand_over cancel_task mark_stopped
closed_pool-Run =
    more (more (more emptied-Run (submits {p = emptied} {p' = counted_again} refl)) stops)
      (closes refl)

pool-Run : Run pool (hand_over closed_pool).0 1
unfolding new_pool hand_over cancel_task mark_stopped close_executor
pool-Run = more closed_pool-Run (is_refused {k = 0} refl refl)

pending_tasks_lem_example :
    pending_tasks (hand_over closed_pool).0
    ≡ active (hand_over closed_pool).0.tasks + (hand_over closed_pool).0.submitting + 1
pending_tasks_lem_example = pending_tasks_lem none (pos 2) pool-Run

-- Two tasks are pending until the third look.
abbrev sight : Sight
sight k = elim k [ zero ↦ (0, 2) | suc j ↦ elim j [ zero ↦ (4, 1) | suc i ↦ (9, 0) ] ]

wait_all-returns_example : (b : Bool) × (wait_all 3 sight 0 (pos 6) ≡ some b) × Explains sight b 6
wait_all-returns_example = wait_all-returns sight 0 2 (pos 6) refl (omega arith)
