-- ===== src/ThreadPool.antt =====
-- bteng/concurrency/thread_pool.py: ThreadPool, its count of pending tasks and the threads around it.
-- concurrent.futures is the client of `_wrapper` and of the done callback, in the order that it
-- documents: a task that starts runs to its end, its future is resolved then, and a queued task may be
-- cancelled instead. A task is known by its place in the order of submission.
pub mod Count
pub mod Wait
use bteng.Prelude.{
  ℕ, zero, suc, ◌+◌, ◌-◌, ℤ, pos, negsuc, pos_part, is_positive, Bool, true, false, not, Option,
  none, some, List, [], ◌∷◌, ◌++◌, ◌==◌, ltb, leb, get_elem?, set, if◌then◌else◌,
}

-- A task is `returning` between the end of `_wrapper` and the resolution of its future.
pub data Phase : Type 0 where
  queued running returning resolved cancelled : Phase

-- `settled` is the cell of the closure.
pub record Task : Type 0 where
  pub phase : Phase
  pub settled : Bool

-- `submitting` counts the calls of submit that have counted their task and not handed it over yet.
pub record ThreadPool : Type 0 where
  pub num_threads : ℕ
  pub stopped : Bool
  pub pending_count : ℕ
  pub tasks : List Task
  pub submitting : ℕ
  pub executor_open : Bool

-- `os.cpu_count() or 4`, where `none` or 0 is no count.
unfoldable pub default_threads : Option ℕ → ℕ
default_threads none = 4
default_threads (some zero) = 4
default_threads (some (suc n)) = suc n

unfoldable pub new_pool : Option ℕ → ℤ → ThreadPool
unfolding default_threads
new_pool cpu_count num_threads = record {
  num_threads = if is_positive num_threads then pos_part num_threads else default_threads cpu_count;
  stopped = false;
  pending_count = 0;
  tasks = [];
  submitting = 0;
  executor_open = true;
}

-- `_settle` of one task: it counts down once.
unfoldable pub settle : ℕ → ThreadPool → ThreadPool
settle i p = elim (get_elem? p.tasks i) [
  | none ↦ p
  | some t ↦ if t.settled then p else record p {
    tasks = set p.tasks i (record t { settled = true });
    pending_count = p.pending_count - 1;
  }
]

abbrev pub with_phase : ℕ → Phase → ThreadPool → ThreadPool
with_phase i phase p = elim (get_elem? p.tasks i) [
  | none ↦ p
  | some t ↦ record p { tasks = set p.tasks i (record t { phase = phase }) }
]

-- submit up to the call of the executor; `none` where it raises RuntimeError.
unfoldable pub begin_submit : ThreadPool → Option ThreadPool
begin_submit p =
    if p.stopped
    then none
    else some (record p { pending_count = p.pending_count + 1; submitting = p.submitting + 1 })

abbrev pub new_task : Task
new_task = record { phase = queued; settled = false }

-- The rest of submit. `executor.submit` raises if the executor was shut down meanwhile.
unfoldable pub hand_over : ThreadPool → ThreadPool × Bool
hand_over p =
    if p.executor_open
    then (record p { tasks = p.tasks ++ new_task ∷ []; submitting = p.submitting - 1 }, true)
    else (record p { submitting = p.submitting - 1 }, false)

-- `_wrapper` starts, and its `finally` when the function returns or raises.
unfoldable pub start_task : ℕ → ThreadPool → ThreadPool
start_task i p = with_phase i running p

unfoldable pub finish_task : ℕ → ThreadPool → ThreadPool
unfolding settle
finish_task i p = settle i (with_phase i returning p)

-- The done callback, behind `_wrapper` or when a queued future is cancelled.
unfoldable pub resolve_task : ℕ → ThreadPool → ThreadPool
unfolding settle
resolve_task i p = settle i (with_phase i resolved p)

unfoldable pub cancel_task : ℕ → ThreadPool → ThreadPool
unfolding settle
cancel_task i p = settle i (with_phase i cancelled p)

unfoldable pub pending_tasks : ThreadPool → ℕ
pending_tasks p = p.pending_count

-- shutdown, whose second line shuts the executor down
unfoldable pub mark_stopped : ThreadPool → ThreadPool
mark_stopped p = record p { stopped = true }

unfoldable pub close_executor : ThreadPool → ThreadPool
close_executor p = record p { executor_open = false }

-- What the loop of wait_all sees when it looks for the k-th time: the clock, and the pending tasks.
abbrev pub Sight : Type 0
Sight = ℕ → ℕ × ℕ

-- The loop; `none` means that the fuel ran out.
unfoldable pub wait_loop : ℕ → Sight → ℕ → ℕ → Option Bool
wait_loop zero sight deadline k = none
wait_loop (suc fuel) sight deadline k =
    let (now, pending) = sight k in
    let later = wait_loop fuel sight deadline (k + 1) in
    if pending == 0 then some true else if leb deadline now then some false else later

-- wait_all, with the reading of the clock from which the deadline counts.
unfoldable pub wait_all : ℕ → Sight → ℕ → ℤ → Option Bool
unfolding wait_loop
wait_all fuel sight start timeout =
    if is_positive timeout
    then wait_loop fuel sight (start + pos_part timeout) 0
    else some ((sight 0).1 == 0)
