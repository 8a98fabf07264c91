-- ===== src/AsyncAction.antt =====
-- bteng/nodes/leaf/async_action.py: AsyncActionNode and the workers that run execute_async. A run is
-- known by a number. The pool may begin any queued run; what a feedback message quotes is left out.
-- The join of a halted run may time out: then its worker goes on.
pub mod Steps
pub mod Published
pub mod Served
pub mod Alive
use bteng.Prelude.{
  ℕ, ◌+◌, String, Bool, true, false, Option, none, some, List, [], ◌∷◌, ◌==◌, if◌then◌else◌,
  or_else,
}
use bteng.Value.{Status, idle, running, success, failure, is_status, Value}
use bteng.Tick.Reactive.{mem}
use bteng.Executor.{discard}

-- What execute_async gave: a value, or an exception that escaped.
pub data Work : Type 0 where
  value : Value → Work
  escaped : Work

pub record AsyncAction : Type 0 where
  pub status : Status
  pub feedback_message : String
  pub thread_pool : Bool
  pub future : Option ℕ
  pub thread : Option ℕ
  pub result : Option Status
  pub result_feedback : Option String
  pub cancelled : Bool

-- The runs: queued and started in the pool, on threads of their own, and ended in the pool; and whether the
-- pool was stopped.
pub record Workers : Type 0 where
  pub next : ℕ
  pub queued : List ℕ
  pub started : List ℕ
  pub threads : List ℕ
  pub done : List (ℕ × Work)
  pub stopped : Bool

unfoldable pub find_done : ℕ → List (ℕ × Work) → Option Work
find_done i [] = none
find_done i ((j, work) ∷ rest) = let older = find_done i rest in if j == i then some work else older

-- _settle_result, _settle_exception: the status, and the feedback message if there is one.
unfoldable pub settle : Work → Status × Option String
settle (value (Value.status s)) = (s, none)
settle (value v) = (failure, some "execute_async() returned no NodeStatus")
settle escaped = (failure, some "execute_async() raised")

-- What a RUNNING node settles on: its future's result, or what its thread has published.
unfoldable pub settled_by :
    Option ℕ → Option Status → Option String → List (ℕ × Work) → Option (Status × Option String)
unfolding find_done settle
settled_by (some i) result feedback done = elim (find_done i done) [
  | none ↦ none
  | some work ↦ some (settle work)
]
settled_by none none feedback done = none
settled_by none (some s) feedback done = some (s, feedback)

unfoldable pub settled : AsyncAction → Workers → Option (Status × Option String)
unfolding settled_by
settled n ws = settled_by n.future n.result n.result_feedback ws.done

abbrev pub cleared : AsyncAction → AsyncAction
cleared n = record n { result = none; result_feedback = none; cancelled = false }

-- The branch of `tick` that starts fresh, with no status where `submit` raises RuntimeError.
unfoldable pub start : AsyncAction → Workers → Option Status × AsyncAction × Workers
start n ws =
    if n.thread_pool
    then if ws.stopped then (none, cleared n, ws) else (
      some running,
      record (cleared n) { future = some ws.next; thread = none },
      record ws { next = ws.next + 1; queued = ws.next ∷ ws.queued },
    )
    else (
      some running,
      record (cleared n) { future = none; thread = some ws.next },
      record ws { next = ws.next + 1; threads = ws.next ∷ ws.threads },
    )

-- The branch that checks for completion.
unfoldable pub poll : Option (Status × Option String) → AsyncAction → Status × AsyncAction
poll none n = (running, n)
poll (some (s, feedback)) n =
    (s, record n { feedback_message = or_else feedback n.feedback_message })

unfoldable pub tick : AsyncAction → Workers → Option Status × AsyncAction × Workers
unfolding settled start poll
tick n ws =
    let (s, polled) = poll (settled n ws) n in
    if is_status n.status running then (some s, polled, ws) else start n ws

-- What execute_tick does with the status: it raises TypeError for IDLE, and lets an exception through.
unfoldable pub conclude : Option Status → AsyncAction → AsyncAction
conclude none n = n
conclude (some idle) n = n
conclude (some s) n = record n { status = s }

-- `self._future.cancel()`, which withdraws a run that is still queued.
unfoldable pub withdraw : Option ℕ → Workers → Workers
withdraw none ws = ws
withdraw (some i) ws = record ws { queued = discard i ws.queued }

-- _on_halt, behind its joins
unfoldable pub on_halt : AsyncAction → Workers → AsyncAction × Workers
unfolding withdraw
on_halt n ws = (
  record n {
    future = none;
    thread = none;
    result = none;
    result_feedback = none;
    cancelled = true;
  },
  withdraw n.future ws,
)

-- TreeNode.halt
unfoldable pub halt : AsyncAction → Workers → AsyncAction × Workers
unfolding on_halt
halt n ws =
    let (n', ws') = on_halt n ws in
    if is_status n.status running
    then (record n' { status = idle }, ws')
    else (record n { status = idle }, ws)

-- TreeNode.reset_node, which calls _on_halt whatever the status is.
unfoldable pub reset : AsyncAction → Workers → AsyncAction × Workers
unfolding on_halt
reset n ws =
    let (n', ws') = on_halt n ws in (record n' { status = idle; feedback_message = "" }, ws')

-- The end of _thread_body: the message is published alongside the status.
unfoldable pub publish : Work → AsyncAction → AsyncAction
unfolding settle
publish work n =
    let (s, feedback) = settle work in record n { result = some s; result_feedback = feedback }
