-- ===== src/AsyncAction/Alive.antt =====
-- bteng/nodes/leaf/async_action.py: who works for a node that is RUNNING.
use bteng.Prelude.{ℕ, ◌≡◌, true, ◌⊎◌, Option, none, some}
use bteng.Value.{Status}
use bteng.Tick.Reactive.{mem}
use bteng.AsyncAction.{Work, AsyncAction, Workers, find_done}
use bteng.AsyncAction.Published.{status_of, HasPublished}
use bteng.AsyncAction.Steps.{System, Reach}
use bteng.AsyncAction.Served.{Served}

-- The node's run is still queued or at work.
abbrev pub IsAtWork : Option ℕ → Option ℕ → Workers → Type 0
IsAtWork (some i) thread ws = (mem i ws.queued ≡ true) ⊎ (mem i ws.started ≡ true)
IsAtWork none (some i) ws = mem i ws.threads ≡ true
IsAtWork none none ws = ⊥

-- The run has ended with the status: in the pool, or its result was published.
abbrev HasEnded : Option ℕ → Option Status → Workers → Status → Type 0
HasEnded (some i) result ws s =
    (work : Work) × (find_done i ws.done ≡ some work) × (s ≡ status_of work)
HasEnded none result ws s = result ≡ some s

-- The node's run in the pool has ended with the work, or one on a thread.
abbrev pub HasGiven : {first s : System} → Reach first s → Option ℕ → Work → Type 0
HasGiven {s = s} r (some i) work = find_done i s.workers.done ≡ some work
HasGiven r none work = HasPublished r work
