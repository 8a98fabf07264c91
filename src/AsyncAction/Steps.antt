-- ===== src/AsyncAction/Steps.antt =====
-- bteng/nodes/leaf/async_action.py: the interleavings of a node's ticks and halts with its workers.
use bteng.Prelude.{ℕ, ◌≡◌, Bool, true, ◌∷◌}
use bteng.Tick.Reactive.{mem}
use bteng.Executor.{discard}
use bteng.AsyncAction.{Work, AsyncAction, Workers, tick, conclude, halt, reset, publish}

pub record System : Type 0 where
  pub node : AsyncAction
  pub workers : Workers

-- execute_tick, and halt
abbrev pub ticked : System → System
ticked s =
    let (status, node, workers) = tick s.node s.workers in
    record { node = conclude status node; workers = workers }

abbrev pub halted : System → System
halted s = let (node, workers) = halt s.node s.workers in record { node = node; workers = workers }

abbrev pub after_reset : System → System
after_reset s =
    let (node, workers) = reset s.node s.workers in record { node = node; workers = workers }

-- A step of the tick thread, of a worker, or of the host, which stops the pool, or
-- injects a pool, stopped or not, or takes it away.
pub data Step : System → System → Type 0 where
  tick_step : (s : System) → Step s (ticked s)
  halt_step : (s : System) → Step s (halted s)
  reset_step : (s : System) → Step s (after_reset s)
  begin :
      (s : System) (i : ℕ)
      → mem i s.workers.queued ≡ true
      → Step s (record s {
        workers = record s.workers {
          queued = discard i s.workers.queued;
          started = i ∷ s.workers.started;
        };
      })
  end_pool :
      (s : System) (i : ℕ) (work : Work)
      → mem i s.workers.started ≡ true
      → Step s (record s {
        workers = record s.workers {
          started = discard i s.workers.started;
          done = (i, work) ∷ s.workers.done;
        };
      })
  end_thread :
      (s : System) (i : ℕ) (work : Work)
      → mem i s.workers.threads ≡ true
      → Step s (record {
        node = publish work s.node;
        workers = record s.workers { threads = discard i s.workers.threads };
      })
  pool_stops : (s : System) → Step s (record s { workers = record s.workers { stopped = true } })
  inject :
      (s : System) (pool stopped : Bool)
      → Step s (record {
        node = record s.node { thread_pool = pool };
        workers = record s.workers { stopped = stopped };
      })

pub data Reach (first : System) : System → Type 0 where
  here : Reach first first
  more : {s s' : System} → Reach first s → Step s s' → Reach first s'
