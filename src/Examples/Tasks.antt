-- ===== src/Examples/Tasks.antt =====
-- Runs of bteng/nodes/leaf/async_action.py.
use bteng.Prelude.{◌≡◌, refl, true, false, none, []}
use bteng.Value.{idle, success, Value}
use bteng.Tick.Reactive.{mem}
use bteng.AsyncAction.{value, tick, conclude, halt, publish}
use bteng.AsyncAction.Steps.{System, ticked, halted}

abbrev fresh : System
fresh = record {
  node = record {
    status = idle;
    feedback_message = "";
    thread_pool = false;
    future = none;
    thread = none;
    result = none;
    result_feedback = none;
    cancelled = false;
  };
  workers = record {
    next = 0;
    queued = [];
    started = [];
    threads = [];
    done = [];
    stopped = false;
  };
}

abbrev after_tick : System
after_tick = ticked fresh

-- The join of the first run times out, the node is ticked again, and the first run ends: the second
-- settles on the result of the first.
abbrev restarted : System
restarted = ticked (halted after_tick)

abbrev late : System
late = record restarted { node = publish (value (Value.status success)) restarted.node }

late_result : ((ticked late).node.status ≡ success) × (mem 1 (ticked late).workers.threads ≡ true)
unfolding tick halt publish conclude mem
late_result = (refl, refl)
