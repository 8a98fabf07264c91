-- ===== src/Examples/Coroutines.antt =====
-- Runs of bteng/nodes/leaf/coro_action.py, on a loop of the host.
use bteng.Prelude.{ℕ, Bool, ◌≡◌, refl, true, false, none, some}
use bteng.Value.{idle, failure}
use bteng.Bridge.{
  new_holder, new_bridge, submit, discard, update, is_alive, task_done, run_task, cancel_task,
  get_default_bridge,
}
use bteng.Coro.{tick, conclude, halt, cancel_future}
use bteng.Coro.Events.{is_live}
use bteng.Coro.Steps.{System, ticked}
use bteng.Coro.Honest.{can_run}

abbrev fresh : System
fresh = record {
  node = record {
    status = idle;
    feedback_message = "";
    pinned = some 0;
    bridge = some 0;
    future = none;
    orphan = none;
    token_cancelled = false;
  };
  loops = record {
    holders = λ j. record (new_holder 0) { cancelled = true };
    next_holder = 0;
    bridges = λ i. new_bridge false;
    next_bridge = 1;
    default_bridge = none;
  };
}

abbrev begun : System
begun = ticked fresh

abbrev at_work : System
at_work = record begun { loops = run_task 0 begun.loops }

abbrev asked : System
asked = record at_work { loops = cancel_future at_work.node.future at_work.loops }

abbrev halted : System
halted = record asked { node = halt asked.node asked.loops }

abbrev refused : System
refused = ticked halted

-- The copy that the halt left behind still unwinds.
abbrev copy : ℕ
copy = 0

refused_status : refused.node.status ≡ failure
unfolding tick halt conclude is_alive new_bridge submit cancel_future cancel_task run_task task_done
refused_status = refl

abbrev set_running : Bool → System → System
set_running on s = record s {
  loops = record s.loops { bridges = λ i. record (new_bridge false) { loop_running = on } };
}

-- The host stops its loop, the node is ticked, and the host runs the loop again: the coroutine goes
-- on, and the next tick starts a second one.
abbrev doubled : System
doubled = ticked (set_running true (ticked (set_running false at_work)))

two_copies : (is_live doubled.loops 0 ≡ true) × (is_live doubled.loops 1 ≡ true)
unfolding is_live tick task_done conclude is_alive new_bridge submit run_task discard
two_copies = (refl, refl)

-- The attached default bridge is shut down while the coroutine of a node that is not pinned is at work
-- on its loop, which goes on. The node is ticked, gets another default bridge, and is ticked again.
abbrev shut : System
shut = record {
  node = record at_work.node { pinned = none };
  loops = record at_work.loops {
    bridges = update at_work.loops.bridges 0 (record (new_bridge false) { stopped = true });
    default_bridge = none;
  };
}

abbrev left_behind : System
left_behind = ticked (ticked shut)

left_running : (can_run left_behind.loops 0 ≡ true) × (can_run left_behind.loops 1 ≡ true)
unfolding can_run tick task_done conclude is_alive new_bridge submit run_task discard
    get_default_bridge
left_running = (refl, refl)

-- The loop dies with an orphan on it, and a node that is not pinned could go on with the default
-- bridge: its ticks fail all the same.
abbrev unpinned : System
unpinned = record {
  node = record halted.node { pinned = none };
  loops = record halted.loops {
    bridges = update halted.loops.bridges 0 (record (new_bridge true) { loop_running = false });
    default_bridge = some 1;
  };
}

abbrev stranded : System
stranded = ticked (ticked unpinned)

stranded_status : (stranded.node.status ≡ failure) × (stranded.node.orphan ≡ some copy)
unfolding tick halt task_done conclude is_alive new_bridge submit cancel_future cancel_task run_task
stranded_status = (refl, refl)
