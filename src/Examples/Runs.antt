-- ===== src/Examples/Runs.antt =====
-- Runs of bteng/core/executor.py and bteng/core/engine.py.
use Prim.Native.Nat.{max}
use bteng.Prelude.{
  ℕ, is_some, none, pos, ◌+◌, ◌≤◌, ◌≡◌, refl, true, false, some, List, [], ◌∷◌, ◌++◌, arith,
}
use bteng.Value.{failure}
use bteng.Engine.{Engine, Ran as EngineRan, run_until_complete}
use bteng.Engine.Run.{run_until_complete-returns}
use bteng.Executor.{Executor, Ran as ExecutorRan, Hook, Lifecycle, setup_nodes, do_tick}
use bteng.Executor.Loop.{tick_until_result, loop_round, start_event_loop}
use bteng.Executor.Run.{Raises, tick_until_result-returns, loop_round-stuck}
use bteng.Executor.Setup.{setups, IsDistinct, IsSetUp, setup_nodes-once}
use bteng.Tick.Reactive.{mem}
use bteng.Tick.Leaves.{tick_leaf}
use bteng.Execute.{execute_tick}
use bteng.Node.{with_base}
use bteng.Lifecycle.{halt}
use bteng.World.{run_client}
use bteng.Tree.{replace_node, Tree, tick_once}
use bteng.Tree.Search.{find_node}
use bteng.Examples.{bad, host, world, again, crash, tree, executor}

tick_until_result-returns_example :
    (r : ExecutorRan) × (tick_until_result host 5 4 executor world ≡ some r)
    × (r.executor.tick_count ≤ executor.tick_count + 4)
tick_until_result-returns_example =
    tick_until_result-returns host 4 5 executor world (omega arith) (omega arith)

abbrev engine : Engine
engine = record { root = again; blackboard = 0; tick_count = 0 }

run_until_complete-returns_example :
    (r : EngineRan) × (run_until_complete host 3 (some 0) engine world ≡ some r)
    × (r.engine.tick_count ≤ engine.tick_count + max 0 1)
run_until_complete-returns_example = run_until_complete-returns host 0 3 engine world (omega arith)

abbrev before : Lifecycle
before = record { uids = 2 ∷ []; hooks = Hook.setup 2 ∷ [] }

before-IsDistinct : IsDistinct before.uids
unfolding mem
before-IsDistinct = (refl, tt)

setup_nodes-once_example :
    ((new : List ℕ) × ((setup_nodes again before).uids ≡ new ++ before.uids)
      × ((setup_nodes again before).hooks ≡ setups new ++ before.hooks))
    × IsDistinct (setup_nodes again before).uids
    × IsSetUp (setup_nodes again before).uids again
    × (setup_nodes again (setup_nodes again before) ≡ setup_nodes again before)
setup_nodes-once_example = setup_nodes-once again before before-IsDistinct

abbrev broken : Tree
broken = record tree { root = crash }

abbrev looping : Executor
looping = record executor { tree = some broken; loop_running = true }

looping-Raises : Raises (do_tick host looping broken world).outcome
unfolding do_tick tick_once execute_tick tick_leaf run_client
looping-Raises = tt

loop_round-stuck_example :
    ((loop_round host looping world).2 ≡ false)
    × ((loop_round host looping world).0.final_status ≡ some failure)
    × (start_event_loop host (loop_round host looping world).0 ≡ (loop_round host looping world).0)
loop_round-stuck_example = loop_round-stuck host looping broken world refl refl refl looping-Raises

abbrev changed : Tree
changed = record tree {
  pending_mods =
      record { type = replace_node; target_uid = some 5; child_index = pos 0; new_node = some bad }
      ∷ [];
}

abbrev first_tick : ExecutorRan
first_tick = do_tick host executor changed world

-- A modification that was queued before the first tick: its node is in the tree, and not set up.
late_setup :
    (is_some (elim first_tick.executor.tree [ none ↦ none | some t ↦ find_node 6 t.root ]) ≡ true)
    × (mem 6 first_tick.executor.setup_uids ≡ false)
unfolding do_tick tick_once execute_tick tick_leaf find_node mem with_base halt
late_setup = (refl, refl)
