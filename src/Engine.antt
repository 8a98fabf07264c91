-- ===== src/Engine.antt =====
-- bteng/core/engine.py: BehaviorTreeEngine, but for the tracer and from_xml. The sleeps change
-- nothing. bteng/concurrency/cancellation_token.py: CancellationToken.
pub mod Run
use bteng.Prelude.{ℕ, zero, suc, ◌+◌, Bool, true, false, Option, none, some, leb, if◌then◌else◌}
use bteng.Value.{running}
use bteng.Node.{Node, Base, NodeConfig}
use bteng.World.{World, Host}
use bteng.Lifecycle.{halt}
use bteng.Tick.{Outcome, returned, raised, Ticked}
use bteng.Execute.{execute_tick}
use bteng.Executor.{map_bases}

pub record Engine : Type 0 where
  pub root : Node
  pub blackboard : ℕ
  pub tick_count : ℕ

-- `if node._config.blackboard is None: node._config.blackboard = blackboard`
unfoldable pub fill_blackboard : ℕ → Base → Base
fill_blackboard id b = elim b.config.blackboard [
  | none ↦ record b { config = record b.config { blackboard = some id } }
  | some own ↦ b
]

-- The constructor, with _inject_blackboard.
unfoldable pub create : Node → ℕ → Engine
unfolding map_bases fill_blackboard
create root id = record {
  root = map_bases (fill_blackboard id) root;
  blackboard = id;
  tick_count = 0;
}

pub record Ran : Type 0 where
  pub outcome : Outcome
  pub engine : Engine
  pub world : World

module _ (host : Host) where
  unfoldable pub tick_once : Engine → World → Ran
  tick_once e w =
      let t = execute_tick host e.root w in
      record {
        outcome = t.outcome;
        engine = record e { root = t.node; tick_count = e.tick_count + 1 };
        world = t.world;
      }

  -- `max_ticks is not None and count >= max_ticks`
  unfoldable pub limit_reached : Option ℕ → ℕ → Bool
  limit_reached none count = false
  limit_reached (some max_ticks) count = leb max_ticks count

  -- How the loop goes on behind a tick, with the rest of the loop.
  unfoldable pub after_round : Outcome → Bool → Ran → Option Ran → Option Ran
  after_round (returned running) limit r more = if limit then some r else more
  after_round o limit r more = some r

  -- The loop of run_until_complete; `none` means that the fuel ran out.
  unfoldable pub run_loop : ℕ → Option ℕ → ℕ → Engine → World → Option Ran
  unfolding tick_once limit_reached after_round
  run_loop zero max_ticks count e w = none
  run_loop (suc fuel) max_ticks count e w =
      let r = tick_once e w in
      let more = run_loop fuel max_ticks (count + 1) r.engine r.world in
      after_round r.outcome (limit_reached max_ticks (count + 1)) r more

  unfoldable pub run_until_complete : ℕ → Option ℕ → Engine → World → Option Ran
  unfolding run_loop
  run_until_complete fuel max_ticks e w = run_loop fuel max_ticks 0 e w

  unfoldable pub halt_engine : Engine → World → Engine × World
  halt_engine e w = let (root', w') = halt host e.root w in (record e { root = root' }, w')

-- CancellationToken: its event.
pub record CancellationToken : Type 0 where
  pub event : Bool

unfoldable pub new_token : CancellationToken
new_token = record { event = false }

unfoldable pub cancel : CancellationToken → CancellationToken
cancel t = record { event = true }

unfoldable pub reset_token : CancellationToken → CancellationToken
reset_token t = record { event = false }

unfoldable pub is_cancelled : CancellationToken → Bool
is_cancelled t = t.event
