-- ===== src/Inspector/Operations.antt =====
-- bteng/introspection/inspector.py: the operations that change an inspector, in any order.
use bteng.Prelude.{ℕ, String, List, [], ◌∷◌}
use bteng.Inspector.{
  Inspector, Report, ExplainEntry, on_node_tick, on_node_halt, add_explanation, subscribe,
  unsubscribe, reset, set_max_history,
}

pub data Operation : Type 0 where
  ticked : (now : ℕ) → Report → Operation
  halted : (uid : ℕ) (reason : String) → Operation
  explained : ExplainEntry → Operation
  subscribed : (callback : ℕ) → Operation
  unsubscribed : (id : ℕ) → Operation
  was_reset : Operation
  resized : ℕ → Operation

unfoldable pub operate : Operation → Inspector → Inspector
operate (ticked now r) i = (on_node_tick now r i).0
operate (halted uid reason) i = on_node_halt uid reason i
operate (explained e) i = add_explanation e i
operate (subscribed callback) i = (subscribe callback i).0
operate (unsubscribed id) i = unsubscribe id i
operate was_reset i = reset i
operate (resized n) i = set_max_history n i

unfoldable pub operate_all : List Operation → Inspector → Inspector
unfolding operate
operate_all [] i = i
operate_all (o ∷ os) i = operate_all os (operate o i)
