-- ===== src/AsyncAction/Published.antt =====
-- bteng/nodes/leaf/async_action.py: where the result of a node that runs on a thread comes from.
use bteng.Prelude.{
  String, ◌≡◌, refl, sym, ◌∙◌, ap, ◌⊎◌, inl, inr, Option, none, some, Bool-cases, arith,
}
use mathlib.Core.Option.{some-injective}
use bteng.Value.{
  Status, idle, running, success, failure, is_status, Value, none_value, bool, int, float, text,
  object,
}
use bteng.AsyncAction.{
  Work, value, escaped, settle, AsyncAction, Workers, settled, start, poll, tick, conclude, halt,
  reset, publish,
}
use bteng.AsyncAction.Steps.{
  System, ticked, halted, Step, tick_step, halt_step, reset_step, begin, end_pool, end_thread,
  pool_stops, inject, Reach, here, more,
}

-- The status that a run gave; what is no status, or an exception, counts as FAILURE.
abbrev pub status_of : Work → Status
status_of (value (Value.status s)) = s
status_of work = failure

pub settle-status_of : (work : Work) → (settle work).0 ≡ status_of work
unfolding settle
settle-status_of (value none_value) = refl
settle-status_of (value (bool b)) = refl
settle-status_of (value (int z)) = refl
settle-status_of (value (float z)) = refl
settle-status_of (value (text t)) = refl
settle-status_of (value (Value.status s)) = refl
settle-status_of (value (object i)) = refl
settle-status_of escaped = refl

-- The step is that of a thread of the node that ends with the work.
abbrev pub Publishes : {s s' : System} → Step s s' → Work → Type 0
Publishes (end_thread s i ended m) work = ended ≡ work
Publishes step work = ⊥

-- A thread of the node has ended with the work.
unfoldable pub HasPublished : {first s : System} → Reach first s → Work → Type 0
HasPublished here work = ⊥
HasPublished (more r step) work = Publishes step work ⊎ HasPublished r work

conclude_result : (o : Option Status) (n : AsyncAction) → (conclude o n).result ≡ n.result
unfolding conclude
conclude_result none n = refl
conclude_result (some idle) n = refl
conclude_result (some running) n = refl
conclude_result (some success) n = refl
conclude_result (some failure) n = refl

poll_result :
    (o : Option (Status × Option String)) (n : AsyncAction) → (poll o n).1.result ≡ n.result
unfolding poll
poll_result none n = refl
poll_result (some (s, f)) n = refl

start_result : (n : AsyncAction) (ws : Workers) → (start n ws).1.result ≡ none
unfolding start
start_result n ws = ground arith

-- The result of a node is gone, is the old one, or comes from a thread.
abbrev Comes : {s s' : System} → Step s s' → Option Status → Option Status → Type 0
Comes step old new =
    (new ≡ none)
    ⊎ ((new ≡ old) ⊎ ((work : Work) × Publishes step work × (new ≡ some (status_of work))))

ticked_result :
    (s : System) → ((ticked s).node.result ≡ none) ⊎ ((ticked s).node.result ≡ s.node.result)
unfolding tick
ticked_result s =
    let n = s.node in
    let ws = s.workers in
    elim (Bool-cases (is_status n.status running)) [
      | inl on ↦ rw on (
          inr (
            conclude_result (some (poll (settled n ws) n).0) (poll (settled n ws) n).1
            ∙ poll_result (settled n ws) n))
      | inr off ↦ rw off (inl (conclude_result (start n ws).0 (start n ws).1 ∙ start_result n ws))
    ]

halted_result :
    (s : System) → ((halted s).node.result ≡ none) ⊎ ((halted s).node.result ≡ s.node.result)
unfolding halt
halted_result s = elim (Bool-cases (is_status s.node.status running)) [
  | inl on ↦ rw on (inl refl)
  | inr off ↦ rw off (inr refl)
]

step-Comes : {s s' : System} (step : Step s s') → Comes step s.node.result s'.node.result
unfolding reset publish
step-Comes (tick_step s) = elim (ticked_result s) [ inl gone ↦ inl gone | inr old ↦ inr (inl old) ]
step-Comes (halt_step s) = elim (halted_result s) [ inl gone ↦ inl gone | inr old ↦ inr (inl old) ]
step-Comes (reset_step s) = inl refl
step-Comes (begin s i m) = inr (inl refl)
step-Comes (end_pool s i work m) = inr (inl refl)
step-Comes (end_thread s i work m) = inr (inr (work, refl, ap some (settle-status_of work)))
step-Comes (pool_stops s) = inr (inl refl)
step-Comes (inject s pool stopped) = inr (inl refl)

-- From a node without a result, a result is what a thread has ended with.
pub result-HasPublished :
    {first s : System} (st : Status)
    → first.node.result ≡ none
    → (r : Reach first s) → s.node.result ≡ some st
    → (work : Work) × HasPublished r work × (st ≡ status_of work)
unfolding HasPublished
result-HasPublished st fresh here e = let k : none ≡ some st = sym fresh ∙ e in absurd (cc)
result-HasPublished st fresh (more r step) e = elim (step-Comes step) [
  | inl gone ↦ let k : none ≡ some st = sym gone ∙ e in absurd (cc)
  | inr (inl old) ↦
      let (work, published, same) = result-HasPublished st fresh r (sym old ∙ e) in
      (work, inr published, same)
  | inr (inr (work, own, new)) ↦ (work, inl own, some-injective st (status_of work) (sym e ∙ new))
]
