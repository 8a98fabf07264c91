-- ===== src/Tracer/Durations.antt =====
-- bteng/logging/tracer.py: the durations of the transitions.
use bteng.Prelude.{
  ℕ, String, ℤ, ◌≡◌, refl, sym, ap, ◌∙◌, Option, none, some, List, [], ◌∷◌, ◌++◌, ◌==◌,
  if◌then◌else◌, Bool-cases, Option-cases, inl, inr,
}
use bteng.Prelude.Table.{find, find-put}
use bteng.Value.{Status, Value}
use bteng.Inspector.{NodeExecutionRecord}
use bteng.Tracer.{
  ExecutionTracer, TransitionEvent, TraceFrame, Traced, new_tracer, rounded, since_enter,
  log_transition, clear, begin_frame, record_node, end_frame, load_replay, reset, set_max_frames,
}

-- The operations that change a tracer. A snapshot is given as it is.
pub data Operation : Type 0 where
  logged : (now : ℕ) → Traced → (prev new : Status) → Operation
  cleared was_reset : Operation
  began : (now tick_index : ℕ) → Operation
  recorded : NodeExecutionRecord → Operation
  ended : Option (List (String × Value)) → Operation
  loaded : Option (List TraceFrame) → Operation
  resized : ℤ → Operation

module _ (text_of : Value → String) where
  unfoldable pub operate : Operation → ExecutionTracer → ExecutionTracer
  operate (logged now node prev new) t = log_transition now node prev new t
  operate cleared t = clear t
  operate was_reset t = reset t
  operate (began now tick_index) t = begin_frame now tick_index t
  operate (recorded r) t = record_node r t
  operate (ended snapshot) t = end_frame text_of snapshot t
  operate (loaded frames) t = (load_replay frames t).0
  operate (resized n) t = set_max_frames n t

  unfoldable pub operate_all : List Operation → ExecutionTracer → ExecutionTracer
  unfolding operate
  operate_all [] t = t
  operate_all (o ∷ os) t = operate_all os (operate o t)

-- The time of the latest event of a node, oldest event first.
unfoldable pub latest : ℕ → List TransitionEvent → Option ℕ → Option ℕ
latest uid [] before = before
latest uid (e ∷ es) before = latest uid es (if e.node_uid == uid then some e.timestamp else before)

latest-snoc :
    (uid : ℕ) (es : List TransitionEvent) (e : TransitionEvent) (before : Option ℕ)
    → latest uid (es ++ e ∷ []) before
      ≡ (if e.node_uid == uid then some e.timestamp else latest uid es before)
unfolding latest
latest-snoc uid [] e before = refl
latest-snoc uid (x ∷ es) e before =
    latest-snoc uid es e (if x.node_uid == uid then some x.timestamp else before)

-- The time that a node was entered is that of its latest event.
Enters : ℕ → ExecutionTracer → Type 0
Enters uid t = find uid t.enter_times ≡ latest uid t.events none

operate-Enters :
    (text_of : Value → String) (uid : ℕ) (o : Operation) (t : ExecutionTracer)
    → Enters uid t
    → Enters uid (operate text_of o t)
unfolding operate log_transition clear reset begin_frame record_node end_frame load_replay
    set_max_frames Enters find latest
operate-Enters text_of uid (logged now node prev new) t h =
    find-put node.uid uid now t.enter_times
    ∙ ap (λ o. if node.uid == uid then some now else o) h
    ∙ sym (latest-snoc uid t.events _ none)
operate-Enters text_of uid cleared t h = refl
operate-Enters text_of uid was_reset t h = refl
operate-Enters text_of uid (began now tick_index) t h = h
operate-Enters text_of uid (recorded r) t h = h
operate-Enters text_of uid (ended snapshot) t h = elim (Bool-cases t.in_frame) [
  | inr closed ↦ rw (end_frame, closed) h
  | inl open' ↦ elim (Option-cases t.current_frame) [
    | inl missing ↦ rw (end_frame, open', missing) h
    | inr (f, there) ↦ rw (end_frame, open', there) h
  ]
]
operate-Enters text_of uid (loaded none) t h = h
operate-Enters text_of uid (loaded (some frames)) t h = h
operate-Enters text_of uid (resized n) t h = h

operate_all-Enters :
    (text_of : Value → String) (uid : ℕ) (os : List Operation) (t : ExecutionTracer)
    → Enters uid t
    → Enters uid (operate_all text_of os t)
unfolding operate_all
operate_all-Enters text_of uid [] t h = h
operate_all-Enters text_of uid (o ∷ os) t h =
    operate_all-Enters text_of uid os (operate text_of o t) (operate-Enters text_of uid o t h)

-- After any operations on a new tracer, log_transition adds one event at the end, whose duration is
-- the time since the latest event of the same node that the tracer still has, rounded, or 0 if there
-- is none.
log_transition_lem :
    (text_of : Value → String) (max_frames : ℤ) (os : List Operation) (now : ℕ) (node : Traced)
    (prev new : Status)
    → (log_transition now node prev new (operate_all text_of os (new_tracer max_frames))).events
      ≡ (operate_all text_of os (new_tracer max_frames)).events
        ++ record {
          timestamp = now;
          node_name = node.name;
          node_uid = node.uid;
          node_type = node.class_name;
          prev_status = prev;
          new_status = new;
          duration_ms = rounded (
              since_enter now
                (latest node.uid (operate_all text_of os (new_tracer max_frames)).events none));
        }
          ∷ []
unfolding log_transition new_tracer Enters find latest
log_transition_lem text_of max_frames os now node prev new =
    let t = operate_all text_of os (new_tracer max_frames) in
    let e = operate_all-Enters text_of node.uid os (new_tracer max_frames) refl in
    ap
      (λ o.
        t.events
        ++ record {
          timestamp = now;
          node_name = node.name;
          node_uid = node.uid;
          node_type = node.class_name;
          prev_status = prev;
          new_status = new;
          duration_ms = rounded (since_enter now o);
        }
          ∷ [])
      e
