-- ===== src/Tracer/Frames.antt =====
-- bteng/logging/tracer.py: the bounded frames against a ledger without a bound.
use mathlib.Core.Option
use bteng.Prelude.{
  ℕ, ◌≡◌, refl, sym, ap, ◌∙◌, String, pos, negsuc, true, false, Option, none, some, List, [], ◌∷◌,
  ◌++◌, All, length, min, is_some, map, if◌then◌else◌, Option-cases, inl, inr,
}
use bteng.Prelude.Buffer.{newest, push, push-newest, newest-nil, length-newest}
use bteng.Value.{Value}
use bteng.Inspector.{NodeExecutionRecord}
use bteng.Tracer.{
  ExecutionTracer, TraceFrame, new_tracer, with_record, log_transition, clear, begin_frame,
  record_node, with_snapshot, exceeds, end_frame, frame_count, trim, load_replay, reset,
  set_max_frames,
}
use bteng.Tracer.Durations.{
  Operation, logged, cleared, was_reset, began, recorded, ended, loaded, resized, operate,
  operate_all,
}

-- All frames that were closed or loaded, oldest first, the open one, and the bound that was set last.
-- Another bound drops what the old one had evicted.
pub record Ledger : Type 0 where
  pub closed : List TraceFrame
  pub open_frame : Option TraceFrame
  pub limit : ℕ

-- Only bounds that are no negative numbers.
abbrev pub IsNatural : Operation → Type 0
IsNatural (resized z) = (n : ℕ) × (z ≡ pos n)
IsNatural _ = Unit

module _ (text_of : Value → String) where
  -- The texts of a snapshot, if there are any, join the frame.
  abbrev pub stamped : Option (List (String × Value)) → TraceFrame → TraceFrame
  stamped none f = f
  stamped (some []) f = f
  stamped (some (e ∷ es)) f = record f {
    blackboard_snapshot = map (λ x. (x.0, text_of x.1)) (e ∷ es);
  }

  unfoldable pub close :
      Option (List (String × Value)) → Option TraceFrame → List TraceFrame → List TraceFrame
  close snapshot none closed = closed
  close snapshot (some f) closed = closed ++ stamped snapshot f ∷ []

  unfoldable pub enter : Operation → Ledger → Ledger
  unfolding close
  enter (began now tick_index) l = record l {
    open_frame = some (record {
      tick_index = tick_index;
      timestamp = now;
      node_records = [];
      blackboard_snapshot = [];
    });
  }
  enter (recorded r) l = record l {
    open_frame =
        Option.map {A = TraceFrame} (λ f. record f { node_records = f.node_records ++ r ∷ [] })
          l.open_frame;
  }
  enter (ended snapshot) l = record l {
    closed = close snapshot l.open_frame l.closed;
    open_frame = none;
  }
  enter (loaded (some frames)) l = record l { closed = frames }
  enter was_reset l = record l { closed = []; open_frame = none }
  enter (resized (pos n)) l = record l { closed = newest l.limit l.closed; limit = n }
  enter _ l = l

  unfoldable pub enter_all : List Operation → Ledger → Ledger
  unfolding enter
  enter_all [] l = l
  enter_all (o ∷ os) l = enter_all os (enter o l)

-- The frames are the newest of the ledger, and a frame is open in both or in neither.
record Keeps (t : ExecutionTracer) (l : Ledger) : Type 0 where
  kept : t.frames ≡ newest l.limit l.closed
  current : t.current_frame ≡ l.open_frame
  inside : t.in_frame ≡ is_some l.open_frame
  bound : t.max_frames ≡ pos l.limit

-- A record joins the open frame, behind the others.
abbrev joined : NodeExecutionRecord → Option TraceFrame → Option TraceFrame
joined r o =
    Option.map {A = TraceFrame} (λ f. record f { node_records = f.node_records ++ r ∷ [] }) o

is_some-joined :
    (r : NodeExecutionRecord) (o : Option TraceFrame) → is_some o ≡ is_some (joined r o)
is_some-joined r none = refl
is_some-joined r (some f) = refl

recorded_lem :
    (r : NodeExecutionRecord) (o : Option TraceFrame)
    → (if is_some o then with_record r o else o) ≡ joined r o
unfolding with_record
recorded_lem r none = refl
recorded_lem r (some f) = refl

module _ (text_of : Value → String) where
  with_snapshot-stamped :
      (s : Option (List (String × Value))) (f : TraceFrame)
      → with_snapshot text_of s f ≡ stamped text_of s f
  unfolding with_snapshot
  with_snapshot-stamped none f = refl
  with_snapshot-stamped (some []) f = refl
  with_snapshot-stamped (some (e ∷ es)) f = refl

  end_frame-Keeps :
      (s : Option (List (String × Value))) (t : ExecutionTracer) (l : Ledger)
      → Keeps t l
      → Keeps (end_frame text_of s t) (enter text_of (ended s) l)
  unfolding enter close end_frame exceeds push
  end_frame-Keeps s t l h = elim (Option-cases l.open_frame) [
    | inl absent ↦
        let shut : t.in_frame ≡ false = h.inside ∙ ap is_some absent in
        record {
          kept = rw (end_frame, shut, absent) h.kept;
          current = rw (end_frame, shut) (h.current ∙ absent);
          inside = rw (end_frame, shut) refl;
          bound = rw (end_frame, shut) h.bound;
        }
    | inr (f, there) ↦
        let opened : t.in_frame ≡ true = h.inside ∙ ap is_some there in
        let now : t.current_frame ≡ some f = h.current ∙ there in
        record {
          kept =
              rw (end_frame, opened, now, there)
                (rw (h.kept, h.bound, with_snapshot-stamped s f)
                  (push-newest l.limit l.closed (stamped text_of s f)));
          current = rw (end_frame, opened, now) refl;
          inside = rw (end_frame, opened, now) refl;
          bound = rw (end_frame, opened, now) h.bound;
        }
  ]

  operate-Keeps :
      (o : Operation) (t : ExecutionTracer) (l : Ledger)
      → IsNatural o
      → Keeps t l
      → Keeps (operate text_of o t) (enter text_of o l)
  unfolding operate enter log_transition clear reset begin_frame record_node load_replay
      set_max_frames trim
  operate-Keeps (logged now node prev new) t l k h = record {
    kept = h.kept;
    current = h.current;
    inside = h.inside;
    bound = h.bound;
  }
  operate-Keeps cleared t l k h = record {
    kept = h.kept;
    current = h.current;
    inside = h.inside;
    bound = h.bound;
  }
  operate-Keeps was_reset t l k h = record {
    kept = sym (newest-nil l.limit);
    current = refl;
    inside = refl;
    bound = h.bound;
  }
  operate-Keeps (began now tick_index) t l k h = record {
    kept = h.kept;
    current = refl;
    inside = refl;
    bound = h.bound;
  }
  operate-Keeps (recorded r) t l k h = record {
    kept = h.kept;
    current = rw (h.inside, h.current) (recorded_lem r l.open_frame);
    inside = h.inside ∙ is_some-joined r l.open_frame;
    bound = h.bound;
  }
  operate-Keeps (ended s) t l k h = end_frame-Keeps s t l h
  operate-Keeps (loaded none) t l k h = h
  operate-Keeps (loaded (some frames)) t l k h = record {
    kept = rw h.bound refl;
    current = h.current;
    inside = h.inside;
    bound = h.bound;
  }
  operate-Keeps (resized (pos n)) t l k h = record {
    kept = ap (newest n) h.kept;
    current = h.current;
    inside = h.inside;
    bound = refl;
  }
  operate-Keeps (resized (negsuc n)) t l (m, e) h = cc

  operate_all-Keeps :
      (os : List Operation) (t : ExecutionTracer) (l : Ledger)
      → All IsNatural os
      → Keeps t l
      → Keeps (operate_all text_of os t) (enter_all text_of os l)
  unfolding operate_all enter_all
  operate_all-Keeps [] t l k h = h
  operate_all-Keeps (o ∷ os) t l k h =
      operate_all-Keeps os (operate text_of o t) (enter text_of o l) k.1 (operate-Keeps o t l k.0 h)

abbrev pub blank : ℕ → Ledger
blank limit = record { closed = []; open_frame = none; limit = limit }

-- After any operations on a new tracer whose bounds are never negative, its frames are the newest, up
-- to the bound, out of a ledger that keeps all: a frame holds what was recorded between its beginning
-- and its end and is dropped if another begins first, what is recorded outside a frame is lost, and a
-- replay that cannot be read changes nothing. So `frame_count` is never more than the bound.
pub frames_lem :
    (text_of : Value → String) (limit : ℕ) (os : List Operation)
    → All IsNatural os
    → ((operate_all text_of os (new_tracer (pos limit))).frames
        ≡ newest
            (enter_all text_of os (blank limit)).limit
            (enter_all text_of os (blank limit)).closed)
      × (frame_count (operate_all text_of os (new_tracer (pos limit)))
          ≡ min
              (enter_all text_of os (blank limit)).limit
              (length (enter_all text_of os (blank limit)).closed))
unfolding new_tracer frame_count
frames_lem text_of limit os k =
    let l = enter_all text_of os (blank limit) in
    let h =
      (operate_all-Keeps text_of os (new_tracer (pos limit)) (blank limit) k (record {
        kept = sym (newest-nil limit);
        current = refl;
        inside = refl;
        bound = refl;
      })).kept in
    (h, ap length h ∙ length-newest l.limit l.closed)
