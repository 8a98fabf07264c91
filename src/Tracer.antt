-- ===== src/Tracer.antt =====
-- bteng/logging/tracer.py: ExecutionTracer, its list of transitions and its frames. Times are in
-- nanoseconds, and `now` is the reading of the clock. The exports and print_summary only write text.
pub mod Frames
pub mod Durations
use bteng.Prelude.{
  ℕ, zero, suc, ◌+◌, ◌-◌, ◌*◌, ◌/◌, String, ℤ, pos, negsuc, Bool, true, false, Option, none, some,
  List, [], ◌∷◌, ◌++◌, map, length, drop, ltb, ◌==◌, get_elem?, if◌then◌else◌,
}
use bteng.Prelude.Buffer.{popleft, newest}
use bteng.Prelude.Table.{find, put}
use bteng.Value.{Status, Value}
use bteng.Inspector.{NodeExecutionRecord}

pub record TransitionEvent : Type 0 where
  pub timestamp : ℕ
  pub node_name : String
  pub node_uid : ℕ
  pub node_type : String
  pub prev_status : Status
  pub new_status : Status
  pub duration_ms : ℕ

pub record TraceFrame : Type 0 where
  pub tick_index : ℕ
  pub timestamp : ℕ
  pub node_records : List NodeExecutionRecord
  pub blackboard_snapshot : List (String × String)

pub record ExecutionTracer : Type 0 where
  pub events : List TransitionEvent
  pub enter_times : List (ℕ × ℕ)
  pub frames : List TraceFrame
  pub current_frame : Option TraceFrame
  pub in_frame : Bool
  pub max_frames : ℤ

unfoldable pub new_tracer : ℤ → ExecutionTracer
new_tracer max_frames = record {
  events = [];
  enter_times = [];
  frames = [];
  current_frame = none;
  in_frame = false;
  max_frames = max_frames;
}

-- The node of a transition.
pub record Traced : Type 0 where
  pub uid : ℕ
  pub name : String
  pub class_name : String

-- round(ms, 3) of nanoseconds, in microseconds, a tie to the even one
unfoldable pub rounded : ℕ → ℕ
rounded n =
    let q = n / 1000 in
    let r = n - q * 1000 in
    if ltb r 500 then q else if ltb 500 r then q + 1 else if q - (q / 2) * 2 == 0 then q else q + 1

unfoldable pub since_enter : ℕ → Option ℕ → ℕ
since_enter now none = 0
since_enter now (some entered) = now - entered

unfoldable pub log_transition : ℕ → Traced → Status → Status → ExecutionTracer → ExecutionTracer
unfolding rounded since_enter
log_transition now node prev_status new_status t = record t {
  enter_times = put node.uid now t.enter_times;
  events =
      t.events
      ++ record {
        timestamp = now;
        node_name = node.name;
        node_uid = node.uid;
        node_type = node.class_name;
        prev_status = prev_status;
        new_status = new_status;
        duration_ms = rounded (since_enter now (find node.uid t.enter_times));
      }
        ∷ [];
}

unfoldable pub clear : ExecutionTracer → ExecutionTracer
clear t = record t { events = []; enter_times = [] }

-- A frame that is open is replaced.
unfoldable pub begin_frame : ℕ → ℕ → ExecutionTracer → ExecutionTracer
begin_frame now tick_index t = record t {
  current_frame = some (record {
    tick_index = tick_index;
    timestamp = now;
    node_records = [];
    blackboard_snapshot = [];
  });
  in_frame = true;
}

unfoldable pub with_record : NodeExecutionRecord → Option TraceFrame → Option TraceFrame
with_record r none = none
with_record r (some f) = some (record f { node_records = f.node_records ++ r ∷ [] })

unfoldable pub record_node : NodeExecutionRecord → ExecutionTracer → ExecutionTracer
unfolding with_record
record_node r t = record t {
  current_frame = if t.in_frame then with_record r t.current_frame else t.current_frame;
}

-- `len(frames) > max_frames`
unfoldable pub exceeds : ℕ → ℤ → Bool
exceeds n (pos m) = ltb m n
exceeds n (negsuc m) = true

module _ (text_of : Value → String) where
  -- `str(v)` of the values in the snapshot, if there is one with entries.
  unfoldable pub with_snapshot : Option (List (String × Value)) → TraceFrame → TraceFrame
  with_snapshot none f = f
  with_snapshot (some []) f = f
  with_snapshot (some (e ∷ es)) f = record f {
    blackboard_snapshot = map (λ x. (x.0, text_of x.1)) (e ∷ es);
  }

  unfoldable pub end_frame : Option (List (String × Value)) → ExecutionTracer → ExecutionTracer
  unfolding with_snapshot exceeds
  end_frame bb_snapshot t =
      if t.in_frame
      then elim t.current_frame [
        | none ↦ t
        | some f ↦
            let frames = t.frames ++ with_snapshot bb_snapshot f ∷ [] in
            record t {
              frames = if exceeds (length frames) t.max_frames then popleft frames else frames;
              current_frame = none;
              in_frame = false;
            }
      ]
      else t

unfoldable pub frame_count : ExecutionTracer → ℕ
frame_count t = length t.frames

-- The trimming of set_max_frames and load_replay: a negative bound trims nothing.
unfoldable pub trim : ℤ → List TraceFrame → List TraceFrame
trim (pos n) frames = newest n frames
trim (negsuc n) frames = frames

-- load_replay, behind the reading of the items: `none` is a text that is no list, or a list with an
-- item that could not be read.
unfoldable pub load_replay : Option (List TraceFrame) → ExecutionTracer → ExecutionTracer × Bool
unfolding trim
load_replay none t = (t, false)
load_replay (some loaded) t = (record t { frames = trim t.max_frames loaded }, true)

unfoldable pub replay_frame : ℤ → ExecutionTracer → Option TraceFrame
replay_frame (pos i) t = get_elem? t.frames i
replay_frame (negsuc i) t = none

unfoldable pub reset : ExecutionTracer → ExecutionTracer
reset t = record t {
  events = [];
  enter_times = [];
  frames = [];
  current_frame = none;
  in_frame = false;
}

unfoldable pub set_max_frames : ℤ → ExecutionTracer → ExecutionTracer
unfolding trim
set_max_frames n t = record t { max_frames = n; frames = trim n t.frames }
