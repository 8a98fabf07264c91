-- ===== src/World.antt =====
-- What a tick reads and changes outside its node: the blackboards, the `_dirty` flags of the
-- reactive nodes, the clock, the attached inspector and tracer, and the client's code.
-- The client's code and the clock are parameters (Host): the code of a leaf answers with its reply
-- and the blackboard operations that it makes, as it likes, from all that has happened so far.
pub mod Ports
pub mod Hooks
use bteng.Prelude.{
  ℕ, zero, suc, ◌+◌, String, Bool, true, false, Option, none, some, List, [], ◌∷◌, ◌++◌, get_elem?,
  set, length, if◌then◌else◌, ◌==◌,
}
use bteng.Value.{Status, Value}
use bteng.Blackboard.{Board, Callback, mark_dirty, subscribe, unsubscribe}
use bteng.Blackboard.Scopes.{Notice, set_key, get, has, remove}

-- Which code of a client's leaf is called: a wrapped function or an overridden `tick`, or a phase
-- of a StatefulActionNode.
pub data Phase : Type 0 where
  call on_start on_running on_halted : Phase

pub record Call : Type 0 where
  pub uid : ℕ
  pub phase : Phase

-- What an attached inspector or tracer is told.
pub data Event : Type 0 where
  on_node_tick : (uid : ℕ) (prev new : Status) (feedback : String) → Event
  on_node_halt : (uid : ℕ) → Event
  log_transition : (uid : ℕ) (prev new : Status) → Event

-- The lists of events, calls and notices have the newest first.
pub record World : Type 0 where
  pub boards : List Board
  pub dirty : ℕ → Bool
  pub reads : ℕ
  pub events : List Event
  pub calls : List Call
  pub notified : List Notice

pub data Effect : Type 0 where
  set_value : (board : ℕ) (key : String) (value : Value) → Effect
  remove_value : (board : ℕ) (key : String) → Effect
  set_feedback : String → Effect

-- `none` stands for an exception.
pub record Answer : Type 0 where
  pub reply : Option Value
  pub effects : List Effect

-- `reading k` is what the clock returns when it is read for the k-th time, `alive k` what the
-- garbage collector has left then.
pub record Host : Type 0 where
  pub answer : World → Call → Answer
  pub reading : ℕ → ℕ
  pub alive : ℕ → Callback → Bool

-- An assignment to one entry of a function.
abbrev pub assign : (ℕ → Bool) → ℕ → Bool → ℕ → Bool
assign f i v j = if i == j then v else f j

unfoldable pub set_dirty : ℕ → Bool → World → World
set_dirty i v w = record w { dirty = assign w.dirty i v }

-- A subscriber's call: `_mark_dirty` of a reactive node, or client code, which is only recorded.
unfoldable pub deliver : Notice → World → World
unfolding set_dirty
deliver n w = elim n.callback [
  | mark_dirty uid ↦ set_dirty uid true w
  | _ ↦ record w { notified = n ∷ w.notified }
]

unfoldable pub deliver_all : List Notice → World → World
unfolding deliver
deliver_all [] w = w
deliver_all (n ∷ ns) w = deliver_all ns (deliver n w)

unfoldable pub record_event : Event → World → World
record_event e w = record w { events = e ∷ w.events }

unfoldable pub board_get : World → ℕ → String → Value → Value
board_get w id key d = get (length w.boards) w.boards id key d

unfoldable pub board_has : World → ℕ → String → Bool
board_has w id key = has (length w.boards) w.boards id key

unfoldable pub board_remove : ℕ → String → World → World
board_remove id key w = record w { boards = remove (length w.boards) w.boards id key }

unfoldable pub board_subscribe : ℕ → Callback → World → World × Option ℕ
board_subscribe id c w = elim (get_elem? w.boards id) [
  | none ↦ (w, none)
  | some b ↦ let (b', i) = subscribe b c in (record w { boards = set w.boards id b' }, some i)
]

unfoldable pub board_unsubscribe : ℕ → ℕ → World → World
board_unsubscribe id i w = elim (get_elem? w.boards id) [
  | none ↦ w
  | some b ↦ record w { boards = set w.boards id (unsubscribe b i) }
]

module _ (host : Host) where
  unfoldable pub read_clock : World → ℕ × World
  read_clock w = (host.reading w.reads, record w { reads = w.reads + 1 })

  -- `blackboard.set(key, value, writer=uid)`, the subscribers' calls included.
  unfoldable pub board_set : ℕ → String → Value → Option ℕ → World → World
  unfolding read_clock deliver_all
  board_set id key v writer w =
      let (now, w') = read_clock w in
      let (boards, notices) =
        set_key (host.alive w.reads) now (length w.boards) w.boards id key v writer in
      deliver_all notices (record w' { boards = boards })

  unfoldable pub perform : List Effect → String × World → String × World
  unfolding board_set board_remove
  perform [] s = s
  perform (set_value id key v ∷ rest) (feedback, w) =
      perform rest (feedback, board_set id key v none w)
  perform (remove_value id key ∷ rest) (feedback, w) =
      perform rest (feedback, board_remove id key w)
  perform (set_feedback message ∷ rest) (feedback, w) = perform rest (message, w)

  -- A call of the client's code: its reply, the node's feedback message, and the world after it.
  unfoldable pub run_client : Call → String → World → Option Value × String × World
  unfolding perform
  run_client c feedback w =
      let a = host.answer w c in
      let (feedback', w') = perform a.effects (feedback, record w { calls = c ∷ w.calls }) in
      (a.reply, feedback', w')
