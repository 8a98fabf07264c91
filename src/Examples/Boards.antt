-- ===== src/Examples/Boards.antt =====
-- Runs of bteng/blackboard/blackboard.py and of the EventBus of bteng/core/executor.py.
use bteng.Prelude.{
  map, ℕ, zero, suc, ◌<◌, ◌≡◌, refl, pos, Bool, true, none, some, List, [], ◌∷◌, get_elem?, arith,
}
use bteng.Prelude.Dict.{lookup}
use bteng.Value.{int, none_value}
use bteng.Blackboard.{callback_of, Board, Callback, mark_dirty, new_board, new_entry, max_history}
use bteng.Blackboard.Scopes.{get, set_key, set_here, Notice, redirect}
use bteng.Blackboard.Cells.{IsScoped, CellLaws, locate, operations_agree}
use bteng.Blackboard.Reading.{get-set_key_self, set-isolated}
use bteng.Prelude.Buffer.{newest}
use bteng.Blackboard.Bounds.{Write, write_all, overwritten, history-eq-newest}
use bteng.Blackboard.Subscribers.{keep_there, Operation, write, listen, operate_all, set-calls-live}
use bteng.EventBus.{EventBus, IsCoherent}
use bteng.Examples.{boards}

abbrev alive : Callback → Bool
alive c = true

abbrev child : Board
child = new_board "child" (some 0) (("speed", "velocity") ∷ [])

parent_below : (i p : ℕ) (b : Board) → get_elem? boards i ≡ some b → b.parent ≡ some p → p < i
unfolding new_board
parent_below zero p b at up = ground arith
parent_below (suc zero) p b at up = ground arith
parent_below (suc (suc i)) p b at up = cc

boards-IsScoped : IsScoped boards
boards-IsScoped = record { parent_below = parent_below }

other-own : redirect child "other" ≡ none
unfolding redirect new_board lookup
other-own = refl

abbrev bus : EventBus
bus = record { subs = (0, "*", 3) ∷ []; next_id = 1 }

bus-IsCoherent : IsCoherent bus
bus-IsCoherent = record { fresh = (omega arith, tt) }

operations_agree_example : CellLaws alive 7 boards 2 1 "speed" (locate 2 boards 1 "speed")
operations_agree_example =
    operations_agree alive 7 boards 2 1 "speed" child boards-IsScoped (omega arith) refl

get-set_key_self_example :
    get 2 (set_key alive 7 2 boards 1 "speed" (int (pos 5)) none).0 1 "speed" none_value
    ≡ int (pos 5)
get-set_key_self_example =
    get-set_key_self alive 7 boards boards-IsScoped 2 1 "speed" child (int (pos 5)) none_value none
      (omega arith) refl

set-isolated_example :
    get 2 (set_key alive 7 2 boards 1 "other" (int (pos 5)) none).0 0 "other" none_value
    ≡ get 2 boards 0 "other" none_value
set-isolated_example =
    set-isolated alive 7 boards 2 1 0 "other" "other" child (int (pos 5)) none_value none
      boards-IsScoped refl other-own (omega arith)

abbrev writes : List Write
writes =
    record { value = int (pos 1); writer = none; now = 3 }
    ∷ record { value = int (pos 2); writer = some 4; now = 5 }
    ∷ []

history-eq-newest_example :
    (write_all new_entry writes).history ≡ newest max_history (overwritten writes)
history-eq-newest_example = history-eq-newest writes

abbrev done : List Operation
done = listen (mark_dirty 3) ∷ write alive 4 "goal" (int (pos 1)) none ∷ listen (mark_dirty 6) ∷ []

set-calls-live_example :
    (set_here alive 9 (operate_all (new_board "root" none []) done) "goal" (int (pos 2)) none).1
    ≡ map {B = Notice}
        (λ c. record { callback = callback_of c.1; key = "goal"; value = int (pos 2) })
        (keep_there alive (operate_all (new_board "root" none []) done).callbacks)
set-calls-live_example = set-calls-live "root" none [] done alive 9 "goal" (int (pos 2)) none
