-- ===== src/Examples/Snapshots.antt =====
-- Runs of the snapshots of bteng/blackboard/blackboard.py.
use bteng.Prelude.{ℕ, String, ◌≡◌, refl, pos, none, some, List, [], ◌∷◌, or_else, Bool, true}
use bteng.Prelude.Dict.{lookup, insert, erase}
use bteng.Value.{int}
use bteng.Blackboard
use bteng.Blackboard.{
  Callback, new_board, write_cell, overwrite, entry_or_new, refresh_cache, reap, dead_ids,
  remove_cell, snapshot_of, take_snapshot_if_dirty,
}
use bteng.Blackboard.Scopes.{own_value, set_here}
use bteng.Blackboard.Subscribers.{Operation, operate, write, remove, snapshot}
use bteng.Blackboard.Snapshots.{watch, watched, take_snapshot_lem}

abbrev alive : Callback → Bool
alive c = true

abbrev set_speed : ℕ → Operation
set_speed n = write alive n "speed" (int (pos n)) none

abbrev twice : List Operation
twice = set_speed 1 ∷ snapshot ∷ set_speed 2 ∷ []

twice-speed : own_value (watched "main" none [] twice).0 "speed" ≡ some (int (pos 2))
unfolding watch own_value lookup operate set_here reap dead_ids write_cell take_snapshot_if_dirty
    new_board insert
twice-speed = refl

take_snapshot_lem_example :
    (lookup "speed" (
        or_else
          (take_snapshot_if_dirty (watched "main" none [] twice).0).0
          (watched "main" none [] twice).1)
      ≡ some (int (pos 2)))
    × ((k : String)
        → lookup k (
            or_else
              (take_snapshot_if_dirty (watched "main" none [] twice).0).0
              (Blackboard.snapshot (watched "main" none [] twice).0))
          ≡ own_value (watched "main" none [] twice).0 k)
take_snapshot_lem_example = take_snapshot_lem "main" none [] twice "speed" (int (pos 2)) twice-speed

-- A key that is removed behind the last snapshot stays in the client's view: the scope does not count
-- a removal as a change.
abbrev removed : List Operation
removed = set_speed 1 ∷ snapshot ∷ remove "speed" ∷ []

removed_lingers :
    ((take_snapshot_if_dirty (watched "main" none [] removed).0).0 ≡ none)
    × (Blackboard.snapshot (watched "main" none [] removed).0 ≡ [])
    × (lookup "speed" (watched "main" none [] removed).1 ≡ some (int (pos 1)))
unfolding watch take_snapshot_if_dirty operate remove_cell set_here reap dead_ids write_cell
    new_board Blackboard.snapshot erase insert lookup
removed_lingers = (refl, refl, refl)
