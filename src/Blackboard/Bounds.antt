-- ===== src/Blackboard/Bounds.antt =====
-- bteng/blackboard/blackboard.py: the ring buffer of past values in each cell.
use bteng.Prelude.{
  ℕ, ◌≡◌, refl, sym, ◌∙◌, Option, none, some, List, [], ◌∷◌, ◌++◌, Option-cases, inl, inr,
}
use mathlib.Core.List.{append-nil, append_assoc}
use bteng.Prelude.Buffer.{newest, push-newest}
use bteng.Value.{Value}
use bteng.Blackboard.{Entry, HistoryRecord, new_entry, archive, overwrite, max_history}

-- The values that a cell held before, oldest first, without the bound on the buffer.
abbrev pub Past : Type 0
Past = List HistoryRecord

abbrev pub Tracks : Entry → Past → Type 0
Tracks e past = e.history ≡ newest max_history past

-- One assignment to a cell, and the past after it.
pub record Write : Type 0 where
  pub value : Value
  pub writer : Option ℕ
  pub now : ℕ

unfoldable pub remember : Entry → Past → Past
remember e past = elim e.value [
  | none ↦ past
  | some old ↦
      past ++ record { value = old; writer = e.last_writer; timestamp = e.last_write_time } ∷ []
]

unfoldable pub write_all : Entry → List Write → Entry
write_all e [] = e
write_all e (x ∷ xs) = write_all (overwrite e x.value x.writer x.now) xs

unfoldable pub past_of : Entry → Past → List Write → Past
unfolding remember
past_of e past [] = past
past_of e past (x ∷ xs) = past_of (overwrite e x.value x.writer x.now) (remember e past) xs

overwrite-Tracks :
    (e : Entry) (past : Past) (x : Write)
    → Tracks e past
    → Tracks (overwrite e x.value x.writer x.now) (remember e past)
unfolding overwrite remember archive
overwrite-Tracks e past x h = elim (Option-cases e.value) [
  | inl unset ↦ rw (unset, archive, remember) h
  | inr (old, stored) ↦
      rw (stored, archive, remember, h)
        (push-newest max_history past
          (record { value = old; writer = e.last_writer; timestamp = e.last_write_time }))
]

write_all-Tracks :
    (xs : List Write) (e : Entry) (past : Past)
    → Tracks e past
    → Tracks (write_all e xs) (past_of e past xs)
unfolding write_all past_of
write_all-Tracks [] e past h = h
write_all-Tracks (x ∷ xs) e past h =
    write_all-Tracks xs (overwrite e x.value x.writer x.now) (remember e past)
      (overwrite-Tracks e past x h)

as_record : Write → HistoryRecord
as_record x = record { value = x.value; writer = x.writer; timestamp = x.now }

-- All writes but the last, whose value is the current one.
pub overwritten : List Write → Past
unfolding as_record
overwritten [] = []
overwritten (x ∷ []) = []
overwritten (x ∷ y ∷ ys) = as_record x ∷ overwritten (y ∷ ys)

past_of-eq-overwritten :
    (x : Write) (ys : List Write) (e : Entry) (past : Past)
    → past_of (overwrite e x.value x.writer x.now) past ys ≡ past ++ overwritten (x ∷ ys)
unfolding past_of overwrite overwritten
past_of-eq-overwritten x [] e past = sym (append-nil past)
past_of-eq-overwritten x (y ∷ ys) e past =
    past_of-eq-overwritten y ys (overwrite e x.value x.writer x.now) (past ++ as_record x ∷ [])
    ∙ append_assoc past (as_record x ∷ []) (overwritten (y ∷ ys))

past_of_new : (xs : List Write) → past_of new_entry [] xs ≡ overwritten xs
unfolding past_of overwritten
past_of_new [] = refl
past_of_new (x ∷ xs) = past_of-eq-overwritten x xs new_entry []

-- After any writes to a new cell, its buffer holds the newest 32 of all writes but the last, with
-- their writers and times, oldest first.
pub history-eq-newest :
    (xs : List Write) → (write_all new_entry xs).history ≡ newest max_history (overwritten xs)
history-eq-newest xs = rw (← past_of_new xs) (write_all-Tracks xs new_entry [] refl)
