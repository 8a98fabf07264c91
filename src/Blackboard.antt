-- ===== src/Blackboard.antt =====
-- bteng/blackboard/blackboard.py: a scope, its cells, and the operations that stay in one scope.
-- The scopes themselves stand in one list, and a scope names its parent by its place there.
-- The lock is not modelled: each operation is one step.
pub mod Scopes
pub mod Schema
pub mod Bounds
pub mod Subscribers
pub mod Cells
pub mod Reading
pub mod Snapshots
use bteng.Prelude.{
  ℕ, zero, suc, ◌+◌, String, Bool, true, false, not, ◌||◌, Option, none, some, List, [], ◌∷◌, ◌++◌,
  map, length, ltb, leb, ◌==◌, if◌then◌else◌, is_some, str_eq,
}
use bteng.Prelude.Buffer.{push}
use bteng.Prelude.Dict.{lookup, insert, erase, keys}
use bteng.Value.{Value, bool, type_name}

-- BlackboardHistoryRecord. A writer is a node's uid, `none` for the empty text.
pub record HistoryRecord : Type 0 where
  pub value : Value
  pub writer : Option ℕ
  pub timestamp : ℕ

-- BlackboardEntry; `none` is the sentinel _UNSET.
pub record Entry : Type 0 where
  pub value : Option Value
  pub type_name : String
  pub last_writer : Option ℕ
  pub last_write_time : ℕ
  pub history : List HistoryRecord

abbrev pub new_entry : Entry
new_entry = record {
  value = none;
  type_name = "";
  last_writer = none;
  last_write_time = 0;
  history = [];
}

-- What a client may subscribe: a reactive node's `_mark_dirty`, another bound method, whose owner
-- may not support weak references, or any other callable.
pub data Callback : Type 0 where
  mark_dirty : (uid : ℕ) → Callback
  method : (owner : ℕ) (weak_referenceable : Bool) → Callback
  function : ℕ → Callback

pub data Holder : Type 0 where
  weak strong : Callback → Holder

-- PortSchema; `type_hint` is the name of a class.
pub record PortSchema : Type 0 where
  pub name : String
  pub type_hint : Option String
  pub required : Bool

pub record Board : Type 0 where
  pub scope_name : String
  pub parent : Option ℕ
  pub remapping : List (String × String)
  pub entries : List (String × Entry)
  pub schema : List (String × PortSchema)
  pub callbacks : List (ℕ × Holder)
  pub next_cb_id : ℕ
  pub callbacks_cache : List (ℕ × Holder)
  pub callbacks_dirty : Bool
  pub written_since_snapshot : Bool

unfoldable pub new_board : String → Option ℕ → List (String × String) → Board
new_board scope_name parent remapping = record {
  scope_name = scope_name;
  parent = parent;
  remapping = remapping;
  entries = [];
  schema = [];
  callbacks = [];
  next_cb_id = 0;
  callbacks_cache = [];
  callbacks_dirty = true;
  written_since_snapshot = false;
}

abbrev pub max_history : ℕ
max_history = 32

-- The previous value goes into the ring buffer before it is overwritten.
unfoldable pub archive : Entry → List HistoryRecord
unfolding push
archive e = elim e.value [
  | none ↦ e.history
  | some old ↦
      push max_history e.history
        (record { value = old; writer = e.last_writer; timestamp = e.last_write_time })
]

unfoldable pub overwrite : Entry → Value → Option ℕ → ℕ → Entry
unfolding archive
overwrite e value writer now = record {
  value = some value;
  type_name = type_name value;
  last_writer = writer;
  last_write_time = now;
  history = archive e;
}

-- entries.setdefault(key, BlackboardEntry())
unfoldable pub entry_or_new : Option Entry → Entry
entry_or_new none = new_entry
entry_or_new (some e) = e

unfoldable pub refresh_cache : Board → Board
refresh_cache b =
    if b.callbacks_dirty
    then record b { callbacks_cache = b.callbacks; callbacks_dirty = false }
    else b

-- `set` behind the remapping: the part under the lock.
unfoldable pub write_cell : Board → String → Value → Option ℕ → ℕ → Board
unfolding entry_or_new overwrite refresh_cache
write_cell b key value writer now = refresh_cache (record b {
  entries = insert key (overwrite (entry_or_new (lookup key b.entries)) value writer now) b.entries;
  written_since_snapshot = true;
})

-- `isinstance(holder, weakref.ref) and holder() is None`, for the collector's answer `alive`.
unfoldable pub is_dead : (Callback → Bool) → Holder → Bool
is_dead alive (weak c) = not (alive c)
is_dead alive (strong c) = false

abbrev pub callback_of : Holder → Callback
callback_of (weak c) = c
callback_of (strong c) = c

-- The callbacks that `set` makes, in order: those of the cache that are not dead.
unfoldable pub live_callbacks : (Callback → Bool) → List (ℕ × Holder) → List Callback
unfolding is_dead
live_callbacks alive [] = []
live_callbacks alive ((i, h) ∷ rest) =
    let others = live_callbacks alive rest in
    if is_dead alive h then others else callback_of h ∷ others

unfoldable pub dead_ids : (Callback → Bool) → List (ℕ × Holder) → List ℕ
unfolding is_dead
dead_ids alive [] = []
dead_ids alive ((i, h) ∷ rest) =
    let others = dead_ids alive rest in if is_dead alive h then i ∷ others else others

unfoldable pub find_holder : ℕ → List (ℕ × Holder) → Option Holder
find_holder i [] = none
find_holder i ((j, h) ∷ rest) = if j == i then some h else find_holder i rest

-- callbacks.pop(id, None)
unfoldable pub drop_callback : ℕ → List (ℕ × Holder) → List (ℕ × Holder)
drop_callback i [] = []
drop_callback i ((j, h) ∷ rest) =
    let others = drop_callback i rest in if j == i then others else (j, h) ∷ others

unfoldable pub reap_one : (Callback → Bool) → Board → ℕ → Board
unfolding is_dead drop_callback find_holder
reap_one alive b i = elim (find_holder i b.callbacks) [
  | none ↦ b
  | some h ↦
      if is_dead alive h
      then record b { callbacks = drop_callback i b.callbacks; callbacks_dirty = true }
      else b
]

unfoldable pub reap : (Callback → Bool) → Board → List ℕ → Board
unfolding reap_one
reap alive b [] = b
reap alive b (i ∷ rest) = reap alive (reap_one alive b i) rest

unfoldable pub hold : Callback → Holder
hold (mark_dirty uid) = weak (mark_dirty uid)
hold (method owner true) = weak (method owner true)
hold (method owner false) = strong (method owner false)
hold (function f) = strong (function f)

-- Subscription: the new scope and the id.
unfoldable pub subscribe : Board → Callback → Board × ℕ
unfolding hold
subscribe b c = (
  record b {
    callbacks = b.callbacks ++ (b.next_cb_id, hold c) ∷ [];
    next_cb_id = b.next_cb_id + 1;
    callbacks_dirty = true;
  },
  b.next_cb_id,
)

unfoldable pub unsubscribe : Board → ℕ → Board
unfolding drop_callback
unsubscribe b i = record b { callbacks = drop_callback i b.callbacks; callbacks_dirty = true }

unfoldable pub remove_cell : Board → String → Board
remove_cell b key = record b { entries = erase key b.entries }

unfoldable pub clear : Board → Board
clear b = record b { entries = [] }

-- Blackboard.reset on one scope; the remapping, the parent and the id counter stay.
unfoldable pub reset : Board → Board
reset b = record b {
  entries = [];
  callbacks = [];
  callbacks_cache = [];
  callbacks_dirty = true;
  schema = [];
  written_since_snapshot = false;
}

-- { k: e.value for k, e in entries if e.has_value() }
unfoldable pub snapshot_of : List (String × Entry) → List (String × Value)
snapshot_of [] = []
snapshot_of ((k, e) ∷ rest) = elim e.value [
  | none ↦ snapshot_of rest
  | some v ↦ (k, v) ∷ snapshot_of rest
]

unfoldable pub snapshot : Board → List (String × Value)
unfolding snapshot_of
snapshot b = snapshot_of b.entries

unfoldable pub take_snapshot_if_dirty : Board → Option (List (String × Value)) × Board
unfolding snapshot_of
take_snapshot_if_dirty b =
    if b.written_since_snapshot
    then (some (snapshot_of b.entries), record b { written_since_snapshot = false })
    else (none, b)

unfoldable pub register_port_schema : Board → PortSchema → Board
register_port_schema b s = record b { schema = insert s.name s b.schema }
