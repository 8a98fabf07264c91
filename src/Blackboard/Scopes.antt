-- ===== src/Blackboard/Scopes.antt =====
-- bteng/blackboard/blackboard.py: the operations that follow the remapping into parent scopes, and
-- the registry of named blackboards. The recursion into parents takes fuel: a parent stands before
-- its child in the list, so the number of scopes is enough.
use bteng.Prelude.{
  ℕ, zero, suc, String, Bool, true, false, Option, none, some, List, [], ◌∷◌, ◌++◌, get_elem?, set,
  length, map,
}
use bteng.Prelude.Dict.{lookup, insert}
use bteng.Blackboard.{
  Board, Entry, Callback, new_board, write_cell, live_callbacks, dead_ids, reap, remove_cell, reset,
}
use bteng.Value.{Value}

-- The parent's scope and key to which the remapping sends a key.
unfoldable pub redirect : Board → String → Option (ℕ × String)
redirect b key = elim b.parent [
  | none ↦ none
  | some p ↦ elim (lookup key b.remapping) [ none ↦ none | some k ↦ some (p, k) ]
]

-- A subscriber's call `callback(key, value)`.
pub record Notice : Type 0 where
  pub callback : Callback
  pub key : String
  pub value : Value

abbrev pub notices : String → Value → List Callback → List Notice
notices key v callbacks = map (λ c. record { callback = c; key = key; value = v }) callbacks

module _ (alive : Callback → Bool) (now : ℕ) where
  -- `set` in the scope itself: the write, the calls from the cached list, and the reaping.
  unfoldable pub set_here : Board → String → Value → Option ℕ → Board × List Notice
  set_here b key v writer =
      let written = write_cell b key v writer now in
      (
        reap alive written (dead_ids alive written.callbacks_cache),
        notices key v (live_callbacks alive written.callbacks_cache),
      )

  unfoldable pub set_key : ℕ → List Board → ℕ → String → Value → Option ℕ → List Board × List Notice
  unfolding redirect set_here
  set_key zero bs id key v writer = (bs, [])
  set_key (suc fuel) bs id key v writer = elim (get_elem? bs id) [
    | none ↦ (bs, [])
    | some b ↦ elim (redirect b key) [
      | some (p, k) ↦ set_key fuel bs p k v writer
      | none ↦ let (b', calls) = set_here b key v writer in (set bs id b', calls)
    ]
  ]

-- The value of a cell of this scope, `none` if there is none.
unfoldable pub own_value : Board → String → Option Value
own_value b key = elim (lookup key b.entries) [ none ↦ none | some e ↦ e.value ]

unfoldable pub get : ℕ → List Board → ℕ → String → Value → Value
unfolding redirect own_value
get zero bs id key d = d
get (suc fuel) bs id key d = elim (get_elem? bs id) [
  | none ↦ d
  | some b ↦ elim (redirect b key) [
    | some (p, k) ↦ get fuel bs p k d
    | none ↦ elim (own_value b key) [
      | some v ↦ v
      | none ↦ elim b.parent [ some p ↦ get fuel bs p key d | none ↦ d ]
    ]
  ]
]

unfoldable pub has : ℕ → List Board → ℕ → String → Bool
unfolding redirect own_value
has zero bs id key = false
has (suc fuel) bs id key = elim (get_elem? bs id) [
  | none ↦ false
  | some b ↦ elim (redirect b key) [
    | some (p, k) ↦ has fuel bs p k
    | none ↦ elim (own_value b key) [
      | some v ↦ true
      | none ↦ elim b.parent [ some p ↦ has fuel bs p key | none ↦ false ]
    ]
  ]
]

unfoldable pub remove : ℕ → List Board → ℕ → String → List Board
unfolding redirect
remove zero bs id key = bs
remove (suc fuel) bs id key = elim (get_elem? bs id) [
  | none ↦ bs
  | some b ↦ elim (redirect b key) [
    | some (p, k) ↦ remove fuel bs p k
    | none ↦ set bs id (remove_cell b key)
  ]
]

-- `entry`, the copy of a cell; no fall-through to the parent.
unfoldable pub entry : ℕ → List Board → ℕ → String → Option Entry
unfolding redirect
entry zero bs id key = none
entry (suc fuel) bs id key = elim (get_elem? bs id) [
  | none ↦ none
  | some b ↦ elim (redirect b key) [ some (p, k) ↦ entry fuel bs p k | none ↦ lookup key b.entries ]
]

-- create_child, create_child_scope: the scopes with the new one, and its place.
unfoldable pub create_child_scope :
    List Board → ℕ → String → List (String × String) → List Board × ℕ
create_child_scope bs parent scope_name remapping =
    (bs ++ new_board scope_name (some parent) remapping ∷ [], length bs)

-- The scopes of the process and the registry of the named ones.
pub record Store : Type 0 where
  pub boards : List Board
  pub instances : List (String × ℕ)

unfoldable pub create : Store → String → Store × ℕ
create st name = elim (lookup name st.instances) [
  | some id ↦ (st, id)
  | none ↦ (
    record st {
      boards = st.boards ++ new_board name none [] ∷ [];
      instances = insert name (length st.boards) st.instances;
    },
    length st.boards,
  )
]

unfoldable pub reset_at : List Board → ℕ → List Board
reset_at bs id = elim (get_elem? bs id) [ none ↦ bs | some b ↦ set bs id (reset b) ]

unfoldable pub reset_name : Store → String → Store
unfolding reset_at
reset_name st name = elim (lookup name st.instances) [
  | none ↦ st
  | some id ↦ record st { boards = reset_at st.boards id }
]

unfoldable pub reset_names : Store → List String → Store
unfolding reset_name
reset_names st [] = st
reset_names st (name ∷ rest) = reset_names (reset_name st name) rest

-- reset_all over registered_names
unfoldable pub reset_all : Store → Store
unfolding reset_names
reset_all st = reset_names st (map (λ e. e.0) st.instances)
