-- ===== src/Blackboard/Snapshots.antt =====
-- bteng/blackboard/blackboard.py: what a client knows that keeps the last snapshot it was given.
use bteng.Prelude.{
  ℕ, String, ◌≡◌, refl, ◌∙◌, Bool, true, false, Option, none, some, List, [], ◌∷◌, is_some, or_else,
  str_eq, All, Bool-cases, inl, inr, arith, sym, subst,
}
use bteng.Prelude.Dict.{lookup, insert, erase, lookup-erase}
use bteng.Value.{Value}
use bteng.Blackboard
use bteng.Blackboard.{
  Board, Entry, Callback, new_board, write_cell, refresh_cache, overwrite, entry_or_new, reap,
  reap_one, dead_ids, remove_cell, clear, reset, subscribe, unsubscribe, register_port_schema,
  snapshot_of, take_snapshot_if_dirty,
}
use bteng.Blackboard.Scopes.{set_here, own_value}
use bteng.Blackboard.Subscribers.{
  Operation, operate, write, remove, clear_all, reset_all, snapshot, schema, listen, unlisten,
}

abbrev pub View : Type 0
View = List (String × Value)

-- A client's view after an operation.
unfoldable pub seen : Board → View → Operation → View
seen b view snapshot = or_else (take_snapshot_if_dirty b).0 view
seen b view _ = view

unfoldable pub watch : Board → View → List Operation → Board × View
unfolding seen
watch b view [] = (b, view)
watch b view (o ∷ os) = watch (operate b o) (seen b view o) os

-- Every value that the scope has stands in the view.
abbrev Shows : Board → View → Type 0
Shows b view = (key : String) (v : Value) → own_value b key ≡ some v → lookup key view ≡ some v

abbrev HasValue : String × Entry → Type 0
HasValue e = is_some e.1.value ≡ true

record IsCurrent (b : Board) (view : View) : Type 0 where
  stored : All HasValue b.entries
  shown : b.written_since_snapshot ≡ false → Shows b view

insert-All :
    (key : String) (e : Entry) (d : List (String × Entry))
    → is_some e.value ≡ true
    → All HasValue d
    → All HasValue (insert key e d)
unfolding insert
insert-All key e [] h all = (h, tt)
insert-All key e ((own, old) ∷ rest) h all = elim (Bool-cases (str_eq own key)) [
  | inl same ↦ rw same (h, all.1)
  | inr apart ↦ rw apart (all.0, insert-All key e rest h all.1)
]

erase-All : (key : String) (d : List (String × Entry)) → All HasValue d → All HasValue (erase key d)
unfolding erase
erase-All key [] all = all
erase-All key ((own, old) ∷ rest) all = elim (Bool-cases (str_eq own key)) [
  | inl same ↦ rw same (erase-All key rest all.1)
  | inr apart ↦ rw apart (all.0, erase-All key rest all.1)
]

value_of : Option Entry → Option Value
value_of none = none
value_of (some e) = e.value

own_value-value_of : (b : Board) (key : String) → own_value b key ≡ value_of (lookup key b.entries)
unfolding own_value value_of
own_value-value_of b key = ground arith

lookup-snapshot_of :
    (key : String) (d : List (String × Entry))
    → All HasValue d
    → lookup key (snapshot_of d) ≡ value_of (lookup key d)
unfolding lookup snapshot_of value_of
lookup-snapshot_of key [] all = refl
lookup-snapshot_of key ((own, e) ∷ rest) all =
    let ih = lookup-snapshot_of key rest all.1 in let there = all.0 in ground arith

-- A snapshot has what the scope has.
snapshot_of-own_value :
    (b : Board) (key : String)
    → All HasValue b.entries
    → lookup key (snapshot_of b.entries) ≡ own_value b key
snapshot_of-own_value b key all =
    lookup-snapshot_of key b.entries all ∙ sym (own_value-value_of b key)

taken-own_value :
    (b : Board) (key : String)
    → All HasValue b.entries
    → lookup key (or_else (take_snapshot_if_dirty b).0 (Blackboard.snapshot b)) ≡ own_value b key
unfolding take_snapshot_if_dirty Blackboard.snapshot own_value
taken-own_value b key all = elim (Bool-cases b.written_since_snapshot) [
  | inl dirty ↦ rw dirty (snapshot_of-own_value b key all)
  | inr clean ↦ rw clean (snapshot_of-own_value b key all)
]

reap_one-written :
    (alive : Callback → Bool) (b : Board) (i : ℕ)
    → ((reap_one alive b i).written_since_snapshot ≡ b.written_since_snapshot)
      × ((reap_one alive b i).entries ≡ b.entries)
unfolding reap_one
reap_one-written alive b i = ground arith

reap-written :
    (alive : Callback → Bool) (ids : List ℕ) (b : Board)
    → ((reap alive b ids).written_since_snapshot ≡ b.written_since_snapshot)
      × ((reap alive b ids).entries ≡ b.entries)
unfolding reap
reap-written alive [] b = (refl, refl)
reap-written alive (i ∷ ids) b =
    let below = reap-written alive ids (reap_one alive b i) in
    let one = reap_one-written alive b i in (below.0 ∙ one.0, below.1 ∙ one.1)

module _ (alive : Callback → Bool) (now : ℕ) (b : Board) (key : String) (v : Value)
    (writer : Option ℕ) where
  abbrev written_entry : Entry
  written_entry = overwrite (entry_or_new (lookup key b.entries)) v writer now

  write_cell-written :
      ((write_cell b key v writer now).written_since_snapshot ≡ true)
      × ((write_cell b key v writer now).entries ≡ insert key written_entry b.entries)
  unfolding write_cell refresh_cache
  write_cell-written = ground arith

  set_here-written :
      ((set_here alive now b key v writer).0.written_since_snapshot ≡ true)
      × ((set_here alive now b key v writer).0.entries ≡ insert key written_entry b.entries)
  unfolding set_here
  set_here-written =
      let w = write_cell b key v writer now in
      let reaped = reap-written alive (dead_ids alive w.callbacks_cache) w in
      (reaped.0 ∙ write_cell-written.0, reaped.1 ∙ write_cell-written.1)

  set_here-IsCurrent :
      (view : View) → IsCurrent b view → IsCurrent (set_here alive now b key v writer).0 view
  unfolding overwrite
  set_here-IsCurrent view h = record {
    stored =
        subst (All HasValue) (sym set_here-written.1)
          (insert-All key written_entry b.entries refl h.stored);
    shown = λ clean. let dirty = set_here-written.0 in cc;
  }

remove_cell-IsCurrent :
    (b : Board) (key : String) (view : View) → IsCurrent b view → IsCurrent (remove_cell b key) view
unfolding remove_cell own_value
remove_cell-IsCurrent b key view h = record {
  stored = erase-All key b.entries h.stored;
  shown =
      λ clean other v own. h.shown clean other v (ground (arith, lookup-erase key other b.entries));
}

-- The view after a look for a snapshot, and what the scope says of it.
taken-Shows :
    (b : Board) (view : View)
    → IsCurrent b view
    → Shows b (or_else (take_snapshot_if_dirty b).0 view)
unfolding take_snapshot_if_dirty
taken-Shows b view h key v own = elim (Bool-cases b.written_since_snapshot) [
  | inl dirty ↦ rw dirty (snapshot_of-own_value b key h.stored ∙ own)
  | inr clean ↦ rw clean (h.shown clean key v own)
]

taken-IsCurrent :
    (b : Board) (view : View)
    → IsCurrent b view
    → IsCurrent (take_snapshot_if_dirty b).1 (or_else (take_snapshot_if_dirty b).0 view)
unfolding take_snapshot_if_dirty own_value
taken-IsCurrent b view h = elim (Bool-cases b.written_since_snapshot) [
  | inl dirty ↦ simp dirty (record {
    stored = h.stored;
    shown = λ clean key v own. snapshot_of-own_value b key h.stored ∙ own;
  })
  | inr clean ↦ simp clean h
]

operate-IsCurrent :
    (o : Operation) (b : Board) (view : View)
    → IsCurrent b view
    → IsCurrent (operate b o) (seen b view o)
unfolding operate seen own_value lookup clear reset register_port_schema subscribe unsubscribe
operate-IsCurrent (write alive now key v writer) b view h =
    set_here-IsCurrent alive now b key v writer view h
operate-IsCurrent (remove key) b view h = remove_cell-IsCurrent b key view h
operate-IsCurrent clear_all b view h = record {
  stored = tt;
  shown = λ clean key v own. (let no : none ≡ some v = own in cc);
}
operate-IsCurrent reset_all b view h = record {
  stored = tt;
  shown = λ clean key v own. (let no : none ≡ some v = own in cc);
}
operate-IsCurrent snapshot b view h = taken-IsCurrent b view h
operate-IsCurrent (schema s) b view h = record { stored = h.stored; shown = h.shown }
operate-IsCurrent (listen c) b view h = record { stored = h.stored; shown = h.shown }
operate-IsCurrent (unlisten i) b view h = record { stored = h.stored; shown = h.shown }

watch-IsCurrent :
    (os : List Operation) (b : Board) (view : View)
    → IsCurrent b view
    → IsCurrent (watch b view os).0 (watch b view os).1
unfolding watch
watch-IsCurrent [] b view h = h
watch-IsCurrent (o ∷ os) b view h =
    watch-IsCurrent os (operate b o) (seen b view o) (operate-IsCurrent o b view h)

-- A new scope and a client without a snapshot, after some operations.
abbrev pub watched : String → Option ℕ → List (String × String) → List Operation → Board × View
watched name parent remapping os = watch (new_board name parent remapping) [] os

new_board-IsCurrent :
    (name : String) (parent : Option ℕ) (remapping : List (String × String))
    → IsCurrent (new_board name parent remapping) []
unfolding new_board own_value lookup
new_board-IsCurrent name parent remapping = record {
  stored = tt;
  shown = λ clean key v own. let no : none ≡ some v = own in cc;
}

-- Whatever was done to a scope since its creation: for a key that the scope has, a client that keeps
-- the last snapshot it was given has the current value as soon as it has looked for a snapshot again,
-- also when it was given none. And a snapshot tells of each key, whether the scope has it or not, what
-- the scope tells.
pub take_snapshot_lem :
    (name : String) (parent : Option ℕ) (remapping : List (String × String)) (os : List Operation)
    (key : String) (v : Value)
    → own_value (watched name parent remapping os).0 key ≡ some v
    → (lookup key (
          or_else
            (take_snapshot_if_dirty (watched name parent remapping os).0).0
            (watched name parent remapping os).1)
        ≡ some v)
      × ((k : String)
          → lookup k (
              or_else
                (take_snapshot_if_dirty (watched name parent remapping os).0).0
                (Blackboard.snapshot (watched name parent remapping os).0))
            ≡ own_value (watched name parent remapping os).0 k)
take_snapshot_lem name parent remapping os key v own =
    let b = (watched name parent remapping os).0 in
    let view = (watched name parent remapping os).1 in
    let h : IsCurrent b view =
      watch-IsCurrent os _ [] (new_board-IsCurrent name parent remapping) in
    (taken-Shows b view h key v own, λ k. taken-own_value b k h.stored)
