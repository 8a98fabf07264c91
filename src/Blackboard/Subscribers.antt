-- ===== src/Blackboard/Subscribers.antt =====
-- bteng/blackboard/blackboard.py: who is called on a write.
use bteng.Prelude.{
  ℕ, ◌+◌, ◌<◌, String, ◌≡◌, refl, ap, ◌∙◌, map, if◌then◌else◌, true, Bool, false, Option, none,
  List, [], ◌∷◌, ◌++◌, All, arith, ◌==◌, Bool-cases, Option-cases, inl, inr,
}
use bteng.Value.{Value}
use bteng.Blackboard.{
  Board, Callback, Holder, weak, strong, callback_of, is_dead, live_callbacks, find_holder,
  drop_callback, reap_one, reap, refresh_cache, write_cell, subscribe, unsubscribe, reset, clear,
  remove_cell, take_snapshot_if_dirty, register_port_schema, PortSchema, new_board,
}
use bteng.Blackboard.Scopes.{Notice, set_here, notices}

abbrev pub Ids : Type 0
Ids = List (ℕ × Holder)

-- Every id was handed out before `next`, and is handed out once: the ids grow.
abbrev pub IsFresh : ℕ → Ids → Type 0
IsFresh next cs = All (λ c. c.0 < next) cs

-- The dispatch cache is the table of callbacks unless it is marked as stale.
pub record IsCoherent (b : Board) : Type 0 where
  pub cached : b.callbacks_dirty ≡ false → b.callbacks_cache ≡ b.callbacks
  pub fresh : IsFresh b.next_cb_id b.callbacks

IsFresh-weaken : (n m : ℕ) (cs : Ids) → n < m → IsFresh n cs → IsFresh m cs
IsFresh-weaken n m [] lt h = tt
IsFresh-weaken n m ((i, c) ∷ cs) lt h = (omega arith, IsFresh-weaken n m cs lt h.1)

IsFresh-append : (n : ℕ) (cs ds : Ids) → IsFresh n cs → IsFresh n ds → IsFresh n (cs ++ ds)
IsFresh-append n [] ds h k = k
IsFresh-append n (c ∷ cs) ds h k = (h.0, IsFresh-append n cs ds h.1 k)

IsFresh-drop_callback : (n i : ℕ) (cs : Ids) → IsFresh n cs → IsFresh n (drop_callback i cs)
unfolding drop_callback
IsFresh-drop_callback n i [] h = tt
IsFresh-drop_callback n i ((j, c) ∷ cs) h = elim (Bool-cases (j == i)) [
  | inl same ↦ rw same (IsFresh-drop_callback n i cs h.1)
  | inr other ↦ rw other (h.0, IsFresh-drop_callback n i cs h.1)
]

subscribe-IsCoherent : (b : Board) (c : Callback) → IsCoherent b → IsCoherent (subscribe b c).0
unfolding subscribe
subscribe-IsCoherent b c h = record {
  cached = λ e. cc;
  fresh =
      IsFresh-append (b.next_cb_id + 1) b.callbacks _
        (IsFresh-weaken b.next_cb_id (b.next_cb_id + 1) b.callbacks (omega arith) h.fresh)
        (omega arith, tt);
}

unsubscribe-IsCoherent : (b : Board) (i : ℕ) → IsCoherent b → IsCoherent (unsubscribe b i)
unfolding unsubscribe
unsubscribe-IsCoherent b i h = record {
  cached = λ e. cc;
  fresh = IsFresh-drop_callback b.next_cb_id i b.callbacks h.fresh;
}

refresh_cache-IsCoherent : (b : Board) → IsCoherent b → IsCoherent (refresh_cache b)
unfolding refresh_cache
refresh_cache-IsCoherent b h = elim (Bool-cases b.callbacks_dirty) [
  | inl stale ↦ simp stale (record { cached = λ e. refl; fresh = h.fresh })
  | inr kept ↦ simp kept h
]

reap_one-IsCoherent :
    (alive : Callback → Bool) (b : Board) (i : ℕ) → IsCoherent b → IsCoherent (reap_one alive b i)
unfolding reap_one
reap_one-IsCoherent alive b i h = elim (Option-cases (find_holder i b.callbacks)) [
  | inl absent ↦ rw (absent, reap_one) h
  | inr (holder, found) ↦ elim (Bool-cases (is_dead alive holder)) [
    | inl dead ↦
        rw (found, reap_one)
          (simp dead (record {
            cached = λ e. cc;
            fresh = IsFresh-drop_callback b.next_cb_id i b.callbacks h.fresh;
          }))
    | inr live ↦ rw (found, reap_one) (simp live h)
  ]
]

reap-IsCoherent :
    (alive : Callback → Bool) (ids : List ℕ) (b : Board)
    → IsCoherent b
    → IsCoherent (reap alive b ids)
unfolding reap
reap-IsCoherent alive [] b h = h
reap-IsCoherent alive (i ∷ ids) b h =
    reap-IsCoherent alive ids (reap_one alive b i) (reap_one-IsCoherent alive b i h)

write_cell-IsCoherent :
    (b : Board) (key : String) (v : Value) (writer : Option ℕ) (now : ℕ)
    → IsCoherent b
    → IsCoherent (write_cell b key v writer now)
unfolding write_cell
write_cell-IsCoherent b key v writer now h =
    refresh_cache-IsCoherent _ (record { cached = h.cached; fresh = h.fresh })

set_here-IsCoherent :
    (alive : Callback → Bool) (now : ℕ) (b : Board) (key : String) (v : Value) (writer : Option ℕ)
    → IsCoherent b
    → IsCoherent (set_here alive now b key v writer).0
unfolding set_here
set_here-IsCoherent alive now b key v writer h =
    reap-IsCoherent alive _ _ (write_cell-IsCoherent b key v writer now h)

-- The optimised dispatch: on a coherent scope the cache that `set` iterates is the table.
cache-eq-callbacks :
    (b : Board) (key : String) (v : Value) (writer : Option ℕ) (now : ℕ)
    → IsCoherent b
    → (write_cell b key v writer now).callbacks_cache ≡ b.callbacks
unfolding write_cell refresh_cache
cache-eq-callbacks b key v writer now h = ground (arith, h.cached)

-- A write calls every live subscriber of the table once, in the order of subscription.
pub set_here-calls :
    (alive : Callback → Bool) (now : ℕ) (b : Board) (key : String) (v : Value) (writer : Option ℕ)
    → IsCoherent b
    → (set_here alive now b key v writer).1 ≡ notices key v (live_callbacks alive b.callbacks)
unfolding set_here
set_here-calls alive now b key v writer h = rw (cache-eq-callbacks b key v writer now h)

-- The collector has not taken the subscriber; one that is held strongly stays.
abbrev pub is_there : (Callback → Bool) → Holder → Bool
is_there alive (weak c) = alive c
is_there alive (strong c) = true

abbrev pub keep_there : (Callback → Bool) → Ids → Ids
keep_there alive [] = []
keep_there alive ((i, h) ∷ rest) =
    let others = keep_there alive rest in if is_there alive h then (i, h) ∷ others else others

live_callbacks_lem :
    (alive : Callback → Bool) (cs : Ids)
    → live_callbacks alive cs ≡ map (λ c. callback_of c.1) (keep_there alive cs)
unfolding live_callbacks is_dead
live_callbacks_lem alive [] = refl
live_callbacks_lem alive ((i, weak c) ∷ rest) = elim (Bool-cases (alive c)) [
  | inl there ↦ rw (there, live_callbacks_lem alive rest) refl
  | inr gone ↦ rw (gone, live_callbacks_lem alive rest) refl
]
live_callbacks_lem alive ((i, strong c) ∷ rest) = rw (live_callbacks_lem alive rest) refl

find_holder_fresh : (n : ℕ) (cs : Ids) → IsFresh n cs → find_holder n cs ≡ none
unfolding find_holder
find_holder_fresh n [] h = refl
find_holder_fresh n ((i, c) ∷ cs) h = ground (arith, find_holder_fresh n cs h.1)

-- On a coherent scope the id of a new subscription is in use by no other.
pub subscribe_fresh :
    (b : Board) (c : Callback) → IsCoherent b → find_holder (subscribe b c).1 b.callbacks ≡ none
unfolding subscribe
subscribe_fresh b c h = find_holder_fresh b.next_cb_id b.callbacks h.fresh

-- The operations of one scope that can reach its callbacks or its cells.
pub data Operation : Type 0 where
  write :
      (alive : Callback → Bool) (now : ℕ) (key : String) (v : Value) (writer : Option ℕ) → Operation
  remove : String → Operation
  clear_all reset_all snapshot : Operation
  schema : PortSchema → Operation
  listen : Callback → Operation
  unlisten : ℕ → Operation

unfoldable pub operate : Board → Operation → Board
operate b (write alive now key v writer) = (set_here alive now b key v writer).0
operate b (remove key) = remove_cell b key
operate b clear_all = clear b
operate b reset_all = reset b
operate b snapshot = (take_snapshot_if_dirty b).1
operate b (schema s) = register_port_schema b s
operate b (listen c) = (subscribe b c).0
operate b (unlisten i) = unsubscribe b i

unfoldable pub operate_all : Board → List Operation → Board
operate_all b [] = b
operate_all b (o ∷ os) = operate_all (operate b o) os

take_snapshot-IsCoherent : (b : Board) → IsCoherent b → IsCoherent (take_snapshot_if_dirty b).1
unfolding take_snapshot_if_dirty
take_snapshot-IsCoherent b h = elim (Bool-cases b.written_since_snapshot) [
  | inl written ↦ simp written (record { cached = h.cached; fresh = h.fresh })
  | inr clean ↦ simp clean h
]

operate-IsCoherent : (o : Operation) (b : Board) → IsCoherent b → IsCoherent (operate b o)
unfolding operate remove_cell clear reset register_port_schema
operate-IsCoherent (write alive now key v writer) b h =
    set_here-IsCoherent alive now b key v writer h
operate-IsCoherent (remove key) b h = record { cached = h.cached; fresh = h.fresh }
operate-IsCoherent clear_all b h = record { cached = h.cached; fresh = h.fresh }
operate-IsCoherent reset_all b h = record { cached = λ e. refl; fresh = tt }
operate-IsCoherent snapshot b h = take_snapshot-IsCoherent b h
operate-IsCoherent (schema s) b h = record { cached = h.cached; fresh = h.fresh }
operate-IsCoherent (listen c) b h = subscribe-IsCoherent b c h
operate-IsCoherent (unlisten i) b h = unsubscribe-IsCoherent b i h

operate_all-IsCoherent :
    (os : List Operation) (b : Board) → IsCoherent b → IsCoherent (operate_all b os)
unfolding operate_all
operate_all-IsCoherent [] b h = h
operate_all-IsCoherent (o ∷ os) b h =
    operate_all-IsCoherent os (operate b o) (operate-IsCoherent o b h)

new_board-IsCoherent :
    (name : String) (parent : Option ℕ) (remapping : List (String × String))
    → IsCoherent (new_board name parent remapping)
unfolding new_board
new_board-IsCoherent name parent remapping = record { cached = λ e. refl; fresh = tt }

notices_fuse :
    (key : String) (v : Value) (cs : Ids)
    → notices key v (map (λ c. callback_of c.1) cs)
      ≡ map {B = Notice} (λ c. record { callback = callback_of c.1; key = key; value = v }) cs
notices_fuse key v [] = refl
notices_fuse key v (c ∷ cs) =
    ap (λ l. record { callback = callback_of c.1; key = key; value = v } ∷ l)
      (notices_fuse key v cs)

-- Whatever was done to a scope since its creation, a write calls exactly the subscribers of its
-- table that the garbage collector has left, those held strongly among them, each once and in the
-- order of subscription.
pub set-calls-live :
    (name : String) (parent : Option ℕ) (remapping : List (String × String)) (os : List Operation)
    (alive : Callback → Bool) (now : ℕ) (key : String) (v : Value) (writer : Option ℕ)
    → (set_here alive now (operate_all (new_board name parent remapping) os) key v writer).1
      ≡ map {B = Notice}
          (λ c. record { callback = callback_of c.1; key = key; value = v })
          (keep_there alive (operate_all (new_board name parent remapping) os).callbacks)
set-calls-live name parent remapping os alive now key v writer =
    let b = operate_all (new_board name parent remapping) os in
    set_here-calls alive now b key v writer (
      operate_all-IsCoherent os (new_board name parent remapping)
        (new_board-IsCoherent name parent remapping))
    ∙ (ap (notices key v) (live_callbacks_lem alive b.callbacks)
        ∙ notices_fuse key v (keep_there alive b.callbacks))
