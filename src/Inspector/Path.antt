-- ===== src/Inspector/Path.antt =====
-- bteng/introspection/inspector.py: which nodes are reported as running.
use bteng.Prelude.{
  ℕ, ◌≡◌, refl, Bool, true, false, List, [], ◌∷◌, ◌++◌, ◌==◌, if◌then◌else◌, arith, Bool-cases, inl,
  inr,
}
use bteng.Prelude.Table.{
  member, without, IsDistinct, member-without, member-snoc, without-IsDistinct, snoc-IsDistinct,
}
use bteng.Value.{running, is_status}
use bteng.Inspector.{
  Inspector, Report, new_inspector, add_running, update_running, update_active, refresh_subscribers,
  on_node_tick, on_node_halt, add_explanation, subscribe, unsubscribe, reset, set_max_history,
  active_path, running_nodes,
}
use bteng.Inspector.Operations.{
  Operation, ticked, halted, explained, subscribed, unsubscribed, was_reset, resized, operate,
  operate_all,
}

-- What one operation says of a node: it is running, it is not, or what was said before.
unfoldable pub says : ℕ → Operation → Bool → Bool
says uid (ticked now r) before = if r.uid == uid then is_status r.new_status running else before
says uid (halted own reason) before = if own == uid then false else before
says uid was_reset before = false
says uid _ before = before

-- What the last operation that concerns the node says.
unfoldable pub is_active : ℕ → List Operation → Bool → Bool
unfolding says
is_active uid [] before = before
is_active uid (o ∷ os) before = is_active uid os (says uid o before)

-- A set of ids without repetitions that follows what was said.
pub record Follows (uid : ℕ) (before : Bool) (s : List ℕ) : Type 0 where
  pub agrees : member uid s ≡ before
  pub distinct : IsDistinct s

without-Follows :
    (uid own : ℕ) (before : Bool) (s : List ℕ)
    → Follows uid before s
    → Follows uid (if own == uid then false else before) (without own s)
without-Follows uid own before s h =
    let e = member-without own uid s in
    let now = h.agrees in
    record { agrees = ground arith; distinct = without-IsDistinct own s h.distinct }

-- The same where the node itself joins, at the end, in front, or because it is there already.
module _ (uid own : ℕ) (before : Bool) (s : List ℕ) (h : Follows uid before s) where
  kept-Follows : member own s ≡ true → Follows uid (if own == uid then true else before) s
  kept-Follows there =
      let now = h.agrees in
      let agrees : member uid s ≡ (if own == uid then true else before) = ground arith in
      record { agrees = agrees; distinct = h.distinct }

  snoc-Follows :
      member own s ≡ false → Follows uid (if own == uid then true else before) (s ++ own ∷ [])
  snoc-Follows absent =
      let e = member-snoc own uid s in
      let now = h.agrees in
      record { agrees = ground arith; distinct = snoc-IsDistinct own s absent h.distinct }

  cons-Follows : member own s ≡ false → Follows uid (if own == uid then true else before) (own ∷ s)
  unfolding member
  cons-Follows absent =
      let now = h.agrees in record { agrees = ground arith; distinct = (absent, h.distinct) }

module _ (r : Report) (uid : ℕ) (before : Bool) (s : List ℕ) (h : Follows uid before s) where
  update_active-Follows :
      Follows uid
        (if r.uid == uid then is_status r.new_status running else before)
        (update_active r s)
  unfolding update_active
  update_active-Follows = elim (Bool-cases (is_status r.new_status running)) [
    | inr stops ↦ rw stops (without-Follows uid r.uid before s h)
    | inl runs ↦ elim (Bool-cases (member r.uid s)) [
      | inl there ↦ rw (runs, there) (kept-Follows uid r.uid before s h there)
      | inr absent ↦ rw (runs, absent) (snoc-Follows uid r.uid before s h absent)
    ]
  ]

  update_running-Follows :
      Follows uid
        (if r.uid == uid then is_status r.new_status running else before)
        (update_running r s)
  unfolding update_running add_running
  update_running-Follows = elim (Bool-cases (is_status r.new_status running)) [
    | inr stops ↦ rw stops (without-Follows uid r.uid before s h)
    | inl runs ↦ elim (Bool-cases (member r.uid s)) [
      | inl there ↦ rw (runs, there) (kept-Follows uid r.uid before s h there)
      | inr absent ↦ rw (runs, absent) (cons-Follows uid r.uid before s h absent)
    ]
  ]

empty-Follows : (uid : ℕ) → Follows uid false []
unfolding member
empty-Follows uid = record { agrees = refl; distinct = tt }

-- The running set and the active path, both.
abbrev Both : ℕ → Bool → Inspector → Type 0
Both uid before i = Follows uid before (active_path i) × Follows uid before (running_nodes i)

operate-Both :
    (uid : ℕ) (before : Bool) (o : Operation) (i : Inspector)
    → Both uid before i
    → Both uid (says uid o before) (operate o i)
unfolding operate says active_path running_nodes on_node_tick refresh_subscribers on_node_halt
    add_explanation subscribe unsubscribe reset set_max_history
operate-Both uid before (ticked now r) i h = (
  update_active-Follows r uid before i.active h.0,
  update_running-Follows r uid before i.running h.1,
)
operate-Both uid before (halted own reason) i h =
    (without-Follows uid own before i.active h.0, without-Follows uid own before i.running h.1)
operate-Both uid before (explained e) i h = h
operate-Both uid before (subscribed callback) i h = h
operate-Both uid before (unsubscribed id) i h = h
operate-Both uid before was_reset i h = (empty-Follows uid, empty-Follows uid)
operate-Both uid before (resized n) i h = h

operate_all-Both :
    (uid : ℕ) (os : List Operation) (before : Bool) (i : Inspector)
    → Both uid before i
    → Both uid (is_active uid os before) (operate_all os i)
unfolding operate_all is_active
operate_all-Both uid [] before i h = h
operate_all-Both uid (o ∷ os) before i h =
    operate_all-Both uid os (says uid o before) (operate o i) (operate-Both uid before o i h)

-- After any operations on a new inspector, a node is on the active path, and in the running set,
-- exactly if the last tick, halt or reset that concerned it was a tick that left it RUNNING; and
-- neither names a node twice.
pub active_path_lem :
    (uid limit : ℕ) (os : List Operation)
    → Follows uid (is_active uid os false) (active_path (operate_all os (new_inspector limit)))
      × Follows uid (is_active uid os false) (running_nodes (operate_all os (new_inspector limit)))
unfolding new_inspector active_path running_nodes
active_path_lem uid limit os =
    operate_all-Both uid os false (new_inspector limit) (empty-Follows uid, empty-Follows uid)
