-- ===== src/Blackboard/Reading.antt =====
-- bteng/blackboard/blackboard.py: what `get` and `has` read after `set` and `remove`.
use text.Mathlib.TextPositions.{eq_refl}
use bteng.Prelude.{
  ℕ, zero, suc, ◌<◌, ◌≤◌, String, ◌≡◌, refl, str_eq, ◌∙◌, Bool, true, false, Option, none, some,
  List, [], ◌∷◌, get_elem?, set, get_elem?_below, get_elem?-set_self, get_elem?-set_ne, arith,
  if◌then◌else◌, Option-cases, Bool-cases, inl, inr,
}
use bteng.Prelude.Dict.{lookup, insert, lookup-insert}
use bteng.Value.{Value}
use bteng.Blackboard.{
  Board, Entry, Callback, write_cell, refresh_cache, reap, reap_one, overwrite, dead_ids,
  entry_or_new,
}
use bteng.Blackboard.Scopes.{redirect, set_here, set_key, own_value, get, has}
use bteng.Blackboard.Cells.{IsScoped, redirect-parent, get_own, get_away, set_key_own, set_key_away}

-- The fields that `get` reads of a scope besides its cells.
record SameLinks (b b' : Board) : Type 0 where
  parent : b'.parent ≡ b.parent
  remapping : b'.remapping ≡ b.remapping

reap_one-fields :
    (alive : Callback → Bool) (b : Board) (i : ℕ)
    → (SameLinks b (reap_one alive b i)) × ((reap_one alive b i).entries ≡ b.entries)
unfolding reap_one
reap_one-fields alive b i = ground arith

reap-fields :
    (alive : Callback → Bool) (ids : List ℕ) (b : Board)
    → (SameLinks b (reap alive b ids)) × ((reap alive b ids).entries ≡ b.entries)
unfolding reap
reap-fields alive [] b = (record { parent = refl; remapping = refl }, refl)
reap-fields alive (i ∷ ids) b =
    let (links, entries) = reap-fields alive ids (reap_one alive b i) in
    let (links', entries') = reap_one-fields alive b i in
    (
      record {
        parent = links.parent ∙ links'.parent;
        remapping = links.remapping ∙ links'.remapping;
      },
      entries ∙ entries',
    )

redirect-SameLinks :
    (b b' : Board) (key : String) → SameLinks b b' → redirect b' key ≡ redirect b key
unfolding redirect
redirect-SameLinks b b' key h = ground arith

own_value-insert :
    (b b' : Board) (key other : String) (e : Entry) (v : Value)
    → b'.entries ≡ insert key e b.entries
    → e.value ≡ some v
    → own_value b' other ≡ (if str_eq key other then some v else own_value b other)
unfolding own_value
own_value-insert b b' key other e v h stored = ground (arith, lookup-insert key other e b.entries)

module _ (alive : Callback → Bool) (now : ℕ) (b : Board) (key : String) (v : Value)
    (writer : Option ℕ) where
  abbrev after : Board
  after = (set_here alive now b key v writer).0

  write_cell-fields :
      (SameLinks b (write_cell b key v writer now))
      × ((write_cell b key v writer now).entries
          ≡ insert key (overwrite (entry_or_new (lookup key b.entries)) v writer now) b.entries)
  unfolding write_cell refresh_cache
  write_cell-fields = ground arith

  set_here-fields :
      (SameLinks b after)
      × (after.entries
          ≡ insert key (overwrite (entry_or_new (lookup key b.entries)) v writer now) b.entries)
  unfolding set_here
  set_here-fields =
      let written = write_cell b key v writer now in
      let (links, entries) = reap-fields alive (dead_ids alive written.callbacks_cache) written in
      let (links', entries') = write_cell-fields in
      (
        record {
          parent = links.parent ∙ links'.parent;
          remapping = links.remapping ∙ links'.remapping;
        },
        entries ∙ entries',
      )

  redirect-set_here : (other : String) → redirect after other ≡ redirect b other
  redirect-set_here other = redirect-SameLinks b after other set_here-fields.0

  own_value-set_here :
      (other : String)
      → own_value after other ≡ (if str_eq key other then some v else own_value b other)
  unfolding overwrite
  own_value-set_here other = own_value-insert b after key other _ v set_here-fields.1 refl

module _ (alive : Callback → Bool) (now : ℕ) (bs : List Board) (scoped : IsScoped bs) where
  -- A write through scope `id` changes no younger scope.
  set_key_above :
      (fuel id i : ℕ) (key : String) (b : Board) (v : Value) (writer : Option ℕ)
      → get_elem? bs id ≡ some b
      → id < i
      → get_elem? (set_key alive now fuel bs id key v writer).0 i ≡ get_elem? bs i
  unfolding set_key
  set_key_above zero id i key b v writer at lt = refl
  set_key_above (suc fuel) id i key b v writer at lt = elim (Option-cases (redirect b key)) [
    | inl own ↦
        rw (set_key_own fuel bs id key b at own alive now v writer)
          (get_elem?-set_ne bs id i (set_here alive now b key v writer).0 (omega arith))
    | inr ((p, k), away) ↦
        let lt' : p < id = scoped.parent_below id p b at (redirect-parent b key away) in
        let (q, at') = get_elem?_below bs id p at lt' in
        rw (set_key_away fuel bs id key b at away alive now v writer)
          (set_key_above fuel p i k q v writer at' (omega arith))
  ]

  -- Where parents stand before their children, with more steps than the scope's place: `get` after
  -- `set` of the same key of a scope returns the value that was set, also where the remapping sends
  -- the key to a parent.
  pub get-set_key_self :
      (fuel id : ℕ) (key : String) (b : Board) (v d : Value) (writer : Option ℕ)
      → id < fuel
      → get_elem? bs id ≡ some b
      → get fuel (set_key alive now fuel bs id key v writer).0 id key d ≡ v
  get-set_key_self zero id key b v d writer lt at = elim lt [ ]
  get-set_key_self (suc fuel) id key b v d writer lt at = elim (Option-cases (redirect b key)) [
    | inl own ↦
        let b' = (set_here alive now b key v writer).0 in
        rw (set_key_own fuel bs id key b at own alive now v writer) (
          get_own fuel (set bs id b') id key b' (get_elem?-set_self bs id b' at)
            (redirect-set_here alive now b key v writer key ∙ own) d v
            (rw (own_value-set_here alive now b key v writer key) (rw eq_refl)))
    | inr ((p, k), away) ↦
        let lt' : p < id = scoped.parent_below id p b at (redirect-parent b key away) in
        let (q, at') = get_elem?_below bs id p at lt' in
        let bs' = (set_key alive now fuel bs p k v writer).0 in
        rw (set_key_away fuel bs id key b at away alive now v writer) (
          get_away fuel bs' id key b (set_key_above fuel p id k q v writer at' lt' ∙ at) away d
          ∙ get-set_key_self fuel p k q v d writer (omega arith) at')
  ]

-- `get` depends on the scope and the older ones only.
get-agree :
    (bs bs' : List Board) (fuel id : ℕ) (key : String) (d : Value)
    → IsScoped bs
    → ((i : ℕ) → i ≤ id → get_elem? bs' i ≡ get_elem? bs i)
    → get fuel bs' id key d ≡ get fuel bs id key d
unfolding get
get-agree bs bs' zero id key d scoped same = refl
get-agree bs bs' (suc fuel) id key d scoped same = elim (Option-cases (get_elem? bs id)) [
  | inl absent ↦ ground (arith, same id (omega arith))
  | inr (b, at) ↦ elim (Option-cases (redirect b key)) [
    | inr ((p, k), away) ↦
        let lt : p < id = scoped.parent_below id p b at (redirect-parent b key away) in
        ground (
          arith,
          same id (omega arith),
          get-agree bs bs' fuel p k d scoped (λ i le. same i (omega arith)),
        )
    | inl own ↦ elim (Option-cases b.parent) [
      | inl root ↦ ground (arith, same id (omega arith))
      | inr (p, up) ↦
          let lt : p < id = scoped.parent_below id p b at up in
          ground (
            arith,
            same id (omega arith),
            get-agree bs bs' fuel p key d scoped (λ i le. same i (omega arith)),
          )
    ]
  ]
]

-- Where parents stand before their children: a write to a key that its scope does not remap changes
-- nothing that is read through an older scope, its parents among them.
pub set-isolated :
    (alive : Callback → Bool) (now : ℕ) (bs : List Board) (fuel id j : ℕ) (key other : String)
    (b : Board) (v d : Value) (writer : Option ℕ)
    → IsScoped bs
    → get_elem? bs id ≡ some b
    → redirect b key ≡ none
    → j < id
    → get fuel (set_key alive now fuel bs id key v writer).0 j other d ≡ get fuel bs j other d
unfolding get
set-isolated alive now bs zero id j key other b v d writer scoped at own lt = refl
set-isolated alive now bs (suc fuel) id j key other b v d writer scoped at own lt =
    let b' = (set_here alive now b key v writer).0 in
    rw (set_key_own fuel bs id key b at own alive now v writer) (
      get-agree bs (set bs id b') (suc fuel) j other d scoped
        (λ i le. get_elem?-set_ne bs id i b' (omega arith)))

get-has_cases :
    (bs : List Board) (fuel id : ℕ) (key : String) (d d' : Value)
    → (has fuel bs id key ≡ false → get fuel bs id key d ≡ d)
      × (has fuel bs id key ≡ true → get fuel bs id key d ≡ get fuel bs id key d')
unfolding get has
get-has_cases bs zero id key d d' = (λ e. refl, λ e. cc)
get-has_cases bs (suc fuel) id key d d' = elim (Option-cases (get_elem? bs id)) [
  | inl absent ↦ (ground arith, ground arith)
  | inr (b, at) ↦ elim (Option-cases (redirect b key)) [
    | inr ((p, k), away) ↦
        let ih = get-has_cases bs fuel p k d d' in
        (λ e. ground (arith, ih.0), λ e. ground (arith, ih.1))
    | inl own ↦ elim (Option-cases b.parent) [
      | inl root ↦ (ground arith, ground arith)
      | inr (p, up) ↦
          let ih = get-has_cases bs fuel p key d d' in
          (λ e. ground (arith, ih.0), λ e. ground (arith, ih.1))
    ]
  ]
]

-- `has` and `get` agree: without the key `get` returns the default that it is given, and with it what
-- it returns at any other default. (None, when stored, counts as there.)
get-has :
    (bs : List Board) (fuel id : ℕ) (key : String) (d d' : Value)
    → get fuel bs id key d ≡ (if has fuel bs id key then get fuel bs id key d' else d)
get-has bs fuel id key d d' =
    let cases = get-has_cases bs fuel id key d d' in
    elim (Bool-cases (has fuel bs id key)) [
      | inl there ↦ rw there (cases.1 there)
      | inr absent ↦ rw absent (cases.0 absent)
    ]
