-- ===== src/Blackboard/Cells.antt =====
-- bteng/blackboard/blackboard.py: the cell that a key names in a scope.
use bteng.Prelude.{
  ℕ, zero, suc, ◌<◌, String, ◌≡◌, ◌∙◌, Bool, Option, none, some, List, get_elem?, set,
  get_elem?_below, arith, Option-cases, inl, inr,
}
use bteng.Prelude.Dict.{lookup}
use bteng.Value.{Value}
use bteng.Blackboard.{Board, Callback, remove_cell}
use bteng.Blackboard.Scopes.{redirect, set_here, set_key, own_value, get, remove, entry}

-- A parent stands before its child, as it was created first.
pub record IsScoped (bs : List Board) : Type 0 where
  pub parent_below : (i p : ℕ) (b : Board) → get_elem? bs i ≡ some b → b.parent ≡ some p → p < i

-- Where a key of a scope is stored: the scope and the key behind all remappings.
unfoldable pub locate : ℕ → List Board → ℕ → String → ℕ × String
locate zero bs id key = (id, key)
locate (suc fuel) bs id key = elim (get_elem? bs id) [
  | none ↦ (id, key)
  | some b ↦ elim (redirect b key) [ some (p, k) ↦ locate fuel bs p k | none ↦ (id, key) ]
]

pub redirect-parent :
    (b : Board) (key : String) {p : ℕ} {k : String}
    → redirect b key ≡ some (p, k)
    → b.parent ≡ some p
unfolding redirect
redirect-parent b key e = ground arith

-- One step of each recursion, at a key of the scope itself.
module _ (fuel : ℕ) (bs : List Board) (id : ℕ) (key : String) (b : Board)
    (at : get_elem? bs id ≡ some b) (own : redirect b key ≡ none) where
  locate_own : locate (suc fuel) bs id key ≡ (id, key)
  unfolding locate
  locate_own = ground arith

  entry_own : entry (suc fuel) bs id key ≡ lookup key b.entries
  unfolding entry
  entry_own = ground arith

  remove_own : remove (suc fuel) bs id key ≡ set bs id (remove_cell b key)
  unfolding remove
  remove_own = ground arith

  pub get_own : (d v : Value) → own_value b key ≡ some v → get (suc fuel) bs id key d ≡ v
  unfolding get
  get_own d v e = ground arith

  pub set_key_own :
      (alive : Callback → Bool) (now : ℕ) (v : Value) (writer : Option ℕ)
      → set_key alive now (suc fuel) bs id key v writer
        ≡ (set bs id (set_here alive now b key v writer).0, (set_here alive now b key v writer).1)
  unfolding set_key
  set_key_own alive now v writer = ground arith

-- The same at a key that the remapping sends to the parent.
module _ (fuel : ℕ) (bs : List Board) (id : ℕ) (key : String) (b : Board) {p : ℕ} {k : String}
    (at : get_elem? bs id ≡ some b) (away : redirect b key ≡ some (p, k)) where
  locate_away : locate (suc fuel) bs id key ≡ locate fuel bs p k
  unfolding locate
  locate_away = ground arith

  entry_away : entry (suc fuel) bs id key ≡ entry fuel bs p k
  unfolding entry
  entry_away = ground arith

  remove_away : remove (suc fuel) bs id key ≡ remove fuel bs p k
  unfolding remove
  remove_away = ground arith

  pub get_away : (d : Value) → get (suc fuel) bs id key d ≡ get fuel bs p k d
  unfolding get
  get_away d = ground arith

  pub set_key_away :
      (alive : Callback → Bool) (now : ℕ) (v : Value) (writer : Option ℕ)
      → set_key alive now (suc fuel) bs id key v writer ≡ set_key alive now fuel bs p k v writer
  unfolding set_key
  set_key_away alive now v writer = ground arith

-- What the operations do at the located cell.
pub record CellLaws (alive : Callback → Bool) (now : ℕ) (bs : List Board) (fuel id : ℕ)
    (key : String) (cell : ℕ × String) : Type 0 where
  pub scope : Board
  pub at : get_elem? bs cell.0 ≡ some scope
  pub own : redirect scope cell.1 ≡ none
  pub below : cell.0 < suc id
  pub entries : entry fuel bs id key ≡ lookup cell.1 scope.entries
  pub removal : remove fuel bs id key ≡ set bs cell.0 (remove_cell scope cell.1)
  pub writing :
      (v : Value) (writer : Option ℕ)
      → set_key alive now fuel bs id key v writer ≡ (
        set bs cell.0 (set_here alive now scope cell.1 v writer).0,
        (set_here alive now scope cell.1 v writer).1,
      )

-- Where parents stand before their children, with more steps than the scope's place: `set`, `remove`
-- and `entry` work on one cell, that of `locate`, in a scope no younger than the one that was asked
-- and that does not redirect the key further.
pub operations_agree :
    (alive : Callback → Bool) (now : ℕ) (bs : List Board) (fuel id : ℕ) (key : String) (b : Board)
    → IsScoped bs
    → id < fuel
    → get_elem? bs id ≡ some b
    → CellLaws alive now bs fuel id key (locate fuel bs id key)
operations_agree alive now bs zero id key b scoped lt at = elim lt [ ]
operations_agree alive now bs (suc fuel) id key b scoped lt at =
    elim (Option-cases (redirect b key)) [
      | inl own ↦ rw (locate_own fuel bs id key b at own) (record {
        scope = b;
        at = at;
        own = own;
        below = omega arith;
        entries = entry_own fuel bs id key b at own;
        removal = remove_own fuel bs id key b at own;
        writing = set_key_own fuel bs id key b at own alive now;
      })
      | inr ((p, k), away) ↦
          let lt' : p < id = scoped.parent_below id p b at (redirect-parent b key away) in
          let (q, at') = get_elem?_below bs id p at lt' in
          let laws = operations_agree alive now bs fuel p k q scoped (omega arith) at' in
          rw (locate_away fuel bs id key b at away) (record {
            scope = laws.scope;
            at = laws.at;
            own = laws.own;
            below = omega (arith, laws.below);
            entries = entry_away fuel bs id key b at away ∙ laws.entries;
            removal = remove_away fuel bs id key b at away ∙ laws.removal;
            writing = λ v writer.
                set_key_away fuel bs id key b at away alive now v writer ∙ laws.writing v writer;
          })
    ]
