-- ===== src/Prelude/Dict.antt =====
-- Python's `dict` with text keys, as an association list in insertion order.
use Prim.Native.String.{String}
use mathlib.Core.Path.{◌≡◌, refl}
use mathlib.Core.Option.{Option, none, some}
use mathlib.Core.List.{List, [], ◌∷◌, map}
use native.Mathlib.Omega.{arith}
use text.Mathlib.Text.{◌==◌}
use text.Mathlib.TextEquality.{eq_iff}
use bteng.Prelude.Tests.{if◌then◌else◌}

module _ {ℓ} {V : Type ℓ} where
  -- d.get(key)
  unfoldable pub lookup : String → List (String × V) → Option V
  lookup key [] = none
  lookup key ((own, value) ∷ others) =
      let below = lookup key others in if own == key then some value else below

  -- d[key] = new: a key that is there keeps its place
  unfoldable pub insert : String → V → List (String × V) → List (String × V)
  insert key new [] = (key, new) ∷ []
  insert key new ((own, old) ∷ others) =
      let below = insert key new others in
      if own == key then (own, new) ∷ others else (own, old) ∷ below

  -- d.pop(key, None)
  unfoldable pub erase : String → List (String × V) → List (String × V)
  erase key [] = []
  erase key ((own, value) ∷ others) =
      let below = erase key others in if own == key then below else (own, value) ∷ below

  pub lookup-insert :
      (key other : String) (new : V) (d : List (String × V))
      → lookup other (insert key new d) ≡ (if key == other then some new else lookup other d)
  unfolding lookup insert
  lookup-insert key other new [] = refl
  lookup-insert key other new ((own, old) ∷ rest) =
      let ih = lookup-insert key other new rest in
      ground (arith, eq_iff own key, eq_iff key other, eq_iff own other)

  pub lookup-erase :
      (key other : String) (d : List (String × V))
      → lookup other (erase key d) ≡ (if key == other then none else lookup other d)
  unfolding lookup erase
  lookup-erase key other [] = ground arith
  lookup-erase key other ((own, value) ∷ rest) =
      let ih = lookup-erase key other rest in
      ground (arith, eq_iff own key, eq_iff key other, eq_iff own other)

module _ {ℓ} {V : Type ℓ} where
  abbrev pub keys : List (String × V) → List String
  keys m = map (λ e. e.0) m

  -- The entries under a dictionary's keys, one after another.
  abbrev pub values : List (String × V) → List V
  values m = map (λ e. e.1) m
