-- ===== src/Prelude/Table.antt =====
-- Python's `dict` and `set` over node and subscription ids: an association list in insertion order,
-- and a list without repetitions.
use Prim.Native.Nat.{ℕ}
use mathlib.Core.Path.{◌≡◌, refl}
use mathlib.Core.Option.{Option, none, some}
use mathlib.Core.Bool.{Bool, true, false}
use mathlib.Core.Logic.{inl, inr}
use mathlib.Core.List.{List, [], ◌∷◌, ◌++◌}
use native.Mathlib.Omega.{arith}
use bteng.Prelude.Tests.{if◌then◌else◌, ◌==◌, Bool-cases}

module _ {ℓ} {V : Type ℓ} where
  -- d.get(key)
  unfoldable pub find : ℕ → List (ℕ × V) → Option V
  find key [] = none
  find key ((own, value) ∷ others) =
      let below = find key others in if own == key then some value else below

  -- d[key] = new: a key that is there keeps its place
  unfoldable pub put : ℕ → V → List (ℕ × V) → List (ℕ × V)
  put key new [] = (key, new) ∷ []
  put key new ((own, old) ∷ others) =
      let below = put key new others in
      if own == key then (own, new) ∷ others else (own, old) ∷ below

  -- d.pop(key, None)
  unfoldable pub pop : ℕ → List (ℕ × V) → List (ℕ × V)
  pop key [] = []
  pop key ((own, value) ∷ others) =
      let below = pop key others in if own == key then below else (own, value) ∷ below

  pub find-put :
      (key other : ℕ) (new : V) (d : List (ℕ × V))
      → find other (put key new d) ≡ (if key == other then some new else find other d)
  unfolding find put
  find-put key other new [] = refl
  find-put key other new ((own, old) ∷ rest) = let ih = find-put key other new rest in ground arith

  pub find-pop :
      (key other : ℕ) (d : List (ℕ × V))
      → find other (pop key d) ≡ (if key == other then none else find other d)
  unfolding find pop
  find-pop key other [] = ground arith
  find-pop key other ((own, value) ∷ rest) = let ih = find-pop key other rest in ground arith

-- i in s
unfoldable pub member : ℕ → List ℕ → Bool
member i [] = false
member i (j ∷ js) = let below = member i js in if j == i then true else below

-- s.discard(i)
unfoldable pub without : ℕ → List ℕ → List ℕ
without i [] = []
without i (j ∷ js) = let below = without i js in if j == i then below else j ∷ below

abbrev pub IsDistinct : List ℕ → Type 0
IsDistinct [] = Unit
IsDistinct (i ∷ is) = (member i is ≡ false) × IsDistinct is

pub member-without :
    (i j : ℕ) (xs : List ℕ) → member j (without i xs) ≡ (if i == j then false else member j xs)
unfolding member without
member-without i j [] = ground arith
member-without i j (x ∷ xs) = let ih = member-without i j xs in ground arith

pub member-snoc :
    (i j : ℕ) (xs : List ℕ) → member j (xs ++ i ∷ []) ≡ (if i == j then true else member j xs)
unfolding member
member-snoc i j [] = refl
member-snoc i j (x ∷ xs) = let ih = member-snoc i j xs in ground arith

pub without-IsDistinct : (i : ℕ) (xs : List ℕ) → IsDistinct xs → IsDistinct (without i xs)
unfolding without
without-IsDistinct i [] h = tt
without-IsDistinct i (x ∷ xs) h = elim (Bool-cases (x == i)) [
  | inl same ↦ rw same (without-IsDistinct i xs h.1)
  | inr other ↦
      let fresh : member x (without i xs) ≡ false =
        let e = member-without i x xs in let absent = h.0 in ground arith in
      rw other (fresh, without-IsDistinct i xs h.1)
]

pub snoc-IsDistinct :
    (i : ℕ) (xs : List ℕ) → member i xs ≡ false → IsDistinct xs → IsDistinct (xs ++ i ∷ [])
unfolding member
snoc-IsDistinct i [] absent h = (refl, tt)
snoc-IsDistinct i (x ∷ xs) absent h =
    let absent' : member i xs ≡ false = ground arith in
    let fresh : member x (xs ++ i ∷ []) ≡ false =
      let e = member-snoc i x xs in let own = h.0 in ground arith in
    (fresh, snoc-IsDistinct i xs absent' h.1)
