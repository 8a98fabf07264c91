-- ===== src/Prelude/Buffer.antt =====
-- Buffers that keep their newest elements, oldest first: `collections.deque` with `maxlen`.
use Prim.Native.Nat.{ℕ, zero, suc, ◌+◌, ◌-◌, ◌≤◌, ◌<◌, min}
use mathlib.Core.Path.{◌≡◌, refl}
use mathlib.Core.Logic.{inl, inr}
use mathlib.Core.List.{List, [], ◌∷◌, ◌++◌}
use native.Mathlib.Omega.{arith}
use bteng.Prelude.Tests.{ltb, if◌then◌else◌, Bool-cases, ltb→lt, ltb→le}
use bteng.Prelude.Lists.{length, drop, length-append}

-- `popleft`, `pop(0)` or an eviction
unfoldable pub popleft {ℓ} : {A : Type ℓ} → List A → List A
popleft [] = []
popleft (x ∷ xs) = xs

-- The newest `n` of a list.
abbrev pub newest {ℓ} : {A : Type ℓ} → ℕ → List A → List A
newest n xs = drop (length xs - n) xs

-- append, then the eviction of the oldest if the bound is passed
unfoldable pub push {ℓ} : {A : Type ℓ} → ℕ → List A → A → List A
unfolding popleft
push n xs x = let all = xs ++ x ∷ [] in if ltb n (length all) then popleft all else all

module _ {ℓ} {A : Type ℓ} where
  pub length-drop : (n : ℕ) (xs : List A) → length (drop n xs) ≡ length xs - n
  length-drop zero xs = omega arith
  length-drop (suc n) [] = omega arith
  length-drop (suc n) (x ∷ xs) = omega (arith, length-drop n xs)

  drop-nil : (n : ℕ) → drop {A = A} n [] ≡ []
  drop-nil zero = refl
  drop-nil (suc n) = refl

  pub newest-nil : (n : ℕ) → newest {A = A} n [] ≡ []
  newest-nil n = drop-nil (0 - n)

  pub length-newest : (n : ℕ) (xs : List A) → length (newest n xs) ≡ min n (length xs)
  length-newest n xs = omega (arith, length-drop (length xs - n) xs)

  drop-drop : (m n : ℕ) (xs : List A) → drop m (drop n xs) ≡ drop (n + m) xs
  drop-drop m zero xs = let e : 0 + m ≡ m = omega arith in rw e refl
  drop-drop m (suc n) [] = let e : suc n + m ≡ suc (n + m) = omega arith in rw e (drop-nil m)
  drop-drop m (suc n) (x ∷ xs) =
      let e : suc n + m ≡ suc (n + m) = omega arith in rw e (drop-drop m n xs)

  pub newest-newest : (m n : ℕ) (xs : List A) → newest m (newest n xs) ≡ newest (min m n) xs
  newest-newest m n xs =
      let e : (length xs - n) + (length (newest n xs) - m) ≡ length xs - min m n =
        omega (arith, length-newest n xs) in
      rw (drop-drop (length (newest n xs) - m) (length xs - n) xs, e)

  popleft-drop-snoc :
      (k : ℕ) (xs : List A) (x : A)
      → k ≤ length xs
      → popleft (drop k xs ++ x ∷ []) ≡ drop (suc k) (xs ++ x ∷ [])
  unfolding popleft
  popleft-drop-snoc zero [] x h = refl
  popleft-drop-snoc zero (y ∷ xs) x h = refl
  popleft-drop-snoc (suc k) [] x h = elim h [ ]
  popleft-drop-snoc (suc k) (y ∷ xs) x h = popleft-drop-snoc k xs x (omega arith)

  length-snoc : (xs : List A) (x : A) → length (xs ++ x ∷ []) ≡ length xs + 1
  length-snoc xs x = length-append xs (x ∷ [])

  -- Appending to a bounded buffer keeps the newest.
  pub push-newest : (n : ℕ) (xs : List A) (x : A) → push n (newest n xs) x ≡ newest n (xs ++ x ∷ [])
  unfolding push
  push-newest n xs x =
      let kept = newest n xs in
      elim (Bool-cases (ltb n (length (kept ++ x ∷ [])))) [
        | inl long ↦
            let e : length (xs ++ x ∷ []) - n ≡ suc (length xs - n) = omega (
              arith,
              ltb→lt n (length (kept ++ x ∷ [])) long,
              length-snoc kept x,
              length-snoc xs x,
              length-drop (length xs - n) xs,
            ) in
            rw (long, e) (popleft-drop-snoc (length xs - n) xs x (omega arith))
        | inr short ↦
            let lt : length xs < n = omega (
              arith,
              ltb→le n (length (kept ++ x ∷ [])) short,
              length-snoc kept x,
              length-drop (length xs - n) xs,
            ) in
            let e : length (xs ++ x ∷ []) - n ≡ 0 = omega (arith, length-snoc xs x) in
            let e' : length xs - n ≡ 0 = omega arith in rw short (rw e (rw e'))
      ]
