-- ===== src/ThreadPool/Wait.antt =====
-- bteng/concurrency/thread_pool.py: how long wait_all waits, and what its answer says.
use bteng.Prelude.{
  ℕ, zero, suc, ◌+◌, ◌≤◌, ℤ, ◌≡◌, ◌≢◌, refl, Bool, true, false, Option, some, ◌==◌, leb,
  is_positive, pos_part, arith, Bool-cases, inl, inr,
}
use bteng.ThreadPool.{Sight, wait_loop, wait_all}

-- What an answer says of the looks that were taken.
abbrev pub Explains : Sight → Bool → ℕ → Type 0
Explains sight true deadline = (j : ℕ) × ((sight j).1 ≡ 0)
Explains sight false deadline = (j : ℕ) × ((sight j).1 ≢ 0) × (deadline ≤ (sight j).0)

abbrev Answers : Sight → ℕ → Option Bool → Type 0
Answers sight deadline o = (b : Bool) × (o ≡ some b) × Explains sight b deadline

-- One look, with the rest of the loop, which has to answer if the look does not.
look :
    (sight : Sight) (deadline fuel k : ℕ)
    → ((sight k).1 ≢ 0
        → (leb deadline (sight k).0 ≡ false)
        → Answers sight deadline (wait_loop fuel sight deadline (k + 1)))
    → Answers sight deadline (wait_loop (suc fuel) sight deadline k)
unfolding wait_loop
look sight deadline fuel k rest = elim (Bool-cases ((sight k).1 == 0)) [
  | inl empty ↦ rw empty (true, refl, (k, ground arith))
  | inr pending ↦
      let some' : (sight k).1 ≢ 0 = λ e. ground arith in
      elim (Bool-cases (leb deadline (sight k).0)) [
        | inl late ↦ rw (pending, late) (false, refl, (k, some', ground arith))
        | inr early ↦ rw (pending, early) (rest some' early)
      ]
]

-- A loop that looks for the k-th time ends within d looks more, if the last is past the deadline.
wait_loop-ends :
    (sight : Sight) (deadline d k : ℕ)
    → deadline ≤ (sight (k + d)).0
    → Answers sight deadline (wait_loop (suc d) sight deadline k)
wait_loop-ends sight deadline zero k late =
    let late' : deadline ≤ (sight k).0 = let e : k + 0 ≡ k = omega arith in rw e at late in
    look sight deadline 0 k (λ pending early. ground arith)
wait_loop-ends sight deadline (suc d) k late =
    let e : k + suc d ≡ (k + 1) + d = omega arith in
    look sight deadline (suc d) k
      (λ pending early. wait_loop-ends sight deadline d (k + 1) (rw e at late))

-- With a positive timeout `wait_all` returns, at the latest at the look that finds the deadline passed;
-- true says that at one look nothing was pending, and false that at one look something was pending and
-- the deadline had passed.
pub wait_all-returns :
    (sight : Sight) (start d : ℕ) (timeout : ℤ)
    → is_positive timeout ≡ true
    → start + pos_part timeout ≤ (sight d).0
    → (b : Bool) × (wait_all (suc d) sight start timeout ≡ some b)
      × Explains sight b (start + pos_part timeout)
unfolding wait_all
wait_all-returns sight start d timeout positive late = rw positive (
    wait_loop-ends sight (start + pos_part timeout) d 0
      (let e : 0 + d ≡ d = omega arith in rw e late))
