-- ===== src/Tick/Thresholds.antt =====
-- bteng/nodes/control/parallel.py: the effective thresholds and the verdict on the counts.

use bteng.Prelude.{
  ℕ, zero, suc, ◌+◌, ◌≤◌, ◌<◌, ◌≡◌, refl, ℤ, Bool, true, false, Option, none, some, List, [], ◌∷◌,
  length, arith, ap, subst,
}
use bteng.Value.{Status, idle, running, success, failure}
use bteng.World.{World, Host}
use bteng.Node.{
  Node, Base, Parallel, ParallelPolicy, require_one_success, require_all_success,
  require_all_complete, status,
}
use bteng.Tick.{Outcome, returned, invalid, raised, Error, Child, untouched}
use bteng.Tick.Parallel.{
  effective_thresholds, clamp_success, clamp_failure, verdict, parallel_loop, tick_parallel,
  parallel_result, threshold_from_port, Counted, count_ticked, count_child,
}

pub record IsThreshold (n t : ℕ) : Type 0 where
  pub lower : 1 ≤ t
  pub upper : t ≤ n

clamp_success-IsThreshold : (raw : ℤ) (n : ℕ) → 1 ≤ n → IsThreshold n (clamp_success raw n)
unfolding clamp_success
clamp_success-IsThreshold raw n h = record { lower = ground arith; upper = ground arith }

clamp_failure-IsThreshold : (raw : ℤ) (n : ℕ) → 1 ≤ n → IsThreshold n (clamp_failure raw n)
unfolding clamp_failure
clamp_failure-IsThreshold raw n h = record { lower = ground arith; upper = ground arith }

whole : (n : ℕ) → 1 ≤ n → IsThreshold n n
whole n h = record { lower = h; upper = omega arith }

one : (n : ℕ) → 1 ≤ n → IsThreshold n 1
one n h = record { lower = omega arith; upper = h }

-- With at least one child both thresholds are between 1 and the number of children, whatever the
-- policy and the ports say.
effective_thresholds-IsThreshold :
    (policy : Option ParallelPolicy) (raw_success raw_failure : ℤ) (n : ℕ)
    → 1 ≤ n
    → IsThreshold n (effective_thresholds policy raw_success raw_failure n).0
      × IsThreshold n (effective_thresholds policy raw_success raw_failure n).1
unfolding effective_thresholds
effective_thresholds-IsThreshold policy s f zero h = absurd (omega arith)
effective_thresholds-IsThreshold none s f (suc n) h =
    (clamp_success-IsThreshold s (suc n) h, clamp_failure-IsThreshold f (suc n) h)
effective_thresholds-IsThreshold (some require_one_success) s f (suc n) h =
    (one (suc n) h, whole (suc n) h)
effective_thresholds-IsThreshold (some require_all_success) s f (suc n) h =
    (whole (suc n) h, one (suc n) h)
effective_thresholds-IsThreshold (some require_all_complete) s f (suc n) h =
    (clamp_success-IsThreshold s (suc n) h, whole (suc n) h)

-- What the children say, in their order: one that has completed says so again, and is not ticked.
abbrev pub say : Status → Outcome → List Outcome → List Outcome → List Outcome
say success o passed ticked = returned success ∷ passed
say failure o passed ticked = returned failure ∷ passed
say s o passed ticked = o ∷ ticked

unfoldable pub results : List Child → World → List Outcome
results [] w = []
results (c ∷ cs) w =
    let passed = results cs w in
    let t = c.run w in
    let ticked = results cs t.world in say (status c.node) t.outcome passed ticked

unfoldable pub successes_in : List Outcome → ℕ
successes_in [] = 0
successes_in (returned success ∷ os) = suc (successes_in os)
successes_in (o ∷ os) = successes_in os

unfoldable pub failures_in : List Outcome → ℕ
failures_in [] = 0
failures_in (returned failure ∷ os) = suc (failures_in os)
failures_in (o ∷ os) = failures_in os

-- One of them is neither SUCCESS nor FAILURE.
abbrev pub HasOpen : List Outcome → Type 0
HasOpen [] = ⊥
HasOpen (returned success ∷ os) = HasOpen os
HasOpen (returned failure ∷ os) = HasOpen os
HasOpen (o ∷ os) = Unit

few-HasOpen : (os : List Outcome) → successes_in os + failures_in os < length os → HasOpen os
unfolding successes_in failures_in
few-HasOpen [] h = absurd (omega arith)
few-HasOpen (returned success ∷ os) h = few-HasOpen os (omega arith)
few-HasOpen (returned failure ∷ os) h = few-HasOpen os (omega arith)
few-HasOpen (returned idle ∷ os) h = tt
few-HasOpen (returned running ∷ os) h = tt
few-HasOpen (invalid ∷ os) h = tt
few-HasOpen (raised e ∷ os) h = tt

-- Without an exception, the counts are those of what the children say.
IsTold : Counted → List Outcome → Type 0
IsTold r os = r.error ≡ none → (r.successes ≡ successes_in os) × (r.failures ≡ failures_in os)

count_ticked-IsTold :
    (o : Outcome) (n : Node) (later : List Node) (w : World) (rest : Counted) (os : List Outcome)
    → IsTold rest os
    → IsTold (count_ticked o n later w rest) (o ∷ os)
unfolding IsTold count_ticked successes_in failures_in
count_ticked-IsTold (returned success) n later w rest os h = λ e. (ap suc (h e).0, (h e).1)
count_ticked-IsTold (returned failure) n later w rest os h = λ e. ((h e).0, ap suc (h e).1)
count_ticked-IsTold (returned idle) n later w rest os h = h
count_ticked-IsTold (returned running) n later w rest os h = h
count_ticked-IsTold invalid n later w rest os h = h
count_ticked-IsTold (raised x) n later w rest os h = λ e. cc

count_child-IsTold :
    (s : Status) (o : Outcome) (n : Node) (skipped ticked : Counted) (passed os : List Outcome)
    → IsTold skipped passed
    → IsTold ticked (o ∷ os)
    → IsTold (count_child s n skipped ticked) (say s o passed os)
unfolding IsTold count_child successes_in failures_in
count_child-IsTold success o n skipped ticked passed os h k = λ e. (ap suc (h e).0, (h e).1)
count_child-IsTold failure o n skipped ticked passed os h k = λ e. ((h e).0, ap suc (h e).1)
count_child-IsTold idle o n skipped ticked passed os h k = k
count_child-IsTold running o n skipped ticked passed os h k = k

parallel_loop-IsTold : (cs : List Child) (w : World) → IsTold (parallel_loop cs w) (results cs w)
unfolding IsTold parallel_loop results successes_in failures_in
parallel_loop-IsTold [] w = λ e. (refl, refl)
parallel_loop-IsTold (c ∷ cs) w =
    let t = c.run w in
    count_child-IsTold (status c.node) t.outcome c.node (parallel_loop cs w) _ (results cs w)
      (results cs t.world) (parallel_loop-IsTold cs w)
      (count_ticked-IsTold t.outcome t.node (untouched cs) t.world (parallel_loop cs t.world)
        (results cs t.world) (parallel_loop-IsTold cs t.world))

length-say :
    (s : Status) (o : Outcome) (passed ticked : List Outcome) (n : ℕ)
    → length passed ≡ n
    → length ticked ≡ n
    → length (say s o passed ticked) ≡ suc n
length-say success o passed ticked n h k = ap suc h
length-say failure o passed ticked n h k = ap suc h
length-say idle o passed ticked n h k = ap suc k
length-say running o passed ticked n h k = ap suc k

length-results : (cs : List Child) (w : World) → length (results cs w) ≡ length cs
unfolding results
length-results [] w = refl
length-results (c ∷ cs) w =
    let t = c.run w in
    length-say (status c.node) t.outcome (results cs w) (results cs t.world) (length cs)
      (length-results cs w) (length-results cs t.world)

-- Neither count has reached its threshold, if all need not be waited for.
abbrev pub IsBelow : Option ParallelPolicy → ℕ × ℕ → ℕ → ℕ → Type 0
IsBelow (some require_all_complete) (s, f) successes failures = Unit
IsBelow policy (s, f) successes failures = (successes < s) × (failures < f)

verdict-IsBelow :
    (policy : Option ParallelPolicy) (thresholds : ℕ × ℕ) (n successes failures : ℕ)
    → verdict policy thresholds n successes failures ≡ none
    → IsBelow policy thresholds successes failures × (successes + failures < n)
unfolding verdict
verdict-IsBelow none (s, f) n a b e = ground arith
verdict-IsBelow (some require_one_success) (s, f) n a b e = ground arith
verdict-IsBelow (some require_all_success) (s, f) n a b e = ground arith
verdict-IsBelow (some require_all_complete) (s, f) n a b e = (tt, ground arith)

parallel_result-running :
    (host : Host) (b : Base) (p : Parallel) (e : Option Error) (v : Option Bool) (ns : List Node)
    (w : World)
    → (parallel_result host b p e v ns w).outcome ≡ returned running
    → (e ≡ none) × (v ≡ none)
unfolding parallel_result
parallel_result-running host b p (some e) v ns w h = cc
parallel_result-running host b p none none ns w h = (refl, refl)
parallel_result-running host b p none (some true) ns w h = cc
parallel_result-running host b p none (some false) ns w h = cc

-- The thresholds of a tick over `n` children.
abbrev pub thresholds_of : World → Base → Parallel → ℕ → ℕ × ℕ
thresholds_of w b p n =
    effective_thresholds p.policy
      (threshold_from_port w b "success_threshold" p.raw_success_threshold)
      (threshold_from_port w b "failure_threshold" p.failure_threshold) n

-- A tick over at least one child returns RUNNING only while a child is open, which means that it is
-- neither complete from before nor has its tick given SUCCESS or FAILURE. Both thresholds lie between
-- 1 and the number of children, and but for REQUIRE_ALL_COMPLETE fewer children than the first are
-- at SUCCESS and fewer than the second at FAILURE.
pub tick_parallel-running :
    (host : Host) (b : Base) (p : Parallel) (c : Child) (cs : List Child) (w : World)
    → (tick_parallel host b p (c ∷ cs) w).outcome ≡ returned running
    → let n = length (c ∷ cs) in
      let os = results (c ∷ cs) w in
      IsThreshold n (thresholds_of w b p n).0
      × IsThreshold n (thresholds_of w b p n).1
      × IsBelow p.policy (thresholds_of w b p n) (successes_in os) (failures_in os)
      × HasOpen os
unfolding tick_parallel IsTold
tick_parallel-running host b p c cs w h =
    let n = length (c ∷ cs) in
    let r = parallel_loop (c ∷ cs) w in
    let os = results (c ∷ cs) w in
    let t = thresholds_of w b p n in
    let bounds =
      effective_thresholds-IsThreshold p.policy
        (threshold_from_port w b "success_threshold" p.raw_success_threshold)
        (threshold_from_port w b "failure_threshold" p.failure_threshold) n (omega arith) in
    let calm =
      parallel_result-running host b p r.error (verdict p.policy t n r.successes r.failures) r.nodes
        r.world h in
    let below = verdict-IsBelow p.policy t n r.successes r.failures calm.1 in
    let told = parallel_loop-IsTold (c ∷ cs) w calm.0 in
    let few : successes_in os + failures_in os < length os =
      let len = length-results (c ∷ cs) w in
      let a = told.0 in let b' = told.1 in let lt = below.1 in omega arith in
    (
      bounds.0,
      bounds.1,
      subst (λ a. IsBelow p.policy t a (failures_in os)) told.0
          (subst (λ f. IsBelow p.policy t r.successes f) told.1 below.0),
      few-HasOpen os few,
    )
