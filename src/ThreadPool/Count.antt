-- ===== src/ThreadPool/Count.antt =====
-- bteng/concurrency/thread_pool.py: the count of pending tasks, whatever the threads do.
use bteng.Prelude.{
  ℕ, zero, suc, ◌+◌, ℤ, ◌≡◌, refl, sym, or_else, ap, ◌∙◌, Bool, true, false, not, Option, none,
  some, List, [], ◌∷◌, ◌++◌, get_elem?, set, get_elem?-set_self, All, subst, if◌then◌else◌, arith,
  Bool-cases, Option-cases, inl, inr,
}
use bteng.ThreadPool.{
  ThreadPool, Task, Phase, queued, running, returning, resolved, cancelled, new_pool, new_task,
  settle, with_phase, begin_submit, hand_over, start_task, finish_task, resolve_task, cancel_task,
  mark_stopped, close_executor, pending_tasks,
}

-- The tasks that are not settled.
unfoldable pub unsettled : List Task → ℕ
unsettled [] = 0
unsettled (t ∷ ts) = let others = unsettled ts in if t.settled then others else others + 1

abbrev IsAt : ThreadPool → ℕ → Phase → Type 0
IsAt p i phase = (t : Task) × (get_elem? p.tasks i ≡ some t) × (t.phase ≡ phase)

-- What the pool and the executor can do next, in any order and from any threads. `lost` counts the
-- calls of submit that were counted and then refused.
pub data Step : ThreadPool → ℕ → ThreadPool → ℕ → Type 0 where
  submits : {p p' : ThreadPool} {lost : ℕ} → begin_submit p ≡ some p' → Step p lost p' lost
  hands_over :
      {p : ThreadPool} {lost k : ℕ}
      → p.submitting ≡ suc k
      → p.executor_open ≡ true
      → Step p lost (hand_over p).0 lost
  is_refused :
      {p : ThreadPool} {lost k : ℕ}
      → p.submitting ≡ suc k
      → p.executor_open ≡ false
      → Step p lost (hand_over p).0 (suc lost)
  starts : {p : ThreadPool} {lost : ℕ} (i : ℕ) → IsAt p i queued → Step p lost (start_task i p) lost
  finishes :
      {p : ThreadPool} {lost : ℕ} (i : ℕ) → IsAt p i running → Step p lost (finish_task i p) lost
  resolves :
      {p : ThreadPool} {lost : ℕ} (i : ℕ) → IsAt p i returning → Step p lost (resolve_task i p) lost
  cancels :
      {p : ThreadPool} {lost : ℕ} (i : ℕ) → IsAt p i queued → Step p lost (cancel_task i p) lost
  stops : {p : ThreadPool} {lost : ℕ} → Step p lost (mark_stopped p) lost
  closes : {p : ThreadPool} {lost : ℕ} → p.stopped ≡ true → Step p lost (close_executor p) lost

pub data Run (start : ThreadPool) : ThreadPool → ℕ → Type 0 where
  here : Run start start 0
  more :
      {p p' : ThreadPool} {lost lost' : ℕ}
      → Run start p lost
      → Step p lost p' lost'
      → Run start p' lost'

Counts : ThreadPool → ℕ → Type 0
Counts p lost = p.pending_count ≡ unsettled p.tasks + p.submitting + lost

unsettled-append : (ts us : List Task) → unsettled (ts ++ us) ≡ unsettled ts + unsettled us
unfolding unsettled
unsettled-append [] us = omega arith
unsettled-append (t ∷ ts) us = let ih = unsettled-append ts us in ground arith

unsettled-new : (ts : List Task) → unsettled (ts ++ new_task ∷ []) ≡ unsettled ts + 1
unfolding unsettled
unsettled-new ts = unsettled-append ts (new_task ∷ [])

-- Another phase changes no count, and a settlement one.
unsettled-phase :
    (ts : List Task) (i : ℕ) (t : Task) (phase : Phase)
    → get_elem? ts i ≡ some t
    → unsettled (set ts i (record t { phase = phase })) ≡ unsettled ts
unfolding unsettled
unsettled-phase [] i t phase h = refl
unsettled-phase (u ∷ ts) zero t phase h =
    let e : u.settled ≡ t.settled = ap (λ o. elim o [ none ↦ u.settled | some v ↦ v.settled ]) h in
    rw e refl
unsettled-phase (u ∷ ts) (suc i) t phase h = let ih = unsettled-phase ts i t phase h in rw ih refl

unsettled-settle :
    (ts : List Task) (i : ℕ) (t : Task)
    → get_elem? ts i ≡ some t
    → t.settled ≡ false
    → unsettled (set ts i (record t { settled = true })) + 1 ≡ unsettled ts
unfolding unsettled
unsettled-settle [] i t h k = cc
unsettled-settle (u ∷ ts) zero t h k =
    let e : u.settled ≡ t.settled = ap (λ o. elim o [ none ↦ u.settled | some v ↦ v.settled ]) h in
    let e' : u.settled ≡ false = e ∙ k in rw e' refl
unsettled-settle (u ∷ ts) (suc i) t h k = let ih = unsettled-settle ts i t h k in ground arith

settle-Counts : (i : ℕ) (p : ThreadPool) (lost : ℕ) → Counts p lost → Counts (settle i p) lost
unfolding settle Counts
settle-Counts i p lost h = elim (Option-cases (get_elem? p.tasks i)) [
  | inl absent ↦ rw (settle, absent) h
  | inr (t, there) ↦ elim (Bool-cases t.settled) [
    | inl done ↦ rw (settle, there, done) h
    | inr open' ↦
        let e = unsettled-settle p.tasks i t there open' in
        rw (settle, there, open') (omega (arith, h, e))
  ]
]

with_phase-Counts :
    (i : ℕ) (phase : Phase) (p : ThreadPool) (lost : ℕ)
    → Counts p lost
    → Counts (with_phase i phase p) lost
unfolding Counts
with_phase-Counts i phase p lost h = elim (Option-cases (get_elem? p.tasks i)) [
  | inl absent ↦ rw (with_phase, absent) h
  | inr (t, there) ↦ rw (with_phase, there) (rw (unsettled-phase p.tasks i t phase there) h)
]

-- The tasks that have not returned: queued or running.
abbrev is_active : Phase → Bool
is_active queued = true
is_active running = true
is_active _ = false

pub active : List Task → ℕ
active [] = 0
active (t ∷ ts) = let others = active ts in if is_active t.phase then others + 1 else others

abbrev Fits : Task → Type 0
Fits t = t.settled ≡ not (is_active t.phase)

unsettled-active : (ts : List Task) → All Fits ts → unsettled ts ≡ active ts
unfolding unsettled active
unsettled-active [] h = refl
unsettled-active (t ∷ ts) h =
    let ih = unsettled-active ts h.1 in
    let fits = h.0 in
    rw fits (elim (Bool-cases (is_active t.phase)) [
      | inl yes' ↦ rw (yes', ih) refl
      | inr no' ↦ rw (no', ih) refl
    ])

set-All : (ts : List Task) (i : ℕ) (t : Task) → All Fits ts → Fits t → All Fits (set ts i t)
set-All [] i t hs h = tt
set-All (u ∷ ts) zero t hs h = (h, hs.1)
set-All (u ∷ ts) (suc i) t hs h = (hs.0, set-All ts i t hs.1 h)

append-All : (ts : List Task) (t : Task) → All Fits ts → Fits t → All Fits (ts ++ t ∷ [])
append-All [] t hs h = (h, tt)
append-All (u ∷ ts) t hs h = (hs.0, append-All ts t hs.1 h)

get-Fits : (ts : List Task) (i : ℕ) (t : Task) → All Fits ts → get_elem? ts i ≡ some t → Fits t
get-Fits [] i t hs h = cc
get-Fits (u ∷ ts) zero t hs h = subst Fits (ap (λ o. elim o [ none ↦ u | some v ↦ v ]) h) hs.0
get-Fits (u ∷ ts) (suc i) t hs h = get-Fits ts i t hs.1 h

set-set : (ts : List Task) (i : ℕ) (t u : Task) → set (set ts i t) i u ≡ set ts i u
set-set [] i t u = refl
set-set (v ∷ ts) zero t u = refl
set-set (v ∷ ts) (suc i) t u = ap (λ l. v ∷ l) (set-set ts i t u)

module _ (i : ℕ) (p : ThreadPool) (t : Task) (there : get_elem? p.tasks i ≡ some t) where
  with_phase_there :
      (phase : Phase)
      → with_phase i phase p ≡ record p { tasks = set p.tasks i (record t { phase = phase }) }
  with_phase_there phase = rw (with_phase, there) refl

  settle_open : t.settled ≡ false → (settle i p).tasks ≡ set p.tasks i (record t { settled = true })
  unfolding settle
  settle_open e = rw (settle, there, e) refl

  settle_done : t.settled ≡ true → settle i p ≡ p
  unfolding settle
  settle_done e = rw (settle, there, e) refl

-- A task that changes its phase and is settled with it.
settled-tasks :
    (i : ℕ) (phase : Phase) (p : ThreadPool) (t : Task)
    → get_elem? p.tasks i ≡ some t
    → (settle i (with_phase i phase p)).tasks
      ≡ set p.tasks i (record { phase = phase; settled = true })
settled-tasks i phase p t there =
    let t' : Task = record t { phase = phase } in
    let p' : ThreadPool = record p { tasks = set p.tasks i t' } in
    let there' = get_elem?-set_self p.tasks i t' there in
    ap (λ q. (settle i q).tasks) (with_phase_there i p t there phase)
    ∙ elim (Bool-cases t.settled) [
      | inl done ↦
          ap (λ q. q.tasks) (settle_done i p' t' there' done)
          ∙ ap (λ s. set p.tasks i (record { phase = phase; settled = s })) done
      | inr open' ↦
          settle_open i p' t' there' open' ∙ set-set p.tasks i t' (record t' { settled = true })
    ]

record IsSound (p : ThreadPool) (lost : ℕ) : Type 0 where
  counts : Counts p lost
  fits : All Fits p.tasks

begin_submit-IsSound :
    (p p' : ThreadPool) (lost : ℕ) → begin_submit p ≡ some p' → IsSound p lost → IsSound p' lost
unfolding begin_submit Counts
begin_submit-IsSound p p' lost e h = elim (Bool-cases p.stopped) [
  | inl stopped ↦ let no' : none ≡ some p' = rw (begin_submit, stopped) at e in cc
  | inr open' ↦
      let counted = record p {
        pending_count = p.pending_count + 1;
        submitting = p.submitting + 1;
      } in
      let same : some counted ≡ some p' =
        ap (λ s. if s then none else some counted) (sym open') ∙ e in
      subst (λ q. IsSound q lost) (ap (λ o. or_else o p) same)
        (record { counts = let c = h.counts in omega (arith, c); fits = h.fits })
]

step-IsSound :
    {p p' : ThreadPool} {lost lost' : ℕ} → Step p lost p' lost' → IsSound p lost → IsSound p' lost'
unfolding hand_over start_task finish_task resolve_task cancel_task mark_stopped close_executor
    Counts
step-IsSound {p} {p'} {lost} (submits e) h = begin_submit-IsSound p p' lost e h
step-IsSound {p} {lost = lost} (hands_over {k = k} one open') h = rw open' (record {
  counts = let c = h.counts in omega (arith, c, one, unsettled-new p.tasks);
  fits = append-All p.tasks new_task h.fits refl;
})
step-IsSound {p} {lost = lost} (is_refused {k = k} one shut) h =
    rw shut (record { counts = let c = h.counts in omega (arith, c, one); fits = h.fits })
step-IsSound {p} {lost = lost} (starts i (t, there, at)) h = record {
  counts = with_phase-Counts i running p lost h.counts;
  fits =
      rw (with_phase_there i p t there running)
        (set-All p.tasks i _ h.fits (get-Fits p.tasks i t h.fits there ∙ rw at refl));
}
step-IsSound {p} {lost = lost} (finishes i (t, there, at)) h = record {
  counts = settle-Counts i _ lost (with_phase-Counts i returning p lost h.counts);
  fits = rw (settled-tasks i returning p t there) (set-All p.tasks i _ h.fits refl);
}
step-IsSound {p} {lost = lost} (resolves i (t, there, at)) h = record {
  counts = settle-Counts i _ lost (with_phase-Counts i resolved p lost h.counts);
  fits = rw (settled-tasks i resolved p t there) (set-All p.tasks i _ h.fits refl);
}
step-IsSound {p} {lost = lost} (cancels i (t, there, at)) h = record {
  counts = settle-Counts i _ lost (with_phase-Counts i cancelled p lost h.counts);
  fits = rw (settled-tasks i cancelled p t there) (set-All p.tasks i _ h.fits refl);
}
step-IsSound stops h = record { counts = h.counts; fits = h.fits }
step-IsSound (closes e) h = record { counts = h.counts; fits = h.fits }

Run-IsSound :
    {start p : ThreadPool} {lost : ℕ} → IsSound start 0 → Run start p lost → IsSound p lost
Run-IsSound h here = h
Run-IsSound h (more r s) = step-IsSound s (Run-IsSound h r)

new_pool-IsSound : (cpu_count : Option ℕ) (n : ℤ) → IsSound (new_pool cpu_count n) 0
unfolding new_pool Counts unsettled
new_pool-IsSound cpu_count n = record { counts = refl; fits = tt }

-- Whatever the threads of a new pool do, in any order, `pending_tasks` is the number of the tasks that
-- are queued or running, and of the calls of submit that are under way, and of those that the executor
-- refused because `shutdown` came between the check of submit and its hand-over. A task is counted
-- down once, whether it returns, raises or is cancelled in the queue.
pub pending_tasks_lem :
    (cpu_count : Option ℕ) (n : ℤ) {p : ThreadPool} {lost : ℕ}
    → Run (new_pool cpu_count n) p lost
    → pending_tasks p ≡ active p.tasks + p.submitting + lost
unfolding pending_tasks Counts
pending_tasks_lem cpu_count n {p} {lost} r =
    let h = Run-IsSound (new_pool-IsSound cpu_count n) r in
    let c = h.counts in omega (arith, c, unsettled-active p.tasks h.fits)
