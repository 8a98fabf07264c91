-- ===== src/AsyncAction/Served.antt =====
-- bteng/nodes/leaf/async_action.py: a node that is RUNNING is served.
use bteng.Prelude.{
  ℕ, ◌≡◌, refl, true, false, Bool-cases, inl, inr, ◌⊎◌, Option, none, some, is_some, List, [], ◌∷◌,
  ◌==◌, ◌≢◌, arith, String, ap, Bool,
}
use bteng.Value.{Status, idle, running, success, failure, is_status}
use bteng.Tick.Reactive.{mem}
use bteng.Executor.{discard}
use bteng.AsyncAction.{
  Work, AsyncAction, Workers, find_done, settled, start, poll, tick, conclude, halt, reset, publish,
}
use bteng.AsyncAction.Steps.{
  System, ticked, halted, after_reset, Step, tick_step, halt_step, reset_step, begin, end_pool,
  end_thread, pool_stops, inject, Reach, here, more,
}

-- Someone still works on the node's run, or its result is there.
abbrev pub Served : Option ℕ → Option ℕ → Option Status → Workers → Type 0
Served (some i) thread result ws =
    (mem i ws.queued ≡ true) ⊎ ((mem i ws.started ≡ true) ⊎ (is_some (find_done i ws.done) ≡ true))
Served none thread (some s) ws = Unit
Served none (some i) none ws = mem i ws.threads ≡ true
Served none none none ws = ⊥

abbrev pub IsServed : System → Type 0
IsServed s = s.node.status ≡ running → Served s.node.future s.node.thread s.node.result s.workers

mem-discard :
    (i j : ℕ) (xs : List ℕ) → (j == i) ≡ false → mem j xs ≡ true → mem j (discard i xs) ≡ true
unfolding mem discard
mem-discard i j [] e h = cc
mem-discard i j (x ∷ xs) e h = elim (Bool-cases (x == j)) [
  | inl same ↦ let kept : (x == i) ≡ false = ground arith in rw (kept, same) refl
  | inr other ↦
      let below : mem j (discard i xs) ≡ true = mem-discard i j xs e (rw other at h) in
      elim (Bool-cases (x == i)) [ inl gone ↦ rw gone below | inr kept ↦ rw (kept, other) below ]
]

mem-here : (i : ℕ) (xs : List ℕ) → mem i (i ∷ xs) ≡ true
unfolding mem
mem-here i xs = ground arith

mem-later : (i j : ℕ) (xs : List ℕ) → mem j xs ≡ true → mem j (i ∷ xs) ≡ true
unfolding mem
mem-later i j xs h = ground arith

mem-same : (i j : ℕ) (xs : List ℕ) → (j == i) ≡ true → mem j (i ∷ xs) ≡ true
unfolding mem
mem-same i j xs h = ground arith

begin-Served :
    (i : ℕ) (future thread : Option ℕ) (result : Option Status) (ws : Workers)
    → Served future thread result ws
    → Served future thread result
        (record ws { queued = discard i ws.queued; started = i ∷ ws.started })
begin-Served i (some j) thread result ws (inl queued) = elim (Bool-cases (j == i)) [
  | inl same ↦ inr (inl (mem-same i j ws.started same))
  | inr other ↦ inl (mem-discard i j ws.queued other queued)
]
begin-Served i (some j) thread result ws (inr (inl started)) =
    inr (inl (mem-later i j ws.started started))
begin-Served i (some j) thread result ws (inr (inr done)) = inr (inr done)
begin-Served i none thread (some s) ws h = tt
begin-Served i none (some j) none ws h = h
begin-Served i none none none ws h = h

find_done-same :
    (i j : ℕ) (work : Work) (ds : List (ℕ × Work))
    → (j == i) ≡ true
    → is_some (find_done j ((i, work) ∷ ds)) ≡ true
unfolding find_done
find_done-same i j work ds h = ground arith

find_done-later :
    (i j : ℕ) (work : Work) (ds : List (ℕ × Work))
    → is_some (find_done j ds) ≡ true
    → is_some (find_done j ((i, work) ∷ ds)) ≡ true
unfolding find_done
find_done-later i j work ds h = ground arith

end_pool-Served :
    (i : ℕ) (work : Work) (future thread : Option ℕ) (result : Option Status) (ws : Workers)
    → Served future thread result ws
    → Served future thread result
        (record ws { started = discard i ws.started; done = (i, work) ∷ ws.done })
end_pool-Served i work (some j) thread result ws (inl queued) = inl queued
end_pool-Served i work (some j) thread result ws (inr (inl started)) = elim (Bool-cases (j == i)) [
  | inl same ↦ inr (inr (find_done-same i j work ws.done same))
  | inr other ↦ inr (inl (mem-discard i j ws.started other started))
]
end_pool-Served i work (some j) thread result ws (inr (inr done)) =
    inr (inr (find_done-later i j work ws.done done))
end_pool-Served i work none thread (some s) ws h = tt
end_pool-Served i work none (some j) none ws h = h
end_pool-Served i work none none none ws h = h

end_thread-Served :
    (i : ℕ) (s : Status) (future thread : Option ℕ) (result : Option Status) (ws : Workers)
    → Served future thread result ws
    → Served future thread (some s) (record ws { threads = discard i ws.threads })
end_thread-Served i s (some j) thread result ws h = h
end_thread-Served i s none thread result ws h = tt

start-Served :
    (n : AsyncAction) (ws : Workers)
    → n.status ≢ running
    → (conclude (start n ws).0 (start n ws).1).status ≡ running
    → Served
        (conclude (start n ws).0 (start n ws).1).future
        (conclude (start n ws).0 (start n ws).1).thread
        (conclude (start n ws).0 (start n ws).1).result
        (start n ws).2
unfolding start conclude
start-Served n ws off = elim (Bool-cases n.thread_pool) [
  | inl pool ↦ elim (Bool-cases ws.stopped) [
    | inl stopped ↦ rw (pool, stopped) (λ e. absurd (off e))
    | inr working ↦ rw (pool, working) (λ e. inl (mem-here ws.next ws.queued))
  ]
  | inr own ↦ rw own (λ e. mem-here ws.next ws.threads)
]

-- What the check for completion leaves alone.
poll-Served :
    (o : Option (Status × Option String)) (n : AsyncAction) (ws : Workers)
    → Served n.future n.thread n.result ws
    → Served (poll o n).1.future (poll o n).1.thread (poll o n).1.result ws
unfolding poll
poll-Served none n ws h = h
poll-Served (some (s, f)) n ws h = h

conclude-Served :
    (s : Status) (n : AsyncAction) (ws : Workers)
    → Served n.future n.thread n.result ws
    → Served
        (conclude (some s) n).future
        (conclude (some s) n).thread
        (conclude (some s) n).result
        ws
unfolding conclude
conclude-Served idle n ws h = h
conclude-Served running n ws h = h
conclude-Served success n ws h = h
conclude-Served failure n ws h = h

on-status : (s : Status) → is_status s running ≡ true → s ≡ running
on-status s h = ground arith

off-status : (s : Status) → is_status s running ≡ false → s ≢ running
off-status s h e = let k = ap (λ t. is_status t running) e in ground arith

ticked-IsServed : (s : System) → IsServed s → IsServed (ticked s)
unfolding tick
ticked-IsServed s h = elim (Bool-cases (is_status s.node.status running)) [
  | inl on ↦ rw on (λ e.
      conclude-Served (poll (settled s.node s.workers) s.node).0
        (poll (settled s.node s.workers) s.node).1 s.workers
        (poll-Served (settled s.node s.workers) s.node s.workers (h (on-status s.node.status on))))
  | inr off ↦ rw off (start-Served s.node s.workers (λ e. off-status s.node.status off e))
]

halted-IsServed : (s : System) → IsServed (halted s)
unfolding halt
halted-IsServed s = elim (Bool-cases (is_status s.node.status running)) [
  | inl on ↦ rw on (λ e. cc)
  | inr off ↦ rw off (λ e. cc)
]

after_reset-IsServed : (s : System) → IsServed (after_reset s)
unfolding reset
after_reset-IsServed s = λ e. cc

same_workers :
    (future thread : Option ℕ) (result : Option Status) (ws : Workers) (stopped : Bool)
    → Served future thread result ws
    → Served future thread result (record ws { stopped = stopped })
same_workers (some i) thread result ws stopped h = h
same_workers none thread (some s) ws stopped h = h
same_workers none (some i) none ws stopped h = h
same_workers none none none ws stopped h = h

Step-IsServed : {s s' : System} → Step s s' → IsServed s → IsServed s'
unfolding publish
Step-IsServed (tick_step s) h = ticked-IsServed s h
Step-IsServed (halt_step s) h = halted-IsServed s
Step-IsServed (reset_step s) h = after_reset-IsServed s
Step-IsServed (begin s i m) h =
    λ e. begin-Served i s.node.future s.node.thread s.node.result s.workers (h e)
Step-IsServed (end_pool s i work m) h =
    λ e. end_pool-Served i work s.node.future s.node.thread s.node.result s.workers (h e)
Step-IsServed (end_thread s i work m) h =
    λ e. end_thread-Served i _ s.node.future s.node.thread s.node.result s.workers (h e)
Step-IsServed (pool_stops s) h = λ e. same_workers _ _ _ s.workers true (h e)
Step-IsServed (inject s pool stopped) h = λ e. same_workers _ _ _ s.workers stopped (h e)

pub Reach-IsServed : {first s : System} → IsServed first → Reach first s → IsServed s
Reach-IsServed h here = h
Reach-IsServed h (more r step) = Step-IsServed step (Reach-IsServed h r)
