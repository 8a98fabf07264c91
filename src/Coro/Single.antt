-- ===== src/Coro/Single.antt =====
-- bteng/nodes/leaf/coro_action.py: two copies of the coroutine never run.
use bteng.Prelude.{
  ℕ, ◌≡◌, refl, ap, sym, ◌∙◌, true, false, Option, some, arith, Bool-cases, inl, inr, String,
}
use bteng.Value.{Status, idle, running, is_status}
use bteng.Bridge.{Loops, AsyncioBridge, unusable_reason, is_alive, set_default_bridge}
use bteng.Coro.{CoroAction, coro_finished, keep_orphan, end_halt, halt, reset}
use bteng.Coro.Steps.{
  System, is_known, Step, tick_step, cancel_step, halt_step, reset_step, task_starts, task_ends,
  future_resolves, loop_dies, loop_stops, shuts_down, sets_default, Reach, here, more,
}
use bteng.Coro.Events.{
  is_live, cancel_future-Shrinks, run_task-Shrinks, finish_task-Shrinks, resolve_future-Shrinks,
  fades-Shrinks, shutdown-Shrinks,
}
use bteng.Coro.Safety.{
  IsSound, IsQuiet, IsGuarded, IsSafe, known-next, Shrinks-IsSafe, only-dead, finished-dead, nobody,
  in_future, in_orphan,
}
use bteng.Coro.Ticks.{tick-Kept}

end_halt-IsSafe :
    (n : CoroAction) (w : Loops) (s : Status) (m : String)
    → IsSafe n w
    → IsSafe (record (end_halt n w) { status = s; feedback_message = m }) w
unfolding end_halt
end_halt-IsSafe n w s m h = record {
  sound = h.sound;
  guarded = elim h.guarded [
    | nobody q ↦ nobody q
    | in_future k r f o b only ↦ elim (Bool-cases (coro_finished w k)) [
      | inl done ↦ nobody (only-dead k w only (finished-dead k w done))
      | inr busy ↦
          let e : keep_orphan n.future n.orphan w ≡ some k = rw (f, keep_orphan, busy) refl in
          in_orphan k e refl only
    ]
    | in_orphan k o f only ↦
        let e : keep_orphan n.future n.orphan w ≡ some k = rw (f, keep_orphan, o) refl in
        in_orphan k e refl only
  ];
}

halt-IsSafe : (n : CoroAction) (w : Loops) → IsSafe n w → IsSafe (halt n w) w
unfolding halt
halt-IsSafe n w h = elim (Bool-cases (is_status n.status running)) [
  | inl busy ↦ rw busy (end_halt-IsSafe n w idle n.feedback_message h)
  | inr resting ↦ rw resting (record {
    sound = h.sound;
    guarded = elim h.guarded [
      | nobody q ↦ nobody q
      | in_future k r f o b only ↦
          let no : is_status running running ≡ false = rw r at resting in cc
      | in_orphan k o f only ↦ in_orphan k o f only
    ];
  })
]

-- A loop that stops makes no bridge usable.
stopped-dead :
    (b : AsyncioBridge) → is_alive b ≡ false → is_alive (record b { loop_running = false }) ≡ false
unfolding is_alive unusable_reason
stopped-dead b h = ground arith

died-dead :
    (b : AsyncioBridge)
    → is_alive b ≡ false
    → is_alive (record b { loop_error = true; loop_running = false }) ≡ false
unfolding is_alive unusable_reason
died-dead b h = ground arith

set_default_bridge-IsSafe :
    (n : CoroAction) (b : Option ℕ) (w : Loops)
    → is_known b w ≡ true
    → IsSafe n w
    → IsSafe n (set_default_bridge b w)
unfolding set_default_bridge is_live
set_default_bridge-IsSafe n b w known h = record {
  sound = record {
    resolved = h.sound.resolved;
    known_holders = h.sound.known_holders;
    known_default = known-next b w _ refl known;
    known_bridge = known-next n.bridge w _ refl h.sound.known_bridge;
    pins = h.sound.pins;
  };
  guarded = elim h.guarded [
    | nobody q ↦ nobody q
    | in_future k r f o b' only ↦ in_future k r f o b' only
    | in_orphan k o f only ↦ in_orphan k o f only
  ];
}

reset-IsSafe : (n : CoroAction) (w : Loops) → IsSafe n w → IsSafe (reset n w) w
unfolding reset
reset-IsSafe n w h = end_halt-IsSafe n w idle "" h

step-IsSafe : {s s' : System} → Step s s' → IsSafe s.node s.loops → IsSafe s'.node s'.loops
step-IsSafe (tick_step s) h = tick-Kept s.node s.loops h
step-IsSafe (cancel_step s) h =
    Shrinks-IsSafe s.node _ _ (cancel_future-Shrinks s.node.future s.loops) h
step-IsSafe (halt_step s) h = halt-IsSafe s.node s.loops h
step-IsSafe (reset_step s) h = reset-IsSafe s.node s.loops h
step-IsSafe (task_starts s j unstarted unfinished) h =
    Shrinks-IsSafe s.node _ _ (run_task-Shrinks j s.loops unstarted unfinished) h
step-IsSafe (task_ends s j unfinished) h =
    Shrinks-IsSafe s.node _ _ (finish_task-Shrinks j s.loops) h
step-IsSafe (future_resolves s j work finished open') h =
    Shrinks-IsSafe s.node _ _ (resolve_future-Shrinks j work s.loops finished) h
step-IsSafe (loop_dies s i) h =
    Shrinks-IsSafe s.node _ _ (fades-Shrinks i _ s.loops (died-dead (s.loops.bridges i))) h
step-IsSafe (loop_stops s i) h =
    Shrinks-IsSafe s.node _ _ (fades-Shrinks i _ s.loops (stopped-dead (s.loops.bridges i))) h
step-IsSafe (shuts_down s t i own e) h =
    Shrinks-IsSafe s.node _ _ (shutdown-Shrinks t i s.loops _ e) h
step-IsSafe (sets_default s b known) h = set_default_bridge-IsSafe s.node b s.loops known h

-- A system before its first run: nothing runs, and no future was resolved.
pub record IsFresh (s : System) : Type 0 where
  pub quiet : IsQuiet s.loops
  pub sound : IsSound s.node.pinned s.node.bridge s.loops

Reach-IsSafe : {first s : System} → IsFresh first → Reach first s → IsSafe s.node s.loops
Reach-IsSafe fresh here = record { sound = fresh.sound; guarded = nobody fresh.quiet }
Reach-IsSafe fresh (more reached step) = step-IsSafe step (Reach-IsSafe fresh reached)

-- What the node knows of a copy: its future or its orphan.
pub data IsHeld (n : CoroAction) (j : ℕ) : Type 0 where
  as_future : n.status ≡ running → n.future ≡ some j → IsHeld n j
  as_orphan : n.orphan ≡ some j → IsHeld n j

held : (n : CoroAction) (w : Loops) (j : ℕ) → IsGuarded n w → is_live w j ≡ true → IsHeld n j
held n w j (nobody q) live = let dead = q j in cc
held n w j (in_future k r f o b only) live = as_future r (f ∙ ap some (sym (only j live)))
held n w j (in_orphan k o f only) live = as_orphan (o ∙ ap some (sym (only j live)))

same :
    (n : CoroAction) (w : Loops) (j k : ℕ)
    → IsGuarded n w
    → is_live w j ≡ true
    → is_live w k ≡ true
    → j ≡ k
same n w j k (nobody q) lj lk = let dead = q j in cc
same n w j k (in_future i r f o b only) lj lk = only j lj ∙ sym (only k lk)
same n w j k (in_orphan i o f only) lj lk = only j lj ∙ sym (only k lk)

-- At most one copy is live, where a bridge that was shut down counts as dead.
pub Reach_single :
    {first s : System} (j k : ℕ)
    → IsFresh first
    → Reach first s
    → is_live s.loops j ≡ true
    → is_live s.loops k ≡ true
    → (j ≡ k) × IsHeld s.node j
Reach_single {s = s} j k fresh reached lj lk =
    let h = Reach-IsSafe fresh reached in
    (same s.node s.loops j k h.guarded lj lk, held s.node s.loops j h.guarded lj)
