-- ===== src/Coro/Events.antt =====
-- bteng/concurrency/asyncio_bridge.py: which copies of a coroutine the events on the loops leave alive.
use bteng.Prelude.{
  ℕ, ◌≡◌, refl, subst, Bool, true, false, not, ◌&&◌, ◌||◌, Option, none, some, is_some, ◌==◌, arith,
  Bool-cases, inl, inr,
}
use mathlib.Core.Option.{some-injective}
use bteng.AsyncAction.{Work}
use bteng.Bridge.{
  Loops, Holder, AsyncioBridge, update, unusable_reason, is_alive, task_done, settle, discard,
  cancel_task, run_task, finish_task, resolve_future, shutdown,
}
use bteng.Coro.{discard_future, cancel_future}

-- A copy that can still run: its coroutine has not finished, and its loop is alive.
unfoldable pub is_live : Loops → ℕ → Bool
is_live w j = not (task_done (w.holders j)) && is_alive (w.bridges (w.holders j).bridge)

-- A future that was resolved belongs to a task that is done.
unfoldable pub is_resolved : Holder → Bool
is_resolved h = not (is_some h.outcome) || h.task_finished

-- What happens on the loops starts no copy, and moves none to another bridge.
pub record Shrinks (w w' : Loops) : Type 0 where
  pub dies : (j : ℕ) → is_resolved (w.holders j) ≡ true → is_live w j ≡ false → is_live w' j ≡ false
  pub resolved : (j : ℕ) → is_resolved (w.holders j) ≡ true → is_resolved (w'.holders j) ≡ true
  pub same_bridge : (j : ℕ) → (w'.holders j).bridge ≡ (w.holders j).bridge
  pub same_next : w'.next_bridge ≡ w.next_bridge
  pub same_default : w'.default_bridge ≡ w.default_bridge

pub Shrinks-refl : (w : Loops) → Shrinks w w
Shrinks-refl w = record {
  dies = λ j r h. h;
  resolved = λ j r. r;
  same_bridge = λ j. refl;
  same_next = refl;
  same_default = refl;
}

settle-Shrinks : (i : ℕ) (w : Loops) → Shrinks w (settle i w)
unfolding settle is_live task_done is_alive unusable_reason is_resolved
settle-Shrinks i w = record {
  dies = λ j r h. ground arith;
  resolved = λ j r. ground arith;
  same_bridge = λ j. ground arith;
  same_next = ground arith;
  same_default = ground arith;
}

pub discard_future-Shrinks : (f : Option ℕ) (w : Loops) → Shrinks w (discard_future f w)
unfolding discard_future discard
discard_future-Shrinks none w = Shrinks-refl w
discard_future-Shrinks (some i) w = settle-Shrinks i w

pub cancel_future-Shrinks : (f : Option ℕ) (w : Loops) → Shrinks w (cancel_future f w)
unfolding cancel_future cancel_task is_live task_done is_resolved
cancel_future-Shrinks none w = Shrinks-refl w
cancel_future-Shrinks (some i) w = record {
  dies = λ j r h. ground arith;
  resolved = λ j r. ground arith;
  same_bridge = λ j. ground arith;
  same_next = refl;
  same_default = refl;
}

pub finish_task-Shrinks : (i : ℕ) (w : Loops) → Shrinks w (finish_task i w)
unfolding finish_task is_live task_done is_resolved
finish_task-Shrinks i w = record {
  dies = λ j r h. ground arith;
  resolved = λ j r. ground arith;
  same_bridge = λ j. ground arith;
  same_next = refl;
  same_default = refl;
}

pub run_task-Shrinks :
    (i : ℕ) (w : Loops)
    → (w.holders i).started ≡ false
    → (w.holders i).task_finished ≡ false
    → Shrinks w (run_task i w)
unfolding run_task finish_task is_live task_done is_resolved
run_task-Shrinks i w unstarted unfinished = record {
  dies = λ j r h. ground arith;
  resolved = λ j r. ground arith;
  same_bridge = λ j. ground arith;
  same_next = ground arith;
  same_default = ground arith;
}

pub resolve_future-Shrinks :
    (i : ℕ) (work : Work) (w : Loops)
    → (w.holders i).task_finished ≡ true
    → Shrinks w (resolve_future i work w)
unfolding resolve_future settle is_live task_done is_alive unusable_reason is_resolved
resolve_future-Shrinks i work w finished = record {
  dies = λ j r h. ground arith;
  resolved = λ j r. ground arith;
  same_bridge = λ j. ground arith;
  same_next = ground arith;
  same_default = ground arith;
}

update-fades :
    (i k : ℕ) (b : AsyncioBridge) (bs : ℕ → AsyncioBridge)
    → (is_alive (bs i) ≡ false → is_alive b ≡ false)
    → is_alive (bs k) ≡ false
    → is_alive (update bs i b k) ≡ false
update-fades i k b bs fades h = elim (Bool-cases (i == k)) [
  | inl same ↦
      let k≡i : k ≡ i = ground arith in
      let gone : is_alive b ≡ false = fades (rw k≡i at h) in rw same gone
  | inr other ↦ rw other h
]

-- A bridge that only gets less usable.
pub fades-Shrinks :
    (i : ℕ) (b : AsyncioBridge) (w : Loops)
    → (is_alive (w.bridges i) ≡ false → is_alive b ≡ false)
    → Shrinks w (record w { bridges = update w.bridges i b })
unfolding is_live
fades-Shrinks i b w fades = record {
  dies = λ j r h. elim (Bool-cases (task_done (w.holders j))) [
    | inl done ↦ rw done refl
    | inr busy ↦
        let dead : is_alive (w.bridges (w.holders j).bridge) ≡ false = ground arith in
        let gone = update-fades i (w.holders j).bridge b w.bridges fades dead in
        rw (busy, gone) refl
  ];
  resolved = λ j r. r;
  same_bridge = λ j. refl;
  same_next = refl;
  same_default = refl;
}

pub shutdown-Shrinks : (t : Bool) (i : ℕ) (w w' : Loops) → shutdown t i w ≡ some w' → Shrinks w w'
unfolding shutdown is_alive unusable_reason
shutdown-Shrinks t i w w' e =
    elim (Bool-cases ((w.bridges i).owned && not (w.bridges i).loop_closed && t)) [
      | inl refused ↦ let no : none ≡ some w' = rw refused at e in cc
      | inr allowed ↦ elim (Bool-cases (w.bridges i).stopped) [
        | inl before ↦
            subst (Shrinks w) (some-injective _ _ (rw (allowed, before) at e)) (Shrinks-refl w)
        | inr open' ↦ elim (Bool-cases (not (w.bridges i).owned || (w.bridges i).loop_closed)) [
          | inl attached ↦
              subst (Shrinks w) (some-injective _ _ (rw (allowed, open', attached) at e))
                (fades-Shrinks i _ w (λ h. refl))
          | inr drained ↦
              subst (Shrinks w) (some-injective _ _ (rw (allowed, open', drained) at e))
                (fades-Shrinks i _ w (λ h. refl))
        ]
      ]
    ]
