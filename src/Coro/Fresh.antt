-- ===== src/Coro/Fresh.antt =====
-- bteng/nodes/leaf/coro_action.py: the ticks of a node that no copy works for.
use bteng.Prelude.{
  ℕ, ◌+◌, ◌≡◌, refl, sym, subst, true, false, Option, none, some, ◌==◌, arith, Bool-cases,
  Option-cases, inl, inr,
}
use bteng.Value.{running, failure, is_status}
use bteng.AsyncAction.{Work}
use bteng.Bridge.{
  Loops, update, unusable_reason, is_alive, task_done, new_holder, submit, new_bridge,
  get_default_bridge,
}
use bteng.Coro.{
  CoroAction, has_live_bridge, ensure_bridge, start, poll, poll_outcome, poll_future,
  tick_on_bridge, conclude,
}
use bteng.Coro.Steps.{is_known}
use bteng.Coro.Events.{is_live, is_resolved}
use bteng.Coro.Safety.{IsSound, IsQuiet, IsOnly, known-next, Kept, quiet-Kept, in_future}

-- A bridge that a node may go on with.
abbrev Fits : Option ℕ → ℕ → Loops → Type 0
Fits pinned b w = IsQuiet w × IsSound pinned (some b) w

poll_outcome-Kept :
    (o : Option Work) (n : CoroAction) (w : Loops)
    → IsQuiet w
    → IsSound n.pinned n.bridge w
    → Kept (poll_outcome o n w)
unfolding poll_outcome
poll_outcome-Kept none n w q s = quiet-Kept running n w q s
poll_outcome-Kept (some work) n w q s = quiet-Kept _ _ w q s

poll_future-Kept :
    (f : Option ℕ) (n : CoroAction) (w : Loops)
    → IsQuiet w
    → IsSound n.pinned n.bridge w
    → Kept (poll_future f n w)
unfolding poll_future
poll_future-Kept none n w q s = quiet-Kept running n w q s
poll_future-Kept (some j) n w q s = poll_outcome-Kept (w.holders j).outcome n w q s

-- The loops behind a submission that a bridge has taken.
abbrev submitted : ℕ → Loops → Loops
submitted b w = record w {
  holders = update w.holders w.next_holder (new_holder b);
  next_holder = w.next_holder + 1;
  bridges =
      update w.bridges b (record (w.bridges b) { pending_count = (w.bridges b).pending_count + 1 });
}

-- Nothing is alive but the copy that was just submitted.
submitted-IsOnly : (b : ℕ) (w : Loops) → IsQuiet w → IsOnly w.next_holder (submitted b w)
unfolding is_live is_alive unusable_reason task_done
submitted-IsOnly b w q j live = elim (Bool-cases (w.next_holder == j)) [
  | inl same ↦ ground arith
  | inr other ↦ let before = q j in ground arith
]

submitted-IsSound :
    (p : Option ℕ) (b : ℕ) (w : Loops) → IsSound p (some b) w → IsSound p (some b) (submitted b w)
unfolding is_resolved new_holder is_known
submitted-IsSound p b w s = record {
  resolved = λ j. let before = s.resolved j in ground arith;
  known_holders = λ j. let before = s.known_holders j in let at = s.known_bridge in ground arith;
  known_default = known-next w.default_bridge w (submitted b w) refl s.known_default;
  known_bridge = s.known_bridge;
  pins = s.pins;
}

start-Kept :
    (n : CoroAction) (b : ℕ) (w : Loops) → n.orphan ≡ none → Fits n.pinned b w → Kept (start n b w)
unfolding conclude start submit new_holder
start-Kept n b w orphan fits = elim (Bool-cases (is_alive (w.bridges b))) [
  | inl alive ↦
      let e : start n b w ≡ (
        running,
        record n { bridge = some b; token_cancelled = false; future = some w.next_holder },
        submitted b w,
      ) =
        rw (start, submit, alive) refl in
      subst Kept (sym e) (record {
        sound = submitted-IsSound n.pinned b w fits.1;
        guarded =
            in_future w.next_holder refl refl orphan (ground arith) (submitted-IsOnly b w fits.0);
      })
  | inr dead ↦
      let n' = record n {
        bridge = some b;
        token_cancelled = false;
        feedback_message = "AsyncioBridge: submit rejected";
      } in
      let e : start n b w ≡ (failure, n', w) = rw (start, submit, dead) refl in
      subst Kept (sym e) (quiet-Kept failure n' w fits.0 fits.1)
]

-- What a choice of a bridge gives.
pub EnsureFits : Option ℕ → Option (ℕ × Loops) → Type 0
EnsureFits pinned none = Unit
EnsureFits pinned (some (b, w)) = Fits pinned b w

created-Fits :
    (b : Option ℕ) (w : Loops)
    → IsQuiet w
    → IsSound none b w
    → Fits none w.next_bridge (record w {
      bridges = update w.bridges w.next_bridge (new_bridge true);
      next_bridge = w.next_bridge + 1;
      default_bridge = some w.next_bridge;
    })
unfolding is_live is_known
created-Fits b w q s = (
  λ j.
      let known = s.known_holders j in
      let quiet = q j in
      let apart : (w.next_bridge == (w.holders j).bridge) ≡ false = ground arith in rw apart quiet,
  record {
    resolved = s.resolved;
    known_holders = λ j. let known = s.known_holders j in ground arith;
    known_default = ground arith;
    known_bridge = ground arith;
    pins = inl refl;
  },
)

default-Fits :
    (b : Option ℕ) (w : Loops)
    → IsQuiet w
    → IsSound none b w
    → EnsureFits none (some (get_default_bridge w))
unfolding get_default_bridge EnsureFits
default-Fits b w q s = elim (Option-cases w.default_bridge) [
  | inl absent ↦
      let e : get_default_bridge w ≡ (
        w.next_bridge,
        record w {
          bridges = update w.bridges w.next_bridge (new_bridge true);
          next_bridge = w.next_bridge + 1;
          default_bridge = some w.next_bridge;
        },
      ) =
        simp (get_default_bridge, absent) in
      subst (λ r. EnsureFits none (some r)) (sym e) (created-Fits b w q s)
  | inr (i, there) ↦
      let e : get_default_bridge w ≡ (i, w) = simp (get_default_bridge, there) in
      subst (λ r. EnsureFits none (some r)) (sym e)
        (
          q,
          record {
            resolved = s.resolved;
            known_holders = s.known_holders;
            known_default = s.known_default;
            known_bridge = subst (λ d. is_known d w ≡ true) there s.known_default;
            pins = inl refl;
          },
        )
]

pinned-IsSound :
    (p : ℕ) (b : Option ℕ) (w : Loops) → IsSound (some p) b w → IsSound (some p) (some p) w
pinned-IsSound p b w s = elim s.pins [
  | inl free ↦ let no : some p ≡ none = free in cc
  | inr same ↦ subst (λ c. IsSound (some p) c w) same s
]

pub ensure_bridge-Fits :
    (p b : Option ℕ) (w : Loops) → IsQuiet w → IsSound p b w → EnsureFits p (ensure_bridge p b w)
unfolding ensure_bridge has_live_bridge EnsureFits
ensure_bridge-Fits none none w q s = default-Fits none w q s
ensure_bridge-Fits none (some b) w q s = elim (Bool-cases (is_alive (w.bridges b))) [
  | inl alive ↦ rw alive (q, s)
  | inr dead ↦ rw dead (default-Fits (some b) w q s)
]
ensure_bridge-Fits (some p) b w q s = elim (Bool-cases (is_alive (w.bridges p))) [
  | inl alive ↦ rw alive (q, pinned-IsSound p b w s)
  | inr dead ↦ rw dead tt
]

pub on_bridge-Kept :
    (n : CoroAction) (r : Option (ℕ × Loops)) (w : Loops)
    → n.orphan ≡ none
    → IsQuiet w
    → IsSound n.pinned n.bridge w
    → EnsureFits n.pinned r
    → Kept (tick_on_bridge n r w)
unfolding tick_on_bridge EnsureFits poll
on_bridge-Kept n none w o q s fits = quiet-Kept failure _ w q s
on_bridge-Kept n (some (b, w')) w o q s fits = elim (Bool-cases (is_status n.status running)) [
  | inl busy ↦ rw busy (poll_future-Kept n.future (record n { bridge = some b }) w' fits.0 fits.1)
  | inr resting ↦ rw resting (start-Kept n b w' o fits)
]
