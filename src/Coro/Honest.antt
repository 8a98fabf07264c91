-- ===== src/Coro/Honest.antt =====
-- bteng/concurrency/asyncio_bridge.py: a bridge says that it is alive exactly while its loop runs, if
-- only owned bridges shut down.
use bteng.Prelude.{is_some, ℕ, ◌≡◌, Bool, not, ◌&&◌, ◌||◌, Option, none, some}
use bteng.Bridge.{Loops, Holder, AsyncioBridge, is_alive}

-- The loop behind a bridge runs, whether or not the bridge takes work.
abbrev pub loop_runs : AsyncioBridge → Bool
loop_runs b = b.loop_running && not b.loop_closed && not b.loop_error

-- The coroutine has ended, or was given up before its task started.
abbrev pub is_over : Holder → Bool
is_over h = (h.started && h.task_finished) || (not h.started && (h.cancelled || is_some h.outcome))

-- A copy that can still run: its coroutine is not over, and its loop runs.
unfoldable pub can_run : Loops → ℕ → Bool
can_run w j = not (is_over (w.holders j)) && loop_runs (w.bridges (w.holders j).bridge)

abbrev pub IsHonest : Loops → Type 0
IsHonest w = (i : ℕ) → is_alive (w.bridges i) ≡ loop_runs (w.bridges i)

-- What a choice of a bridge gives.
ChoiceIsHonest : Option (ℕ × Loops) → Type 0
ChoiceIsHonest none = Unit
ChoiceIsHonest (some (b, w)) = IsHonest w
