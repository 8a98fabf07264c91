-- ===== src/Orderly/Timeout.antt =====
-- bteng/nodes/decorators/timeout.py: the deadline of a Timeout.
use bteng.Prelude.{
  ℕ, ◌+◌, ◌<◌, pos, negsuc, ◌≡◌, refl, ℤ, true, false, Bool-cases, inl, inr, ◌⊎◌, some, arith,
}
use bteng.Value.{failure, float, float_of}
use bteng.Node.{Node, Base, decorator}
use bteng.World.{World, Host, read_clock}
use bteng.Lifecycle.{is_running}
use bteng.Tick.{returned, Child}
use bteng.Tick.Decorators.{has_expired, timeout_budget, tick_timeout}
use bteng.Orderly.{IsCalm, IsOrderly, IsUnbound}
use bteng.Orderly.Halt.{halt-IsStopped}
use bteng.Orderly.Decorators.{get_input_unbound}

-- Where the child is calm, or there is none.
abbrev pub HasCalmChild : Node → Type 0
HasCalmChild (decorator b d n) = IsCalm n
HasCalmChild n = Unit

timeout_budget_static :
    (w : World) (b : Base) (d : ℤ) → IsUnbound b.config "duration" → timeout_budget w b d ≡ (d, b)
unfolding timeout_budget float_of
timeout_budget_static w b d h = ground (arith, get_input_unbound w b.config "duration" (float d) h)

-- More than the duration behind the start; a duration may be negative.
abbrev pub IsLate : ℤ → ℕ → ℕ → Type 0
IsLate (pos d) start now = start + d < now
IsLate (negsuc d) start now = start < now + (d + 1)

has_expired-IsLate : (d : ℤ) (start now : ℕ) → has_expired d start now ≡ true → IsLate d start now
unfolding has_expired
has_expired-IsLate (pos d) start now h = ground arith
has_expired-IsLate (negsuc d) start now h = ground arith

IsLate-has_expired :
    (d : ℤ) (start now : ℕ) → has_expired d start now ≡ false → ¬ IsLate d start now
unfolding has_expired
IsLate-has_expired (pos d) start now h late = ground arith
IsLate-has_expired (negsuc d) start now h late = ground arith

-- A RUNNING Timeout with the constructor's duration, over an orderly child: when the clock reads more
-- than the duration behind the start, it returns FAILURE and no node below it is RUNNING; until then
-- it returns what its child returns.
pub tick_timeout-deadline :
    (host : Host) (b : Base) (d : ℤ) (start : ℕ) (c : Child) (w : World)
    → IsUnbound b.config "duration"
    → IsOrderly c.node
    → is_running b ≡ true
    → let now = host.reading w.reads in
      let t = tick_timeout host b d (some start) c w in
      (IsLate d start now × (t.outcome ≡ returned failure) × HasCalmChild t.node)
      ⊎ ((¬ IsLate d start now) × (t.outcome ≡ (c.run (read_clock host w).1).outcome))
unfolding tick_timeout
tick_timeout-deadline host b d start c w h o on =
    let now = host.reading w.reads in
    rw (timeout_budget_static w b d h) (
      rw on (elim (Bool-cases (has_expired d start now)) [
        | inl late ↦ rw late (
            inl (
              has_expired-IsLate d start now late,
              refl,
              (halt-IsStopped host c.node (read_clock host w).1 o).0,
            ))
        | inr early ↦ rw early (inr (IsLate-has_expired d start now early, refl))
      ]))
