-- ===== src/Engine/Run.antt =====
-- bteng/core/engine.py: the loop of run_until_complete.
use bteng.Prelude.{
  ℕ, zero, suc, ◌+◌, ◌≤◌, ◌<◌, ◌≡◌, refl, Bool, true, false, Option, none, some, arith,
}
use Prim.Native.Nat.{max}
use bteng.Value.{idle, running, success, failure}
use bteng.World.{World, Host}
use bteng.Tick.{Outcome, returned, invalid, raised}
use bteng.Engine.{Engine, Ran, tick_once, limit_reached, after_round, run_loop, run_until_complete}

abbrev IsBounded : ℕ → Option Ran → Type 0
IsBounded bound none = ⊥
IsBounded bound (some r) = r.engine.tick_count ≤ bound

after_round-IsBounded :
    (host : Host) (o : Outcome) (limit : Bool) (r : Ran) (more : Option Ran) (bound : ℕ)
    → r.engine.tick_count ≤ bound
    → (limit ≡ false → IsBounded bound more)
    → IsBounded bound (after_round host o limit r more)
unfolding after_round
after_round-IsBounded host (returned running) true r more bound h k = h
after_round-IsBounded host (returned running) false r more bound h k = k refl
after_round-IsBounded host (returned idle) limit r more bound h k = h
after_round-IsBounded host (returned success) limit r more bound h k = h
after_round-IsBounded host (returned failure) limit r more bound h k = h
after_round-IsBounded host invalid limit r more bound h k = h
after_round-IsBounded host (raised e) limit r more bound h k = h

limit_reached-more : (host : Host) (m c : ℕ) → limit_reached host (some m) c ≡ false → c < m
unfolding limit_reached
limit_reached-more host m c h = ground arith

run_loop-IsBounded :
    (host : Host) (fuel m count : ℕ) (e : Engine) (w : World) (bound : ℕ)
    → count < max m 1
    → max m 1 ≤ count + fuel
    → e.tick_count + max m 1 ≤ bound + count
    → IsBounded bound (run_loop host fuel (some m) count e w)
unfolding run_loop tick_once
run_loop-IsBounded host zero m count e w bound lt f b = absurd (omega arith)
run_loop-IsBounded host (suc fuel) m count e w bound lt f b =
    let r = tick_once host e w in
    after_round-IsBounded host r.outcome (limit_reached host (some m) (count + 1)) r
      (run_loop host fuel (some m) (count + 1) r.engine r.world) bound (omega arith)
      (λ k.
        let more = limit_reached-more host m (count + 1) k in
        run_loop-IsBounded host fuel m (count + 1) r.engine r.world bound (omega arith)
          (omega arith) (omega arith))

result_of :
    (bound : ℕ) (o : Option Ran)
    → IsBounded bound o
    → (r : Ran) × (o ≡ some r) × (r.engine.tick_count ≤ bound)
result_of bound none h = absurd h
result_of bound (some r) h = (r, refl, h)

-- With a limit and enough fuel, run_until_complete returns, after at most `max_ticks` ticks; but the
-- limit is read behind a tick, so a limit of 0 is one of 1.
pub run_until_complete-returns :
    (host : Host) (max_ticks fuel : ℕ) (e : Engine) (w : World)
    → max max_ticks 1 ≤ fuel
    → (r : Ran) × (run_until_complete host fuel (some max_ticks) e w ≡ some r)
      × (r.engine.tick_count ≤ e.tick_count + max max_ticks 1)
unfolding run_until_complete
run_until_complete-returns host m fuel e w f =
    result_of (e.tick_count + max m 1) (run_loop host fuel (some m) 0 e w) (
      run_loop-IsBounded host fuel m 0 e w (e.tick_count + max m 1) (omega arith) (omega arith)
        (omega arith))
