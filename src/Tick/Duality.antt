-- ===== src/Tick/Duality.antt =====
-- bteng/nodes/control/sequence.py and fallback.py, side by side.
use bteng.Prelude.{ℕ, zero, suc, ◌≡◌, refl, ap, List, [], ◌∷◌, map}
use bteng.Value.{idle, running, success, failure}
use bteng.Node.{Node, Base, control, sequence, fallback}
use bteng.World.{World, Host}
use bteng.Tick.{Outcome, returned, invalid, raised, Ticked, Child, Swept, untouched, advance}
use bteng.Tick.Sequence.{sequence_after, sequence_loop, sequence_result, tick_sequence}
use bteng.Tick.Fallback.{fallback_after, fallback_loop, fallback_result, tick_fallback}
use bteng.Tick.Decorators.{invert}

-- A child whose outcome an Inverter maps.
abbrev pub inverted : Child → Child
inverted c = record {
  node = c.node;
  run = λ w. let t = c.run w in record t { outcome = invert t.outcome };
}

-- The Fallback with a Sequence's cursor and children.
abbrev pub as_fallback : Node → Node
as_fallback (control b (sequence i) ns) = control b (fallback i) ns
as_fallback n = n

-- What a Fallback over the children gives, from the tick of the Sequence.
abbrev pub dual : Ticked → Ticked
dual t = record { outcome = invert t.outcome; node = as_fallback t.node; world = t.world }

abbrev dual_swept : Swept → Swept
dual_swept s = record s { outcome = invert s.outcome }

untouched-inverted : (cs : List Child) → untouched (map inverted cs) ≡ untouched cs
untouched-inverted [] = refl
untouched-inverted (c ∷ cs) = ap (λ ns. c.node ∷ ns) (untouched-inverted cs)

after-dual :
    (o : Outcome) (n : Node) (later : List Node) (w : World) (rest : Swept)
    → fallback_after o n later w (dual_swept rest)
      ≡ dual_swept (sequence_after (invert o) n later w rest)
unfolding fallback_after sequence_after invert
after-dual (returned idle) n later w rest = refl
after-dual (returned running) n later w rest = refl
after-dual (returned success) n later w rest = refl
after-dual (returned failure) n later w rest = refl
after-dual invalid n later w rest = refl
after-dual (raised e) n later w rest = refl

loop-dual :
    (i : ℕ) (cs : List Child) (w : World)
    → fallback_loop i cs w ≡ dual_swept (sequence_loop i (map inverted cs) w)
unfolding fallback_loop sequence_loop invert
loop-dual zero [] w = refl
loop-dual (suc i) [] w = refl
loop-dual (suc i) (c ∷ cs) w = ap (λ s. advance c.node s) (loop-dual i cs w)
loop-dual zero (c ∷ cs) w =
    let t = c.run w in
    rw (loop-dual zero cs t.world, untouched-inverted cs)
      (after-dual t.outcome t.node (untouched cs) t.world
        (sequence_loop zero (map inverted cs) t.world))

result-dual :
    (host : Host) (b : Base) (o : Outcome) (i : ℕ) (ns : List Node) (w : World)
    → fallback_result host b (invert o) i ns w ≡ dual (sequence_result host b o i ns w)
unfolding fallback_result sequence_result invert
result-dual host b (returned idle) i ns w = refl
result-dual host b (returned running) i ns w = refl
result-dual host b (returned success) i ns w = refl
result-dual host b (returned failure) i ns w = refl
result-dual host b invalid i ns w = refl
result-dual host b (raised e) i ns w = refl

-- A Fallback gives the inverse of what a Sequence gives over inverted children, from any cursor: it
-- ticks the same children, in the same worlds, halts the same, and keeps the same cursor.
pub tick_fallback-dual :
    (host : Host) (b : Base) (i : ℕ) (cs : List Child) (w : World)
    → tick_fallback host b i cs w ≡ dual (tick_sequence host b i (map inverted cs) w)
unfolding tick_fallback tick_sequence
tick_fallback-dual host b i cs w =
    let s = sequence_loop i (map inverted cs) w in
    rw (loop-dual i cs w) (result-dual host b s.outcome s.cursor s.nodes s.world)
