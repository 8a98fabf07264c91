-- ===== src/EventBus.antt =====
-- bteng/core/executor.py: EventBus. A callback is known by a number, and an exception that it raises
-- is caught and printed, so it changes nothing here.
use bteng.Prelude.{
  ℕ, ◌+◌, ◌<◌, String, ◌≡◌, refl, Bool, List, [], ◌∷◌, ◌++◌, ◌||◌, ◌==◌, str_eq, if◌then◌else◌, All,
  arith, Bool-cases, inl, inr,
}

pub record EventBus : Type 0 where
  pub subs : List (ℕ × String × ℕ)
  pub next_id : ℕ

unfoldable pub create : EventBus
create = record { subs = []; next_id = 0 }

unfoldable pub subscribe : EventBus → String → ℕ → EventBus × ℕ
subscribe bus event callback = (
  record bus { subs = bus.subs ++ (bus.next_id, event, callback) ∷ []; next_id = bus.next_id + 1 },
  bus.next_id,
)

drop_sub : ℕ → List (ℕ × String × ℕ) → List (ℕ × String × ℕ)
drop_sub i [] = []
drop_sub i ((j, event, callback) ∷ rest) =
    let others = drop_sub i rest in if j == i then others else (j, event, callback) ∷ others

unfoldable pub unsubscribe : EventBus → ℕ → EventBus
unfolding drop_sub
unsubscribe bus i = record bus { subs = drop_sub i bus.subs }

-- `evt_name in ("*", event.name)`
abbrev pub matches : String → String → Bool
matches wanted name = str_eq wanted "*" || str_eq wanted name

called : String → List (ℕ × String × ℕ) → List ℕ
called name [] = []
called name ((i, wanted, callback) ∷ rest) =
    let others = called name rest in if matches wanted name then callback ∷ others else others

-- publish: the callbacks that are called, in order.
unfoldable pub publish : EventBus → String → List ℕ
unfolding called
publish bus name = called name bus.subs

called-append :
    (name : String) (xs ys : List (ℕ × String × ℕ))
    → called name (xs ++ ys) ≡ called name xs ++ called name ys
unfolding called
called-append name [] ys = refl
called-append name ((i, wanted, callback) ∷ xs) ys = elim (Bool-cases (matches wanted name)) [
  | inl yes' ↦ rw (yes', called-append name xs ys)
  | inr no' ↦ rw (no', called-append name xs ys)
]

drop_sub_fresh :
    (i : ℕ) (xs : List (ℕ × String × ℕ)) (event : String) (callback : ℕ)
    → All (λ s. s.0 < i) xs
    → drop_sub i (xs ++ (i, event, callback) ∷ []) ≡ xs
unfolding drop_sub
drop_sub_fresh i [] event callback h = ground arith
drop_sub_fresh i ((j, e, c) ∷ xs) event callback h =
    ground (arith, drop_sub_fresh i xs event callback h.1)

-- Every id in the table was handed out before.
pub record IsCoherent (bus : EventBus) : Type 0 where
  pub fresh : All (λ s. s.0 < bus.next_id) bus.subs

-- On a bus whose ids were all handed out, a new subscriber is called behind the old ones, for its
-- event or "*" only, and `unsubscribe` with the id that `subscribe` returned restores the table.
subscribe_cycle :
    (bus : EventBus) (event : String) (callback : ℕ) (name : String)
    → IsCoherent bus
    → (publish (subscribe bus event callback).0 name
        ≡ publish bus name ++ (if matches event name then callback ∷ [] else []))
      × ((unsubscribe (subscribe bus event callback).0 (subscribe bus event callback).1).subs
          ≡ bus.subs)
unfolding publish subscribe unsubscribe
subscribe_cycle bus event callback name h = (
  called-append name bus.subs ((bus.next_id, event, callback) ∷ []),
  drop_sub_fresh bus.next_id bus.subs event callback h.fresh,
)
