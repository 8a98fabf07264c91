-- ===== src/Inspector/Dispatch.antt =====
-- bteng/introspection/inspector.py: who is called on a tick.
use bteng.Prelude.{
  ℕ, ◌+◌, ◌<◌, ◌≡◌, refl, ap, ◌∙◌, false, List, [], ◌∷◌, ◌++◌, map, All, ◌==◌, arith, Bool-cases,
  inl, inr,
}
use bteng.Prelude.Table.{put, pop}
use bteng.Inspector.{
  Inspector, Report, new_inspector, refresh_subscribers, on_node_tick, on_node_halt,
  add_explanation, subscribe, unsubscribe, reset, set_max_history,
}
use bteng.Inspector.Operations.{
  Operation, ticked, halted, explained, subscribed, unsubscribed, was_reset, resized, operate,
  operate_all,
}

-- The subscriptions in order: the k-th gets the id k - 1, and `unsubscribe` strikes an id out.
pub record Registry : Type 0 where
  pub entries : List (ℕ × ℕ)
  pub count : ℕ

unfoldable pub register : Operation → Registry → Registry
register (subscribed callback) r = record {
  entries = r.entries ++ (r.count, callback) ∷ [];
  count = r.count + 1;
}
register (unsubscribed id) r = record r { entries = pop id r.entries }
register _ r = r

unfoldable pub register_all : List Operation → Registry → Registry
unfolding register
register_all [] r = r
register_all (o ∷ os) r = register_all os (register o r)

abbrev pub no_subscribers : Registry
no_subscribers = record { entries = []; count = 0 }

-- The table is the registry, its ids were handed out before, and the cache is the table unless it
-- is marked as stale.
record IsCoherent (i : Inspector) (r : Registry) : Type 0 where
  table : i.subscribers ≡ r.entries
  next : i.next_sub_id ≡ r.count
  fresh : All (λ s. s.0 < r.count) r.entries
  cached : i.subscribers_dirty ≡ false → i.subscribers_cache ≡ map (λ s. s.1) i.subscribers

put_fresh : (n v : ℕ) (d : List (ℕ × ℕ)) → All (λ s. s.0 < n) d → put n v d ≡ d ++ (n, v) ∷ []
unfolding put
put_fresh n v [] h = refl
put_fresh n v ((i, w) ∷ rest) h =
    let ih = put_fresh n v rest h.1 in
    let lt = h.0 in
    let other : (i == n) ≡ false = ground arith in rw other (ap (λ l. (i, w) ∷ l) ih)

snoc-fresh :
    (n v : ℕ) (d : List (ℕ × ℕ)) → All (λ s. s.0 < n) d → All (λ s. s.0 < n + 1) (d ++ (n, v) ∷ [])
snoc-fresh n v [] h = (omega arith, tt)
snoc-fresh n v ((i, w) ∷ rest) h = let lt = h.0 in (omega (arith, lt), snoc-fresh n v rest h.1)

pop-fresh : (n id : ℕ) (d : List (ℕ × ℕ)) → All (λ s. s.0 < n) d → All (λ s. s.0 < n) (pop id d)
unfolding pop
pop-fresh n id [] h = tt
pop-fresh n id ((i, w) ∷ rest) h = elim (Bool-cases (i == id)) [
  | inl same ↦ rw same (pop-fresh n id rest h.1)
  | inr other ↦ rw other (h.0, pop-fresh n id rest h.1)
]

refreshed :
    (i : Inspector) (r : Registry)
    → IsCoherent i r
    → (refresh_subscribers i).subscribers_cache ≡ map (λ s. s.1) i.subscribers
unfolding refresh_subscribers
refreshed i r h = elim (Bool-cases i.subscribers_dirty) [
  | inl stale ↦ rw stale refl
  | inr clean ↦ rw clean (h.cached clean)
]

operate-IsCoherent :
    (o : Operation) (i : Inspector) (r : Registry)
    → IsCoherent i r
    → IsCoherent (operate o i) (register o r)
unfolding operate register on_node_tick on_node_halt add_explanation subscribe unsubscribe reset
    set_max_history refresh_subscribers
operate-IsCoherent (ticked now report) i r h = record {
  table = h.table;
  next = h.next;
  fresh = h.fresh;
  cached = λ e. refreshed i r h;
}
operate-IsCoherent (subscribed callback) i r h = record {
  table = rw (h.table, h.next) (put_fresh r.count callback r.entries h.fresh);
  next = ap (λ n. n + 1) h.next;
  fresh = snoc-fresh r.count callback r.entries h.fresh;
  cached = λ e. cc;
}
operate-IsCoherent (unsubscribed id) i r h = record {
  table = ap (pop id) h.table;
  next = h.next;
  fresh = pop-fresh r.count id r.entries h.fresh;
  cached = λ e. cc;
}
operate-IsCoherent (halted uid reason) i r h = record {
  table = h.table;
  next = h.next;
  fresh = h.fresh;
  cached = h.cached;
}
operate-IsCoherent (explained e) i r h = record {
  table = h.table;
  next = h.next;
  fresh = h.fresh;
  cached = h.cached;
}
operate-IsCoherent was_reset i r h = record {
  table = h.table;
  next = h.next;
  fresh = h.fresh;
  cached = h.cached;
}
operate-IsCoherent (resized n) i r h = record {
  table = h.table;
  next = h.next;
  fresh = h.fresh;
  cached = h.cached;
}

operate_all-IsCoherent :
    (os : List Operation) (i : Inspector) (r : Registry)
    → IsCoherent i r
    → IsCoherent (operate_all os i) (register_all os r)
unfolding operate_all register_all
operate_all-IsCoherent [] i r h = h
operate_all-IsCoherent (o ∷ os) i r h =
    operate_all-IsCoherent os (operate o i) (register o r) (operate-IsCoherent o i r h)

-- After any operations on a new inspector, resets included, a tick calls the callbacks that were
-- subscribed and not struck out since, each once and in the order of their subscription, although
-- it goes over a cache; and the next subscription gets an id that was never handed out.
on_node_tick-calls :
    (limit now callback : ℕ) (r : Report) (os : List Operation)
    → ((on_node_tick now r (operate_all os (new_inspector limit))).1
        ≡ map (λ s. s.1) (register_all os no_subscribers).entries)
      × ((subscribe callback (operate_all os (new_inspector limit))).1
          ≡ (register_all os no_subscribers).count)
unfolding on_node_tick new_inspector subscribe
on_node_tick-calls limit now callback r os =
    let h =
      operate_all-IsCoherent os (new_inspector limit) no_subscribers
        (record { table = refl; next = refl; fresh = tt; cached = λ e. cc }) in
    (refreshed _ _ h ∙ ap (map (λ s. s.1)) h.table, h.next)
