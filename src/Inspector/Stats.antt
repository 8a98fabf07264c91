-- ===== src/Inspector/Stats.antt =====
-- bteng/introspection/inspector.py: the statistics of a node.
use Prim.Native.Nat.{max}
use bteng.Prelude.{
  ℕ, suc, ◌+◌, ◌≡◌, refl, ap, ◌∙◌, Option, none, some, List, [], ◌∷◌, length, min, ◌==◌,
  if◌then◌else◌, or_else, arith, Bool-cases, inl, inr,
}
use bteng.Prelude.Table.{find, find-put}
use bteng.Value.{Status, success, failure, is_status}
use bteng.Inspector.{
  Inspector, Report, NodeStats, new_inspector, new_stats, larger, smaller, count_tick, update_stats,
  refresh_subscribers, on_node_tick, on_node_halt, add_explanation, subscribe, unsubscribe, reset,
  set_max_history, stats_for,
}
use bteng.Inspector.Operations.{
  Operation, ticked, halted, explained, subscribed, unsubscribed, was_reset, resized, operate,
  operate_all,
}

-- The ticks of a node that were reported since the last reset, newest first.
unfoldable pub note : ℕ → Operation → List Report → List Report
note uid (ticked now r) past = if r.uid == uid then r ∷ past else past
note uid was_reset past = []
note uid _ past = past

unfoldable pub reported : ℕ → List Operation → List Report → List Report
unfolding note
reported uid [] past = past
reported uid (o ∷ os) past = reported uid os (note uid o past)

-- How many of them ended with a status, their total, their longest and their shortest duration.
pub count_of : Status → List Report → ℕ
count_of s [] = 0
count_of s (r ∷ rs) =
    let others = count_of s rs in if is_status r.new_status s then others + 1 else others

pub total : List Report → ℕ
total [] = 0
total (r ∷ rs) = total rs + r.duration

pub longest : List Report → ℕ
longest [] = 0
longest (r ∷ rs) = max (longest rs) r.duration

pub shortest : List Report → Option ℕ
shortest [] = none
shortest (r ∷ rs) = elim (shortest rs) [ none ↦ some r.duration | some m ↦ some (min m r.duration) ]

tally : List Report → NodeStats
unfolding count_of total longest shortest
tally rs = record {
  tick_count = length rs;
  success_count = count_of success rs;
  failure_count = count_of failure rs;
  total_duration = total rs;
  max_duration = longest rs;
  min_duration = shortest rs;
}

-- What there is to say of a node's ticks, if there were any.
unfoldable pub summary : List Report → Option NodeStats
unfolding tally
summary [] = none
summary (r ∷ rs) = some (tally (r ∷ rs))

larger-eq-max : (m n : ℕ) → larger m n ≡ max m n
unfolding larger
larger-eq-max m n = ground arith

smaller-eq-min :
    (o : Option ℕ) (n : ℕ) → smaller o n ≡ elim o [ none ↦ some n | some m ↦ some (min m n) ]
unfolding smaller
smaller-eq-min none n = refl
smaller-eq-min (some m) n = ground arith

count_tick-tally : (r : Report) (rs : List Report) → count_tick r (tally rs) ≡ tally (r ∷ rs)
unfolding count_tick tally count_of total longest shortest
count_tick-tally r rs =
    let e : length rs + 1 ≡ suc (length rs) = omega arith in
    rw (larger-eq-max (longest rs) r.duration, smaller-eq-min (shortest rs) r.duration, e) refl

or_else-summary : (rs : List Report) → or_else (summary rs) new_stats ≡ tally rs
unfolding summary new_stats tally count_of total longest shortest
or_else-summary [] = refl
or_else-summary (r ∷ rs) = refl

counted-eq-tally :
    (r : Report) (d : List (ℕ × NodeStats)) (past : List Report)
    → find r.uid d ≡ summary past
    → count_tick r (or_else (find r.uid d) new_stats) ≡ tally (r ∷ past)
counted-eq-tally r d past h =
    ap (λ o. count_tick r (or_else o new_stats)) h
    ∙ ap (count_tick r) (or_else-summary past)
    ∙ count_tick-tally r past

update_stats-summary :
    (uid : ℕ) (r : Report) (d : List (ℕ × NodeStats)) (past : List Report)
    → find uid d ≡ summary past
    → find uid (update_stats r d) ≡ summary (if r.uid == uid then r ∷ past else past)
unfolding update_stats summary
update_stats-summary uid r d past h = elim (Bool-cases (r.uid == uid)) [
  | inl same ↦
      let e : r.uid ≡ uid = ground arith in
      find-put r.uid uid _ d
      ∙ rw same (ap some (counted-eq-tally r d past (ap (λ i. find i d) e ∙ h)))
  | inr other ↦ find-put r.uid uid _ d ∙ rw other h
]

operate-stats :
    (uid : ℕ) (o : Operation) (i : Inspector) (past : List Report)
    → find uid i.stats ≡ summary past
    → find uid (operate o i).stats ≡ summary (note uid o past)
unfolding operate note on_node_tick refresh_subscribers on_node_halt add_explanation subscribe
    unsubscribe reset set_max_history find summary
operate-stats uid (ticked now r) i past h = update_stats-summary uid r i.stats past h
operate-stats uid (halted own reason) i past h = h
operate-stats uid (explained e) i past h = h
operate-stats uid (subscribed callback) i past h = h
operate-stats uid (unsubscribed id) i past h = h
operate-stats uid was_reset i past h = refl
operate-stats uid (resized n) i past h = h

operate_all-stats :
    (uid : ℕ) (os : List Operation) (i : Inspector) (past : List Report)
    → find uid i.stats ≡ summary past
    → find uid (operate_all os i).stats ≡ summary (reported uid os past)
unfolding operate_all reported
operate_all-stats uid [] i past h = h
operate_all-stats uid (o ∷ os) i past h =
    operate_all-stats uid os (operate o i) (note uid o past) (operate-stats uid o i past h)

-- After any operations on a new inspector, `stats_for` a node is none if no tick of it was reported
-- since the last reset, and otherwise the number of these ticks, how many ended with SUCCESS and
-- with FAILURE, and the sum, the maximum and the minimum of their durations.
pub stats_for_lem :
    (uid limit : ℕ) (os : List Operation)
    → stats_for (operate_all os (new_inspector limit)) uid ≡ summary (reported uid os [])
unfolding stats_for new_inspector find summary
stats_for_lem uid limit os = operate_all-stats uid os (new_inspector limit) [] refl
