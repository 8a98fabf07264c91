-- ===== src/Inspector.antt =====
-- bteng/introspection/inspector.py. A callback is known by a number, and an exception that it raises
-- is caught and printed, so it changes nothing here. Times are in nanoseconds, and `now` stands for
-- the reading of the clock. A uid is a number, and a Python set a list in some order.
pub mod Operations
pub mod Path
pub mod Stats
pub mod History
pub mod Dispatch
use bteng.Prelude.{
  ℕ, zero, suc, ◌+◌, String, ℤ, pos, negsuc, Bool, true, false, not, ◌&&◌, Option, none, some, List,
  [], ◌∷◌, ◌++◌, map, drop, ltb, ◌==◌, str_eq, if◌then◌else◌, or_else,
}
use bteng.Prelude.Buffer.{newest, push}
use bteng.Prelude.Table.{find, put, pop, member, without}
use bteng.Value.{Status, idle, running, success, failure, is_status}
use bteng.Node.{NodeType}

pub record NodeExecutionRecord : Type 0 where
  pub uid : ℕ
  pub name : String
  pub node_type : NodeType
  pub status : Status
  pub tick_time : ℕ
  pub duration : ℕ
  pub old_status : Status
  pub feedback_message : String
  pub halt_reason : String

pub record ExplainEntry : Type 0 where
  pub timestamp : ℕ
  pub node_uid : ℕ
  pub node_name : String
  pub event : String
  pub reason : String

-- `min_duration` starts as infinity, which is `none`.
pub record NodeStats : Type 0 where
  pub tick_count : ℕ
  pub success_count : ℕ
  pub failure_count : ℕ
  pub total_duration : ℕ
  pub max_duration : ℕ
  pub min_duration : Option ℕ

pub record Inspector : Type 0 where
  pub running : List ℕ
  pub active : List ℕ
  pub history : List NodeExecutionRecord
  pub stats : List (ℕ × NodeStats)
  pub reasons : List (ℕ × String)
  pub explain_log : List ExplainEntry
  pub subscribers : List (ℕ × ℕ)
  pub next_sub_id : ℕ
  pub max_history : ℕ
  pub subscribers_cache : List ℕ
  pub subscribers_dirty : Bool

-- The arguments of on_node_tick.
pub record Report : Type 0 where
  pub uid : ℕ
  pub name : String
  pub node_type : NodeType
  pub old_status : Status
  pub new_status : Status
  pub duration : ℕ
  pub tick_time : Option ℕ
  pub feedback_message : String

unfoldable pub new_inspector : ℕ → Inspector
new_inspector max_history = record {
  running = [];
  active = [];
  history = [];
  stats = [];
  reasons = [];
  explain_log = [];
  subscribers = [];
  next_sub_id = 0;
  max_history = max_history;
  subscribers_cache = [];
  subscribers_dirty = true;
}

unfoldable pub new_record : ℕ → Report → NodeExecutionRecord
new_record now r = record {
  uid = r.uid;
  name = r.name;
  node_type = r.node_type;
  status = r.new_status;
  tick_time = or_else r.tick_time now;
  duration = r.duration;
  old_status = r.old_status;
  feedback_message = r.feedback_message;
  halt_reason = "";
}

-- `set.add`
unfoldable pub add_running : ℕ → List ℕ → List ℕ
add_running i s = if member i s then s else i ∷ s

unfoldable pub update_running : Report → List ℕ → List ℕ
unfolding add_running
update_running r s = if is_status r.new_status running then add_running r.uid s else without r.uid s

unfoldable pub update_active : Report → List ℕ → List ℕ
update_active r path =
    if is_status r.new_status running && not (member r.uid path)
    then path ++ r.uid ∷ []
    else if not (is_status r.new_status running)
    then without r.uid path
    else path

unfoldable pub new_stats : NodeStats
new_stats = record {
  tick_count = 0;
  success_count = 0;
  failure_count = 0;
  total_duration = 0;
  max_duration = 0;
  min_duration = none;
}

unfoldable pub larger : ℕ → ℕ → ℕ
larger m n = if ltb m n then n else m

unfoldable pub smaller : Option ℕ → ℕ → Option ℕ
smaller none n = some n
smaller (some m) n = if ltb n m then some n else some m

unfoldable pub count_tick : Report → NodeStats → NodeStats
unfolding larger smaller
count_tick r s = record {
  tick_count = s.tick_count + 1;
  success_count = if is_status r.new_status success then s.success_count + 1 else s.success_count;
  failure_count = if is_status r.new_status failure then s.failure_count + 1 else s.failure_count;
  total_duration = s.total_duration + r.duration;
  max_duration = larger s.max_duration r.duration;
  min_duration = smaller s.min_duration r.duration;
}

-- `setdefault`, then the update of the object in the table
unfoldable pub update_stats : Report → List (ℕ × NodeStats) → List (ℕ × NodeStats)
unfolding new_stats count_tick
update_stats r d = put r.uid (count_tick r (or_else (find r.uid d) new_stats)) d

unfoldable pub refresh_subscribers : Inspector → Inspector
refresh_subscribers i = record i {
  subscribers_cache =
      if i.subscribers_dirty then map (λ s. s.1) i.subscribers else i.subscribers_cache;
  subscribers_dirty = false;
}

-- The callbacks that are called, in order, stand behind the inspector.
unfoldable pub on_node_tick : ℕ → Report → Inspector → Inspector × List ℕ
unfolding new_record update_running update_active update_stats refresh_subscribers
on_node_tick now r i =
    let i' = refresh_subscribers (record i {
      running = update_running r i.running;
      active = update_active r i.active;
      history = push i.max_history i.history (new_record now r);
      stats = update_stats r i.stats;
    }) in
    (i', i'.subscribers_cache)

abbrev pub same_node : ℕ → NodeExecutionRecord → Bool
same_node uid r = r.uid == uid

unfoldable pub mentions : ℕ → List NodeExecutionRecord → Bool
mentions uid [] = false
mentions uid (r ∷ rs) = let later = mentions uid rs in if same_node uid r then true else later

-- The loop over `reversed(self._history)`: the last record of the node is changed.
unfoldable pub annotate : ℕ → String → List NodeExecutionRecord → List NodeExecutionRecord
unfolding mentions
annotate uid reason [] = []
annotate uid reason (r ∷ rs) =
    let later = annotate uid reason rs in
    if mentions uid rs
    then r ∷ later
    else if same_node uid r
    then record r { halt_reason = reason } ∷ rs
    else r ∷ rs

unfoldable pub on_node_halt : ℕ → String → Inspector → Inspector
unfolding annotate
on_node_halt uid reason i = record i {
  running = without uid i.running;
  active = without uid i.active;
  reasons = if str_eq reason "" then i.reasons else put uid reason i.reasons;
  history = annotate uid reason i.history;
}

unfoldable pub halt_reason : Inspector → ℕ → String
halt_reason i uid = or_else (find uid i.reasons) ""

unfoldable pub running_nodes : Inspector → List ℕ
running_nodes i = i.running

unfoldable pub active_path : Inspector → List ℕ
active_path i = i.active

-- `list(history)[-max_entries:]`: a negative number drops from the front.
unfoldable pub execution_history : Inspector → ℤ → List NodeExecutionRecord
execution_history i (pos zero) = i.history
execution_history i (pos (suc n)) = newest (suc n) i.history
execution_history i (negsuc n) = drop (suc n) i.history

unfoldable pub stats_for : Inspector → ℕ → Option NodeStats
stats_for i uid = find uid i.stats

abbrev pub max_explanations : ℕ
max_explanations = 1000

unfoldable pub add_explanation : ExplainEntry → Inspector → Inspector
add_explanation e i = record i { explain_log = push max_explanations i.explain_log e }

unfoldable pub subscribe : ℕ → Inspector → Inspector × ℕ
subscribe callback i = (
  record i {
    next_sub_id = i.next_sub_id + 1;
    subscribers = put i.next_sub_id callback i.subscribers;
    subscribers_dirty = true;
  },
  i.next_sub_id,
)

unfoldable pub unsubscribe : ℕ → Inspector → Inspector
unsubscribe id i = record i { subscribers = pop id i.subscribers; subscribers_dirty = true }

unfoldable pub reset : Inspector → Inspector
reset i = record i {
  running = [];
  active = [];
  history = [];
  stats = [];
  reasons = [];
  explain_log = [];
}

-- `deque(history, maxlen=n)` keeps the newest.
unfoldable pub set_max_history : ℕ → Inspector → Inspector
set_max_history n i = record i { max_history = n; history = newest n i.history }
