-- ===== src/Inspector/History.antt =====
-- bteng/introspection/inspector.py: the bounded history against a ledger without a bound.
use bteng.Prelude.{ℕ, String, ◌≡◌, ◌==◌, if◌then◌else◌, or_else, List, [], ◌∷◌, ◌++◌}
use bteng.Prelude.Buffer.{newest}
use bteng.Inspector.{Inspector, Report, NodeExecutionRecord}
use bteng.Inspector.Operations.{Operation, ticked, halted, was_reset, resized}

-- The other way round.
abbrev pub turned {ℓ} : {A : Type ℓ} → List A → List A
turned [] = []
turned (x ∷ xs) = turned xs ++ x ∷ []

-- The reason goes to the first record of the node.
unfoldable pub note_first : ℕ → String → List NodeExecutionRecord → List NodeExecutionRecord
note_first uid reason [] = []
note_first uid reason (r ∷ rs) =
    let later = note_first uid reason rs in
    if r.uid == uid then record r { halt_reason = reason } ∷ rs else r ∷ later

-- All records, oldest first, and the bound that was set last. Another bound drops what the old one
-- had evicted.
pub record Ledger : Type 0 where
  pub records : List NodeExecutionRecord
  pub limit : ℕ

-- What a report of a tick says, without a reason of a halt.
abbrev pub noted : ℕ → Report → NodeExecutionRecord
noted now r = record {
  uid = r.uid;
  name = r.name;
  node_type = r.node_type;
  status = r.new_status;
  tick_time = or_else r.tick_time now;
  duration = r.duration;
  old_status = r.old_status;
  feedback_message = r.feedback_message;
  halt_reason = "";
}

unfoldable pub enter : Operation → Ledger → Ledger
enter (ticked now r) l = record l { records = l.records ++ noted now r ∷ [] }
enter (halted uid reason) l = record l {
  records = turned (note_first uid reason (turned l.records));
}
enter was_reset l = record l { records = [] }
enter (resized n) l = record { records = newest l.limit l.records; limit = n }
enter _ l = l

unfoldable pub enter_all : List Operation → Ledger → Ledger
unfolding enter
enter_all [] l = l
enter_all (o ∷ os) l = enter_all os (enter o l)

-- The deque is the newest part of the ledger.
pub record Keeps (i : Inspector) (l : Ledger) : Type 0 where
  pub kept : i.history ≡ newest l.limit l.records
  pub bound : i.max_history ≡ l.limit
