-- ===== src/Agent.antt =====
-- modules/agent-workflow-lab/agent.py: the objects that a run shares. Money is counted in whole
-- units of 1e-8 dollars, to which `Trace.record` rounds; time in ticks of `time.monotonic()`.
-- The digests and previews of a trace's events are left out.
pub mod Steps
pub mod Fence
pub mod Rows
pub mod Pipeline
pub mod Loop
pub mod Resume
use mastery.Prelude.{
  ℕ, ◌+◌, String, ltb, Bool, true, false, Option, none, some, List, [], ◌∷◌, ◌++◌, if◌then◌else◌,
}
use mastery.Prelude.Dict.{lookup}

pub record Budget : Type 0 where
  pub max_calls : ℕ
  pub max_cost : ℕ
  pub max_seconds : ℕ
  pub calls : ℕ
  pub cost : ℕ
  pub started : ℕ

unfoldable pub budget : ℕ → ℕ → ℕ → ℕ → Budget
budget max_calls max_cost max_seconds now = record {
  max_calls = max_calls;
  max_cost = max_cost;
  max_seconds = max_seconds;
  calls = 0;
  cost = 0;
  started = now;
}

-- Which message `BudgetExceeded` carries.
pub data Exceeded : Type 0 where
  calls_exhausted cost_exceeded clock_exhausted : Exceeded

-- `Budget.check`: the exception that it raises, if any.
unfoldable pub check_budget : ℕ → ℕ → Budget → Option Exceeded
check_budget estimated now b =
    if ltb b.max_calls (b.calls + 1)
    then some calls_exhausted
    else (if ltb b.max_cost (b.cost + estimated)
        then some cost_exceeded
        else (if ltb (b.started + b.max_seconds) now then some clock_exhausted else none))

unfoldable pub spend : ℕ → Budget → Budget
spend cost b = record b { calls = b.calls + 1; cost = b.cost + cost }

-- An entry of `Trace.events`; its `seq` is its place in the list.
pub record Event : Type 0 where
  pub step : String
  pub cost : ℕ

unfoldable pub total_cost : List Event → ℕ
total_cost [] = 0
total_cost (e ∷ es) = e.cost + total_cost es

-- `Trace.replay`, from a first number on.
unfoldable pub replay_from : ℕ → List Event → List (ℕ × String)
replay_from seq [] = []
replay_from seq (e ∷ es) = (seq, e.step) ∷ replay_from (seq + 1) es

pub data Insertion : Type 0 where
  deduplicated inserted : Insertion

abbrev pub insert_if {ℓ} :
    {V : Type ℓ} → Option V → String → V → List (String × V) → List (String × V) × Insertion
insert_if (some old) key record_ rows = (rows, deduplicated)
insert_if none key record_ rows = (rows ++ ((key, record_) ∷ []), inserted)

-- `Store.insert`
unfoldable pub insert {ℓ} :
    {V : Type ℓ} → String → V → List (String × V) → List (String × V) × Insertion
unfolding lookup
insert key record_ rows = insert_if (lookup key rows) key record_ rows

-- `ApprovalQueue`: what is pending, by action, payload and reason.
pub record Request : Type 0 where
  pub action : String
  pub payload : String
  pub reason : String

pub data Alert : Type 0 where
  awaiting_approval sent : Alert

-- `send_alert`, with the queue's `request`.
unfoldable pub send_alert : String → Bool → List Request → List Request × Alert
send_alert text approved pending = if approved then (pending, sent) else (
  pending
      ++ (record { action = "send_alert"; payload = text; reason = "irreversible external effect" }
          ∷ []),
  awaiting_approval,
)
