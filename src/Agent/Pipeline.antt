-- ===== src/Agent/Pipeline.antt =====
-- `run_pipeline` of modules/agent-workflow-lab/loop_lab.py, with the name of the work under which
-- `store` keeps the row (`f"{doc_id}:v1"`) as an argument.
use mastery.Prelude.{
  ◌+◌, ◌≤◌, ◌≡◌, String, Bool, not, map, ◌≢◌, Option, none, some, List, [], ◌∷◌, arith,
}
use mastery.Agent.{Exceeded, Event, insert, total_cost}
use mastery.Agent.Steps.{
  World, Shared, Result, ok, halted, Exec, ◌>>=◌, ◌>>◌, pure, classify, retrieve, extract,
  violations, check, resolve_actors, store,
}

pub data Outcome (R : Type 0) : Type 0 where
  rejected : List String → Outcome R
  stored : Option R → Outcome R
  stopped : Exceeded → Option String → Outcome R

-- `trace.events[-1]["step"]`; an empty trace would raise IndexError.
abbrev pub last_step : List Event → Option String
last_step [] = none
last_step (e ∷ []) = some e.step
last_step (e ∷ f ∷ es) = last_step (f ∷ es)

-- The handler of BudgetExceeded.
abbrev pub handled : {R : Type 0} → Result (Outcome R) → List Event → Outcome R
handled (ok o) es = o
handled (halted x) es = stopped x (last_step es)

module _ {R : Type 0} (w : World R) where
  -- The branch on `if violations := check(record, trace)`, and the steps behind it.
  unfoldable pub finish : String → Option R → List String → Exec R (Outcome R)
  unfolding resolve_actors store
  finish key r (v ∷ vs) = pure (rejected (v ∷ vs))
  finish key r [] = do resolve_actors w; store w key r; pure (stored r)

  unfoldable pub pipeline_body : Bool → String → String → Exec R (Outcome R)
  unfolding classify retrieve extract check finish
  pipeline_body isolate doc_id key = do
    classify w doc_id
    passages ← retrieve w isolate doc_id
    r ← extract w (not isolate) doc_id passages
    vs ← check w r
    finish key r vs

  unfoldable pub run_pipeline :
      Bool → String → String → Shared R → Outcome R × List Event × Shared R
  unfolding pipeline_body
  run_pipeline isolate doc_id key s =
      let (r, es, t) = pipeline_body isolate doc_id key s in (handled r es, es, t)

  abbrev pub steps : List Event → List String
  steps = map (λ e. e.step)

  -- What a run leaves behind, by its outcome.
  abbrev pub Leaves : String → Shared R → Outcome R × List Event × Shared R → Type 0
  Leaves key s (stored r, es, t) =
      (violations w r ≡ [])
      × (t.rows ≡ (insert key r s.rows).0)
      × (steps es
          ≡ "classify" ∷ "retrieve" ∷ "extract" ∷ "validate" ∷ "resolve_actors" ∷ "store" ∷ [])
  Leaves key s (rejected vs, es, t) =
      (vs ≢ [])
      × (t.rows ≡ s.rows)
      × (steps es ≡ "classify" ∷ "retrieve" ∷ "extract" ∷ "validate" ∷ [])
  Leaves key s (stopped x at, es, t) = t.rows ≡ s.rows

  -- A run that stores has taken the six steps in their one order, and the record that it inserts
  -- has no violation; a rejected run has taken the first four; a run that is rejected or stopped by
  -- its budget leaves the rows as they were.
  pub run_pipeline-Leaves :
      (isolate : Bool) (doc_id key : String) (s : Shared R)
      → Leaves key s (run_pipeline isolate doc_id key s)
  unfolding run_pipeline
  run_pipeline-Leaves isolate doc_id key s = ground arith

  -- Whatever the outcome, the trace accounts for each unit spent, the calls are within the budget's
  -- count if they were before, and a run makes at most two.
  pub run_pipeline-cost :
      (isolate : Bool) (doc_id key : String) (s : Shared R)
      → s.budget.calls ≤ s.budget.max_calls
      → let (o, es, t) = run_pipeline isolate doc_id key s in
        (t.budget.cost ≡ s.budget.cost + total_cost es)
        × (t.budget.calls ≤ t.budget.max_calls)
        × (t.budget.calls ≤ s.budget.calls + 2)
  unfolding run_pipeline total_cost
  run_pipeline-cost isolate doc_id key s h = ground arith
