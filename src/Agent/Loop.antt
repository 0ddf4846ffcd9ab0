-- ===== src/Agent/Loop.antt =====
-- `run_agent` of modules/agent-workflow-lab/loop_lab.py. The weighted random choice of the next
-- action is a parameter, a function of the round and of the state, so what is proved holds for
-- every planner.
pub mod Bounds
pub mod Writes
use mastery.Prelude.{
  ℕ, zero, suc, ◌+◌, ◌≤◌, ◌≡◌, refl, String, Bool, true, false, not, ◌≢◌, Option, none, some, List,
  [], ◌∷◌, ◌++◌, length, length-append, arith, ◌⊎◌, inl, inr, if◌then◌else◌,
}
use mastery.Prelude.Dict.{lookup}
use mastery.Agent.{Budget, Exceeded, check_budget, spend, Event, Insertion, insert, total_cost}
use mastery.Agent.Steps.{
  World, Shared, Result, ok, halted, Exec, ◌>>=◌, ◌>>◌, pure, retrieve, extract, violations, check,
  resolve_actors, store,
}

pub data Action : Type 0 where
  do_retrieve do_extract do_resolve do_validate do_store do_finish : Action

-- `state`, and how many writes `UNVALIDATED_WRITES` has received.
pub record Progress (R : Type 0) : Type 0 where
  pub passages : Option (List (List ℕ))
  pub found : Option R
  pub validated : Bool
  pub unvalidated : ℕ

abbrev pub start : {R : Type 0} → Progress R
start = record { passages = none; found = none; validated = false; unvalidated = 0 }

pub data Outcome (R : Type 0) : Type 0 where
  stored : Option R → Outcome R
  finished : Option R → Outcome R
  gave_up : Option R → Outcome R
  step_limit : Option R → Outcome R
  stopped : Exceeded → Outcome R

-- A round goes on with a new state, or returns.
pub data Turn (R : Type 0) : Type 0 where
  next : Progress R → Turn R
  done : Outcome R → Progress R → Turn R

-- What a run ends with, and what it leaves behind.
abbrev pub Ended : Type 0 → Type 0
Ended R = (Outcome R × Progress R) × List Event × Shared R

-- Another round, or the return. An action that raises BudgetExceeded has changed neither `state` nor
-- `UNVALIDATED_WRITES`, which outlives the exception.
abbrev pub go_on :
    {R : Type 0}
    → Progress R
    → (Progress R → Shared R → Ended R)
    → Result (Turn R) × List Event × Shared R
    → Ended R
go_on p again (ok (next q), es, t) = let (r, fs, u) = again q t in (r, es ++ fs, u)
go_on p again (ok (done o q), es, t) = ((o, q), es, t)
go_on p again (halted x, es, t) = ((stopped x, p), es, t)

abbrev pub is_empty : {A : Type 0} → List A → Bool
is_empty [] = true
is_empty (x ∷ xs) = false

abbrev pub or_none : Option (List (List ℕ)) → List (List ℕ)
or_none none = []
or_none (some ps) = ps

module _ {R : Type 0} (w : World R) (doc_id key : String) where
  -- Whether `state["record"]` counts as true.
  abbrev pub has_record : Option R → Bool
  has_record none = false
  has_record (some r) = w.truthy r

  unfoldable pub take_action : Action → Progress R → Exec R (Turn R)
  unfolding retrieve extract check resolve_actors store
  take_action do_retrieve p = do
    ps ← retrieve w true doc_id
    pure (next (record p { passages = some ps }))
  take_action do_extract p = do
    r ← extract w false doc_id (or_none p.passages)
    pure (next (record p { found = r; validated = false }))
  take_action do_resolve p =
      if has_record p.found then (do resolve_actors w; pure (next p)) else pure (next p)
  take_action do_validate p =
      if has_record p.found
      then (do vs ← check w p.found; pure (next (record p { validated = is_empty vs })))
      else pure (next p)
  take_action do_store p =
      if has_record p.found
      then (do
        store w key p.found
        pure (
            if p.validated
            then done (stored p.found) p
            else next (record p { unvalidated = p.unvalidated + 1 })))
      else pure (next p)
  take_action do_finish p =
      pure (done (if p.validated then finished p.found else gave_up p.found) p)

  module _ (choose : ℕ → Progress R → Action) where
    -- The loop, with the rounds left; the planner sees that number.
    unfoldable pub rounds : ℕ → Progress R → Shared R → Ended R
    unfolding take_action
    rounds zero p s = ((step_limit p.found, p), [], s)
    rounds (suc left) p s = go_on p (rounds left) (take_action (choose left p) p s)

    -- MAX_STEPS rounds.
    unfoldable pub run_agent : Shared R → Outcome R × List Event × Shared R
    unfolding rounds
    run_agent s = let (r, es, t) = rounds 12 start s in (r.0, es, t)
