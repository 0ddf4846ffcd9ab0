-- ===== src/Agent/Resume.antt =====
-- `run` of modules/agent-workflow-lab/resilience_lab.py: one document in five steps, resumable
-- from a checkpoint under the name of the work, `f"{doc_id}:v1"`, here `key`. `Checkpoint` copies
-- a state through JSON, which gives an equal state back; what `classify` and `retrieve` return is
-- only stored, and is left out of the state.
pub mod Done
pub mod Restart
pub mod Rejected
use mastery.Prelude.{
  ℕ, String, Bool, true, false, not, ◌||◌, ◌==◌, Option, none, some, List, [], ◌∷◌, ◌++◌,
  if◌then◌else◌,
}
use mastery.Prelude.Dict.{lookup, put}
use mastery.Agent.{Exceeded, check_budget, Event}
use mastery.Agent.Steps.{
  World, Shared, Result, ok, halted, Exec, ◌>>=◌, ◌>>◌, pure, classify, retrieve, extract,
  violations, check, store, note,
}

pub data Step : Type 0 where
  classify_step retrieve_step extract_step validate_step store_step : Step

-- STEPS, in order.
abbrev pub all_steps : List Step
all_steps = classify_step ∷ retrieve_step ∷ extract_step ∷ validate_step ∷ store_step ∷ []

abbrev pub number : Step → ℕ
number classify_step = 0
number retrieve_step = 1
number extract_step = 2
number validate_step = 3
number store_step = 4

abbrev pub same_step : Step → Step → Bool
same_step a b = number a == number b

-- The saved `state`: its `record`, its violations, and the list under "done".
pub record State (R : Type 0) : Type 0 where
  pub found : Option R
  pub violated : List String
  pub finished : List Step

abbrev pub start : {R : Type 0} → State R
start = record { found = none; violated = []; finished = [] }

abbrev pub is_done : Step → List Step → Bool
is_done name [] = false
is_done name (s ∷ ss) = same_step s name || is_done name ss

abbrev pub is_killed : Option Step → Step → Bool
is_killed none name = false
is_killed (some k) name = same_step k name

-- `Checkpoint.load`
unfoldable pub load : {R : Type 0} → String → List (String × State R) → State R
unfolding lookup
load key saved = elim (lookup key saved) [ none ↦ start | some st ↦ st ]

pub data Outcome : Type 0 where
  stored rejected killed : Outcome
  stopped : Exceeded → Outcome

-- What outlives a run: the budget and the rows that are passed in, and the checkpoints.
pub record Durable (R : Type 0) : Type 0 where
  pub shared : Shared R
  pub saved : List (String × State R)

abbrev pub skip_name : Step → String
skip_name classify_step = "skip:classify"
skip_name retrieve_step = "skip:retrieve"
skip_name extract_step = "skip:extract"
skip_name validate_step = "skip:validate"
skip_name store_step = "skip:store"

abbrev pub is_empty : {A : Type 0} → List A → Bool
is_empty [] = true
is_empty (x ∷ xs) = false

-- `ckpt.save(run_id, state)`
unfoldable pub save :
    {R : Type 0} → String → State R → Shared R → List (String × State R) → Durable R
unfolding put
save key st sh saved = record { shared = sh; saved = put key st saved }

abbrev pub mark : {R : Type 0} → Step → State R → State R
mark name st = record st { finished = st.finished ++ (name ∷ []) }

module _ {R : Type 0} (w : World R) (doc_id key : String) where
  -- The step's own branch of the `if name == ...` chain.
  unfoldable pub perform : Step → State R → Exec R (State R)
  unfolding classify retrieve extract check store
  perform classify_step st = do classify w doc_id; pure st
  perform retrieve_step st = do retrieve w true doc_id; pure st
  perform extract_step st = do r ← extract w true doc_id []; pure (record st { found = r })
  perform validate_step st = do vs ← check w st.found; pure (record st { violated = vs })
  perform store_step st = do store w key st.found; pure st

  -- Only `validate` leaves the loop early, and only with violations.
  abbrev pub rejects : Step → State R → Bool
  rejects validate_step st = not (is_empty st.violated)
  rejects _ st = false

  -- What follows a step: the exception's handler saves the state as it was before the step.
  abbrev pub conclude :
      (State R → Durable R → Outcome × List Event × Durable R)
      → Step
      → State R
      → List (String × State R)
      → Result (State R) × List Event × Shared R
      → Outcome × List Event × Durable R
  conclude again name st saved (halted x, es, sh) = (stopped x, es, save key st sh saved)
  conclude again name st saved (ok st', es, sh) =
      let done = mark name st' in
      let d = save key done sh saved in
      let (o, fs, e) = again done d in
      if rejects name st' then (rejected, es, d) else (o, es ++ fs, e)

  -- The loop over the steps that are left.
  unfoldable pub steps_from :
      Option Step → List Step → State R → Durable R → Outcome × List Event × Durable R
  unfolding perform save
  steps_from kill_at [] st d = (stored, [], d)
  steps_from kill_at (name ∷ rest) st d =
      let again = steps_from kill_at rest in
      let skipped = again st d in
      let gone = conclude again name st d.saved (perform name st d.shared) in
      if is_done name st.finished
      then (skipped.0, record { step = skip_name name; cost = 0 } ∷ skipped.1, skipped.2)
      else (if is_killed kill_at name then (killed, [], save key st d.shared d.saved) else gone)

  unfoldable pub run : Option Step → Bool → Durable R → Outcome × List Event × Durable R
  unfolding steps_from load
  run kill_at resume d = steps_from kill_at all_steps (if resume then load key d.saved else start) d
