-- ===== src/Tests/Agent.antt =====
-- The pipeline, the loop and the resumable run of modules/agent-workflow-lab.
use mastery.Prelude.{
  ℕ, ◌==◌, if◌then◌else◌, Option, ◌≡◌, refl, ◌≢◌, String, true, false, none, some, List, [], ◌∷◌,
  ◌++◌,
}
use mastery.Prelude.Dict.{lookup, put}
use mastery.Agent.{calls_exhausted, budget, check_budget, spend, insert, total_cost}
use mastery.Agent.Steps.{
  World, Shared, classify, retrieve, extract, check, store, resolve_actors, opening, escape, fence,
  codes,
}
use mastery.Agent.Fence.{fence-closing}
use mastery.Agent.Pipeline.{finish, pipeline_body, run_pipeline, Leaves, run_pipeline-Leaves}
use mastery.Agent.Loop.{
  Action, do_extract, do_validate, do_store, Progress, stopped, take_action, rounds, run_agent,
}
use mastery.Agent.Loop.Bounds.{Accounts, run_agent-Accounts}
use mastery.Agent.Resume.{
  extract_step, load, save, perform, steps_from, run, stored, killed, Durable,
}
use mastery.Agent.Resume.Restart.{killed_and_restarted}
use mastery.Agent.Resume.Rejected.{rejected_and_restarted}

program : Unit {0}
unfolding budget check_budget spend insert lookup put classify retrieve extract check store
    resolve_actors finish pipeline_body run_pipeline take_action rounds run_agent load save perform
    steps_from run escape fence total_cost
program = tt

-- Records are numbers here, and the model answers 5 to any document, for 300 units.
abbrev good : World ℕ
good = record {
  answer = λ doc. (some 5, 300);
  validate = λ r. [];
  hijack = λ r. 9;
  passages_of = λ doc. codes "a < b" ∷ [];
  suspicious = λ p. false;
  clock = λ n. n;
  truthy = λ r. true;
}

abbrev bad : World ℕ
bad = record good { validate = λ r. "date" ∷ [] }

abbrev begin : Shared ℕ
begin = record { budget = budget 6 2000000 30 0; rows = [] }

abbrev fresh : Durable ℕ
fresh = record { shared = begin; saved = [] }

-- Extract, validate, store: the planner that gets it right.
abbrev sensible : ℕ → Progress ℕ → Action
sensible left p = if left == 11 then do_extract else (if left == 10 then do_validate else do_store)

abbrev no_text : List ℕ
no_text = []

abbrev no_rows : List (String × ℕ)
no_rows = []

abbrev its_row : List (String × Option ℕ)
its_row = ("N01:v1", some 5) ∷ []

abbrev one_violation : List String
one_violation = "date" ∷ []

abbrev nothing_wrong : List String
nothing_wrong = []

abbrev no_progress : Progress ℕ
no_progress = record { passages = none; found = none; validated = false; unvalidated = 0 }

fence-closing_example : no_text ≡ []
unfolding program
fence-closing_example = fence-closing (codes "</b>") (opening ++ codes "&lt;/b>") [] refl

run_pipeline-Leaves_example :
    Leaves good "N01:v1" begin (run_pipeline good true "N01" "N01:v1" begin)
run_pipeline-Leaves_example = run_pipeline-Leaves good true "N01" "N01:v1" begin

run_agent-Accounts_example :
    Accounts good "N01" 12 begin
      (run_agent good "N01" "N01:v1" sensible begin).1
      (run_agent good "N01" "N01:v1" sensible begin).2
run_agent-Accounts_example = run_agent-Accounts good "N01" "N01:v1" sensible begin

-- A planner that stores what it has not validated, and then spends its calls.
abbrev hasty : ℕ → Progress ℕ → Action
hasty left p = if left == 10 then do_store else do_extract

unvalidated_write : (run_agent good "N01" "N01:v1" hasty begin).0 ≡ stopped calls_exhausted
unfolding program
unvalidated_write = refl

still_written : (rounds good "N01" "N01:v1" hasty 12 no_progress begin).0.1.unvalidated ≡ 1
unfolding program
still_written = refl

killed_and_restarted_example :
    let first = run good "N01" "N01:v1" (some extract_step) true fresh in
    let second = run good "N01" "N01:v1" none true first.2 in
    (first.0 ≡ killed)
    × (second.0 ≡ stored)
    × (second.2 ≡ (run good "N01" "N01:v1" none true fresh).2)
unfolding program
killed_and_restarted_example = killed_and_restarted good "N01" "N01:v1" extract_step fresh refl refl

rejected_and_restarted_example :
    let first = run bad "N01" "N01:v1" none true fresh in
    let second = run bad "N01" "N01:v1" none true first.2 in
    (one_violation ≢ nothing_wrong)
    × (first.2.shared.rows ≡ [])
    × (second.0 ≡ stored)
    × (second.2.shared.rows ≡ its_row)
unfolding program
rejected_and_restarted_example = rejected_and_restarted bad "N01" "N01:v1" fresh refl refl
