-- ===== src/Tests/DeadLetters.antt =====
-- The queue of modules/ops-lab/dlq_lab.py with one poison item of three.
use mathlib.Core.Option.{bind}
use mastery.Prelude.{◌≡◌, refl, Option, none, some, ◌==◌}
use mastery.DeadLetters.{Policy, park_now, retry_three, State, pop_least, drain, simulate}
use mastery.DeadLetters.Drained.{IsDrained, simulate-Drains}

program : Unit {0}
unfolding pop_least drain simulate
program = tt

abbrev three_items : Policy → Option State
three_items policy = simulate policy (λ i. i == 1) (λ n. 20) 3 2

parks : bind (three_items park_now) (λ end. some end.parked) ≡ some 1
unfolding program bind
parks = refl

tried_again : bind (three_items retry_three) (λ end. some end.retries) ≡ some 4
unfolding program bind
tried_again = refl

simulate-Drains_example :
    (simulate retry_three (λ i. i == 1) (λ n. 20) 4 0 ≡ none)
    × ((end : State) × ((three_items retry_three ≡ some end)
          × IsDrained retry_three (λ i. i == 1) (λ n. 20) 3 end))
simulate-Drains_example = simulate-Drains retry_three (λ i. i == 1) (λ n. 20) 3 1
