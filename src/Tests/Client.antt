-- ===== src/Tests/Client.antt =====
-- The client of modules/service-lab/resilience_lab.py.
use mastery.Prelude.{◌*◌, ◌+◌, ◌≡◌, refl, false, none, some, [], ◌∷◌, max, ◌≤◌, ltb}
use mastery.Resilience.RetryBudget
use mastery.Resilience.Client.{Policy, World, ok, client}
use mastery.Resilience.Client.Amplification.{start, clients, amplification_bound}

program : Unit {0}
unfolding client clients
program = tt

abbrev thrice : Policy
thrice = record { tries = 3; backoff = 50; jitter = false }

-- The server answers from the third attempt on; the clock stands still.
abbrev late : World
late = record { answered = λ i. ltb 1 i; asked_at = λ _. 0; told_at = λ _. 0; draw = λ i d. d }

third_time :
    client thrice late (start none none)
    ≡ (ok, record { breaker = none; budget = none; sent = 3; slept = 150 })
unfolding program
third_time = refl

amplification_bound_example :
    10
      * (clients
          ((thrice, late) ∷ (thrice, late) ∷ [])
          (start none (some (RetryBudget.init 1 10)))).sent
    ≤ 10 * 2 + 1 * max 2 10
amplification_bound_example = amplification_bound 1 10 none ((thrice, late) ∷ (thrice, late) ∷ [])
