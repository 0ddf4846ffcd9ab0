-- ===== src/Resilience/RetryBudget.antt =====
-- The class `Budget` of modules/service-lab/resilience_lab.py. The ratio is the fraction
-- `num / den` of natural numbers, and `ratio * n` is compared exactly, without rounding.
use mastery.Prelude.{ℕ, ◌+◌, ◌*◌, max, Bool, true, false, ltb, if◌then◌else◌}

pub record Budget : Type 0 where
  pub num : ℕ
  pub den : ℕ
  pub calls : ℕ
  pub retries : ℕ

unfoldable pub init : ℕ → ℕ → Budget
init num den = record { num = num; den = den; calls = 0; retries = 0 }

-- `first()`
unfoldable pub first_call : Budget → Budget
first_call b = record b { calls = b.calls + 1 }

unfoldable pub allow_retry : Budget → Budget × Bool
allow_retry b =
    if ltb (b.num * max b.calls 10) (b.den * (b.retries + 1))
    then (b, false)
    else (record b { retries = b.retries + 1 }, true)
