-- ===== src/Resilience/Client.antt =====
-- The function `client` of modules/service-lab/resilience_lab.py: one logical request under
-- whatever policy is switched on. What the sockets, the clock and the random numbers answer at
-- each attempt is a parameter.
pub mod Amplification
pub mod Limits
use mastery.Prelude.{
  ℕ, zero, suc, ◌+◌, ◌*◌, ◌^◌, Bool, true, false, Option, none, some, ◌==◌, if◌then◌else◌,
}
use mastery.Resilience.Breaker.{Breaker, allow, record_outcome}
use mastery.Resilience.RetryBudget.{Budget, first_call, allow_retry}

pub data Outcome : Type 0 where
  ok failed failed_budget short_circuited : Outcome

pub record Policy : Type 0 where
  pub tries : ℕ
  pub backoff : ℕ
  pub jitter : Bool

-- At attempt i: whether the status was 200, the clock at `allow` and at `record`, and the draw of
-- `random.uniform(0, delay)`.
pub record World : Type 0 where
  pub answered : ℕ → Bool
  pub asked_at : ℕ → ℕ
  pub told_at : ℕ → ℕ
  pub draw : ℕ → ℕ → ℕ

-- The breaker and the budget that the caller passes, the requests sent, and the time slept.
pub record Session : Type 0 where
  pub breaker : Option Breaker
  pub budget : Option Budget
  pub sent : ℕ
  pub slept : ℕ

-- `if budget: budget.first()`
unfoldable pub count_first : Session → Session
unfolding first_call
count_first s = elim s.budget [ none ↦ s | some g ↦ record s { budget = some (first_call g) } ]

-- `breaker and not breaker.allow()`, negated.
unfoldable pub gate : ℕ → Session → Session × Bool
unfolding allow
gate now s = elim s.breaker [
  | none ↦ (s, true)
  | some b ↦ (record s { breaker = some (allow now b).0 }, (allow now b).1)
]

-- The request, and `if breaker: breaker.record(ok)`.
unfoldable pub send : ℕ → Bool → Session → Session
unfolding record_outcome
send now answer s = elim s.breaker [
  | none ↦ record s { sent = s.sent + 1 }
  | some b ↦ record s { sent = s.sent + 1; breaker = some (record_outcome now answer b) }
]

-- `budget and not budget.allow_retry()`, negated.
unfoldable pub may_retry : Session → Session × Bool
unfolding allow_retry
may_retry s = elim s.budget [
  | none ↦ (s, true)
  | some g ↦ (record s { budget = some (allow_retry g).0 }, (allow_retry g).1)
]

-- `delay = backoff * (2 ** attempt)` and the sleep.
unfoldable pub sleep : Policy → World → ℕ → Session → Session
sleep p w attempt s =
    let delay = p.backoff * 2 ^ attempt in
    record s { slept = s.slept + (if p.jitter then w.draw attempt delay else delay) }

-- The returns of one round, in the order of its tests: `allow`, `ok`, the last attempt, the retry
-- budget. What they would return, or go on with, is given.
abbrev pub conclude :
    {R : Type 0} → (allowed answered last retry : Bool) → (refused good over broke again : R) → R
conclude allowed answered last retry refused good over broke again =
    if allowed
    then (if answered then good else (if last then over else (if retry then again else broke)))
    else refused

-- The loop, with the rounds left and the attempt's number.
unfoldable pub attempts : Policy → World → ℕ → ℕ → Session → Outcome × Session
unfolding gate send may_retry sleep
attempts p w zero attempt s = (failed, s)
attempts p w (suc left) attempt s =
    let (asked, allowed) = gate (w.asked_at attempt) s in
    let told = send (w.told_at attempt) (w.answered attempt) asked in
    let (counted, retry) = may_retry told in
    let again = attempts p w left (attempt + 1) (sleep p w attempt counted) in
    conclude allowed (w.answered attempt) (attempt + 1 == p.tries) retry (short_circuited, asked)
      (ok, told) (failed, told) (failed_budget, counted) again

unfoldable pub client : Policy → World → Session → Outcome × Session
unfolding count_first attempts
client p w s = attempts p w p.tries 0 (count_first s)
