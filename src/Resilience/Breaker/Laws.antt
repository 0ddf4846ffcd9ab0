-- ===== src/Resilience/Breaker/Laws.antt =====
-- The breaker under any sequence of calls, from any number of threads: the lock makes each call
-- one step.
use mastery.Prelude.{
  ℕ, suc, ◌+◌, ◌-◌, min, ltb, ◌≤◌, ◌<◌, ◌≡◌, refl, ◌≢◌, Bool, true, false, List, [], ◌∷◌, map,
  length, All, arith, if◌then◌else◌,
}
use mastery.Resilience.Breaker.{closed, opened, half_open, Breaker, init, allow, record_outcome}

-- One call of a method, with its reading of the clock.
pub data Call : Type 0 where
  ask : ℕ → Call
  tell : ℕ → Bool → Call

unfoldable pub step : Breaker → Call → Breaker
step b (ask now) = (allow now b).0
step b (tell now ok) = record_outcome now ok b

unfoldable pub run : Breaker → List Call → Breaker
run b [] = b
run b (c ∷ cs) = run (step b c) cs

abbrev pub admits : Breaker → Call → Bool
admits b (ask now) = (allow now b).1
admits b (tell now ok) = false

-- How many of the calls were answered `True` by `allow`.
unfoldable pub admitted : Breaker → List Call → ℕ
admitted b [] = 0
admitted b (c ∷ cs) = let rest = admitted (step b c) cs in if admits b c then suc rest else rest

-- Between two calls: closed exactly while the count of failures is below the threshold, and
-- never more probes in flight than allowed.
pub record IsSound (b : Breaker) : Type 0 where
  pub closed_below : b.state ≡ closed → b.failures < b.threshold
  pub tripped_above : b.state ≢ closed → b.threshold ≤ b.failures
  pub probes_bounded : b.in_flight_probes ≤ b.probes
  pub usable : 0 < b.threshold

init-IsSound :
    (threshold cooldown probes : ℕ) → 0 < threshold → IsSound (init threshold cooldown probes)
unfolding init
init-IsSound threshold cooldown probes h = ground arith

step-IsSound : (b : Breaker) (c : Call) → IsSound b → IsSound (step b c)
unfolding step allow record_outcome
step-IsSound b (ask now) h = ground arith
step-IsSound b (tell now true) h = ground arith
step-IsSound b (tell now false) h = ground arith

run_from-IsSound : (b : Breaker) (cs : List Call) → IsSound b → IsSound (run b cs)
unfolding run
run_from-IsSound b [] h = h
run_from-IsSound b (c ∷ cs) h = run_from-IsSound (step b c) cs (step-IsSound b c h)

-- With a positive threshold, after any calls at all a new breaker is closed exactly while fewer
-- failures are counted than the threshold, and has no more probes in flight than it allows.
pub run-IsSound :
    (threshold cooldown probes : ℕ) (cs : List Call)
    → 0 < threshold
    → IsSound (run (init threshold cooldown probes) cs)
run-IsSound threshold cooldown probes cs h =
    run_from-IsSound _ cs (init-IsSound threshold cooldown probes h)

-- A call made before `limit`: a question then, or a failure reported at or after `since`.
abbrev pub Early : ℕ → ℕ → Call → Type 0
Early since limit (ask now) = now < limit
Early since limit (tell now ok) = (ok ≡ false) × (since ≤ now)

step-opened :
    (b : Breaker) (since : ℕ) (c : Call)
    → b.state ≡ opened
    → since ≤ b.opened_at
    → Early since (since + b.cooldown) c
    → ((step b c).state ≡ opened)
      × (since ≤ (step b c).opened_at)
      × ((step b c).cooldown ≡ b.cooldown)
      × (admits b c ≡ false)
unfolding step allow record_outcome
step-opened b since (ask now) o s e = ground arith
step-opened b since (tell now ok) o s e = ground arith

cooling_from :
    (b : Breaker) (since cooldown : ℕ) (cs : List Call)
    → b.state ≡ opened
    → since ≤ b.opened_at
    → b.cooldown ≡ cooldown
    → All (Early since (since + cooldown)) cs
    → (admitted b cs ≡ 0) × ((run b cs).state ≡ opened)
unfolding admitted run
cooling_from b since cooldown [] o s q e = (refl, o)
cooling_from b since cooldown (c ∷ cs) o s q e =
    let one = step-opened b since c o s (ground arith) in
    ground (arith, cooling_from (step b c) since cooldown cs one.0 one.1 (ground arith) e.1)

-- An open breaker lets no request through before its cooldown has passed, whatever failures of
-- older requests are reported meanwhile, and is still open then.
pub cooling :
    (b : Breaker) (cs : List Call)
    → b.state ≡ opened
    → All (Early b.opened_at (b.opened_at + b.cooldown)) cs
    → (admitted b cs ≡ 0) × ((run b cs).state ≡ opened)
cooling b cs o e = cooling_from b b.opened_at b.cooldown cs o (omega arith) refl e

half_open_probes :
    (b : Breaker) (times : List ℕ)
    → b.state ≡ half_open
    → b.in_flight_probes ≤ b.probes
    → admitted b (map ask times) + b.in_flight_probes ≤ b.probes
unfolding admitted step allow
half_open_probes b [] o h = omega arith
half_open_probes b (t ∷ ts) o h = ground (arith, half_open_probes (step b (ask t)) ts)

opened_probes :
    (b : Breaker) (times : List ℕ) → b.state ≡ opened → admitted b (map ask times) ≤ b.probes
unfolding admitted step allow
opened_probes b [] o = omega arith
opened_probes b (t ∷ ts) o =
    ground (arith, opened_probes (step b (ask t)) ts, half_open_probes (step b (ask t)) ts)

-- Until an outcome is reported, an open or half-open breaker that is within its bound lets at
-- most `probes` requests through, at whatever times they ask.
pub probes_bound :
    (b : Breaker) (times : List ℕ)
    → b.state ≢ closed
    → b.in_flight_probes ≤ b.probes
    → admitted b (map ask times) ≤ b.probes
probes_bound b times o h = ground (arith, opened_probes b times, half_open_probes b times)

half_open_exact :
    (b : Breaker) (times : List ℕ)
    → b.state ≡ half_open
    → (admitted b (map ask times) ≡ min (b.probes - b.in_flight_probes) (length times))
      × ((run b (map ask times)).short_circuited + admitted b (map ask times)
          ≡ b.short_circuited + length times)
unfolding run admitted step allow
half_open_exact b [] o = (omega arith, omega arith)
half_open_exact b (t ∷ ts) o = ground (arith, half_open_exact (step b (ask t)) ts)

-- Requests up to the cooldown.
abbrev pub waiting : ℕ → List ℕ → ℕ
waiting limit [] = 0
waiting limit (t ∷ ts) = let rest = waiting limit ts in if ltb t limit then suc rest else 0

-- An open breaker is asked at any times, and no outcome is ever reported, as when each request that
-- it lets through raises. It refuses until the first request after its cooldown. From then on it lets
-- exactly its probes through and refuses all that comes later, and it counts each refusal.
pub lost_probes :
    (b : Breaker) (times : List ℕ)
    → b.state ≡ opened
    → let limit = b.opened_at + b.cooldown in
      (admitted b (map ask times) ≡ min b.probes (length times - waiting limit times))
      × ((run b (map ask times)).short_circuited + admitted b (map ask times)
          ≡ b.short_circuited + length times)
unfolding run admitted step allow
lost_probes b [] o = (omega arith, omega arith)
lost_probes b (t ∷ ts) o =
    ground (arith, lost_probes (step b (ask t)) ts, half_open_exact (step b (ask t)) ts)

abbrev pub failures_at : List ℕ → List Call
failures_at = map (λ t. tell t false)

step-failure :
    (b : Breaker) (t : ℕ)
    → b.state ≡ closed
    → ((step b (tell t false)).failures ≡ b.failures + 1)
      × ((step b (tell t false)).threshold ≡ b.threshold)
      × (b.failures + 1 < b.threshold → (step b (tell t false)).state ≡ closed)
      × (b.threshold ≤ b.failures + 1 → (step b (tell t false)).state ≡ opened)
unfolding step record_outcome
step-failure b t o = ground arith

opened_failures :
    (b : Breaker) (times : List ℕ) → b.state ≡ opened → (run b (failures_at times)).state ≡ opened
unfolding run step record_outcome
opened_failures b [] o = o
opened_failures b (t ∷ ts) o = ground (arith, opened_failures (step b (tell t false)) ts)

-- From a closed breaker, a run of failures with no success between them keeps it closed as long
-- as the count stays below the threshold, and opens it once the count reaches the threshold.
pub trips :
    (b : Breaker) (times : List ℕ)
    → b.state ≡ closed
    → b.failures < b.threshold
    → (b.failures + length times < b.threshold → (run b (failures_at times)).state ≡ closed)
      × (b.threshold ≤ b.failures + length times → (run b (failures_at times)).state ≡ opened)
unfolding run
trips b [] o h = ground arith
trips b (t ∷ ts) o h =
    let (counted, same, below, above) = step-failure b t o in
    let b' = step b (tell t false) in ground (arith, trips b' ts, opened_failures b' ts)
