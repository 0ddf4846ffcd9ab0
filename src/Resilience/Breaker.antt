-- ===== src/Resilience/Breaker.antt =====
-- The class `Breaker` of modules/service-lab/resilience_lab.py. A method takes the reading of
-- `time.perf_counter()` as `now`, in ticks of any fixed length, and returns the new object.
pub mod Laws
use mastery.Prelude.{ℕ, ◌+◌, Bool, true, false, ltb, leb, ◌||◌, if◌then◌else◌}

-- closed | open | half_open
pub data State : Type 0 where
  closed opened half_open : State

pub record Breaker : Type 0 where
  pub threshold : ℕ
  pub cooldown : ℕ
  pub probes : ℕ
  pub state : State
  pub failures : ℕ
  pub opened_at : ℕ
  pub in_flight_probes : ℕ
  pub short_circuited : ℕ

abbrev pub is_open : State → Bool
is_open opened = true
is_open _ = false

abbrev pub is_half_open : State → Bool
is_half_open half_open = true
is_half_open _ = false

unfoldable pub init : ℕ → ℕ → ℕ → Breaker
init threshold cooldown probes = record {
  threshold = threshold;
  cooldown = cooldown;
  probes = probes;
  state = closed;
  failures = 0;
  opened_at = 0;
  in_flight_probes = 0;
  short_circuited = 0;
}

-- The second `if` of `allow`, and the `return True` behind it.
unfoldable pub admit_probe : Breaker → Breaker × Bool
admit_probe b =
    if is_half_open b.state
    then (if leb b.probes b.in_flight_probes
        then (record b { short_circuited = b.short_circuited + 1 }, false)
        else (record b { in_flight_probes = b.in_flight_probes + 1 }, true))
    else (b, true)

-- `now - opened_at < cooldown` is written as a sum, which is the same over the reals.
unfoldable pub allow : ℕ → Breaker → Breaker × Bool
unfolding admit_probe
allow now b =
    if is_open b.state
    then (if ltb now (b.opened_at + b.cooldown)
        then (record b { short_circuited = b.short_circuited + 1 }, false)
        else admit_probe (record b { state = half_open; in_flight_probes = 0 }))
    else admit_probe b

-- `record(ok)`
unfoldable pub record_outcome : ℕ → Bool → Breaker → Breaker
record_outcome now ok b =
    if ok
    then record b { state = closed; failures = 0 }
    else (let failed = record b { failures = b.failures + 1 } in
        if is_half_open b.state || leb b.threshold (b.failures + 1)
        then record failed { state = opened; opened_at = now }
        else failed)
