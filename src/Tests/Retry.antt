-- ===== src/Tests/Retry.antt =====
-- The retry policies of modules/model-interface-lab/retry_lab.py.
use mastery.Prelude.{ℕ, ◌≡◌, refl, ◌==◌, true, false, Option, none, some, if◌then◌else◌}
use mastery.Retry.{ProviderError, Stats, naive_from, naive, classified_from, classified}

program : Unit {0}
unfolding naive_from naive classified_from classified
program = tt

abbrev rate_limited : ProviderError
rate_limited = record { transient = true; retry_after = some 2000 }

abbrev bad_request : ProviderError
bad_request = record { transient = false; retry_after = none }

-- One rate limit, and then a request that is malformed for good.
abbrev malformed : ℕ → Option ProviderError
malformed n = some (if n == 0 then rate_limited else bad_request)

abbrev nothing_yet : Stats
nothing_yet = record { calls = 0; slept = 0; ok = 0; gave_up = 0 }

gives_up_early :
    classified malformed 4 500 8000 nothing_yet
    ≡ record { calls = 2; slept = 2000; ok = 0; gave_up = 1 }
unfolding program
gives_up_early = refl

tries_on : naive malformed 4 nothing_yet ≡ record { calls = 4; slept = 4000; ok = 0; gave_up = 1 }
unfolding program
tries_on = refl
