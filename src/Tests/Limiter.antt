-- ===== src/Tests/Limiter.antt =====
-- The limiters of modules/service-lab/resilience_lab.py.
use mastery.Prelude.{ℕ, ◌≡◌, refl, Bool, true, false, some, List, [], ◌∷◌, arith, ◌≤◌}
use mastery.Resilience.Limiter.{fixed_window, sliding_log, token_bucket, worst_second}
use mastery.Resilience.Limiter.SlidingLog.{sliding_log-worst}
use mastery.Resilience.Limiter.TokenBucket.{IsLimited, GetsThrough, token_bucket-rate}

program : Unit {0}
unfolding fixed_window sliding_log token_bucket worst_second
program = tt

-- Two requests at 0.9 s and two at 1.0 s, in milliseconds.
abbrev polite : List ℕ
polite = 900 ∷ 900 ∷ 1000 ∷ 1000 ∷ []

double_burst : worst_second 1000 polite (fixed_window 2 1000 polite) ≡ 4
unfolding program
double_burst = refl

exact_log : worst_second 1000 polite (sliding_log 2 1000 polite) ≡ 2
unfolding program
exact_log = refl

bucket : token_bucket 1000 2 2000 polite ≡ some (true ∷ true ∷ false ∷ false ∷ [])
unfolding program
bucket = refl

sliding_log-worst_example : worst_second 1000 polite (sliding_log 2 1000 polite) ≤ 2
sliding_log-worst_example = sliding_log-worst 2 1000 polite (omega arith)

-- The stretch of the two requests at 900 and 1000 in the middle.
token_bucket-rate_example :
    (flags : List Bool) × ((token_bucket 1000 2 2000 polite ≡ some flags)
      × IsLimited 1000 2 2000 (900 ∷ []) 900 (1000 ∷ []) (1000 ∷ []) flags
      × GetsThrough 1000 2 2000 (900 ∷ []) 900 flags)
token_bucket-rate_example =
    token_bucket-rate 1000 2 2000 (900 ∷ []) 900 (1000 ∷ []) (1000 ∷ []) (omega arith)
