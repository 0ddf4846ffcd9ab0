-- ===== src/Resilience/Limiter.antt =====
-- The rate limiters of modules/service-lab/resilience_lab.py, section 5. Times are natural numbers
-- of ticks, and the tokens of the bucket are counted in units of which one request costs `unit`.
pub mod FixedWindow
pub mod SlidingLog
pub mod TokenBucket
use mastery.Prelude.{
  ℕ, suc, ◌+◌, ◌-◌, ◌*◌, ◌/◌, ◌≤◌, min, max, Bool, true, false, Option, none, some, List, [], ◌∷◌,
  ◌++◌, length, count, keep, ltb, leb, ◌==◌, ◌&&◌, arith, if◌then◌else◌,
}

-- `counts[w] = counts.get(w, 0) + 1`
abbrev pub bump : (ℕ → ℕ) → ℕ → ℕ → ℕ
bump counts w v = if w == v then counts w + 1 else counts v

unfoldable pub fixed_from : ℕ → ℕ → (ℕ → ℕ) → List ℕ → List Bool
fixed_from limit window counts [] = []
fixed_from limit window counts (t ∷ ts) =
    let w = t / window in leb (counts w + 1) limit ∷ fixed_from limit window (bump counts w) ts

unfoldable pub fixed_window : ℕ → ℕ → List ℕ → List Bool
unfolding fixed_from
fixed_window limit window times = fixed_from limit window (λ _. 0) times

-- `x > t - window` is written as a sum.
unfoldable pub sliding_from : ℕ → ℕ → List ℕ → List ℕ → List Bool
sliding_from limit window seen [] = []
sliding_from limit window seen (t ∷ ts) =
    let fresh = keep (λ x. ltb t (x + window)) seen in
    let admitted = ltb (length fresh) limit in
    admitted ∷ sliding_from limit window (if admitted then fresh ++ (t ∷ []) else fresh) ts

unfoldable pub sliding_log : ℕ → ℕ → List ℕ → List Bool
unfolding sliding_from
sliding_log limit window times = sliding_from limit window [] times

-- The times are in order, so that `t - last` is not negative.
unfoldable pub bucket_from : ℕ → ℕ → ℕ → ℕ → ℕ → List ℕ → List Bool
bucket_from unit rate capacity tokens last [] = []
bucket_from unit rate capacity tokens last (t ∷ ts) =
    let filled = min capacity (tokens + (t - last) * rate) in
    let admitted = leb unit filled in
    admitted ∷ bucket_from unit rate capacity (if admitted then filled - unit else filled) t ts

-- `times[0]` raises on an empty list.
unfoldable pub token_bucket : ℕ → ℕ → ℕ → List ℕ → Option (List Bool)
unfolding bucket_from
token_bucket unit rate capacity [] = none
token_bucket unit rate capacity (t ∷ ts) = some (bucket_from unit rate capacity capacity t (t ∷ ts))

-- `[t for t, a in zip(times, admitted) if a]`
abbrev pub admitted_times : List ℕ → List Bool → List ℕ
admitted_times [] flags = []
admitted_times (t ∷ ts) [] = []
admitted_times (t ∷ ts) (a ∷ flags) =
    let rest = admitted_times ts flags in if a then t ∷ rest else rest

-- `sum(1 for x in ok if t <= x < t + 1.0)`, for a second of `second` ticks.
abbrev pub burst_at : ℕ → List ℕ → ℕ → ℕ
burst_at second times t = count (λ x. leb t x && ltb x (t + second)) times

unfoldable pub worst_of : ℕ → List ℕ → List ℕ → ℕ
worst_of second all [] = 0
worst_of second all (t ∷ ts) = max (burst_at second all t) (worst_of second all ts)

unfoldable pub worst_second : ℕ → List ℕ → List Bool → ℕ
unfolding worst_of
worst_second second times admitted =
    let kept = admitted_times times admitted in worst_of second kept kept

-- No number of a list of bursts passes a bound that each of them keeps.
worst_of-le :
    (second bound : ℕ) (all ts : List ℕ)
    → ((t : ℕ) → burst_at second all t ≤ bound)
    → worst_of second all ts ≤ bound
unfolding worst_of
worst_of-le second bound all [] h = omega arith
worst_of-le second bound all (t ∷ ts) h = omega (arith, h t, worst_of-le second bound all ts h)

pub worst_second-le :
    (second bound : ℕ) (times : List ℕ) (flags : List Bool)
    → ((t : ℕ) → burst_at second (admitted_times times flags) t ≤ bound)
    → worst_second second times flags ≤ bound
unfolding worst_second
worst_second-le second bound times flags h =
    worst_of-le second bound (admitted_times times flags) (admitted_times times flags) h
