-- ===== src/Resilience/Limiter/FixedWindow.antt =====
-- The fixed window: exact in each window of the clock, and twice the limit across a boundary.
use native.Mathlib.Nat.{div-mul-le_self, lt-div-mul-add, div-eq_of_lt-le}
use mastery.Prelude.{
  ℕ, ◌+◌, ◌*◌, ◌/◌, ◌≤◌, ◌<◌, min, ◌≡◌, Bool, List, [], ◌∷◌, count, ◌==◌, ◌⊎◌, inl, inr, dec_lt,
  arith,
}
use mastery.Resilience.Limiter.{
  bump, fixed_from, fixed_window, admitted_times, burst_at, worst_second, worst_second-le,
}

abbrev pub in_window : ℕ → ℕ → ℕ → Bool
in_window window w t = t / window == w

fixed_from-count :
    (limit window w : ℕ) (counts : ℕ → ℕ) (ts : List ℕ)
    → count (in_window window w) (admitted_times ts (fixed_from limit window counts ts))
        + min limit (counts w)
      ≡ min limit (counts w + count (in_window window w) ts)
unfolding fixed_from
fixed_from-count limit window w counts [] = omega arith
fixed_from-count limit window w counts (t ∷ ts) =
    ground (arith, fixed_from-count limit window w (bump counts (t / window)) ts)

-- In each window of the clock the fixed window admits exactly the smaller of the limit and the
-- number of requests that arrive in it, in whatever order they arrive.
pub fixed_window-count :
    (limit window w : ℕ) (times : List ℕ)
    → count (in_window window w) (admitted_times times (fixed_window limit window times))
      ≡ min limit (count (in_window window w) times)
unfolding fixed_window
fixed_window-count limit window w times =
    omega (arith, fixed_from-count limit window w (λ _. 0) times)

-- A time less than a window later falls into the same window of the clock or the next one.
two_windows :
    (window t x : ℕ)
    → 0 < window
    → t ≤ x
    → x < t + window
    → (x / window ≡ t / window) ⊎ (x / window ≡ t / window + 1)
two_windows window t x pos lo hi =
    let q = t / window in
    let below : q * window ≤ t = div-mul-le_self t window in
    let above : t < q * window + window = lt-div-mul-add pos in
    elim (dec_lt x ((q + 1) * window)) [
      | yes same ↦ inl (div-eq_of_lt-le window (omega arith) same)
      | no next ↦ inr (div-eq_of_lt-le window (omega arith) (omega arith))
    ]

burst-two_windows :
    (window t : ℕ) (xs : List ℕ)
    → 0 < window
    → burst_at window xs t
      ≤ count (in_window window (t / window)) xs + count (in_window window (t / window + 1)) xs
burst-two_windows window t [] pos = omega arith
burst-two_windows window t (x ∷ xs) pos =
    ground (arith, burst-two_windows window t xs pos, two_windows window t x pos)

-- Over any stretch as long as the window, the fixed window admits at most twice its limit.
pub fixed_window-worst :
    (limit window : ℕ) (times : List ℕ)
    → 0 < window
    → worst_second window times (fixed_window limit window times) ≤ 2 * limit
fixed_window-worst limit window times pos =
    worst_second-le window (2 * limit) times (fixed_window limit window times) λ t. omega (
      arith,
      burst-two_windows window t (admitted_times times (fixed_window limit window times)) pos,
      fixed_window-count limit window (t / window) times,
      fixed_window-count limit window (t / window + 1) times,
    )
