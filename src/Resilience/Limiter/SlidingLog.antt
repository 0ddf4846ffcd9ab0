-- ===== src/Resilience/Limiter/SlidingLog.antt =====
-- The sliding log.
use mastery.Prelude.{
  ℕ, ◌+◌, ◌≤◌, ◌<◌, ◌≡◌, Bool, List, [], ◌∷◌, ◌++◌, length, keep, count-append, length-append,
  count-le-length, ltb, leb, ◌&&◌, arith, dec_lt, Bool-cases, ltb→lt, inl, inr,
}
use mastery.Resilience.Limiter.{
  sliding_from, sliding_log, admitted_times, burst_at, worst_second, worst_second-le,
}

-- The times do not go back, and start no earlier than `since`.
abbrev pub InOrder : ℕ → List ℕ → Type 0
InOrder since [] = Unit
InOrder since (t ∷ ts) = (since ≤ t) × InOrder t ts

late_burst :
    (window a since : ℕ) (ts : List ℕ) (flags : List Bool)
    → InOrder since ts
    → a + window ≤ since
    → burst_at window (admitted_times ts flags) a ≡ 0
late_burst window a since [] flags o h = omega arith
late_burst window a since (t ∷ ts) [] o h = omega arith
late_burst window a since (t ∷ ts) (b ∷ flags) o h = ground (arith, late_burst window a t ts flags)

-- What the log forgets at `t` lies in no stretch that reaches past `t`.
burst-fresh :
    (window a t : ℕ) (seen : List ℕ)
    → t < a + window
    → burst_at window (keep (λ x. ltb t (x + window)) seen) a ≡ burst_at window seen a
burst-fresh window a t [] h = omega arith
burst-fresh window a t (x ∷ seen) h = ground (arith, burst-fresh window a t seen h)

-- One more request at `t`, when fewer than the limit are remembered.
burst-admit :
    (limit window a t : ℕ) (fresh : List ℕ)
    → length fresh < limit
    → burst_at window (fresh ++ (t ∷ [])) a ≤ limit
burst-admit limit window a t fresh room = omega (
  arith,
  count-le-length (λ x. leb a x && ltb x (a + window)) (fresh ++ (t ∷ [])),
  length-append fresh (t ∷ []),
)

sliding_from-burst :
    (limit window a since : ℕ) (seen ts : List ℕ)
    → InOrder since ts
    → burst_at window seen a ≤ limit
    → burst_at window (admitted_times ts (sliding_from limit window seen ts)) a
        + burst_at window seen a
      ≤ limit
unfolding sliding_from
sliding_from-burst limit window a since seen [] o h = omega arith
sliding_from-burst limit window a since seen (t ∷ ts) o h = elim (dec_lt t (a + window)) [
  | no past ↦
      let flags = sliding_from limit window seen (t ∷ ts) in
      omega (arith, late_burst window a t (t ∷ ts) flags (omega arith, o.1) (omega arith))
  | yes near ↦
      let fresh = keep (λ x. ltb t (x + window)) seen in
      let inside : ℕ → Bool = λ x. leb a x && ltb x (a + window) in
      elim (Bool-cases (ltb (length fresh) limit)) [
        | inl room ↦ rw room (
            ground (
              arith,
              burst-fresh window a t seen near,
              burst-admit limit window a t fresh (ltb→lt _ _ room),
              count-append inside fresh (t ∷ []),
              sliding_from-burst limit window a t (fresh ++ (t ∷ [])) ts o.1,
            ))
        | inr full ↦ rw full (
            omega (
              arith,
              burst-fresh window a t seen near,
              sliding_from-burst limit window a t fresh ts o.1
                  (omega (arith, burst-fresh window a t seen near)),
            ))
      ]
]

-- Over requests that arrive in order, the sliding log admits no more than its limit in any stretch
-- as long as its window.
pub sliding_log-worst :
    (limit window : ℕ) (times : List ℕ)
    → InOrder 0 times
    → worst_second window times (sliding_log limit window times) ≤ limit
unfolding sliding_log
sliding_log-worst limit window times o =
    worst_second-le window limit times (sliding_log limit window times)
      λ a. omega (arith, sliding_from-burst limit window a 0 [] times o (omega arith))
