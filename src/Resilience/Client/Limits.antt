-- ===== src/Resilience/Client/Limits.antt =====
-- The client's own limits: how often it sends and how long it sleeps, and what it returns with
-- neither breaker nor budget.
use native.Mathlib.Nat.{pow-suc, pow-le-pow_right}
use native.Mathlib.Numerals.{add-one}
use mastery.Prelude.{
  ℕ, zero, suc, ◌+◌, ◌-◌, ◌*◌, ◌^◌, ◌≤◌, ◌<◌, ◌≡◌, refl, Bool, Option, none, some, arith,
  if◌then◌else◌, ◌==◌,
}
use mastery.Resilience.Breaker.{Breaker}
use mastery.Resilience.RetryBudget.{Budget}
use mastery.Resilience.Client.{
  Policy, World, Session, Outcome, ok, failed, count_first, gate, send, may_retry, sleep, attempts,
  client,
}
use mastery.Resilience.Client.Amplification.{conclude_rule, scaled_le, start}

gate-sent :
    (now : ℕ) (s : Session) → ((gate now s).0.sent ≡ s.sent) × ((gate now s).0.slept ≡ s.slept)
unfolding gate
gate-sent now s = ground arith

send-sent :
    (now : ℕ) (b : Bool) (s : Session)
    → ((send now b s).sent ≡ s.sent + 1) × ((send now b s).slept ≡ s.slept)
unfolding send
send-sent now b s = ground arith

may_retry-sent : (s : Session) → ((may_retry s).0.sent ≡ s.sent) × ((may_retry s).0.slept ≡ s.slept)
unfolding may_retry
may_retry-sent s = ground arith

sleep-sent :
    (p : Policy) (w : World) (n : ℕ) (s : Session)
    → ((d : ℕ) → w.draw n d ≤ d)
    → ((sleep p w n s).sent ≡ s.sent) × ((sleep p w n s).slept ≤ s.slept + p.backoff * 2 ^ n)
unfolding sleep
sleep-sent p w n s h = ground (arith, h (p.backoff * 2 ^ n))

-- From attempt n on at most `left` requests, and the sleeps before the last attempt.
abbrev pub Limits : Policy → ℕ → ℕ → Session → Session → Type 0
Limits p left n s t =
    (t.sent ≤ s.sent + left)
    × (t.slept + p.backoff * 2 ^ n ≤ s.slept + p.backoff * 2 ^ (p.tries - 1))

backoff-le : (b n tries : ℕ) → n < tries → b * 2 ^ n ≤ b * 2 ^ (tries - 1)
backoff-le b n tries h =
    scaled_le b (2 ^ n) (2 ^ (tries - 1))
      (pow-le-pow_right {n = 2} (omega arith) {i = n} (omega arith))

doubled : (b n : ℕ) → b * 2 ^ (n + 1) ≡ b * 2 ^ n + b * 2 ^ n
doubled b n = rw (add-one, pow-suc) (omega arith)

attempts-Limits :
    (p : Policy) (w : World) (left n : ℕ) (s : Session)
    → ((i d : ℕ) → w.draw i d ≤ d)
    → n + left ≡ p.tries
    → 0 < left
    → Limits p left n s (attempts p w left n s).1
unfolding attempts
attempts-Limits p w zero n s h e pos = absurd (omega arith)
attempts-Limits p w (suc left) n s h e pos =
    let asked = (gate (w.asked_at n) s).0 in
    let told = send (w.told_at n) (w.answered n) asked in
    let counted = (may_retry told).0 in
    let after = sleep p w n counted in
    let a = gate-sent (w.asked_at n) s in
    let b = send-sent (w.told_at n) (w.answered n) asked in
    let c = may_retry-sent told in
    let d = sleep-sent p w n counted (h n) in
    let k = backoff-le p.backoff n p.tries (omega arith) in
    conclude_rule {R = Outcome × Session} (λ r. Limits p (suc left) n s r.1)
      (gate (w.asked_at n) s).1 (w.answered n) (n + 1 == p.tries) (may_retry told).1
      (omega (arith, a, k)) (omega (arith, a, b, k)) (omega (arith, a, b, k))
      (omega (arith, a, b, c, k))
      (λ more retry.
        let rest = attempts-Limits p w left (n + 1) after h (omega arith) (ground arith) in
        omega (arith, a, b, c, d, k, rest, doubled p.backoff n))

-- With at least one try, and draws that stay within their bound, one client sends at most `tries`
-- requests and sleeps at most backoff * (2 ^ (tries - 1) - 1), whatever breaker, budget and
-- answers it meets.
pub client_limits :
    (p : Policy) (w : World) (br : Option Breaker) (g : Option Budget)
    → ((i d : ℕ) → w.draw i d ≤ d)
    → 0 < p.tries
    → ((client p w (start br g)).1.sent ≤ p.tries)
      × ((client p w (start br g)).1.slept + p.backoff ≤ p.backoff * 2 ^ (p.tries - 1))
unfolding client count_first
client_limits p w br g h pos =
    let bound = attempts-Limits p w p.tries 0 (count_first (start br g)) h (omega arith) pos in
    ground (arith, bound)

-- The first of `left` attempts, from the n-th on, that the server answers with 200.
abbrev pub first_good : (ℕ → Bool) → ℕ → ℕ → Option ℕ
first_good answered zero n = none
first_good answered (suc left) n =
    let rest = first_good answered left (n + 1) in if answered n then some n else rest

-- What a client without breaker and budget returns and has sent.
abbrev pub Verdict : Option ℕ → ℕ → Outcome × Session → Type 0
Verdict none tries r = (r.0 ≡ failed) × (r.1.sent ≡ tries)
Verdict (some i) tries r = (r.0 ≡ ok) × (r.1.sent ≡ i + 1)

attempts-Verdict :
    (p : Policy) (w : World) (left n : ℕ) (s : Session)
    → s.breaker ≡ none
    → s.budget ≡ none
    → s.sent ≡ n
    → n + left ≡ p.tries
    → Verdict (first_good w.answered left n) p.tries (attempts p w left n s)
unfolding attempts gate send may_retry sleep
attempts-Verdict p w zero n s b g k e = ground arith
attempts-Verdict p w (suc left) n s b g k e = ground (
  arith,
  attempts-Verdict p w left (n + 1)
      (sleep p w n (may_retry (send (w.told_at n) (w.answered n) (gate (w.asked_at n) s).0)).0),
)

-- With neither breaker nor budget a client returns "ok" exactly if one of its first `tries`
-- attempts is answered with 200, and stops sending there; otherwise it sends all `tries` and fails.
pub client-Verdict :
    (p : Policy) (w : World)
    → Verdict (first_good w.answered p.tries 0) p.tries (client p w (start none none))
unfolding client count_first
client-Verdict p w =
    attempts-Verdict p w p.tries 0 (count_first (start none none)) refl refl refl (omega arith)
