-- ===== src/Resilience/Client/Amplification.antt =====
-- What a retry budget bounds: the requests of all clients that share it.
use mastery.Prelude.{
  ℕ, zero, suc, ◌+◌, ◌*◌, ◌≤◌, max, ◌≡◌, refl, Bool, true, false, Option, some, List, [], ◌∷◌,
  length, arith, ◌==◌,
}
use mastery.Resilience.Breaker.{Breaker}
use mastery.Resilience.RetryBudget.{Budget, init, first_call, allow_retry}
use mastery.Resilience.Client.{
  Policy, World, Session, Outcome, conclude, count_first, gate, send, may_retry, sleep, attempts,
  client,
}

-- The requests sent, and `credit` more, are paid for by calls and allowed retries, and the
-- retries are within the ratio.
pub record Paid (credit num den calls : ℕ) (s : Session) (g : Budget) : Type 0 where
  pub shared : s.budget ≡ some g
  pub paid : s.sent + credit ≤ g.calls + g.retries
  pub within : g.den * g.retries ≤ g.num * max g.calls 10
  pub num_is : g.num ≡ num
  pub den_is : g.den ≡ den
  pub calls_is : g.calls ≡ calls

-- What holds of each way out of a round holds of the round.
pub conclude_rule {κ} :
    {R : Type 0} (P : R → Type κ) (allowed answered last retry : Bool)
    {refused good over broke again : R}
    → P refused
    → P good
    → P over
    → P broke
    → (last ≡ false → retry ≡ true → P again)
    → P (conclude allowed answered last retry refused good over broke again)
conclude_rule P false answered last retry a b c d e = a
conclude_rule P true true last retry a b c d e = b
conclude_rule P true false true retry a b c d e = c
conclude_rule P true false false false a b c d e = d
conclude_rule P true false false true a b c d e = e refl refl

module _ {num den calls : ℕ} where
  gate-Paid :
      (now : ℕ) (s : Session) {g : Budget}
      → Paid 1 num den calls s g
      → Paid 1 num den calls (gate now s).0 g
  unfolding gate
  gate-Paid now s h = ground arith

  send-Paid :
      (now : ℕ) (b : Bool) (s : Session) {g : Budget}
      → Paid 1 num den calls s g
      → Paid 0 num den calls (send now b s) g
  unfolding send
  send-Paid now b s h = ground arith

  sleep-Paid :
      (p : Policy) (w : World) (n : ℕ) (s : Session) {g : Budget}
      → Paid 1 num den calls s g
      → Paid 1 num den calls (sleep p w n s) g
  unfolding sleep
  sleep-Paid p w n s h = ground arith

  may_retry-Paid :
      (s : Session) {g : Budget}
      → Paid 0 num den calls s g
      → ((may_retry s).1 ≡ true → Paid 1 num den calls (may_retry s).0 (allow_retry g).0)
        × Paid 0 num den calls (may_retry s).0 (allow_retry g).0
  unfolding may_retry allow_retry
  may_retry-Paid s h = ground arith

  relax : {s : Session} {g : Budget} → Paid 1 num den calls s g → Paid 0 num den calls s g
  relax h = ground arith

  attempts-Paid :
      (p : Policy) (w : World) (left n : ℕ) (s : Session) (g : Budget)
      → Paid 1 num den calls s g
      → (g' : Budget) × Paid 0 num den calls (attempts p w left n s).1 g'
  unfolding attempts
  attempts-Paid p w zero n s g h = (g, relax h)
  attempts-Paid p w (suc left) n s g h =
      let asked = gate-Paid (w.asked_at n) s h in
      let s' = send (w.told_at n) (w.answered n) (gate (w.asked_at n) s).0 in
      let told = send-Paid (w.told_at n) (w.answered n) (gate (w.asked_at n) s).0 asked in
      let spent = may_retry-Paid s' told in
      conclude_rule {R = Outcome × Session} (λ r. (g' : Budget) × Paid 0 num den calls r.1 g')
        (gate (w.asked_at n) s).1 (w.answered n) (n + 1 == p.tries) (may_retry s').1
        (g, relax asked) (g, told) (g, told) ((allow_retry g).0, spent.1)
        (λ more retry.
          attempts-Paid p w left (n + 1) (sleep p w n (may_retry s').0) (allow_retry g).0
            (sleep-Paid p w n (may_retry s').0 (spent.0 retry)))

pub scaled_le : (n a b : ℕ) → a ≤ b → n * a ≤ n * b
scaled_le n a b h = grind arith

first_call-Paid :
    (num den : ℕ) {calls : ℕ} (s : Session) (g : Budget)
    → Paid 0 num den calls s g
    → Paid 1 num den (calls + 1) (count_first s) (first_call g)
unfolding count_first first_call
first_call-Paid num den s g h = record {
  shared = ground arith;
  paid = ground arith;
  within = omega (arith, h, scaled_le g.num (max g.calls 10) (max (g.calls + 1) 10) (omega arith));
  num_is = ground arith;
  den_is = ground arith;
  calls_is = ground arith;
}

abbrev pub start : Option Breaker → Option Budget → Session
start br g = record { breaker = br; budget = g; sent = 0; slept = 0 }

client-Paid :
    {num den calls : ℕ} (p : Policy) (w : World) (s : Session) (g : Budget)
    → Paid 0 num den calls s g
    → (g' : Budget) × Paid 0 num den (calls + 1) (client p w s).1 g'
unfolding client count_first
client-Paid {num} {den} p w s g h =
    attempts-Paid p w p.tries 0 (count_first s) (first_call g) (first_call-Paid num den s g h)

-- The clients that share a breaker and a budget, each with its own policy and its own answers.
unfoldable pub clients : List (Policy × World) → Session → Session
clients [] s = s
clients ((p, w) ∷ rest) s = clients rest (client p w s).1

clients-Paid :
    (num den : ℕ) (jobs : List (Policy × World)) (calls : ℕ) (s : Session) (g : Budget)
    → Paid 0 num den calls s g
    → (g' : Budget) × Paid 0 num den (calls + length jobs) (clients jobs s) g'
unfolding clients
clients-Paid num den [] calls s g h = (g, ground arith)
clients-Paid num den ((p, w) ∷ rest) calls s g h =
    let (g1, one) = client-Paid p w s g h in
    let (g2, all) = clients-Paid num den rest (calls + 1) (client p w s).1 g1 one in
    (g2, ground arith)

within_ratio :
    (num den sent n retries m : ℕ)
    → sent ≤ n + retries
    → den * retries ≤ num * m
    → den * sent ≤ den * n + num * m
within_ratio num den sent n retries m h k = omega (arith, scaled_le den sent (n + retries) h)

-- Clients that share a fresh budget of ratio num / den send, all together, no more requests than
-- there are clients plus the ratio of max(clients, 10): den * sent <= den * n + num * max(n, 10),
-- whatever the server, the breaker, the clocks and the numbers of tries are.
pub amplification_bound :
    (num den : ℕ) (br : Option Breaker) (jobs : List (Policy × World))
    → den * (clients jobs (start br (some (init num den)))).sent
      ≤ den * length jobs + num * max (length jobs) 10
unfolding init
amplification_bound num den br jobs =
    let s = start br (some (init num den)) in
    let (g, h) = clients-Paid num den jobs 0 s (init num den) (ground arith) in
    within_ratio num den (clients jobs s).sent (length jobs) g.retries (max (length jobs) 10)
      (omega (arith, h)) (ground (arith, h))
