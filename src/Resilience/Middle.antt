-- ===== src/Resilience/Middle.antt =====
-- The classes `Upstream` and `Middle` of modules/service-lab/resilience_lab.py, and the chain of
-- servers that section 2 builds from them. A server is a function on the state of the one real
-- upstream; the `sleep` between two attempts is left out.
use native.Mathlib.Nat.{pow-suc, pow-zero}
use mastery.Prelude.{
  ℕ, zero, suc, ◌+◌, ◌*◌, ◌^◌, ◌≤◌, ◌<◌, ◌≡◌, List, [], ◌∷◌, ◌++◌, length, length-append, ltb, ◌==◌,
  arith, if◌then◌else◌,
}

pub record Upstream : Type 0 where
  pub t0 : ℕ
  pub outage : ℕ
  pub hits : List ℕ

-- `Upstream.do_GET`: the status sent, after the arrival is recorded.
unfoldable pub upstream : (ℕ → ℕ) → Upstream → Upstream × ℕ
upstream clock u =
    let now = clock (length u.hits) in
    let u' = record u { hits = u.hits ++ (now ∷ []) } in
    if ltb now (u.t0 + u.outage) then (u', 503) else (u', 200)

-- The loop of `Middle.do_GET`, with the attempts left.
unfoldable pub middle : (Upstream → Upstream × ℕ) → ℕ → Upstream → Upstream × ℕ
middle target zero u = (u, 503)
middle target (suc left) u =
    let (u', status) = target u in
    let rest = middle target left u' in if status == 200 then (u', 200) else rest

-- `depth - 1` middle layers over the upstream.
unfoldable pub chain : (ℕ → ℕ) → ℕ → ℕ → Upstream → Upstream × ℕ
chain clock tries zero = upstream clock
chain clock tries (suc layers) = middle (chain clock tries layers) tries

-- One request to a server costs exactly `n` hits, fails, and leaves the outage as it is.
abbrev Fails : (ℕ → ℕ) → ℕ → (Upstream → Upstream × ℕ) → Type 0
Fails clock n server =
    (u : Upstream)
    → ((i : ℕ) → clock i < u.t0 + u.outage)
    → ((server u).1 ≡ 503)
      × (length (server u).0.hits ≡ length u.hits + n)
      × ((server u).0.t0 ≡ u.t0)
      × ((server u).0.outage ≡ u.outage)

upstream-Fails : (clock : ℕ → ℕ) → Fails clock 1 (upstream clock)
unfolding upstream
upstream-Fails clock u down =
    ground (arith, down (length u.hits), length-append u.hits (clock (length u.hits) ∷ []))

middle-Fails :
    (clock : ℕ → ℕ) (target : Upstream → Upstream × ℕ) (n left : ℕ)
    → Fails clock n target
    → Fails clock (left * n) (middle target left)
unfolding middle
middle-Fails clock target n zero f u down = ground arith
middle-Fails clock target n (suc left) f u down =
    let one = f u down in
    let rest = middle-Fails clock target n left f (target u).0 (λ i. ground (arith, down i)) in
    ground (arith, one, rest)

-- While the upstream is down, one request that enters above `layers` layers, each with the same
-- number of tries, is tries ^ layers requests at the upstream, and fails.
pub retries_multiply :
    (clock : ℕ → ℕ) (tries layers : ℕ) (u : Upstream)
    → ((i : ℕ) → clock i < u.t0 + u.outage)
    → ((chain clock tries layers u).1 ≡ 503)
      × (length (chain clock tries layers u).0.hits ≡ length u.hits + tries ^ layers)
      × ((chain clock tries layers u).0.t0 ≡ u.t0)
      × ((chain clock tries layers u).0.outage ≡ u.outage)
unfolding chain
retries_multiply clock tries zero u down = rw pow-zero (upstream-Fails clock u down)
retries_multiply clock tries (suc layers) u down =
    let all =
      middle-Fails clock (chain clock tries layers) (tries ^ layers) tries
        (retries_multiply clock tries layers) u down in
    rw pow-suc (ground (arith, all))

-- A server that sends 200 if the upstream answers, and then costs one hit.
abbrev Passes : (ℕ → ℕ) → (Upstream → Upstream × ℕ) → Type 0
Passes clock server =
    (u : Upstream)
    → ((i : ℕ) → u.t0 + u.outage ≤ clock i)
    → ((server u).1 ≡ 200) × (length (server u).0.hits ≡ length u.hits + 1)

-- Once the outage is over, the same request is a single hit through any number of layers, as long
-- as each layer tries at least once.
pub healthy_chain :
    (clock : ℕ → ℕ) (tries layers : ℕ) (u : Upstream)
    → 0 < tries
    → ((i : ℕ) → u.t0 + u.outage ≤ clock i)
    → ((chain clock tries layers u).1 ≡ 200)
      × (length (chain clock tries layers u).0.hits ≡ length u.hits + 1)
unfolding chain middle upstream
healthy_chain clock tries zero u pos up =
    ground (arith, up (length u.hits), length-append u.hits (clock (length u.hits) ∷ []))
healthy_chain clock zero (suc layers) u pos up = absurd (omega arith)
healthy_chain clock (suc tries) (suc layers) u pos up =
    ground (arith, healthy_chain clock (suc tries) layers u pos up)
