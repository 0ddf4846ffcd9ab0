-- ===== src/Traffic.antt =====
-- `traffic` of modules/ops-lab/ops.py: the requests of a day, each served by the release that the
-- rollout gives it. Which document a request asks for is a draw, and so is what its processing takes
-- from elsewhere, as in Process.
pub mod Accounts
use mastery.Prelude.{ℕ, zero, suc, ◌+◌, String, Option, none, some, List, [], ◌∷◌}
use mastery.Releases.{Release, release_for}
use mastery.Process.{World, Failures, Run, Outcome, process}

pub record Served (R : Type 0) : Type 0 where
  pub doc_id : String
  pub release : Release
  pub run : Run
  pub outcome : Outcome R

abbrev pub before {ℓ} : {A : Type ℓ} → A → Option (List A) → Option (List A)
before x none = none
before x (some xs) = some (x ∷ xs)

module _ {R : Type 0} (releases : List Release) (document : ℕ → String)
    (world : String → Release → ℕ → World R) (f : Failures) (retries day : ℕ) where
  -- One request; nothing if no release serves, where `release_for` raises.
  abbrev pub serve : ℕ → Option Release → Option (Served R)
  serve seq none = none
  serve seq (some r) =
      let (run, outcome) = process (world (document seq) r seq) f retries day in
      some (record { doc_id = document seq; release = r; run = run; outcome = outcome })

  abbrev pub served_then : Option (Served R) → Option (List (Served R)) → Option (List (Served R))
  served_then none rest = none
  served_then (some s) rest = before s rest

  unfoldable pub traffic_from : ℕ → ℕ → Option (List (Served R))
  unfolding process release_for
  traffic_from seq zero = some []
  traffic_from seq (suc n) =
      served_then (serve seq (release_for day seq releases)) (traffic_from (seq + 1) n)

  -- `traffic`
  unfoldable pub traffic : ℕ → Option (List (Served R))
  unfolding traffic_from
  traffic n = traffic_from 0 n
