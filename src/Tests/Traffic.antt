-- ===== src/Tests/Traffic.antt =====
-- Three requests on a day of modules/ops-lab/ops.py.
use mastery.Prelude.{ℕ, ◌+◌, ◌*◌, ◌≤◌, ◌≡◌, String, none, some, [], List, ◌∷◌, length, All, arith}
use mastery.Releases.{Release}
use mastery.Process.{World, Failures}
use mastery.Traffic.{Served, traffic}
use mastery.Traffic.Accounts.{calls, traffic-Accounts}

abbrev first_release : List Release
first_release = record { tag = "r1"; day = 0; canary_days = 0; canary_share = 1000 } ∷ []

abbrev rates : Failures
rates = record {
  rate_limited = 20;
  overload = 30;
  timed_out = 10;
  bad = 5;
  filtered = 5;
  bug_slice = none;
  bug_from_day = 30;
}

abbrev steady : String → Release → ℕ → World String
steady doc_id r seq = record {
  roll = λ n. 900;
  latency = λ n. 700;
  jitter = λ n. 100;
  retrieve_ms = 60;
  store_ms = 9;
  failed_tokens = 300;
  input = 320;
  output = 90;
  price_in = 3;
  price_out = 15;
  parsed = some doc_id;
  repaired = none;
  validate = λ r. [];
  slice = "old";
}

traffic-Accounts_example :
    (served : List (Served String)) × ((traffic first_release (λ n. "N01") steady rates 2 5 3
        ≡ some served)
      × (length served ≡ 3)
      × All (λ (s : Served String). s.release.day ≤ 5) served
      × (calls first_release (λ n. "N01") steady rates 2 5 served ≤ 3 * (2 + 1)))
traffic-Accounts_example =
    traffic-Accounts first_release (λ n. "N01") steady rates 2 5 3 (omega arith)
