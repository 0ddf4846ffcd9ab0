-- ===== src/Tests/Process.antt =====
-- One request of modules/ops-lab/ops.py that meets an overload once.
use mastery.Prelude.{ℕ, ◌+◌, ◌*◌, ◌≤◌, ◌≡◌, refl, String, true, none, some, [], ◌==◌, if◌then◌else◌}
use mastery.Process.{
  World, Failures, stored, thrown_by, attempt_from, is_bug, process, latency_ms, rounded,
}
use mastery.Process.Timeline.{Contiguous, Follows, process-books}
use mastery.Process.Outcomes.{all_retried, Explains, process-Explains}

program : Unit {0}
unfolding rounded thrown_by attempt_from is_bug process
program = tt

abbrev rates : Failures
rates = record {
  rate_limited = 20;
  overload = 30;
  timed_out = 10;
  bad = 5;
  filtered = 5;
  bug_slice = some "old";
  bug_from_day = 30;
}

abbrev busy_once : World String
busy_once = record {
  roll = λ n. if n == 0 then 40 else 900;
  latency = λ n. 7000049;
  jitter = λ n. 1000050;
  retrieve_ms = 60050;
  store_ms = 90000;
  failed_tokens = 300;
  input = 320;
  output = 90;
  price_in = 300;
  price_out = 1500;
  parsed = some "record";
  repaired = none;
  validate = λ r. [];
  slice = "old";
}

stores : (process busy_once rates 2 10).1 ≡ stored "record"
unfolding program
stores = refl

two_attempts : (process busy_once rates 2 10).0.attempts ≡ 2
unfolding program
two_attempts = refl

-- In ticks, 15154198; in hundredths of a millisecond, 600 + 70000 + 10000 + 70000 + 40 + 900 in the
-- spans.
its_latency : latency_ms (process busy_once rates 2 10).0 ≡ 151542
unfolding program
its_latency = refl

process-books_example :
    let r = (process busy_once rates 2 10).0 in
    Contiguous 0 r.spans r.t
    × Follows 0 r.spans (latency_ms r)
    × (r.cost ≡ r.used_in * 300 + r.used_out * 1500)
    × (r.attempts ≤ 2 + 1)
process-books_example = process-books busy_once rates 2 10

process-Explains_example :
    let q = process busy_once rates 2 10 in
    (n : ℕ) × ((q.0.attempts ≡ n + 1)
      × (all_retried busy_once rates 2 n ≡ true)
      × Explains busy_once rates 2 10 n q.1)
process-Explains_example = process-Explains busy_once rates 2 10
