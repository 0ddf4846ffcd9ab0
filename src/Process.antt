-- ===== src/Process.antt =====
-- `process` of modules/ops-lab/ops.py: one request, from retrieval to the store, with the events that
-- it emits. What is random there is an argument: the roll of an attempt, in thousandths, and the
-- durations, in ticks of 0.0001 ms, which a span and the latency round to 0.01 ms. Money is in
-- units of 1e-8 dollars, which is what a token costs at a price of 1e-5 dollars for a thousand: the
-- prices have five decimals, so that `round(cost, 8)` changes nothing. A span keeps its name, its
-- place in time and the error it reports, not its other attributes.
pub mod Timeline
pub mod Outcomes
use mastery.Prelude.{
  ℕ, zero, suc, ◌+◌, ◌*◌, ◌/◌, ◌%◌, ◌^◌, String, String_discrete, ite, Bool, true, false, not, ◌&&◌,
  ◌||◌, Option, none, some, List, [], ◌∷◌, ◌++◌, ltb, leb, ◌==◌, if◌then◌else◌,
}

-- The errors of a model call.
pub data Thrown : Type 0 where
  rate_limit overloaded timeout bad_request content_filter : Thrown

-- The class attribute `transient` of modules/model-interface-lab/provider.py.
abbrev pub is_transient : Thrown → Bool
is_transient rate_limit = true
is_transient overloaded = true
is_transient timeout = true
is_transient bad_request = false
is_transient content_filter = false

pub record Failures : Type 0 where
  pub rate_limited : ℕ
  pub overload : ℕ
  pub timed_out : ℕ
  pub bad : ℕ
  pub filtered : ℕ
  pub bug_slice : Option String
  pub bug_from_day : ℕ

-- The rates add up as the roll is compared with them.
unfoldable pub thrown_by : Failures → ℕ → Option Thrown
thrown_by f roll =
    if ltb roll f.rate_limited
    then some rate_limit
    else (if ltb roll (f.rate_limited + f.overload)
        then some overloaded
        else (if ltb roll (f.rate_limited + f.overload + f.timed_out)
            then some timeout
            else (if ltb roll (f.rate_limited + f.overload + f.timed_out + f.bad)
                then some bad_request
                else (if ltb roll (f.rate_limited + f.overload + f.timed_out + f.bad + f.filtered)
                    then some content_filter
                    else none))))

pub record Span : Type 0 where
  pub name : String
  pub ms : ℕ
  pub start : ℕ
  pub error : Option Thrown

-- What a request takes from elsewhere: the rolls and durations of its attempts, the provider's
-- response with its parsed text, before and after the repair, and the schema's validator.
pub record World (R : Type 0) : Type 0 where
  pub roll : ℕ → ℕ
  pub latency : ℕ → ℕ
  pub jitter : ℕ → ℕ
  pub retrieve_ms : ℕ
  pub store_ms : ℕ
  pub failed_tokens : ℕ
  pub input : ℕ
  pub output : ℕ
  pub price_in : ℕ
  pub price_out : ℕ
  pub parsed : Option R
  pub repaired : Option R
  pub validate : R → List String
  pub slice : String

-- The local variables of a request.
pub record Run : Type 0 where
  pub spans : List Span
  pub attempts : ℕ
  pub cost : ℕ
  pub used_in : ℕ
  pub used_out : ℕ
  pub t : ℕ

-- `round(ms, 2)`, from ticks to hundredths of a millisecond; of two that are as near, the even one.
unfoldable pub rounded : ℕ → ℕ
rounded t =
    let down = t / 100 in
    if ltb (t % 100) 50 then down else (if t % 100 == 50 then down + down % 2 else down + 1)

-- 0.4 ms
abbrev pub validate_ms : ℕ
validate_ms = 4000

-- `spans.append(...)` and `t += ms`
abbrev pub add_span : String → ℕ → Option Thrown → Run → Run
add_span name ms error r =
    let span : Span = record { name = name; ms = rounded ms; start = rounded r.t; error = error } in
    record r { spans = r.spans ++ (span ∷ []); t = r.t + ms }

-- The `latency_ms` of the result.
abbrev pub latency_ms : Run → ℕ
latency_ms r = rounded r.t

abbrev pub charge : ℕ → ℕ → ℕ → Run → Run
charge tokens_in tokens_out cost r = record r {
  used_in = r.used_in + tokens_in;
  used_out = r.used_out + tokens_out;
  cost = r.cost + cost;
}

pub data Called : Type 0 where
  failed : Thrown → Called
  extracted : Called

pub data Outcome (R : Type 0) : Type 0 where
  call_error : Thrown → Outcome R
  no_outcome : Outcome R
  parse_error : Outcome R
  invalid : String → Outcome R
  code_bug : Outcome R
  stored : R → Outcome R

module _ {R : Type 0} (w : World R) (f : Failures) (retries : ℕ) where
  abbrev pub counted : Run → Run
  counted r = record r { attempts = r.attempts + 1 }

  -- A call that fails has used its input tokens.
  abbrev pub fail_call : ℕ → Thrown → Run → Run
  fail_call attempt e r =
      add_span "extract" (w.latency attempt) (some e)
        (charge w.failed_tokens 0 (w.failed_tokens * w.price_in) r)

  abbrev pub back_off : ℕ → Run → Run
  back_off attempt r = add_span "backoff" (2 ^ attempt * w.jitter attempt) none r

  abbrev pub succeed_call : ℕ → Run → Run
  succeed_call attempt r =
      add_span "extract" (w.latency attempt) none
        (charge w.input w.output (w.input * w.price_in + w.output * w.price_out) r)

  abbrev pub attempt_step :
      (Run → Run × Option Called) → ℕ → Option Thrown → Run → Run × Option Called
  attempt_step again attempt none r = (succeed_call attempt r, some extracted)
  attempt_step again attempt (some e) r =
      let rest = again (back_off attempt (fail_call attempt e r)) in
      if not (is_transient e) || attempt == retries
      then (fail_call attempt e r, some (failed e))
      else rest

  -- The loop, with the attempts that are left; with none left, there is no outcome.
  unfoldable pub attempt_from : ℕ → ℕ → Run → Run × Option Called
  unfolding thrown_by
  attempt_from zero attempt r = (r, none)
  attempt_from (suc left) attempt r =
      attempt_step (attempt_from left (attempt + 1)) attempt (thrown_by f (w.roll attempt))
        (counted r)

  abbrev pub judged : R → List String → Outcome R
  judged r [] = stored r
  judged r (v ∷ vs) = invalid v

  abbrev pub either_parse : Option R → Option R → Option R
  either_parse none again = again
  either_parse (some r) again = some r

  abbrev pub judge : Option R → Outcome R
  judge none = parse_error
  judge (some r) = judged r (w.validate r)

  unfoldable pub is_bug : ℕ → Option String → Bool
  unfolding String_discrete
  is_bug day none = false
  is_bug day (some s) = ite (String_discrete w.slice s) true false && leb f.bug_from_day day

  -- The end: a record that would be stored meets the handler's bug, or is stored.
  abbrev pub finish : Bool → Outcome R → Run → Run × Outcome R
  finish bug (stored r) st =
      if bug then (st, code_bug) else (add_span "store" w.store_ms none st, stored r)
  finish bug o st = (st, o)

  abbrev pub after_calls : Bool → Run × Option Called → Run × Outcome R
  after_calls bug (st, none) = (st, no_outcome)
  after_calls bug (st, some (failed e)) = (st, call_error e)
  after_calls bug (st, some extracted) =
      finish bug (judge (either_parse w.parsed w.repaired))
        (add_span "validate" validate_ms none st)

  abbrev pub begin : Run
  begin =
      add_span "retrieve" w.retrieve_ms none
        (record { spans = []; attempts = 0; cost = 0; used_in = 0; used_out = 0; t = 0 })

  unfoldable pub process : ℕ → Run × Outcome R
  unfolding attempt_from is_bug
  process day = after_calls (is_bug day f.bug_slice) (attempt_from (suc retries) 0 begin)
