-- ===== src/Process/Timeline.antt =====
-- The spans of a request cover its latency, its attempts and its cost.
use mastery.Prelude.{
  ℕ, zero, suc, ◌+◌, ◌*◌, ◌^◌, ◌≤◌, ◌≡◌, refl, sym, ap, subst, String, Bool, true, false, not, ◌||◌,
  Option, none, some, List, [], ◌∷◌, ◌++◌, arith, if◌then◌else◌, ◌==◌,
}
use mastery.Process.{
  Thrown, Span, World, Failures, Run, add_span, charge, Called, failed, extracted, Outcome, stored,
  counted, fail_call, back_off, attempt_step, attempt_from, judge, either_parse, finish,
  after_calls, begin, is_bug, process, thrown_by, is_transient, rounded, latency_ms, validate_ms,
}

-- Spans that are the roundings of durations without a gap between them, from a time to another.
abbrev pub Contiguous : ℕ → List Span → ℕ → Type 0
Contiguous t [] end = t ≡ end
Contiguous t (s ∷ ss) end =
    (s.start ≡ rounded t) × ((ms : ℕ) × ((s.ms ≡ rounded ms) × Contiguous (t + ms) ss end))

Contiguous-append :
    (t : ℕ) (ss : List Span) (end ms : ℕ) (name : String) (error : Option Thrown)
    → Contiguous t ss end
    → Contiguous t
        (ss ++ (record { name = name; ms = rounded ms; start = rounded end; error = error } ∷ []))
        (end + ms)
Contiguous-append t [] end ms name error h = (ap rounded (sym h), (ms, (refl, omega (arith, h))))
Contiguous-append t (s ∷ ss) end ms name error (e, (m, (f, h))) =
    (e, (m, (f, Contiguous-append (t + m) ss end ms name error h)))

-- At most 0.01 ms apart.
abbrev pub IsClose : ℕ → ℕ → Type 0
IsClose x y = (x ≤ y + 1) × (y ≤ x + 1)

-- Spans as they are emitted: the first starts at about `due`, each other one at about the end of the
-- one before, and the last ends at about `end`.
abbrev pub Follows : ℕ → List Span → ℕ → Type 0
Follows due [] end = IsClose due end
Follows due (s ∷ ss) end = IsClose due s.start × Follows (s.start + s.ms) ss end

rounded_near : (t : ℕ) → (100 * rounded t ≤ t + 50) × (t ≤ 100 * rounded t + 50)
unfolding rounded
rounded_near t = ground arith

rounded_add : (t ms : ℕ) → IsClose (rounded t + rounded ms) (rounded (t + ms))
rounded_add t ms =
    let a = rounded_near t in
    let b = rounded_near ms in
    let c = rounded_near (t + ms) in (omega (arith, a, b, c), omega (arith, a, b, c))

Contiguous-Follows :
    (due t : ℕ) (ss : List Span) (end : ℕ)
    → IsClose due (rounded t)
    → Contiguous t ss end
    → Follows due ss (rounded end)
Contiguous-Follows due t [] end h e = subst (λ x. IsClose due (rounded x)) e h
Contiguous-Follows due t (s ∷ ss) end h (e, (m, (f, k))) = (
  (omega (arith, h, e), omega (arith, h, e)),
  Contiguous-Follows (s.start + s.ms) (t + m) ss end
      (omega (arith, rounded_add t m, e, f), omega (arith, rounded_add t m, e, f)) k,
)

module _ {R : Type 0} (w : World R) (f : Failures) (retries : ℕ) where
  -- The spans lead from the beginning to `t`, and the money is what the tokens cost.
  abbrev pub IsBooked : Run → Type 0
  IsBooked r =
      Contiguous 0 r.spans r.t × (r.cost ≡ r.used_in * w.price_in + r.used_out * w.price_out)

  add_span-IsBooked :
      (name : String) (ms : ℕ) (error : Option Thrown) (r : Run)
      → IsBooked r
      → IsBooked (add_span name ms error r)
  add_span-IsBooked name ms error r h = (Contiguous-append 0 r.spans r.t ms name error h.0, h.1)

  charge-IsBooked :
      (i o : ℕ) (r : Run) → IsBooked r → IsBooked (charge i o (i * w.price_in + o * w.price_out) r)
  charge-IsBooked i o r h = (h.0, grind (arith, h.1))

  charge_failed-IsBooked : (i : ℕ) (r : Run) → IsBooked r → IsBooked (charge i 0 (i * w.price_in) r)
  charge_failed-IsBooked i r h = (h.0, grind (arith, h.1))

  fail_call-IsBooked :
      (attempt : ℕ) (e : Thrown) (r : Run)
      → IsBooked r
      → IsBooked (fail_call w f retries attempt e r)
  fail_call-IsBooked attempt e r h =
      add_span-IsBooked "extract" (w.latency attempt) (some e)
        (charge w.failed_tokens 0 (w.failed_tokens * w.price_in) r)
        (charge_failed-IsBooked w.failed_tokens r h)

  -- The books are kept, and at most `n` attempts are made.
  abbrev Keeps : ℕ → Run × Option Called → Type 0
  Keeps n p = IsBooked p.0 × (p.0.attempts ≤ n)

  either-Keeps :
      (n : ℕ) (b : Bool) (p q : Run × Option Called)
      → Keeps n p
      → Keeps n q
      → Keeps n (if b then p else q)
  either-Keeps n true p q h k = h
  either-Keeps n false p q h k = k

  attempt_step-Keeps :
      (n attempt : ℕ) (again : Run → Run × Option Called) (o : Option Thrown) (r : Run)
      → IsBooked r
      → r.attempts ≤ n
      → ((s : Run) → IsBooked s → s.attempts ≡ r.attempts → Keeps n (again s))
      → Keeps n (attempt_step w f retries again attempt o r)
  attempt_step-Keeps n attempt again none r h le k = (
    add_span-IsBooked "extract" (w.latency attempt) none
        (charge w.input w.output (w.input * w.price_in + w.output * w.price_out) r)
        (charge-IsBooked w.input w.output r h),
    le,
  )
  attempt_step-Keeps n attempt again (some e) r h le k =
      let failed_run = fail_call w f retries attempt e r in
      let booked = fail_call-IsBooked attempt e r h in
      either-Keeps n (not (is_transient e) || attempt == retries) (failed_run, some (failed e))
        (again (back_off w f retries attempt failed_run)) (booked, le)
        (k (back_off w f retries attempt failed_run)
          (add_span-IsBooked "backoff" (2 ^ attempt * w.jitter attempt) none failed_run booked)
          refl)

  attempt_from-Keeps :
      (left attempt : ℕ) (r : Run)
      → IsBooked r
      → Keeps (r.attempts + left) (attempt_from w f retries left attempt r)
  unfolding attempt_from
  attempt_from-Keeps zero attempt r h = (h, omega arith)
  attempt_from-Keeps (suc left) attempt r h =
      attempt_step-Keeps (r.attempts + suc left) attempt
        (attempt_from w f retries left (attempt + 1)) (thrown_by f (w.roll attempt))
        (counted w f retries r) h (omega arith)
        (λ s booked same.
          let ih = attempt_from-Keeps left (attempt + 1) s booked in
          (ih.0, omega (arith, ih.1, same)))

  finish-IsBooked :
      (bug : Bool) (o : Outcome R) (r : Run) → IsBooked r → IsBooked (finish w f retries bug o r).0
  finish-IsBooked true (stored x) r h = h
  finish-IsBooked false (stored x) r h = add_span-IsBooked "store" w.store_ms none r h
  finish-IsBooked bug _ r h = h

  pub finish-attempts :
      (bug : Bool) (o : Outcome R) (r : Run) → (finish w f retries bug o r).0.attempts ≡ r.attempts
  finish-attempts true (stored x) r = refl
  finish-attempts false (stored x) r = refl
  finish-attempts bug _ r = refl

  after_calls-Keeps :
      (n : ℕ) (bug : Bool) (p : Run × Option Called)
      → Keeps n p
      → IsBooked (after_calls w f retries bug p).0
        × ((after_calls w f retries bug p).0.attempts ≤ n)
  after_calls-Keeps n bug (st, none) h = h
  after_calls-Keeps n bug (st, some (failed e)) h = h
  after_calls-Keeps n bug (st, some extracted) h =
      let o = judge w f retries (either_parse w f retries w.parsed w.repaired) in
      let r = add_span "validate" validate_ms none st in
      (
        finish-IsBooked bug o r (add_span-IsBooked "validate" validate_ms none st h.0),
        omega (arith, h.1, finish-attempts bug o r),
      )

  all-Keeps : Keeps (suc retries) (attempt_from w f retries (suc retries) 0 (begin w f retries))
  all-Keeps =
      let h =
        attempt_from-Keeps (suc retries) 0 (begin w f retries)
          ((refl, (w.retrieve_ms, (refl, refl))), omega arith) in
      (h.0, omega (arith, h.1))

  -- Whatever the rolls, the answers and the outcome: the spans of a request are the roundings of
  -- durations that follow one another without a gap, from time 0 to the time of which its latency is
  -- the rounding. So the spans that it emits start at 0, each starts within 0.01 ms of the end of the
  -- one before, and the last ends within 0.01 ms of the latency. The cost is what the tokens that it
  -- reports cost, and it makes at most one attempt more than the retries.
  pub process-books :
      (day : ℕ)
      → let r = (process w f retries day).0 in
        Contiguous 0 r.spans r.t
        × Follows 0 r.spans (latency_ms r)
        × (r.cost ≡ r.used_in * w.price_in + r.used_out * w.price_out)
        × (r.attempts ≤ retries + 1)
  unfolding process rounded
  process-books day =
      let h =
        after_calls-Keeps (suc retries) (is_bug w f retries day f.bug_slice)
          (attempt_from w f retries (suc retries) 0 (begin w f retries)) all-Keeps in
      let r = (process w f retries day).0 in
      (
        h.0.0,
        Contiguous-Follows 0 0 r.spans r.t (omega (arith, rounded_near 0), omega arith) h.0.0,
        h.0.1,
        omega (arith, h.1),
      )
