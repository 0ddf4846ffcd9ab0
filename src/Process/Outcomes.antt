-- ===== src/Process/Outcomes.antt =====
-- What each outcome of a request means.
use mastery.Prelude.{
  ℕ, zero, suc, ◌+◌, ◌≡◌, refl, ◌∙◌, subst, ◌⊎◌, inl, inr, ◌≢◌, String, Bool, true, false, not,
  ◌&&◌, ◌||◌, Option, none, some, List, [], ◌∷◌, arith, ◌==◌, Bool-cases,
}
use mastery.Process.{
  Thrown, World, Failures, Run, add_span, Called, failed, extracted, Outcome, call_error,
  no_outcome, parse_error, invalid, code_bug, stored, counted, fail_call, back_off, attempt_step,
  attempt_from, judge, judged, either_parse, finish, after_calls, begin, is_bug, process, thrown_by,
  is_transient, validate_ms,
}
use mastery.Process.Timeline.{finish-attempts}

module _ {R : Type 0} (w : World R) (f : Failures) (retries : ℕ) where
  abbrev pub is_retryable : Option Thrown → Bool
  is_retryable none = false
  is_retryable (some e) = is_transient e

  -- The first `n` attempts all met an error that may pass.
  unfoldable pub all_retried : ℕ → Bool
  all_retried zero = true
  all_retried (suc n) = is_retryable (thrown_by f (w.roll n)) && all_retried n

  -- How the calls end at the attempt of number `n`.
  abbrev pub Ends : ℕ → Option Called → Type 0
  Ends n none = ⊥
  Ends n (some extracted) = thrown_by f (w.roll n) ≡ none
  Ends n (some (failed e)) =
      (thrown_by f (w.roll n) ≡ some e) × ((is_transient e ≡ false) ⊎ (n ≡ retries))

  abbrev Reached : ℕ → Run × Option Called → Type 0
  Reached n p = (p.0.attempts ≡ n + 1) × (all_retried n ≡ true) × Ends n p.1

  stop_cases :
      (n : ℕ) (x : Thrown)
      → (not (is_transient x) || n == retries) ≡ true
      → (is_transient x ≡ false) ⊎ (n ≡ retries)
  stop_cases n x t = ground (arith, t)

  retried_next :
      (n : ℕ) (x : Thrown)
      → thrown_by f (w.roll n) ≡ some x
      → all_retried n ≡ true
      → (not (is_transient x) || n == retries) ≡ false
      → all_retried (suc n) ≡ true
  unfolding all_retried
  retried_next n x e a t = ground (arith, e, a, t)

  step_ends :
      (attempt : ℕ) (again : Run → Run × Option Called) (o : Option Thrown) (r : Run)
      → thrown_by f (w.roll attempt) ≡ o
      → r.attempts ≡ attempt + 1
      → all_retried attempt ≡ true
      → ((s : Run)
          → s.attempts ≡ attempt + 1
          → all_retried (suc attempt) ≡ true
          → attempt ≢ retries
          → (n : ℕ) × Reached n (again s))
      → (n : ℕ) × Reached n (attempt_step w f retries again attempt o r)
  step_ends attempt again none r e c a k = (attempt, (c, a, e))
  step_ends attempt again (some x) r e c a k =
      elim (Bool-cases (not (is_transient x) || attempt == retries)) [
        | inl t ↦ rw t (attempt, (c, a, (e, stop_cases attempt x t)))
        | inr t ↦ rw t (
            k (back_off w f retries attempt (fail_call w f retries attempt x r)) c
              (retried_next attempt x e a t) (ground (arith, t)))
      ]

  attempts_end :
      (left attempt : ℕ) (r : Run)
      → attempt + left ≡ retries
      → r.attempts ≡ attempt
      → all_retried attempt ≡ true
      → (n : ℕ) × Reached n (attempt_from w f retries (suc left) attempt r)
  unfolding attempt_from
  attempts_end zero attempt r e c a =
      step_ends attempt (attempt_from w f retries zero (attempt + 1)) (thrown_by f (w.roll attempt))
        (counted w f retries r) refl (omega (arith, c)) a
        (λ s c' a' n. absurd (n (omega (arith, e))))
  attempts_end (suc left) attempt r e c a =
      step_ends attempt (attempt_from w f retries (suc left) (attempt + 1))
        (thrown_by f (w.roll attempt)) (counted w f retries r) refl (omega (arith, c)) a
        (λ s c' a' n.
          attempts_end left (attempt + 1) s (omega (arith, e)) c'
            (subst (λ m. all_retried m ≡ true) (omega arith) a'))

  -- What an outcome says of the attempt of number `n`, which was the last.
  abbrev pub Explains : ℕ → ℕ → Outcome R → Type 0
  Explains day n no_outcome = ⊥
  Explains day n (call_error e) = Ends n (some (failed e))
  Explains day n parse_error = Ends n (some extracted) × (w.parsed ≡ none) × (w.repaired ≡ none)
  Explains day n (invalid v) =
      Ends n (some extracted)
      × ((x : R) × (vs : List String) × (either_parse w f retries w.parsed w.repaired ≡ some x)
          × (w.validate x ≡ v ∷ vs))
  Explains day n code_bug = Ends n (some extracted) × (is_bug w f retries day f.bug_slice ≡ true)
  Explains day n (stored x) =
      Ends n (some extracted)
      × (is_bug w f retries day f.bug_slice ≡ false)
      × (either_parse w f retries w.parsed w.repaired ≡ some x)
      × (w.validate x ≡ [])

  neither_parse : (p q : Option R) → either_parse w f retries p q ≡ none → (p ≡ none) × (q ≡ none)
  neither_parse none q e = (refl, e)
  neither_parse (some x) q e = cc

  judged-Explains :
      (day n : ℕ) (bug : Bool) (x : R) (vs : List String) (st : Run)
      → Ends n (some extracted)
      → is_bug w f retries day f.bug_slice ≡ bug
      → either_parse w f retries w.parsed w.repaired ≡ some x
      → w.validate x ≡ vs
      → Explains day n (finish w f retries bug (judged w f retries x vs) st).1
  judged-Explains day n bug x (v ∷ vs) st h b e v' = (h, (x, vs, e, v'))
  judged-Explains day n true x [] st h b e v' = (h, b)
  judged-Explains day n false x [] st h b e v' = (h, b, e, v')

  judge-Explains :
      (day n : ℕ) (o : Option R) (st : Run)
      → Ends n (some extracted)
      → either_parse w f retries w.parsed w.repaired ≡ o
      → Explains day n
          (finish w f retries (is_bug w f retries day f.bug_slice) (judge w f retries o) st).1
  judge-Explains day n none st h e = let p = neither_parse w.parsed w.repaired e in (h, p.0, p.1)
  judge-Explains day n (some x) st h e =
      judged-Explains day n (is_bug w f retries day f.bug_slice) x (w.validate x) st h refl e refl

  calls-Explains :
      (day n : ℕ) (p : Run × Option Called)
      → Reached n p
      → let q = after_calls w f retries (is_bug w f retries day f.bug_slice) p in
        (q.0.attempts ≡ n + 1) × (all_retried n ≡ true) × Explains day n q.1
  calls-Explains day n (st, none) h = absurd h.2
  calls-Explains day n (st, some (failed e)) h = h
  calls-Explains day n (st, some extracted) h =
      let o = either_parse w f retries w.parsed w.repaired in
      (
        finish-attempts w f retries (is_bug w f retries day f.bug_slice) (judge w f retries o)
              (add_span "validate" validate_ms none st)
            ∙ h.0,
        h.1,
        judge-Explains day n o (add_span "validate" validate_ms none st) h.2 refl,
      )

  -- A request ends with one of six outcomes, and says why. Some attempt is its last, and all before
  -- it met errors that may pass. With the outcome of a call's error, the last attempt met that error,
  -- and the error does not pass or it was the last retry. Otherwise the last attempt met none, and:
  -- neither the text nor its repair parses; or what parses has a violation, the first one given; or
  -- the day and the slice are those of the handler's bug; or none of these, and the record stored is
  -- what was parsed, the repair being used only if the text does not parse.
  pub process-Explains :
      (day : ℕ)
      → let q = process w f retries day in
        (n : ℕ) × ((q.0.attempts ≡ n + 1) × (all_retried n ≡ true) × Explains day n q.1)
  unfolding process all_retried
  process-Explains day =
      let r = attempts_end retries 0 (begin w f retries) (omega arith) refl refl in
      (
        r.0,
        calls-Explains day r.0 (attempt_from w f retries (suc retries) 0 (begin w f retries)) r.1,
      )
