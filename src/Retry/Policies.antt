-- ===== src/Retry/Policies.antt =====
-- The policy that classifies errors reaches the outcomes of the one that retries everything.
use mastery.Prelude.{
  ℕ, zero, suc, ◌+◌, ◌*◌, ◌≤◌, ◌≡◌, refl, Bool, true, false, Option, none, some, arith, inl, inr,
  Bool-cases, if◌then◌else◌,
}
use mastery.Retry.{
  ProviderError, Stats, called, sleep, wait_for, naive_step, naive_from, naive, classified_step,
  classified_from, classified,
}

abbrev pub is_terminal : Option ProviderError → Bool
is_terminal none = false
is_terminal (some e) = if e.transient then false else true

abbrev pub is_error : Option ProviderError → Bool
is_error none = false
is_error (some e) = true

-- The same outcome, for no more calls.
abbrev pub IsCheaper : Stats → Stats → Type 0
IsCheaper a b = (a.ok ≡ b.ok) × (a.gave_up ≡ b.gave_up) × (a.calls ≤ b.calls)

module _ (answer : ℕ → Option ProviderError) where
  -- From a call on at which everything fails.
  naive_fails :
      (n left : ℕ) (st : Stats)
      → ((j : ℕ) → n ≤ j → is_error (answer j) ≡ true)
      → ((naive_from answer n left st).ok ≡ st.ok)
        × ((naive_from answer n left st).gave_up ≡ st.gave_up + 1)
        × ((naive_from answer n left st).calls ≡ st.calls + left)
  unfolding naive_from
  naive_fails n zero st h = ground arith
  naive_fails n (suc left) st h = ground (
    arith,
    h n (omega arith),
    naive_fails (n + 1) left (sleep 1000 (called st)) (λ j le. h j (omega (arith, le))),
  )

  step-IsCheaper :
      (n left cap delay : ℕ) (o : Option ProviderError) (su st : Stats)
      → IsCheaper su st
      → ((su st : Stats)
          → IsCheaper su st
          → IsCheaper
              (classified_from answer cap (n + 1) (delay * 2) left su)
              (naive_from answer (n + 1) left st))
      → (is_terminal o ≡ true → (j : ℕ) → n ≤ j → is_error (answer j) ≡ true)
      → IsCheaper
          (classified_step answer
            (classified_from answer cap (n + 1) (delay * 2) left)
            delay
            cap
            o
            (called su))
          (naive_step answer (naive_from answer (n + 1) left) o (called st))
  step-IsCheaper n left cap delay none su st h ih p = ground (arith, h)
  step-IsCheaper n left cap delay (some e) su st h ih p = elim (Bool-cases e.transient) [
    | inl t ↦ ground (
      arith,
      t,
      ih (sleep (wait_for e.retry_after delay cap) (called su)) (sleep 1000 (called st))
          (h.0, h.1, omega (arith, h)),
    )
    | inr t ↦ ground (
      arith,
      t,
      h,
      naive_fails (n + 1) left (sleep 1000 (called st))
          (λ j le. p (ground (arith, t)) j (omega (arith, le))),
    )
  ]

  classified_from-IsCheaper :
      (cap n delay left : ℕ) (su st : Stats)
      → ((i j : ℕ) → i ≤ j → is_terminal (answer i) ≡ true → is_error (answer j) ≡ true)
      → IsCheaper su st
      → IsCheaper (classified_from answer cap n delay left su) (naive_from answer n left st)
  unfolding classified_from naive_from
  classified_from-IsCheaper cap n delay zero su st p h = ground (arith, h)
  classified_from-IsCheaper cap n delay (suc left) su st p h =
      step-IsCheaper n left cap delay (answer n) su st h
        (λ su' st' h'. classified_from-IsCheaper cap (n + 1) (delay * 2) left su' st' p h')
        (λ t j le. p n j le t)

  -- Where an error that is not transient is followed by errors alone, the policy that classifies
  -- ends as the one that retries everything, a success or a failure each, with no more calls.
  pub classified-IsCheaper :
      (attempts base cap : ℕ) (st : Stats)
      → ((i j : ℕ) → i ≤ j → is_terminal (answer i) ≡ true → is_error (answer j) ≡ true)
      → IsCheaper (classified answer attempts base cap st) (naive answer attempts st)
  unfolding classified naive
  classified-IsCheaper attempts base cap st p =
      classified_from-IsCheaper cap 0 base attempts st st p (refl, refl, omega arith)
