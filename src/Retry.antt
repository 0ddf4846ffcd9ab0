-- ===== src/Retry.antt =====
-- The two retry policies of modules/model-interface-lab/retry_lab.py, on the errors of
-- modules/model-interface-lab/provider.py. The provider is a parameter: its answer to the n-th
-- call, an error or success. Time is in milliseconds.
pub mod EventTable
pub mod Policies
use mastery.Prelude.{
  ℕ, zero, suc, ◌+◌, ◌*◌, min, Bool, true, false, Option, none, some, List, [], ◌∷◌, ◌==◌,
  if◌then◌else◌,
}

-- What a ProviderError carries for a caller.
pub record ProviderError : Type 0 where
  pub transient : Bool
  pub retry_after : Option ℕ

pub record Stats : Type 0 where
  pub calls : ℕ
  pub slept : ℕ
  pub ok : ℕ
  pub gave_up : ℕ

abbrev pub called : Stats → Stats
called st = record st { calls = st.calls + 1 }

abbrev pub succeed : Stats → Stats
succeed st = record st { ok = st.ok + 1 }

abbrev pub give_up : Stats → Stats
give_up st = record st { gave_up = st.gave_up + 1 }

abbrev pub sleep : ℕ → Stats → Stats
sleep wait st = record st { slept = st.slept + wait }

-- A `retry_after` of zero counts as none.
abbrev pub wait_for : Option ℕ → ℕ → ℕ → ℕ
wait_for none delay cap = min delay cap
wait_for (some zero) delay cap = min delay cap
wait_for (some (suc n)) delay cap = suc n

module _ (answer : ℕ → Option ProviderError) where
  abbrev pub naive_step : (Stats → Stats) → Option ProviderError → Stats → Stats
  naive_step again none st = succeed st
  naive_step again (some e) st = again (sleep 1000 st)

  -- The attempts that are left, from the n-th call on.
  unfoldable pub naive_from : ℕ → ℕ → Stats → Stats
  naive_from n zero st = give_up st
  naive_from n (suc left) st = naive_step (naive_from (n + 1) left) (answer n) (called st)

  -- `naive`
  unfoldable pub naive : ℕ → Stats → Stats
  unfolding naive_from
  naive attempts st = naive_from 0 attempts st

  abbrev pub classified_step : (Stats → Stats) → ℕ → ℕ → Option ProviderError → Stats → Stats
  classified_step again delay cap none st = succeed st
  classified_step again delay cap (some e) st =
      let retried = again (sleep (wait_for e.retry_after delay cap) st) in
      if e.transient then retried else give_up st

  unfoldable pub classified_from : ℕ → ℕ → ℕ → ℕ → Stats → Stats
  classified_from cap n delay zero st = give_up st
  classified_from cap n delay (suc left) st =
      classified_step (classified_from cap (n + 1) (delay * 2) left) delay cap (answer n)
        (called st)

  -- `classified`
  unfoldable pub classified : ℕ → ℕ → ℕ → Stats → Stats
  unfolding classified_from
  classified attempts base cap st = classified_from cap 0 base attempts st
