-- ===== src/Monitor.antt =====
-- `cusum` of modules/ops-lab/ops.py, on natural numbers of some unit: `max(0, s + (target - x - k))` is
-- then `s + target - (x + k)`, which stops at 0.
pub mod Windows
use mastery.Prelude.{
  ℕ, zero, suc, ◌+◌, ◌-◌, Bool, true, false, Option, none, some, List, [], ◌∷◌, ◌++◌, ltb,
  if◌then◌else◌,
}

abbrev pub alarm_at : Option ℕ → Bool → ℕ → Option ℕ
alarm_at none true i = some i
alarm_at none false i = none
alarm_at (some j) high i = some j

module _ (target k h : ℕ) where
  abbrev pub next : ℕ → ℕ → ℕ
  next s x = s + target - (x + k)

  -- The loop, with the index, the statistic, the list of them and the alarm.
  unfoldable pub cusum_from : ℕ → ℕ → List ℕ → Option ℕ → List ℕ → Option ℕ × List ℕ
  cusum_from i s stats alarm [] = (alarm, stats)
  cusum_from i s stats alarm (x ∷ xs) =
      let s2 = next s x in
      cusum_from (i + 1) s2 (stats ++ (s2 ∷ [])) (alarm_at alarm (ltb h s2) i) xs

  unfoldable pub cusum : List ℕ → Option ℕ × List ℕ
  unfolding cusum_from
  cusum series = cusum_from 0 0 [] none series
