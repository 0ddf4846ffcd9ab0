-- ===== src/Leakage.antt =====
-- The splits of modules/stats-lab/leakage_lab.py. The rows are of any type with a story and a day; the
-- seeded shuffle is a parameter.
pub mod Texts
pub mod Grouped
use mastery.Prelude.{
  take, drop, same, member, ℕ, zero, suc, ◌/◌, String, Bool, true, false, not, List, [], ◌∷◌, ◌++◌,
  map, length, keep, ltb, leb, if◌then◌else◌,
}

-- The distinct texts of a list, as a set has them; the shuffle makes their order irrelevant.
unfoldable pub distinct : List String → List String
unfolding member
distinct [] = []
distinct (x ∷ xs) = let rest = distinct xs in if member x rest then rest else x ∷ rest

module _ {ℓ} {A : Type ℓ} (story : A → String) where
  -- `[r for r in records if r["story"] == s]`
  unfoldable pub of_story : String → List A → List A
  unfolding same
  of_story s rows = keep (λ r. same (story r) s) rows

  -- The loop over the stories: what is in the training half, and whose stories those are.
  unfoldable pub fill : ℕ → List A → List String → List String → List A → List String × List A
  unfolding of_story
  fill half rows [] ids train = (ids, train)
  fill half rows (s ∷ stories) ids train =
      let rest = fill half rows stories (s ∷ ids) (train ++ of_story s rows) in
      if leb half (length train) then (ids, train) else rest

  unfoldable pub split_by_story : (List String → List String) → List A → List A × List A
  unfolding fill distinct member
  split_by_story shuffle rows =
      let r = fill (length rows / 2) rows (shuffle (distinct (map story rows))) [] [] in
      (r.1, keep (λ row. not (member (story row) r.0)) rows)

  -- `shared_stories`
  unfoldable pub shared_stories : List A → List A → ℕ
  unfolding member distinct
  shared_stories train test =
      length (keep (λ s. member s (map story test)) (distinct (map story train)))

module _ {ℓ} {A : Type ℓ} where
  unfoldable pub split_random : (List A → List A) → List A → List A × List A
  split_random shuffle rows =
      let shuffled = shuffle rows in
      (take (length shuffled / 2) shuffled, drop (length shuffled / 2) shuffled)

  unfoldable pub split_temporal : (A → ℕ) → ℕ → List A → List A × List A
  split_temporal day_of day rows =
      (keep (λ r. ltb (day_of r) day) rows, keep (λ r. leb day (day_of r)) rows)
