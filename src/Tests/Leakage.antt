-- ===== src/Tests/Leakage.antt =====
-- The splits of modules/stats-lab/leakage_lab.py on six rows of three stories.
use mastery.Prelude.{same, member, ℕ, ◌≡◌, refl, ◌+◌, String, Bool, List, [], ◌∷◌, ltb, count}
use mastery.Leakage.{
  distinct, of_story, fill, split_by_story, shared_stories, split_random, split_temporal,
}
use mastery.Leakage.Grouped.{split_by_story-IsGrouped}

program : Unit {0}
unfolding same member distinct of_story fill split_by_story shared_stories split_random
    split_temporal
program = tt

abbrev rows : List (String × ℕ)
rows = ("a", 1) ∷ ("b", 2) ∷ ("a", 3) ∷ ("c", 4) ∷ ("b", 5) ∷ ("c", 6) ∷ []

abbrev story : String × ℕ → String
story r = r.0

abbrev as_is : List String → List String
as_is xs = xs

abbrev is_late : String × ℕ → Bool
is_late r = ltb 3 r.1

grouped :
    split_by_story story as_is rows
    ≡ (("a", 1) ∷ ("a", 3) ∷ ("b", 2) ∷ ("b", 5) ∷ [], ("c", 4) ∷ ("c", 6) ∷ [])
unfolding program
grouped = refl

-- A split of the rows as they come has stories in both halves.
shared : shared_stories story (split_random (λ xs. xs) rows).0 (split_random (λ xs. xs) rows).1 ≡ 1
unfolding program
shared = refl

split_by_story-IsGrouped_example :
    (shared_stories story (split_by_story story as_is rows).0 (split_by_story story as_is rows).1
      ≡ 0)
    × (count is_late (split_by_story story as_is rows).0
          + count is_late (split_by_story story as_is rows).1
        ≡ count is_late rows)
split_by_story-IsGrouped_example = split_by_story-IsGrouped story as_is is_late rows (λ xs x. refl)
