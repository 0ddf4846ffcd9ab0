-- ===== src/Tests/Shapes.antt =====
-- The shapes of modules/stats-lab/shapes_lab.py.
use mathlib.Core.Option.{bind}
use mastery.Prelude.{◌≡◌, refl, none, some, [], ◌∷◌, arith}
use mastery.Shapes.{fit_all, broadcast, split_two, matmul_shape}
use mastery.Shapes.Aligned.{aligned, backwards}
use mastery.Shapes.Monoid.{broadcast_monoid}

program : Unit {0}
unfolding bind fit_all broadcast split_two matmul_shape
program = tt

-- Padded on the left, a row of 12 does not fit a matrix of 12 by 64.
left_padded : broadcast (12 ∷ []) (12 ∷ 64 ∷ []) ≡ none
unfolding program
left_padded = refl

-- A length 0 against a length 1 gives 1, not 0.
zero_and_one : broadcast (0 ∷ []) (1 ∷ []) ≡ some (1 ∷ [])
unfolding program
zero_and_one = refl

batched : matmul_shape (5 ∷ 1 ∷ 2 ∷ 3 ∷ []) (4 ∷ 3 ∷ 7 ∷ []) ≡ some (5 ∷ 4 ∷ 2 ∷ 7 ∷ [])
unfolding program
batched = refl

broadcast_monoid_example :
    (broadcast (3 ∷ 1 ∷ []) (4 ∷ []) ≡ broadcast (4 ∷ []) (3 ∷ 1 ∷ []))
    × (bind (broadcast (3 ∷ 1 ∷ []) (4 ∷ [])) (λ r. broadcast r (2 ∷ 1 ∷ 4 ∷ []))
        ≡ bind (broadcast (4 ∷ []) (2 ∷ 1 ∷ 4 ∷ [])) (λ r. broadcast (3 ∷ 1 ∷ []) r))
    × (broadcast (3 ∷ 1 ∷ []) (4 ∷ [])
        ≡ bind (aligned (backwards (3 ∷ 1 ∷ [])) (backwards (4 ∷ []))) (λ r. some (backwards r)))
broadcast_monoid_example =
    broadcast_monoid (3 ∷ 1 ∷ []) (4 ∷ []) (2 ∷ 1 ∷ 4 ∷ []) (omega arith, (omega arith, tt))
      (omega arith, tt) (omega arith, (omega arith, (omega arith, tt)))
