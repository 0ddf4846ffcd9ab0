-- ===== src/Shapes.antt =====
-- The rule of broadcasting and the shape of a product, of modules/stats-lab/shapes_lab.py. A shape is
-- a list of lengths; `none` is a ValueError, or the IndexError of a shape that is too short.
pub mod Padded
pub mod Aligned
pub mod Monoid
use mathlib.Core.Option.{bind}
use mastery.Prelude.{
  ℕ, zero, suc, ◌-◌, max, Bool, true, false, ◌||◌, Option, none, some, List, [], ◌∷◌, ◌++◌, length,
  ◌==◌,
}

-- `(1,) * n`
abbrev pub ones : ℕ → List ℕ
ones zero = []
ones (suc n) = 1 ∷ ones n

-- The padding of a shape, on the left, to the length of another.
abbrev pub pad_to : ℕ → List ℕ → List ℕ
pad_to n shape = ones (n - length shape) ++ shape

abbrev pub fits : Bool → ℕ → ℕ → Option ℕ
fits true a b = some (max a b)
fits false a b = none

-- What one pair gives.
abbrev pub fit : ℕ → ℕ → Option ℕ
fit a b = fits (a == b || a == 1 || b == 1) a b

-- The loop, over two padded shapes.
unfoldable pub fit_all : List ℕ → List ℕ → Option (List ℕ)
unfolding bind
fit_all [] bs = some []
fit_all (a ∷ rest) [] = some []
fit_all (a ∷ rest) (b ∷ bs) = bind (fit a b) (λ c. bind (fit_all rest bs) (λ cs. some (c ∷ cs)))

unfoldable pub broadcast : List ℕ → List ℕ → Option (List ℕ)
unfolding fit_all
broadcast a b = fit_all (pad_to (length b) a) (pad_to (length a) b)

-- A shape split before its last two lengths.
unfoldable pub split_two : List ℕ → Option (List ℕ × (ℕ × ℕ))
unfolding bind
split_two [] = none
split_two (n ∷ []) = none
split_two (n ∷ m ∷ []) = some ([], (n, m))
split_two (n ∷ m ∷ k ∷ rest) = bind (split_two (m ∷ k ∷ rest)) (λ r. some (n ∷ r.0, r.1))

abbrev pub joined : Bool → List ℕ → ℕ → ℕ → List ℕ → Option (List ℕ)
joined false a n m b = none
joined true a n m b = bind (broadcast a b) (λ c. some (c ++ n ∷ m ∷ []))

unfoldable pub matmul_shape : List ℕ → List ℕ → Option (List ℕ)
unfolding bind split_two broadcast
matmul_shape a b =
    bind (split_two a) (λ r. bind (split_two b) (λ t. joined (r.1.1 == t.1.0) r.0 r.1.0 t.1.1 t.0))
