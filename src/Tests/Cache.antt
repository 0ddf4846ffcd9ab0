-- ===== src/Tests/Cache.antt =====
-- The cache of modules/service-lab/cache_lab.py.
use mastery.Prelude.{ℕ, ◌≡◌, refl, String, true, false, Option, none, some, List, [], ◌∷◌, arith}
use mastery.Prelude.Dict.{lookup, put, delete}
use mastery.Cache.{
  Cache, empty, evict, put_value, invalidate, is_in, remove_first, fresh, get_or_load, first_of,
  cheapest, victim,
}
use mastery.Cache.Sound.{occurs}
use mastery.Cache.Bound.{Holds, Op, get, put_op, invalidate_op, run, run-Holds}
use mastery.Cache.Recent.{given, put_value-get_or_load}

program : Unit {0}
unfolding lookup put delete evict put_value invalidate is_in remove_first fresh get_or_load first_of
    cheapest victim occurs run
program = tt

abbrev two_keys : Cache ℕ
two_keys = empty 2 10 false none

-- Three values in a cache of two; the last operation stands first.
abbrev some_ops : List (Op ℕ)
some_ops =
    get "a" 4 3 3 3 ∷ put_op "c" 3 2 ∷ invalidate_op "x" ∷ put_op "b" 2 1 ∷ put_op "a" 1 0 ∷ []

abbrev order_of : Option (Cache ℕ) → List String
order_of none = []
order_of (some c) = c.order

evicted : order_of (run some_ops (some two_keys)) ≡ "c" ∷ "a" ∷ []
unfolding program
evicted = refl

run-Holds_example : Holds 2 (run some_ops (some two_keys))
run-Holds_example = run-Holds 2 10 false none some_ops

put_value-get_or_load_example :
    given (get_or_load "a" 5 9 9 9 (put_value "a" 1 0 two_keys)) ≡ some (1, true)
unfolding program
put_value-get_or_load_example =
    put_value-get_or_load "a" 1 5 0 9 9 9 two_keys (λ k. refl) (omega arith)
