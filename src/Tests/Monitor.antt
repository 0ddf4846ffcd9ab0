-- ===== src/Tests/Monitor.antt =====
-- A falling series through `cusum` of modules/ops-lab/ops.py.
use mastery.Prelude.{ℕ, ◌≡◌, refl, some, [], List, ◌∷◌}
use mastery.Monitor.{cusum_from, cusum}
use mastery.Monitor.Windows.{worst_of_prefixes, first_above, cusum-worst}

program : Unit {0}
unfolding cusum_from cusum
program = tt

abbrev falling : List ℕ
falling = 90 ∷ 95 ∷ 80 ∷ 82 ∷ 60 ∷ []

alarms : (cusum 90 2 10 falling).0 ≡ some 3
unfolding program
alarms = refl

cusum-worst_example :
    let stats = worst_of_prefixes 90 2 10 [] falling in
    ((cusum 90 2 10 falling).0 ≡ first_above 90 2 10 0 stats) × ((cusum 90 2 10 falling).1 ≡ stats)
cusum-worst_example = cusum-worst 90 2 10 falling
