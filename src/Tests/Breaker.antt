-- ===== src/Tests/Breaker.antt =====
-- Breaker and layers of modules/service-lab/resilience_lab.py.
use mastery.Prelude.{◌+◌, ◌-◌, min, ◌≡◌, refl, true, false, [], ◌∷◌, length, map, arith}
use mastery.Resilience.Breaker.{closed, opened, half_open, Breaker, init, allow, record_outcome}
use mastery.Resilience.Breaker.Laws.{
  ask, tell, run, step, admitted, IsSound, run-IsSound, waiting, lost_probes,
}
use mastery.Resilience.Middle.{Upstream, upstream, chain, middle}

program : Unit {0}
unfolding init allow record_outcome run step admitted upstream chain middle
program = tt

abbrev fresh : Breaker
fresh = record {
  threshold = 2;
  cooldown = 300;
  probes = 1;
  state = closed;
  failures = 0;
  opened_at = 0;
  in_flight_probes = 0;
  short_circuited = 0;
}

-- Open since time 20.
abbrev broken : Breaker
broken = record fresh { state = opened; failures = 2; opened_at = 20 }

-- Half open, and its one probe is under way.
abbrev probing : Breaker
probing = record broken { state = half_open; in_flight_probes = 1 }

outage :
    run (init 2 300 1) (tell 10 false ∷ tell 20 false ∷ ask 100 ∷ ask 320 ∷ [])
    ≡ record probing { short_circuited = 1 }
unfolding program
outage = refl

recovery : (run probing (tell 330 true ∷ [])).state ≡ closed
unfolding program
recovery = refl

run-IsSound_example : IsSound (run (init 2 300 1) (tell 10 false ∷ ask 20 ∷ []))
run-IsSound_example = run-IsSound 2 300 1 (tell 10 false ∷ ask 20 ∷ []) (omega arith)

-- Asked at 100, 320, 900 and 90000: only the second request gets through.
lost_probes_example :
    (admitted broken (map ask (100 ∷ 320 ∷ 900 ∷ 90000 ∷ []))
      ≡ min 1 (4 - waiting 320 (100 ∷ 320 ∷ 900 ∷ 90000 ∷ [])))
    × ((run broken (map ask (100 ∷ 320 ∷ 900 ∷ 90000 ∷ []))).short_circuited
          + admitted broken (map ask (100 ∷ 320 ∷ 900 ∷ 90000 ∷ []))
        ≡ 0 + 4)
lost_probes_example = lost_probes broken (100 ∷ 320 ∷ 900 ∷ 90000 ∷ []) refl

abbrev down : Upstream
down = record { t0 = 0; outage = 600; hits = [] }

three_layers : length (chain (λ i. i) 3 3 down).0.hits ≡ 27
unfolding program
three_layers = refl
