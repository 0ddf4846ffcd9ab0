-- ===== src/Tests/Batching.antt =====
-- Two requests through the engine of modules/serving-lab/batching_lab.py.
use mastery.Prelude.{◌+◌, ◌*◌, ◌≡◌, refl, true, List, [], ◌∷◌, arith, ◌==◌, if◌then◌else◌}
use mastery.Batching.{
  continuous, Req, Seq, State, arrive_all, total, gaps, tick_all, ended, going, admit_all,
  chunk_cost, iterate, iterates, simulate,
}
use mastery.Batching.Served.{simulate-Served}

program : Unit {0}
unfolding arrive_all total gaps tick_all ended going admit_all chunk_cost iterate iterates simulate
program = tt

abbrev one_short : List Req
one_short =
    record { id = 0; arrive = 0; prompt = 2; gen = 1 }
    ∷ record { id = 1; arrive = 5; prompt = 3; gen = 2 }
    ∷ []

abbrev engine : State
engine = simulate (λ n. n) (λ n m. 1) 2 continuous 4 true one_short

six_steps : engine.steps ≡ 6
unfolding program
six_steps = refl

simulate-Served_example :
    (engine.pending ≡ [])
    × (engine.queue ≡ [])
    × (engine.active ≡ [])
    × (total (λ (s : Seq). if s.req.id == 1 then 1 else 0) engine.done
        ≡ total (λ (r : Req). if r.id == 1 then 1 else 0) one_short)
    × (engine.busy + engine.wasted ≡ engine.steps * 4)
simulate-Served_example =
    simulate-Served (λ n. n) (λ n m. 1) 2 continuous 4 true one_short 1 (omega arith) (omega arith)
