-- ===== src/Tests/Builds.antt =====
-- `resolve` of modules/ops-lab/build_lab.py on the tables of the source.
use mathlib.Core.Option.{bind}
use mastery.Prelude.{same, member, ◌≡◌, refl, String, Option, some, List}
use mastery.Prelude.Dict.{lookup, put}
use mastery.Builds.{
  index_t0, index_t1, declared_deps, pins, deps_of, version, resolve_from, resolve,
}

program : Unit {0}
unfolding lookup put same member bind deps_of version resolve_from resolve
program = tt

abbrev installed : List (String × List String) → String → Option String
installed index name =
    bind (resolve declared_deps index pins) (λ r. bind r (λ out. lookup name out))

-- A name that is pinned stays, one that is only needed moves.
httpx_stays : installed index_t1 "httpx" ≡ some "0.27.2"
unfolding program
httpx_stays = refl

httpcore_moves :
    (installed index_t0 "httpcore" ≡ some "1.0.6") × (installed index_t1 "httpcore" ≡ some "1.0.7")
unfolding program
httpcore_moves = (refl, refl)
