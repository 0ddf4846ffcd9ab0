-- ===== src/Tests/Releases.antt =====
-- The releases of modules/ops-lab/ops.py.
use mastery.Prelude.{◌≡◌, refl, List, [], ◌∷◌}
use mastery.Releases.{Release, share_on, last_two, releases_on, pick, release_for}

program : Unit {0}
unfolding share_on last_two releases_on pick release_for
program = tt

abbrev r1 : Release
r1 = record { tag = "r1"; day = 0; canary_days = 0; canary_share = 100 }

abbrev r2 : Release
r2 = record { tag = "r2"; day = 12; canary_days = 4; canary_share = 100 }

abbrev two_releases : List Release
two_releases = r1 ∷ r2 ∷ []

canary : releases_on 13 two_releases ≡ (r2, 100) ∷ (r1, 900) ∷ []
unfolding program
canary = refl
