-- ===== src/Releases.antt =====
-- The rollout of releases in modules/ops-lab/ops.py: which of them serve on a day, with what share,
-- and which one serves a request. Shares are in thousandths, as the routing counts them.
pub mod Shares
use mastery.Prelude.{
  ℕ, ◌+◌, ◌-◌, ◌*◌, ◌%◌, String, Bool, true, false, Option, none, some, List, [], ◌∷◌, ltb, leb,
  keep, if◌then◌else◌,
}

pub record Release : Type 0 where
  pub tag : String
  pub day : ℕ
  pub canary_days : ℕ
  pub canary_share : ℕ

unfoldable pub share_on : Release → ℕ → ℕ
share_on r today =
    if ltb today r.day
    then 0
    else (if ltb today (r.day + r.canary_days) then r.canary_share else 1000)

-- `[r for r in RELEASES if r.day <= day]`
abbrev pub live_on : ℕ → List Release → List Release
live_on today = keep (λ r. leb r.day today)

-- `live[-1]`, and `live[-2]` where there is one.
abbrev pub behind : Release → Option (Release × Option Release) → Option (Release × Option Release)
behind p none = some (p, none)
behind p (some (r, none)) = some (r, some p)
behind p (some (r, some q)) = some (r, some q)

unfoldable pub last_two : List Release → Option (Release × Option Release)
last_two [] = none
last_two (r ∷ rs) = behind r (last_two rs)

abbrev pub mix_of : ℕ → Option (Release × Option Release) → List (Release × ℕ)
mix_of today none = []
mix_of today (some (r, none)) = (r, 1000) ∷ []
mix_of today (some (r, some p)) =
    if leb 1000 (share_on r today)
    then (r, 1000) ∷ []
    else (r, share_on r today) ∷ (p, 1000 - share_on r today) ∷ []

unfoldable pub releases_on : ℕ → List Release → List (Release × ℕ)
unfolding share_on last_two
releases_on today releases = mix_of today (last_two (live_on today releases))

-- The loop of `release_for`, and `mix[-1][0]` behind it, which raises on an empty mix.
unfoldable pub pick : ℕ → ℕ → Option Release → List (Release × ℕ) → Option Release
pick x acc last [] = last
pick x acc last ((r, share) ∷ mix) =
    let rest = pick x (acc + share) (some r) mix in if ltb x (acc + share) then some r else rest

unfoldable pub release_for : ℕ → ℕ → List Release → Option Release
unfolding releases_on pick
release_for today seq releases = pick (seq * 2654435761 % 1000) 0 none (releases_on today releases)
