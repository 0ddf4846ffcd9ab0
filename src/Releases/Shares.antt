-- ===== src/Releases/Shares.antt =====
-- The shares of a day add up, and each request goes to a release that is out.
use mastery.Prelude.{
  ℕ, ◌+◌, ◌*◌, ◌%◌, ◌≤◌, ◌<◌, ◌≡◌, refl, Option, none, some, List, [], ◌∷◌, ltb, leb, arith, All,
  inl, inr, Bool-cases, if◌then◌else◌,
}
use mastery.Releases.{
  Release, share_on, live_on, behind, last_two, mix_of, releases_on, pick, release_for,
}

abbrev pub total_share : List (Release × ℕ) → ℕ
total_share [] = 0
total_share ((r, share) ∷ mix) = share + total_share mix

-- What serves on a day: nothing, where nothing is out; or releases that are out, in full.
abbrev pub Serves : ℕ → List Release → List (Release × ℕ) → Type 0
Serves today [] mix = mix ≡ []
Serves today (r ∷ live) mix = (total_share mix ≡ 1000) × All (λ m. m.0.day ≤ today) mix

abbrev Out : ℕ → Option (Release × Option Release) → Type 0
Out today none = Unit
Out today (some (r, none)) = r.day ≤ today
Out today (some (r, some p)) = (r.day ≤ today) × (p.day ≤ today)

behind-Out :
    (today : ℕ) (p : Release) (o : Option (Release × Option Release))
    → p.day ≤ today
    → Out today o
    → Out today (behind p o)
behind-Out today p none h k = h
behind-Out today p (some (r, none)) h k = (k, h)
behind-Out today p (some (r, some q)) h k = k

last_two-Out : (today : ℕ) (rs : List Release) → Out today (last_two (live_on today rs))
unfolding last_two
last_two-Out today [] = tt
last_two-Out today (r ∷ rs) = elim (Bool-cases (leb r.day today)) [
  | inl e ↦
      rw e (
        behind-Out today r (last_two (live_on today rs)) (ground (arith, e))
          (last_two-Out today rs))
  | inr e ↦ rw e (last_two-Out today rs)
]

behind_serves :
    (today : ℕ) (p : Release) (o : Option (Release × Option Release))
    → Out today (behind p o)
    → (total_share (mix_of today (behind p o)) ≡ 1000)
      × All (λ m. m.0.day ≤ today) (mix_of today (behind p o))
behind_serves today p none h = (omega arith, (h, tt))
behind_serves today p (some (r, none)) h = ground (arith, h)
behind_serves today p (some (r, some q)) h = ground (arith, h)

mix_of-Serves :
    (today : ℕ) (live : List Release)
    → Out today (last_two live)
    → Serves today live (mix_of today (last_two live))
unfolding last_two
mix_of-Serves today [] h = refl
mix_of-Serves today (r ∷ live) h = behind_serves today r (last_two live) h

-- On any day, the releases that serve are out, and their shares add up to the whole; none serves
-- only if none is out.
pub releases_on-Serves :
    (today : ℕ) (releases : List Release)
    → Serves today (live_on today releases) (releases_on today releases)
unfolding releases_on
releases_on-Serves today releases =
    mix_of-Serves today (live_on today releases) (last_two-Out today releases)

pick_mix :
    (today x : ℕ) (r p : Release)
    → x < 1000
    → pick x 0 none (mix_of today (some (r, some p)))
      ≡ some (if ltb x (share_on r today) then r else p)
unfolding pick
pick_mix today x r p h = ground (arith, h)

mod_thousand : (n : ℕ) → n % 1000 < 1000
mod_thousand n = omega arith

-- Where `r` is the newest release that is out and `p` the one before it, a request goes to `r` if its
-- number of thousandths is below the share of `r` on that day, and else to `p`.
pub release_for-share :
    (today seq : ℕ) (releases : List Release) (r p : Release)
    → last_two (live_on today releases) ≡ some (r, some p)
    → release_for today seq releases
      ≡ some (if ltb (seq * 2654435761 % 1000) (share_on r today) then r else p)
unfolding release_for releases_on
release_for-share today seq releases r p h =
    rw h (pick_mix today (seq * 2654435761 % 1000) r p (mod_thousand (seq * 2654435761)))
