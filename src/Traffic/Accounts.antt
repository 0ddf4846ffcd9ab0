-- ===== src/Traffic/Accounts.antt =====
-- A day's requests are all served, by releases that are out, within their retries.
use mastery.Prelude.{
  ℕ, zero, suc, ◌+◌, ◌*◌, ◌%◌, ◌≤◌, ◌≡◌, refl, String, Option, none, some, List, [], ◌∷◌, length,
  arith, All, ltb, Bool-cases, inl, inr, ap,
}
use mastery.Releases.{Release, live_on, releases_on, pick, release_for}
use mastery.Releases.Shares.{Serves, releases_on-Serves, total_share}
use mastery.Process.{World, Failures, process}
use mastery.Process.Timeline.{process-books}
use mastery.Traffic.{Served, serve, served_then, before, traffic_from, traffic}

-- A release that is out on the day.
abbrev IsOut : ℕ → Option Release → Type 0
IsOut day none = ⊥
IsOut day (some r) = r.day ≤ day

pick-IsOut :
    (day x acc : ℕ) (last : Release) (mix : List (Release × ℕ))
    → last.day ≤ day
    → All (λ m. m.0.day ≤ day) mix
    → IsOut day (pick x acc (some last) mix)
unfolding pick
pick-IsOut day x acc last [] h a = h
pick-IsOut day x acc last ((r, share) ∷ mix) h a = elim (Bool-cases (ltb x (acc + share))) [
  | inl e ↦ rw e a.0
  | inr e ↦ rw e (pick-IsOut day x (acc + share) r mix a.0 a.1)
]

pick_mix-IsOut :
    (day x : ℕ) (mix : List (Release × ℕ))
    → total_share mix ≡ 1000
    → All (λ m. m.0.day ≤ day) mix
    → IsOut day (pick x 0 none mix)
unfolding pick
pick_mix-IsOut day x [] t a = absurd (omega (arith, t))
pick_mix-IsOut day x ((r, share) ∷ mix) t a = elim (Bool-cases (ltb x (0 + share))) [
  | inl e ↦ rw e a.0
  | inr e ↦ rw e (pick-IsOut day x (0 + share) r mix a.0 a.1)
]

mix-IsOut :
    (day x : ℕ) (live : List Release) (mix : List (Release × ℕ))
    → 1 ≤ length live
    → Serves day live mix
    → IsOut day (pick x 0 none mix)
mix-IsOut day x [] mix h s = absurd (omega (arith, h))
mix-IsOut day x (r ∷ live) mix h s = pick_mix-IsOut day x mix s.0 s.1

release_for-IsOut :
    (day seq : ℕ) (releases : List Release)
    → 1 ≤ length (live_on day releases)
    → IsOut day (release_for day seq releases)
unfolding release_for
release_for-IsOut day seq releases h =
    mix-IsOut day (seq * 2654435761 % 1000) (live_on day releases) (releases_on day releases) h
      (releases_on-Serves day releases)

module _ {R : Type 0} (releases : List Release) (document : ℕ → String)
    (world : String → Release → ℕ → World R) (f : Failures) (retries day : ℕ) where
  -- How many calls of the provider the requests made.
  abbrev pub calls : List (Served R) → ℕ
  calls [] = 0
  calls (s ∷ served) = s.run.attempts + calls served

  abbrev Accounts : ℕ → Option (List (Served R)) → Type 0
  Accounts n o =
      (served : List (Served R)) × ((o ≡ some served)
        × (length served ≡ n)
        × All (λ (s : Served R). s.release.day ≤ day) served
        × (calls served ≤ n * (retries + 1)))

  served_then-Accounts :
      (seq n : ℕ) (o : Option Release) (rest : Option (List (Served R)))
      → IsOut day o
      → Accounts n rest
      → Accounts (suc n) (
          served_then releases document world f retries day
            (serve releases document world f retries day seq o)
            rest)
  served_then-Accounts seq n none rest out a = absurd out
  served_then-Accounts seq n (some r) rest out (served, (e, l, h, c)) =
      let q = process (world (document seq) r seq) f retries day in
      let one : Served R = record {
        doc_id = document seq;
        release = r;
        run = q.0;
        outcome = q.1;
      } in
      (
        one ∷ served,
        (
          ap (before one) e,
          omega (arith, l),
          (out, h),
          grind (arith, c, (process-books (world (document seq) r seq) f retries day).3),
        ),
      )

  traffic_from-Accounts :
      (seq n : ℕ)
      → 1 ≤ length (live_on day releases)
      → Accounts n (traffic_from releases document world f retries day seq n)
  unfolding traffic_from
  traffic_from-Accounts seq zero h = ([], (refl, refl, tt, omega arith))
  traffic_from-Accounts seq (suc n) h =
      served_then-Accounts seq n (release_for day seq releases) _
        (release_for-IsOut day seq releases h) (traffic_from-Accounts (seq + 1) n h)

  -- On a day on which a release is out, every request is served, by a release that is out, and the
  -- calls that they all make are at most one more than the retries for each.
  pub traffic-Accounts :
      (n : ℕ)
      → 1 ≤ length (live_on day releases)
      → (served : List (Served R)) × ((traffic releases document world f retries day n
            ≡ some served)
          × (length served ≡ n)
          × All (λ (s : Served R). s.release.day ≤ day) served
          × (calls served ≤ n * (retries + 1)))
  unfolding traffic
  traffic-Accounts n h = traffic_from-Accounts 0 n h
