-- ===== src/Monitor/Windows.antt =====
-- The statistic is the worst shortfall of a window, and the alarm the first above the threshold.
use mastery.Prelude.{
  append_nil, append_assoc, ℕ, ◌+◌, ◌-◌, ◌≡◌, refl, Bool, true, false, Option, none, some, List, [],
  ◌∷◌, ◌++◌, ltb, if◌then◌else◌, arith, ap, ◌∙◌, sym, max,
}
use mastery.Monitor.{alarm_at, next, cusum_from, cusum}

module _ (target k h : ℕ) where
  -- What a window aims at, and what it has, with `k` for each of its points.
  abbrev pub aims : List ℕ → ℕ
  aims [] = 0
  aims (x ∷ xs) = target + aims xs

  abbrev pub has : List ℕ → ℕ
  has [] = 0
  has (x ∷ xs) = x + k + has xs

  -- The largest shortfall of a window at the end of the series, or 0.
  unfoldable pub worst : List ℕ → ℕ
  worst [] = 0
  worst (x ∷ xs) = max (aims (x ∷ xs) - has (x ∷ xs)) (worst xs)

  -- That of each prefix, longer and longer.
  unfoldable pub worst_of_prefixes : List ℕ → List ℕ → List ℕ
  unfolding worst
  worst_of_prefixes past [] = []
  worst_of_prefixes past (x ∷ xs) =
      worst (past ++ (x ∷ [])) ∷ worst_of_prefixes (past ++ (x ∷ [])) xs

  unfoldable pub first_above : ℕ → List ℕ → Option ℕ
  first_above i [] = none
  first_above i (s ∷ ss) = let rest = first_above (i + 1) ss in if ltb h s then some i else rest

  aims-append : (xs : List ℕ) (x : ℕ) → aims (xs ++ (x ∷ [])) ≡ aims xs + target
  aims-append [] x = omega arith
  aims-append (y ∷ ys) x = omega (arith, aims-append ys x)

  has-append : (xs : List ℕ) (x : ℕ) → has (xs ++ (x ∷ [])) ≡ has xs + (x + k)
  has-append [] x = omega arith
  has-append (y ∷ ys) x = omega (arith, has-append ys x)

  worst-append : (xs : List ℕ) (x : ℕ) → worst (xs ++ (x ∷ [])) ≡ next target k h (worst xs) x
  unfolding worst
  worst-append [] x = omega arith
  worst-append (y ∷ ys) x = omega (arith, worst-append ys x, aims-append ys x, has-append ys x)

  abbrev or_else : Option ℕ → Option ℕ → Option ℕ
  or_else none o = o
  or_else (some i) o = some i

  or_else-alarm_at :
      (alarm : Option ℕ) (b : Bool) (i : ℕ) (rest : Option ℕ)
      → or_else (alarm_at alarm b i) rest ≡ or_else alarm (if b then some i else rest)
  or_else-alarm_at none true i rest = refl
  or_else-alarm_at none false i rest = refl
  or_else-alarm_at (some j) b i rest = refl

  or_else-none : (alarm : Option ℕ) → alarm ≡ or_else alarm none
  or_else-none none = refl
  or_else-none (some i) = refl

  cusum_from-worst :
      (xs past : List ℕ) (i s : ℕ) (stats : List ℕ) (alarm : Option ℕ)
      → s ≡ worst past
      → let r = cusum_from target k h i s stats alarm xs in
        let later = worst_of_prefixes past xs in
        (r.0 ≡ or_else alarm (first_above i later)) × (r.1 ≡ stats ++ later)
  unfolding cusum_from worst_of_prefixes first_above
  cusum_from-worst [] past i s stats alarm e = (or_else-none alarm, sym (append_nil stats))
  cusum_from-worst (x ∷ xs) past i s stats alarm e =
      let now = past ++ (x ∷ []) in
      let same : next target k h s x ≡ worst now =
        ap (λ n. next target k h n x) e ∙ sym (worst-append past x) in
      let s2 = next target k h s x in
      let later = worst_of_prefixes now xs in
      let ih =
        cusum_from-worst xs now (i + 1) s2 (stats ++ (s2 ∷ [])) (alarm_at alarm (ltb h s2) i)
          same in
      (
        ih.0
            ∙ or_else-alarm_at alarm (ltb h s2) i (first_above (i + 1) later)
            ∙ ap (λ n. or_else alarm (if ltb h n then some i else first_above (i + 1) later)) same,
        ih.1 ∙ append_assoc stats (s2 ∷ []) later ∙ ap (λ n. stats ++ (n ∷ later)) same,
      )

  -- The statistic at each point is the largest shortfall of a window that ends there, what is aimed
  -- at less what it has, and the alarm is the first point at which it is above the threshold.
  pub cusum-worst :
      (series : List ℕ)
      → let stats = worst_of_prefixes [] series in
        ((cusum target k h series).0 ≡ first_above 0 stats) × ((cusum target k h series).1 ≡ stats)
  unfolding cusum worst
  cusum-worst series = cusum_from-worst series [] 0 0 [] none refl
