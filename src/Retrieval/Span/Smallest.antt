-- ===== src/Retrieval/Span/Smallest.antt =====
-- No span is smaller than what `min_window` gives.
use mastery.Prelude.{
  ℕ, suc, ◌+◌, ◌-◌, ◌≤◌, ◌<◌, ◌≡◌, ◌≢◌, refl, String, true, false, ◌==◌, inl, inr, Option, none,
  some, List, [], ◌∷◌, ◌++◌, length, if◌then◌else◌, arith, sym, ap, ◌∙◌, subst, All, append_nil,
  append_assoc,
}
use mastery.Prelude.Dict.{lookup, put}
use mastery.Retrieval.Index.{or_else}
use mastery.Retrieval.Span.{better, fewer, Window, shrink, window_from}
use mastery.Retrieval.Span.Counts.{
  times, kinds, IsCount, put-IsCount, fewer-IsCount, kinds-append, kinds-prefix, kinds-suffix,
  first_time-le,
}
use mastery.Retrieval.Span.Places.{
  Events, span, IsOrdered, AtMost, last_place-append, last_place-le, All-first, cut_cases,
  better-le, shrink-AtMost, window_from-AtMost,
}

-- What the rest of the loop does for the segments that are still to come.
abbrev pub Lower : ℕ → Events → Type 0
Lower need events =
    (s : Window) (w1 seg post : Events)
    → IsCount s.0.0 s.0.1
    → kinds s.0.1 < need
    → s.0.1 ++ events ≡ w1 ++ seg ++ post
    → need ≤ kinds seg
    → AtMost (window_from need s events) (span seg)

-- A segment that has the window and the event after it is no smaller than from its first event to that.
span-le :
    (e : ℕ × String) (v : Events) (x : ℕ × String) (m post events seg : Events)
    → All (λ (f : ℕ × String). x.0 ≤ f.0) events
    → seg ≡ e ∷ (v ++ x ∷ m)
    → events ≡ m ++ post
    → x.0 - e.0 + 2 ≤ span seg
span-le e v x m post events seg h hs he =
    subst (λ sg. x.0 - e.0 + 2 ≤ span sg) (sym hs)
      (omega (
        arith,
        last_place-append e.0 v x m,
        last_place-le x.0 x.0 m (omega arith)
            (All-first x.0 m post (subst (λ es. All (λ (f : ℕ × String). x.0 ≤ f.0) es) he h)),
      ))

AtMost-le : (o : Option ℕ) (u v : ℕ) → u ≤ v → AtMost o u → AtMost o v
AtMost-le none u v h a = a
AtMost-le (some b) u v h a = omega (arith, h, a)

module _ (need : ℕ) (x : ℕ × String) (events : Events)
    (later : All (λ (f : ℕ × String). x.0 ≤ f.0) events) (lower : Lower need events) where
  -- A segment that starts with the first event of the window, when that event is dropped.
  dropped-AtMost :
      (e : ℕ × String) (v : Events) (s : Window) (best : Option ℕ) (seg post : Events)
      → AtMost s.1 (better best (x.0 - e.0 + 2))
      → kinds (e ∷ v) < need
      → e ∷ (v ++ x ∷ events) ≡ seg ++ post
      → need ≤ kinds seg
      → AtMost (window_from need s events) (span seg)
  dropped-AtMost e v s best seg post hb hk h hn = elim (cut_cases (e ∷ v) x events seg post h) [
    | inl r ↦ absurd (omega (arith, hn, hk, kinds-prefix r.0 seg, ap kinds r.1))
    | inr r ↦
        AtMost-le (window_from need s events) (better best (x.0 - e.0 + 2)) (span seg)
          (omega (
            arith,
            better-le best (x.0 - e.0 + 2),
            span-le e v x r.0 post events seg later r.1.0 r.1.1,
          ))
          (window_from-AtMost need events s (better best (x.0 - e.0 + 2)) hb)
  ]

  abbrev less : ℕ × String → List (String × ℕ) → List (String × ℕ)
  less e have = fewer e.1 (or_else 0 (lookup e.1 have)) have

  abbrev recorded : ℕ × String → Option ℕ → Option ℕ
  recorded e best = some (better best (x.0 - e.0 + 2))

  -- Either way of the test of `shrink`.
  test_cases :
      (n : ℕ) (a b : Window) (v : ℕ)
      → (n ≡ need → AtMost (window_from need a events) v)
      → (n ≢ need → AtMost (window_from need b events) v)
      → AtMost (window_from need (if n == need then a else b) events) v
  test_cases n a b v ha hb =
      elim (n == need)
          as (λ t. (n == need) ≡ t → AtMost (window_from need (if t then a else b) events) v) [
            | true ↦ λ e. ha (ground (arith, e))
            | false ↦ λ e. hb (λ e2. ground (arith, e, e2))
          ]
        refl

  not_yet : (n k : ℕ) → n ≡ k → n ≢ need → k ≤ need → k < need
  not_yet n k e h hk = ground (arith, e, h, hk)

  span-two : (seg : Events) → 2 ≤ span seg
  span-two [] = omega arith
  span-two (e ∷ seg) = omega arith

  last-Lower :
      (have : List (String × ℕ)) (best : Option ℕ) (w1 seg post : Events)
      → IsCount have (x ∷ [])
      → 0 < need
      → x ∷ events ≡ w1 ++ seg ++ post
      → need ≤ kinds seg
      → AtMost (window_from need ((less x have, []), recorded x best) events) (span seg)
  last-Lower have best [] seg post hc h0 h hn =
      AtMost-le (window_from need ((less x have, []), recorded x best) events)
        (better best (x.0 - x.0 + 2)) (span seg)
        (omega (arith, better-le best (x.0 - x.0 + 2), span-two seg))
        (window_from-AtMost need events ((less x have, []), recorded x best)
          (better best (x.0 - x.0 + 2)) (omega arith))
  last-Lower have best (y ∷ w1) seg post hc h0 h hn =
      lower ((less x have, []), recorded x best) w1 seg post (fewer-IsCount x have [] hc) h0 (cc h)
        hn

  kept-Lower :
      (f : ℕ × String) (v : Events) (have : List (String × ℕ)) (best : Option ℕ)
      (w1 seg post : Events)
      → IsCount have (f ∷ (v ++ x ∷ []))
      → kinds (f ∷ (v ++ x ∷ [])) ≤ need
      → length have ≢ need
      → f ∷ (v ++ x ∷ events) ≡ w1 ++ seg ++ post
      → need ≤ kinds seg
      → AtMost (window_from need ((have, f ∷ (v ++ x ∷ [])), best) events) (span seg)
  kept-Lower f v have best w1 seg post hc hk e h hn =
      lower ((have, f ∷ (v ++ x ∷ [])), best) w1 seg post hc
        (not_yet (length have) (kinds (f ∷ (v ++ x ∷ []))) hc.1.0 e hk)
        (ap (λ es. f ∷ es) (append_assoc v (x ∷ []) events) ∙ h) hn

  shrink-Lower :
      (v : Events) (have : List (String × ℕ)) (best : Option ℕ) (w1 seg post : Events)
      → IsCount have (v ++ x ∷ [])
      → kinds (v ++ x ∷ []) ≤ need
      → kinds v < need
      → v ++ x ∷ events ≡ w1 ++ seg ++ post
      → need ≤ kinds seg
      → AtMost (window_from need (shrink need x.0 have (v ++ x ∷ []) best) events) (span seg)
  unfolding shrink
  shrink-Lower [] have best w1 seg post hc hk hv h hn =
      test_cases (length have) ((less x have, []), recorded x best) ((have, x ∷ []), best)
        (span seg) (λ e. last-Lower have best w1 seg post hc hv h hn)
        (λ e.
          lower ((have, x ∷ []), best) w1 seg post hc
            (not_yet (length have) (kinds (x ∷ [])) hc.1.0 e hk) h hn)
  shrink-Lower (f ∷ v) have best [] seg post hc hk hv h hn =
      let next = shrink need x.0 (less f have) (v ++ x ∷ []) (recorded f best) in
      test_cases (length have) next ((have, f ∷ (v ++ x ∷ [])), best) (span seg)
        (λ e.
          dropped-AtMost f v next best seg post
            (shrink-AtMost need x.0 (less f have) (v ++ x ∷ []) (recorded f best)
              (better best (x.0 - f.0 + 2)) (omega arith))
            hv h hn)
        (λ e. kept-Lower f v have best [] seg post hc hk e h hn)
  shrink-Lower (f ∷ v) have best (y ∷ w1) seg post hc hk hv h hn =
      let next = shrink need x.0 (less f have) (v ++ x ∷ []) (recorded f best) in
      test_cases (length have) next ((have, f ∷ (v ++ x ∷ [])), best) (span seg)
        (λ e.
          shrink-Lower v (less f have) (recorded f best) w1 seg post
            (fewer-IsCount f have (v ++ x ∷ []) hc) (omega (arith, hk)) (omega (arith, hv)) (cc h)
            hn)
        (λ e. kept-Lower f v have best (y ∷ w1) seg post hc hk e h hn)

-- No segment that is still to come is smaller than the result of the loop.
pub window_from-Lower : (need : ℕ) (events : Events) → IsOrdered events → Lower need events
unfolding window_from
window_from-Lower need [] ho s w1 seg post hc hk h hn = absurd (
    omega (
      arith,
      hk,
      hn,
      kinds-suffix w1 seg,
      kinds-prefix post (w1 ++ seg),
      ap kinds (sym h ∙ append_nil s.0.1),
    ))
window_from-Lower need (x ∷ events) ho s w1 seg post hc hk h hn =
    shrink-Lower need x events ho.0 (window_from-Lower need events ho.1) s.0.1
      (put x.1 (suc (or_else 0 (lookup x.1 s.0.0))) s.0.0) s.1 w1 seg post
      (put-IsCount x s.0.0 s.0.1 hc)
      (omega (arith, hk, kinds-append s.0.1 x, first_time-le (times x.1 s.0.1))) hk h hn
