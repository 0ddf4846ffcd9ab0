-- ===== src/Retrieval/Span/Attained.antt =====
-- What `min_window` gives is the span of a segment with all the terms.
use mastery.Prelude.{
  ℕ, suc, ◌+◌, ◌-◌, ◌≤◌, ◌<◌, ◌≡◌, ◌≢◌, refl, min, String, true, false, ◌==◌, ltb, Option, none,
  some, List, [], ◌∷◌, ◌++◌, length, if◌then◌else◌, arith, sym, ap, ◌∙◌, subst, All, All-map,
  append_assoc, ◌⊎◌, inl, inr, Bool-cases, ltb→lt, ltb→le,
}
use mastery.Prelude.Dict.{lookup, put}
use mastery.Retrieval.Index.{or_else}
use mastery.Retrieval.Span.{
  event_precedes, insert_event, insert_all, events_of, better, fewer, Window, shrink, entered,
  window_from, min_window,
}
use mastery.Retrieval.Span.Counts.{
  times, kinds, IsCount, put-IsCount, fewer-IsCount, kinds-append, first_time-le,
}
use mastery.Retrieval.Span.Places.{Events, last_place, span, IsOrdered, AtMost}
use mastery.Retrieval.Span.Smallest.{window_from-Lower}

insert_event-All :
    (p : ℕ) (e : ℕ × String) (es : Events)
    → p ≤ e.0
    → All (λ (f : ℕ × String). p ≤ f.0) es
    → All (λ (f : ℕ × String). p ≤ f.0) (insert_event e es)
unfolding insert_event
insert_event-All p e [] h hs = (h, tt)
insert_event-All p e (f ∷ es) h hs =
    elim (event_precedes f e)
      as (λ b.
        All (λ (g : ℕ × String). p ≤ g.0) (if b then f ∷ insert_event e es else e ∷ f ∷ es)) [
          | true ↦ (hs.0, insert_event-All p e es h hs.1)
          | false ↦ (h, hs)
        ]

precedes-le : (f e : ℕ × String) → event_precedes f e ≡ true → f.0 ≤ e.0
precedes-le f e h = ground (arith, h)

not_precedes-le : (f e : ℕ × String) → event_precedes f e ≡ false → e.0 ≤ f.0
not_precedes-le f e h = ground (arith, h)

insert_event-IsOrdered :
    (e : ℕ × String) (es : Events) → IsOrdered es → IsOrdered (insert_event e es)
unfolding insert_event
insert_event-IsOrdered e [] h = (tt, tt)
insert_event-IsOrdered e (f ∷ es) h =
    elim (event_precedes f e)
        as (λ b.
          event_precedes f e ≡ b → IsOrdered (if b then f ∷ insert_event e es else e ∷ f ∷ es)) [
            | true ↦ λ t.
                (insert_event-All f.0 e es (precedes-le f e t) h.0, insert_event-IsOrdered e es h.1)
            | false ↦ λ t. (
              (
                not_precedes-le f e t,
                All-map (λ (g : ℕ × String) hg. omega (arith, hg, not_precedes-le f e t)) es h.0,
              ),
              h,
            )
          ]
      refl

insert_all-IsOrdered :
    (t : String) (ps : List ℕ) (es : Events) → IsOrdered es → IsOrdered (insert_all t ps es)
unfolding insert_all
insert_all-IsOrdered t [] es h = h
insert_all-IsOrdered t (p ∷ ps) es h =
    insert_event-IsOrdered (p, t) (insert_all t ps es) (insert_all-IsOrdered t ps es h)

events_of-IsOrdered : (positions : List (String × List ℕ)) → IsOrdered (events_of positions)
unfolding events_of
events_of-IsOrdered [] = tt
events_of-IsOrdered ((t, ps) ∷ rest) =
    insert_all-IsOrdered t ps (events_of rest) (events_of-IsOrdered rest)

-- A span that a segment with as many terms as are needed has.
abbrev pub IsSpan : Events → ℕ → ℕ → Type 0
IsSpan total need b =
    (w1 : Events) × (seg : Events) × (post : Events) × ((total ≡ w1 ++ seg ++ post)
      × ((kinds seg ≡ need) × (span seg ≡ b)))

abbrev IsAttained : Events → ℕ → Option ℕ → Type 0
IsAttained total need none = Unit
IsAttained total need (some b) = IsSpan total need b

min_either : (a b : ℕ) → (min a b ≡ a) ⊎ (min a b ≡ b)
min_either a b = elim (Bool-cases (ltb a b)) [
  | inl e ↦ inl (omega (arith, ltb→lt a b e))
  | inr e ↦ inr (omega (arith, ltb→le a b e))
]

min_cases : (P : ℕ → Type 0) (a b : ℕ) → P a → P b → P (min a b)
min_cases P a b ha hb = elim (min_either a b) [
  | inl e ↦ subst P (sym e) ha
  | inr e ↦ subst P (sym e) hb
]

better-IsAttained :
    (total : Events) (need : ℕ) (best : Option ℕ) (v : ℕ)
    → IsAttained total need best
    → IsSpan total need v
    → IsSpan total need (better best v)
better-IsAttained total need none v h hv = hv
better-IsAttained total need (some b) v h hv = min_cases (IsSpan total need) b v h hv

abbrev EndsAt : ℕ → Events → Type 0
EndsAt pos [] = Unit
EndsAt pos (e ∷ w) = last_place e.0 w ≡ pos

EndsAt-tail : (pos : ℕ) (e : ℕ × String) (w : Events) → EndsAt pos (e ∷ w) → EndsAt pos w
EndsAt-tail pos e [] h = tt
EndsAt-tail pos e (f ∷ w) h = h

EndsAt-append : (w : Events) (x : ℕ × String) → EndsAt x.0 (w ++ x ∷ [])
EndsAt-append [] x = refl
EndsAt-append (e ∷ []) x = refl
EndsAt-append (e ∷ f ∷ w) x = EndsAt-append (f ∷ w) x

-- The loop between two rounds.
abbrev IsLoop : Events → ℕ → Events → Window → Type 0
IsLoop total need events s =
    (IsCount s.0.0 s.0.1 × (kinds s.0.1 < need))
    × (((d : Events) × (total ≡ d ++ s.0.1 ++ events)) × IsAttained total need s.1)

module _ (total : Events) (need pos : ℕ) (events : Events) where
  either_way :
      (n : ℕ) (a b : Window)
      → (n ≡ need → IsLoop total need events a)
      → (n ≢ need → IsLoop total need events b)
      → IsLoop total need events (if n == need then a else b)
  either_way n a b ha hb =
      elim (n == need) as (λ t. (n == need) ≡ t → IsLoop total need events (if t then a else b)) [
        | true ↦ λ e. ha (ground (arith, e))
        | false ↦ λ e. hb (λ e2. ground (arith, e, e2))
      ]
        refl

  shrink-IsLoop :
      (w : Events) (have : List (String × ℕ)) (best : Option ℕ) (d : Events)
      → IsCount have w
      → kinds w ≤ need
      → 0 < need
      → EndsAt pos w
      → total ≡ d ++ w ++ events
      → IsAttained total need best
      → IsLoop total need events (shrink need pos have w best)
  unfolding shrink
  shrink-IsLoop [] have best d hc hk h0 he ht ha = ((hc, h0), ((d, ht), ha))
  shrink-IsLoop (e ∷ w) have best d hc hk h0 he ht ha =
      let v = pos - e.0 + 2 in
      let next = fewer e.1 (or_else 0 (lookup e.1 have)) have in
      either_way (length have) (shrink need pos next w (some (better best v))) ((have, e ∷ w), best)
        (λ t.
          shrink-IsLoop w next (some (better best v)) (d ++ e ∷ []) (fewer-IsCount e have w hc)
            (omega (arith, hk)) h0 (EndsAt-tail pos e w he)
            (ht ∙ sym (ap (λ es. es ++ events) (append_assoc d (e ∷ []) w)))
            (better-IsAttained total need best v ha
              (d, e ∷ w, events, (ht, (sym hc.1.0 ∙ t, ap (λ p. p - e.0 + 2) he)))))
        (λ t. ((hc, ground (arith, t, hk, hc.1.0)), ((d, ht), ha)))

window_from-IsAttained :
    (total : Events) (need : ℕ) (events : Events) (s : Window)
    → IsLoop total need events s
    → IsAttained total need (window_from need s events)
unfolding window_from
window_from-IsAttained total need [] s h = h.1.1
window_from-IsAttained total need (x ∷ events) s h =
    window_from-IsAttained total need events (entered need s x) (
      shrink-IsLoop total need x.0 events (s.0.1 ++ x ∷ [])
        (put x.1 (suc (or_else 0 (lookup x.1 s.0.0))) s.0.0) s.1 h.1.0.0
        (put-IsCount x s.0.0 s.0.1 h.0.0)
        (omega (arith, h.0.1, kinds-append s.0.1 x, first_time-le (times x.1 s.0.1)))
        (omega (arith, h.0.1)) (EndsAt-append s.0.1 x)
        (h.1.0.1
          ∙ sym (append_assoc (h.1.0.0 ++ s.0.1) (x ∷ []) events)
          ∙ ap (λ es. es ++ events) (append_assoc h.1.0.0 s.0.1 (x ∷ [])))
        h.1.1)

empty-IsCount : IsCount [] []
unfolding lookup
empty-IsCount = (λ t. refl, (refl, tt))

-- A result that is at most a number and is attained is one.
smallest_of :
    (total : Events) (need v : ℕ) (o : Option ℕ)
    → AtMost o v
    → IsAttained total need o
    → (b : ℕ) × ((o ≡ some b) × ((b ≤ v) × IsSpan total need b))
smallest_of total need v none h ha = absurd (omega (arith, h))
smallest_of total need v (some b) h ha = (b, (refl, (h, ha)))

-- Where some segment of the sorted events has as many terms as there are, `min_window` gives a number;
-- it is at most the span of that segment, and it is the span of a segment that has just as many.
pub min_window-IsSmallest :
    (positions : List (String × List ℕ)) (w1 seg post : Events)
    → 0 < length positions
    → events_of positions ≡ w1 ++ seg ++ post
    → length positions ≤ kinds seg
    → (b : ℕ) × ((min_window positions ≡ some b)
        × ((b ≤ span seg) × IsSpan (events_of positions) (length positions) b))
unfolding min_window
min_window-IsSmallest positions w1 seg post h0 h hn =
    let need = length positions in
    let events = events_of positions in
    smallest_of events need (span seg) (window_from need (([], []), none) events)
      (window_from-Lower need events (events_of-IsOrdered positions) (([], []), none) w1 seg post
        empty-IsCount h0 h hn)
      (window_from-IsAttained events need events (([], []), none)
        ((empty-IsCount, h0), (([], refl), tt)))
