-- ===== src/Retrieval/Span/Places.antt =====
-- Spans of segments, and how the best of them changes in the loop of `min_window`.
use mastery.Prelude.{
  ℕ, suc, ◌+◌, ◌-◌, ◌≤◌, ◌≡◌, refl, String, Bool, true, false, ◌==◌, ◌⊎◌, inl, inr, Option, none,
  some, List, [], ◌∷◌, ◌++◌, length, if◌then◌else◌, arith, All,
}
use mastery.Prelude.Dict.{lookup, put}
use mastery.Retrieval.Index.{or_else}
use mastery.Retrieval.Span.{entered, better, fewer, Window, shrink, window_from}

abbrev pub Events : Type 0
Events = List (ℕ × String)

-- The place of the last of some events.
abbrev pub last_place : ℕ → Events → ℕ
last_place p [] = p
last_place p (e ∷ es) = last_place e.0 es

abbrev pub span : Events → ℕ
span [] = 2
span (e ∷ es) = last_place e.0 es - e.0 + 2

abbrev pub IsOrdered : Events → Type 0
IsOrdered [] = Unit
IsOrdered (e ∷ es) = All (λ (f : ℕ × String). e.0 ≤ f.0) es × IsOrdered es

-- A best span that is at most a number.
abbrev pub AtMost : Option ℕ → ℕ → Type 0
AtMost none v = 1 ≤ 0
AtMost (some b) v = b ≤ v

pub last_place-append :
    (p : ℕ) (v : Events) (x : ℕ × String) (m : Events)
    → last_place p (v ++ x ∷ m) ≡ last_place x.0 m
last_place-append p [] x m = refl
last_place-append p (e ∷ v) x m = last_place-append e.0 v x m

pub last_place-le :
    (p : ℕ) (q : ℕ) (m : Events) → p ≤ q → All (λ (f : ℕ × String). p ≤ f.0) m → p ≤ last_place q m
last_place-le p q [] h hm = h
last_place-le p q (e ∷ m) h hm = last_place-le p e.0 m hm.0 hm.1

pub All-first :
    (p : ℕ) (m post : Events)
    → All (λ (f : ℕ × String). p ≤ f.0) (m ++ post)
    → All (λ (f : ℕ × String). p ≤ f.0) m
All-first p [] post h = tt
All-first p (e ∷ m) post h = (h.0, All-first p m post h.1)

-- A first part of a list either ends in the window or has all of it and the event after it.
pub cut_cases :
    (v : Events) (x : ℕ × String) (events seg post : Events)
    → v ++ x ∷ events ≡ seg ++ post
    → ((r : Events) × (v ≡ seg ++ r)) ⊎ ((m : Events) × ((seg ≡ v ++ x ∷ m) × (events ≡ m ++ post)))
cut_cases v x events [] post h = inl (v, refl)
cut_cases [] x events (y ∷ seg) post h = inr (seg, (cc h, cc h))
cut_cases (e ∷ v) x events (y ∷ seg) post h = elim (cut_cases v x events seg post (cc h)) [
  | inl r ↦ inl (r.0, cc (h, r.1))
  | inr r ↦ inr (r.0, (cc (h, r.1.0), r.1.1))
]

pub better-le : (best : Option ℕ) (v : ℕ) → better best v ≤ v
better-le none v = omega arith
better-le (some b) v = omega arith

pub better-AtMost : (best : Option ℕ) (u v : ℕ) → AtMost best v → AtMost (some (better best u)) v
better-AtMost none u v h = absurd (omega (arith, h))
better-AtMost (some b) u v h = omega (arith, h)

-- A best span only gets better.
pub choose-AtMost :
    (b : Bool) (x y : Window) (v : ℕ)
    → AtMost x.1 v
    → AtMost y.1 v
    → AtMost (if b then x else y).1 v
choose-AtMost true x y v hx hy = hx
choose-AtMost false x y v hx hy = hy

pub shrink-AtMost :
    (need pos : ℕ) (have : List (String × ℕ)) (w : Events) (best : Option ℕ) (v : ℕ)
    → AtMost best v
    → AtMost (shrink need pos have w best).1 v
unfolding shrink
shrink-AtMost need pos have [] best v h = h
shrink-AtMost need pos have (e ∷ w) best v h =
    choose-AtMost (length have == need) _ ((have, e ∷ w), best) v
      (shrink-AtMost need pos (fewer e.1 (or_else 0 (lookup e.1 have)) have) w
        (some (better best (pos - e.0 + 2))) v (better-AtMost best (pos - e.0 + 2) v h))
      h

pub window_from-AtMost :
    (need : ℕ) (events : Events) (s : Window) (v : ℕ)
    → AtMost s.1 v
    → AtMost (window_from need s events) v
unfolding window_from
window_from-AtMost need [] s v h = h
window_from-AtMost need (e ∷ events) s v h = window_from-AtMost need events (entered need s e) v (
    shrink-AtMost need e.0 (put e.1 (suc (or_else 0 (lookup e.1 s.0.0))) s.0.0) (s.0.1 ++ e ∷ [])
      s.1 v h)
