-- ===== src/Retrieval/Span.antt =====
-- `min_window` of modules/zh-retrieval-lab/rerank_lab.py: the smallest span of a text that has all of its
-- terms. No span is the infinite one.
pub mod Counts
pub mod Places
pub mod Smallest
pub mod Attained
use Prim.Native.Char.{Char}
use Prim.Native.String.{compare}
use text.Mathlib.Text.{is_lt}
use text.Mathlib.TextBridge.{of_list}
use mastery.Prelude.{
  same, member, ℕ, zero, suc, ◌+◌, ◌-◌, min, String, Bool, ◌&&◌, ◌||◌, Option, none, some, List, [],
  ◌∷◌, ◌++◌, length, ltb, ◌==◌, if◌then◌else◌,
}
use mastery.Prelude.Dict.{lookup, put, delete}
use mastery.Retrieval.Index.{or_else}

-- `[i for i in range(len(text) - 1) if text[i:i + 2] == t]`
unfoldable pub places : String → ℕ → List Char → List ℕ
unfolding same
places t i [] = []
places t i (c ∷ []) = []
places t i (c ∷ d ∷ cs) =
    let rest = places t (suc i) (d ∷ cs) in if same (of_list (c ∷ d ∷ [])) t then i ∷ rest else rest

abbrev pub with_places : String → List ℕ → List (String × List ℕ) → List (String × List ℕ)
with_places t [] rest = rest
with_places t (i ∷ is) rest = (t, i ∷ is) ∷ rest

-- `positions`, for a set of terms, without those that the text does not have
unfoldable pub positions_of : List String → List Char → List (String × List ℕ)
unfolding places member
positions_of [] text = []
positions_of (t ∷ ts) text =
    let rest = positions_of ts text in
    if member t ts then rest else with_places t (places t 0 text) rest

-- The events of `min_window`, in the order of `(p, t)`.
abbrev pub event_precedes : ℕ × String → ℕ × String → Bool
event_precedes a b = ltb a.0 b.0 || (a.0 == b.0 && is_lt (compare a.1 b.1))

unfoldable pub insert_event : ℕ × String → List (ℕ × String) → List (ℕ × String)
insert_event e [] = e ∷ []
insert_event e (f ∷ fs) =
    let rest = insert_event e fs in if event_precedes f e then f ∷ rest else e ∷ f ∷ fs

unfoldable pub insert_all : String → List ℕ → List (ℕ × String) → List (ℕ × String)
unfolding insert_event
insert_all t [] events = events
insert_all t (p ∷ ps) events = insert_event (p, t) (insert_all t ps events)

unfoldable pub events_of : List (String × List ℕ) → List (ℕ × String)
unfolding insert_all
events_of [] = []
events_of ((t, ps) ∷ rest) = insert_all t ps (events_of rest)

-- `have[lt] -= 1`, and `del have[lt]` at 0
abbrev pub fewer : String → ℕ → List (String × ℕ) → List (String × ℕ)
fewer t zero have = delete t have
fewer t (suc zero) have = delete t have
fewer t (suc (suc n)) have = put t (suc n) have

-- `min(best, ..)`
abbrev pub better : Option ℕ → ℕ → ℕ
better none span = span
better (some best) span = min best span

abbrev pub Window : Type 0
Window = (List (String × ℕ) × List (ℕ × String)) × Option ℕ

-- `while len(have) == need`, over the events from the left end of the window on
unfoldable pub shrink : ℕ → ℕ → List (String × ℕ) → List (ℕ × String) → Option ℕ → Window
unfolding lookup put delete
shrink need pos have [] best = ((have, []), best)
shrink need pos have (e ∷ window) best =
    let rest =
      shrink need pos (fewer e.1 (or_else 0 (lookup e.1 have)) have) window
        (some (better best (pos - e.0 + 2))) in
    if length have == need then rest else ((have, e ∷ window), best)

-- One round of the loop: an event enters at the right end.
abbrev pub entered : ℕ → Window → ℕ × String → Window
entered need s e =
    shrink need e.0 (put e.1 (suc (or_else 0 (lookup e.1 s.0.0))) s.0.0) (s.0.1 ++ e ∷ []) s.1

unfoldable pub window_from : ℕ → Window → List (ℕ × String) → Option ℕ
unfolding shrink
window_from need s [] = s.1
window_from need s (e ∷ events) = window_from need (entered need s e) events

unfoldable pub min_window : List (String × List ℕ) → Option ℕ
unfolding window_from events_of
min_window positions = window_from (length positions) (([], []), none) (events_of positions)
