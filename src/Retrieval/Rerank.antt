-- ===== src/Retrieval/Rerank.antt =====
-- modules/zh-retrieval-lab/rerank_lab.py: the second stage of a retrieval, and the two ways to combine
-- it with the first. `none` is a KeyError; no span is the infinite one.
pub mod Names
pub mod Reordered
use Prim.Native.Char.{Char, code}
use Prim.Native.String.{compare}
use text.Mathlib.Text.{is_lt}
use text.Mathlib.TextBridge.{of_list}
use mathlib.Core.Option.{bind}
use mastery.Prelude.{
  same, member, ℕ, zero, suc, ◌+◌, ◌-◌, ◌*◌, min, String, Bool, true, false, not, ◌&&◌, ◌||◌,
  Option, none, some, List, [], ◌∷◌, ◌++◌, map, length, take, drop, ltb, ◌==◌, if◌then◌else◌,
}
use mastery.Prelude.Dict.{lookup, put, delete}
use mastery.Retrieval.Numbers.{Num}
use mastery.Retrieval.Analyzers.{bigram}
use mastery.Retrieval.Index.{Index, or_else, df, idf, bm25, sorted, rank}
use mastery.Retrieval.Span.{
  places, with_places, positions_of, event_precedes, insert_event, insert_all, events_of, fewer,
  better, Window, shrink, window_from, min_window,
}

module _ {ℓ} {R : Type ℓ} (num : Num R) where
  -- `IDF.get(t, 0.0)`, over the postings of the bigram index
  abbrev pub idf_of : Option (List String) → ℕ → R
  idf_of none n = num.of_nat 0
  idf_of (some docs) n = idf num n (length docs)

  unfoldable pub sum_idf : Index R → List (String × List ℕ) → R
  unfolding lookup
  sum_idf features [] = num.of_nat 0
  sum_idf features ((t, ps) ∷ rest) =
      num.plus (idf_of (lookup t features.postings) features.n) (sum_idf features rest)

  abbrev pub scaled : R → ℕ → Option ℕ → R
  scaled base tight none = base
  scaled base tight (some span) =
      num.times base (num.plus (num.of_nat 1) (num.over (num.of_nat tight) (num.of_nat span)))

  -- The score, by how many terms the text has.
  abbrev pub score_of : Index R → List (String × List ℕ) → R
  score_of features [] = num.of_nat 0
  score_of features (p ∷ []) = sum_idf features (p ∷ [])
  score_of features (p ∷ q ∷ rest) =
      scaled (sum_idf features (p ∷ q ∷ rest)) (2 * length (p ∷ q ∷ rest))
        (min_window (p ∷ q ∷ rest))

  unfoldable pub rerank_score : Index R → List Char → List Char → R
  unfolding bigram positions_of sum_idf min_window
  rerank_score features query text = score_of features (positions_of (bigram query) text)

  -- `{d: rerank_score(query, DOCS[d]) for d in candidates}`
  unfoldable pub scored_by :
      Index R → List Char → List (String × List Char) → List String → Option (List (String × R))
  unfolding rerank_score bind lookup
  scored_by features query docs [] = some []
  scored_by features query docs (d ∷ ds) = bind (lookup d docs) (λ text.
      bind (scored_by features query docs ds)
        (λ rest. some ((d, rerank_score features query text) ∷ rest)))

  -- The keys of a dictionary in the order of `(-score, key)`.
  abbrev pub ordered : List (String × R) → List String
  ordered scores = map (λ (kv : String × R). kv.0) (sorted num scores)

  abbrev pub two_stage_from :
      Index R → List Char → List (String × List Char) → ℕ → List String → Option (List String)
  two_stage_from features query docs depth full =
      bind (scored_by features query docs (take depth full))
        (λ scored. some (ordered scored ++ drop depth full))

  unfoldable pub two_stage :
      (List Char → List String) → Index R → Index R → List Char → ℕ → Option (List String)
  unfolding bm25 rank scored_by sorted bind
  two_stage analyze stage1 features query depth =
      bind (bm25 num analyze query stage1)
        (λ scores. two_stage_from features query stage1.docs depth (rank num scores 0))

  -- `1 / (k + i)`
  abbrev pub share : ℕ → R
  share n = num.over (num.of_nat 1) (num.of_nat n)

  -- `{d: 1 / (k + i) for i, d in enumerate(candidates, start=1)}`, with k + i as a number
  abbrev pub points_of : ℕ → List String → List (String × R)
  points_of n [] = []
  points_of n (d ∷ ds) = (d, share n) ∷ points_of (suc n) ds

  -- `points[d] += 1 / (k + i)`
  unfoldable pub add_points : ℕ → List String → List (String × R) → Option (List (String × R))
  unfolding lookup put bind
  add_points n [] points = some points
  add_points n (d ∷ ds) points =
      bind (lookup d points) (λ old. add_points (suc n) ds (put d (num.plus old (share n)) points))

  abbrev pub fused_from :
      Index R → List Char → List (String × List Char) → ℕ → ℕ → List String → Option (List String)
  fused_from features query docs depth k full =
      bind (scored_by features query docs (take depth full)) (λ scored.
        bind (add_points (k + 1) (ordered scored) (points_of (k + 1) (take depth full)))
          (λ points. some (ordered points ++ drop depth full)))

  unfoldable pub fused_stage :
      (List Char → List String) → Index R → Index R → List Char → ℕ → ℕ → Option (List String)
  unfolding bm25 rank scored_by add_points sorted bind
  fused_stage analyze stage1 features query depth k =
      bind (bm25 num analyze query stage1)
        (λ scores. fused_from features query stage1.docs depth k (rank num scores 0))
