-- ===== src/Tests/Retrieval.antt =====
-- modules/zh-retrieval-lab: a store of two documents, one of which is deleted.
use Prim.Native.Char.{Char}
use text.Mathlib.TextBridge.{of_list}
use mathlib.Core.Option.{bind}
use mastery.Prelude.{
  ◌≤◌, arith, Bool, true, member, same, ℕ, ◌+◌, ◌-◌, ◌*◌, ◌/◌, ◌≡◌, refl, String, false, Option,
  some, List, [], ◌∷◌, ltb, All,
}
use mastery.Prelude.Dict.{lookup, put, delete}
use mastery.Retrieval.Numbers.{Num}
use mastery.Retrieval.Analyzers.{
  dictionary, chars_of, unigram, bigram, is_word, match_size, match_from, dictmatch,
}
use mastery.Retrieval.Analyzers.Whole.{join, IsTerm, dictmatch-Whole}
use mastery.Retrieval.Index.{
  Index, count_terms, post_terms, post_docs, new_index, score_docs, score_terms, bm25, insert,
  sorted, rank,
}
use mastery.Retrieval.Index.Scored.{Gives}
use mastery.Retrieval.Freshness.{
  Meta, Store, Failure, search_pre, search_post, similar_to, preview, visible, keep_where, collect,
  new_store, search, similar, unreachable, hard_delete,
}
use mastery.Retrieval.Span.Places.{span}
use mastery.Retrieval.Span.Attained.{IsSpan, min_window-IsSmallest}
use mastery.Retrieval.Span.{
  places, positions_of, insert_event, insert_all, events_of, shrink, window_from, min_window,
}
use mastery.Retrieval.Rerank.{sum_idf, rerank_score, scored_by, two_stage, add_points, fused_stage}
use mastery.Retrieval.Rerank.Reordered.{IsReordered, two_stage-IsReordered}
use mastery.Retrieval.Freshness.Deleted.{delete_all, delete_all-unreachable}

program : Unit {0}
unfolding lookup put delete same bind unigram bigram is_word match_size match_from dictmatch member
    count_terms post_terms post_docs new_index score_docs score_terms bm25 insert sorted rank
    visible keep_where collect new_store search similar unreachable hard_delete delete_all places
    positions_of insert_event insert_all events_of shrink window_from min_window sum_idf
    rerank_score scored_by two_stage add_points fused_stage
program = tt

abbrev naturals : Num ℕ
naturals = record {
  of_nat = λ n. n;
  plus = λ a b. a + b;
  minus = λ a b. a - b;
  times = λ a b. a * b;
  over = λ a b. a / b;
  ln = λ n. n;
  below = ltb;
}

abbrev plant : List Char
plant = "新" ∷ "工" ∷ "厂" ∷ " " ∷ "在" ∷ "北" ∷ "京" ∷ []

abbrev visit : List Char
visit = "北" ∷ "京" ∷ []

abbrev corpus : List (String × List Char)
corpus = ("D02", visit) ∷ []

abbrev public : Meta
public = record { acl = "public"; updated = 1; deleted = false }

abbrev meta : List (String × Meta)
meta = ("D01", public) ∷ ("D02", public) ∷ []

-- The longest word is taken, and a character that starts none is a term.
plant_terms : dictmatch plant ≡ "新工厂" ∷ "在" ∷ "北京" ∷ []
unfolding program
plant_terms = refl

plant_pairs : bigram plant ≡ "新工" ∷ "工厂" ∷ "厂在" ∷ "在北" ∷ "北京" ∷ []
unfolding program
plant_pairs = refl

abbrev swept : String → Option (Store ℕ) → Option (List Failure)
swept doc s = bind s (λ s2. unreachable naturals unigram [] doc ([] ∷ []) s2)

-- Before the deletion the document is found in every way.
found_before :
    swept "D02" (new_store naturals unigram (("D01", plant) ∷ corpus) meta)
    ≡ some (
        search_pre plant
        ∷ search_post plant
        ∷ search_pre visit
        ∷ search_post visit
        ∷ similar_to "D01"
        ∷ preview "D02"
        ∷ [])
unfolding program
found_before = refl

dictmatch-Whole_example :
    (join (dictmatch plant) ≡ of_list (chars_of plant)) × All (IsTerm dictionary) (dictmatch plant)
dictmatch-Whole_example = dictmatch-Whole plant

delete_all-unreachable_example :
    Gives
      (λ (s : Store ℕ).
        Gives
          (λ (after : Store ℕ).
            All
              (λ doc. unreachable naturals unigram [] doc (("team" ∷ []) ∷ []) after ≡ some [])
              ("D02" ∷ []))
          (delete_all ("D02" ∷ []) s))
      (new_store naturals unigram (("D01", plant) ∷ corpus) meta)
unfolding program
delete_all-unreachable_example =
    delete_all-unreachable naturals unigram ("D01", plant) corpus meta ("D02" ∷ [])
      (("team" ∷ []) ∷ []) [] (refl, (refl, tt)) (refl, tt)

-- Two terms that stand two characters apart, and once next to each other.
narrow : min_window (("ab", 0 ∷ 9 ∷ []) ∷ ("cd", 4 ∷ 11 ∷ []) ∷ []) ≡ some 4
unfolding program
narrow = refl

abbrev features : Index ℕ
features = record {
  docs = corpus;
  terms = [];
  lengths = [];
  avgdl = 1;
  postings = ("北京", "D02" ∷ []) ∷ [];
  n = 2;
}

-- The candidates of the second stage come before the rest.
abbrev second : Option (List String)
second =
    bind (new_index naturals unigram [] (("D01", plant) ∷ corpus))
      (λ ix. two_stage naturals unigram ix features visit 1)

second_stage : second ≡ some ("D01" ∷ "D02" ∷ [])
unfolding program
second_stage = refl

abbrev any : String → Bool
any d = true

two_stage-IsReordered_example :
    Gives
      (λ (ix : Index ℕ).
        Gives
          (λ (scores : List (String × ℕ)).
            Gives
              (λ (out : List String). IsReordered any 1 (rank naturals scores 0) out)
              (two_stage naturals unigram ix features visit 1)
            × Gives
                (λ (out : List String). IsReordered any 1 (rank naturals scores 0) out)
                (fused_stage naturals unigram ix features visit 1 60))
          (bm25 naturals unigram visit ix))
      (new_index naturals unigram [] (("D01", plant) ∷ corpus))
two_stage-IsReordered_example =
    two_stage-IsReordered naturals unigram features ("D01", plant) corpus visit 1 60 any

abbrev two_terms : List (String × List ℕ)
two_terms = ("ab", 0 ∷ 9 ∷ []) ∷ ("cd", 4 ∷ 11 ∷ []) ∷ []

min_window-IsSmallest_example :
    (b : ℕ) × ((min_window two_terms ≡ some b)
      × ((b ≤ span ((0, "ab") ∷ (4, "cd") ∷ [])) × IsSpan (events_of two_terms) 2 b))
unfolding program
min_window-IsSmallest_example =
    min_window-IsSmallest two_terms [] ((0, "ab") ∷ (4, "cd") ∷ []) ((9, "ab") ∷ (11, "cd") ∷ [])
      (omega arith) refl (omega arith)
