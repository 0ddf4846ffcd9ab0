-- ===== src/Retrieval/Index.antt =====
-- The class Index and the function `rank` of modules/zh-retrieval-lab/retrievers.py. A set of
-- documents is a list; `none` is a KeyError, or the ZeroDivisionError of an empty corpus.
pub mod Scored
pub mod Built
use Prim.Native.Char.{Char}
use Prim.Native.String.{compare}
use text.Mathlib.Text.{is_lt}
use mastery.Prelude.{
  take, member, same, ℕ, zero, suc, ◌+◌, String, Bool, true, false, not, ◌&&◌, ◌||◌, Option, none,
  some, List, [], ◌∷◌, map, if◌then◌else◌, ◌==◌, length,
}
use mathlib.Core.Option.{bind}
use mastery.Prelude.Dict.{lookup, put}
use mastery.Retrieval.Numbers.{Num}

pub record Index {ℓ} (R : Type ℓ) : Type ℓ where
  pub docs : List (String × List Char)
  pub terms : List (String × List (String × ℕ))
  pub lengths : List (String × ℕ)
  pub avgdl : R
  pub postings : List (String × List String)
  pub n : ℕ

-- `s.add(x)`
abbrev pub add_to : String → List String → List String
add_to x s = if member x s then s else x ∷ s

-- A key that a Counter or a defaultdict does not have.
abbrev pub or_else {ℓ} : {A : Type ℓ} → A → Option A → A
or_else a none = a
or_else a (some b) = b

-- `Counter(terms)`
unfoldable pub count_terms : List String → List (String × ℕ) → List (String × ℕ)
unfolding put lookup
count_terms [] counts = counts
count_terms (t ∷ ts) counts = count_terms ts (put t (suc (or_else 0 (lookup t counts))) counts)

abbrev pub counter : List String → List (String × ℕ)
counter ts = count_terms ts []

abbrev pub sum_counts : List (String × ℕ) → ℕ
sum_counts [] = 0
sum_counts ((t, c) ∷ cs) = c + sum_counts cs

-- `self.postings[term].add(doc)` for each term of a document, and for each document
unfoldable pub post_terms :
    String → List (String × ℕ) → List (String × List String) → List (String × List String)
unfolding put lookup member
post_terms doc [] postings = postings
post_terms doc ((t, c) ∷ counts) postings =
    post_terms doc counts (put t (add_to doc (or_else [] (lookup t postings))) postings)

unfoldable pub post_docs :
    List (String × List (String × ℕ)) → List (String × List String) → List (String × List String)
unfolding post_terms
post_docs [] postings = postings
post_docs ((doc, counts) ∷ terms) postings = post_docs terms (post_terms doc counts postings)

-- `docs or DOCS`
abbrev pub docs_or :
    List (String × List Char) → List (String × List Char) → List (String × List Char)
docs_or [] corpus = corpus
docs_or (d ∷ ds) corpus = d ∷ ds

module _ (analyze : List Char → List String) where
  -- `self.terms`
  abbrev pub terms_of : List (String × List Char) → List (String × List (String × ℕ))
  terms_of docs = map (λ d. (d.0, counter (analyze d.1))) docs

-- `self.length`
abbrev pub lengths_of : List (String × List (String × ℕ)) → List (String × ℕ)
lengths_of terms = map (λ d. (d.0, sum_counts d.1)) terms

-- `[..][:k] if k else [..]`
abbrev pub up_to : ℕ → List String → List String
up_to zero ds = ds
up_to (suc k) ds = take (suc k) ds

module _ {ℓ} {R : Type ℓ} (num : Num R) where
  -- `sum(self.length.values()) / len(self.length)`
  abbrev pub mean : List (String × ℕ) → Option R
  mean [] = none
  mean (l ∷ ls) = some (num.over (num.of_nat (sum_counts (l ∷ ls))) (num.of_nat (length (l ∷ ls))))

  abbrev pub index_from :
      List (String × List Char) → List (String × List (String × ℕ)) → Option R → Option (Index R)
  index_from docs terms none = none
  index_from docs terms (some avgdl) = some record {
    docs = docs;
    terms = terms;
    lengths = lengths_of terms;
    avgdl = avgdl;
    postings = post_docs terms [];
    n = length docs;
  }

  -- `Index(analyzer, docs)`
  unfoldable pub new_index :
      (List Char → List String)
      → List (String × List Char)
      → List (String × List Char)
      → Option (Index R)
  unfolding count_terms post_docs
  new_index analyze docs corpus =
      let terms = terms_of analyze (docs_or docs corpus) in
      index_from (docs_or docs corpus) terms (mean (lengths_of terms))

  -- `self.df(term)`
  abbrev pub df : String → Index R → ℕ
  df term ix = length (or_else [] (lookup term ix.postings))

  abbrev pub idf : ℕ → ℕ → R
  idf n d =
      let half = num.over (num.of_nat 1) (num.of_nat 2) in
      num.ln (
        num.plus (num.of_nat 1) (
          num.over (num.plus (num.minus (num.of_nat n) (num.of_nat d)) half)
            (num.plus (num.of_nat d) half)))

  -- What a term adds to the score of a document, with k1 = 1.2 and b = 0.75.
  abbrev pub gain : R → ℕ → ℕ → R → R
  gain idf tf len avgdl =
      let k1 = num.over (num.of_nat 12) (num.of_nat 10) in
      let b = num.over (num.of_nat 3) (num.of_nat 4) in
      let t = num.of_nat tf in
      let share = num.over (num.times b (num.of_nat len)) avgdl in
      let denom = num.plus t (num.times k1 (num.plus (num.minus (num.of_nat 1) b) share)) in
      num.over (num.times idf (num.times t (num.plus k1 (num.of_nat 1)))) denom

  abbrev pub add_gain :
      String
      → String
      → R
      → R
      → Option (List (String × ℕ))
      → Option ℕ
      → List (String × R)
      → Option (List (String × R))
  add_gain term doc idf avgdl (some counts) (some len) scores = some (
      put doc
        (num.plus (or_else (num.of_nat 0) (lookup doc scores))
          (gain idf (or_else 0 (lookup term counts)) len avgdl))
        scores)
  add_gain term doc idf avgdl none len scores = none
  add_gain term doc idf avgdl (some counts) none scores = none

  -- `for doc in self.postings[term]`
  unfoldable pub score_docs :
      String → R → Index R → List String → List (String × R) → Option (List (String × R))
  unfolding lookup put bind
  score_docs term idf ix [] scores = some scores
  score_docs term idf ix (doc ∷ docs) scores =
      bind (add_gain term doc idf ix.avgdl (lookup doc ix.terms) (lookup doc ix.lengths) scores)
        (λ next. score_docs term idf ix docs next)

  -- `for term in q_terms`; a term without documents is passed over.
  unfoldable pub score_terms :
      Index R → List String → List (String × R) → Option (List (String × R))
  unfolding score_docs bind
  score_terms ix [] scores = some scores
  score_terms ix (term ∷ terms) scores =
      bind
        (score_docs term (idf ix.n (df term ix)) ix (or_else [] (lookup term ix.postings)) scores)
        (λ next. score_terms ix terms next)

  unfoldable pub bm25 : (List Char → List String) → List Char → Index R → Option (List (String × R))
  unfolding score_terms
  bm25 analyze query ix = score_terms ix (analyze query) []

  -- The order of `(-score, doc)`.
  abbrev pub precedes : String × R → String × R → Bool
  precedes a b = num.below b.1 a.1 || (not (num.below a.1 b.1) && is_lt (compare a.0 b.0))

  unfoldable pub insert : String × R → List (String × R) → List (String × R)
  insert a [] = a ∷ []
  insert a (b ∷ bs) = let rest = insert a bs in if precedes b a then b ∷ rest else a ∷ b ∷ bs

  unfoldable pub sorted : List (String × R) → List (String × R)
  unfolding insert
  sorted [] = []
  sorted (a ∷ rest) = insert a (sorted rest)

  -- `rank(scores, k)`, where 0 stands for None, as it does in the source
  unfoldable pub rank : List (String × R) → ℕ → List String
  unfolding sorted
  rank scores k = up_to k (map (λ (kv : String × R). kv.0) (sorted scores))
