-- ===== src/Retrieval/Index/Scored.antt =====
-- What the index scores are documents of its postings, and scoring them raises no KeyError.
use Prim.Native.Char.{Char}
use mathlib.Core.Option.{bind}
use mastery.Prelude.{
  take, ℕ, zero, suc, ◌≡◌, refl, String, String_discrete, ite, Bool, true, false, Option, none,
  some, List, [], ◌∷◌, map, All, if◌then◌else◌, subst, sym,
}
use mastery.Prelude.Dict.{lookup, put}
use mastery.Retrieval.Numbers.{Num}
use mastery.Retrieval.Index.{
  Index, or_else, df, idf, add_gain, score_docs, score_terms, bm25, precedes, insert, sorted, up_to,
  rank,
}

-- A result, with a property of it.
abbrev pub Gives {ℓ κ} : {A : Type ℓ} → (A → Type κ) → Option A → Type (ℓ ⊔ κ)
Gives P o = (x : _) × ((o ≡ some x) × P x)

pub Gives-bind {ℓ κ μ ν} :
    {A : Type ℓ} {B : Type κ} {P : A → Type μ} {Q : B → Type ν} (o : Option A) (f : A → Option B)
    → Gives P o
    → ((x : A) → P x → Gives Q (f x))
    → Gives Q (bind o f)
unfolding bind
Gives-bind {A = A} {Q = Q} o f h g =
    subst (λ (p : Option A). Gives Q (bind p f)) (sym h.1.0) (g h.0 h.1.1)

abbrev pub is_some {ℓ} : {A : Type ℓ} → Option A → Bool
is_some none = false
is_some (some a) = true

-- Every key of a dictionary has the property.
abbrev pub Keys {ℓ κ} : {V : Type ℓ} → (String → Type κ) → List (String × V) → Type κ
Keys {V = V} P d = All (λ (kv : String × V). P kv.0) d

abbrev pub Postings {κ} : (String → Type κ) → List (String × List String) → Type κ
Postings P d = All (λ (kv : String × List String). All P kv.1) d

pub put-Keys {ℓ κ} :
    {V : Type ℓ} (P : String → Type κ) (k : String) (v : V) (d : List (String × V))
    → P k
    → Keys P d
    → Keys P (put k v d)
unfolding put
put-Keys P k v [] h hd = (h, tt)
put-Keys P k v ((j, w) ∷ d) h hd =
    elim (String_discrete j k) as (λ t. Keys P (ite t ((k, v) ∷ d) ((j, w) ∷ put k v d))) [
      | yes e ↦ (h, hd.1)
      | no e ↦ (hd.0, put-Keys P k v d h hd.1)
    ]

pub lookup-Postings {κ} :
    (P : String → Type κ) (t : String) (d : List (String × List String))
    → Postings P d
    → All P (or_else [] (lookup t d))
unfolding lookup
lookup-Postings P t [] h = tt
lookup-Postings P t ((j, w) ∷ d) h =
    elim (String_discrete j t) as (λ b. All P (or_else [] (ite b (some w) (lookup t d)))) [
      | yes e ↦ h.0
      | no e ↦ lookup-Postings P t d h.1
    ]

module _ {ℓ κ} {R : Type ℓ} (num : Num R) (P : String → Type κ) where
  abbrev Scores : List (String × R) → Type κ
  Scores d = Keys P d

  add_gain-Gives :
      (term doc : String) (idf avgdl : R) (counts : Option (List (String × ℕ))) (len : Option ℕ)
      (scores : List (String × R))
      → is_some counts ≡ true
      → is_some len ≡ true
      → P doc
      → Scores scores
      → Gives Scores (add_gain num term doc idf avgdl counts len scores)
  add_gain-Gives term doc idf avgdl none len scores e f h hs = absurd cc
  add_gain-Gives term doc idf avgdl (some c) none scores e f h hs = absurd cc
  add_gain-Gives term doc idf avgdl (some c) (some l) scores e f h hs =
      (_, (refl, put-Keys P doc _ scores h hs))

-- A document that the index has the terms and the length of.
abbrev pub IsKnown {ℓ} : {R : Type ℓ} → Index R → String → Type 0
IsKnown ix doc = (is_some (lookup doc ix.terms) ≡ true) × (is_some (lookup doc ix.lengths) ≡ true)

module _ {ℓ κ} {R : Type ℓ} (num : Num R) (P : String → Type κ) (ix : Index R) where
  abbrev Listed : String → Type κ
  Listed doc = IsKnown ix doc × P doc

  score_docs-Gives :
      (term : String) (w : R) (docs : List String) (scores : List (String × R))
      → All Listed docs
      → Keys P scores
      → Gives (λ (d : List (String × R)). Keys P d) (score_docs num term w ix docs scores)
  unfolding score_docs
  score_docs-Gives term w [] scores h hs = (scores, (refl, hs))
  score_docs-Gives term w (doc ∷ docs) scores h hs =
      Gives-bind _ _
        (add_gain-Gives num P term doc w ix.avgdl (lookup doc ix.terms) (lookup doc ix.lengths)
          scores h.0.0.0 h.0.0.1 h.0.1 hs)
        (λ next hn. score_docs-Gives term w docs next h.1 hn)

  score_terms-Gives :
      (terms : List String) (scores : List (String × R))
      → Postings Listed ix.postings
      → Keys P scores
      → Gives (λ (d : List (String × R)). Keys P d) (score_terms num ix terms scores)
  unfolding score_terms
  score_terms-Gives [] scores h hs = (scores, (refl, hs))
  score_terms-Gives (term ∷ terms) scores h hs =
      Gives-bind _ _
        (score_docs-Gives term (idf num ix.n (df num term ix))
          (or_else [] (lookup term ix.postings)) scores (lookup-Postings Listed term ix.postings h)
          hs)
        (λ next hn. score_terms-Gives terms next h hn)

  pub bm25-Gives :
      (analyze : List Char → List String) (query : List Char)
      → Postings Listed ix.postings
      → Gives (λ (d : List (String × R)). Keys P d) (bm25 num analyze query ix)
  unfolding bm25
  bm25-Gives analyze query h = score_terms-Gives (analyze query) [] h tt

module _ {ℓ κ} {R : Type ℓ} (num : Num R) (P : String → Type κ) where
  insert-Keys :
      (a : String × R) (d : List (String × R)) → P a.0 → Keys P d → Keys P (insert num a d)
  unfolding insert
  insert-Keys a [] h hd = (h, tt)
  insert-Keys a (b ∷ d) h hd =
      elim (precedes num b a) as (λ t. Keys P (if t then b ∷ insert num a d else a ∷ b ∷ d)) [
        | true ↦ (hd.0, insert-Keys a d h hd.1)
        | false ↦ (h, hd)
      ]

  sorted-Keys : (d : List (String × R)) → Keys P d → Keys P (sorted num d)
  unfolding sorted
  sorted-Keys [] h = tt
  sorted-Keys (a ∷ d) h = insert-Keys a (sorted num d) h.0 (sorted-Keys d h.1)

  names-All : (d : List (String × R)) → Keys P d → All P (map (λ (kv : String × R). kv.0) d)
  names-All [] h = tt
  names-All (a ∷ d) h = (h.0, names-All d h.1)

  take-All : (k : ℕ) (ds : List String) → All P ds → All P (take k ds)
  take-All zero ds h = tt
  take-All (suc k) [] h = tt
  take-All (suc k) (d ∷ ds) h = (h.0, take-All k ds h.1)

  up_to-All : (k : ℕ) (ds : List String) → All P ds → All P (up_to k ds)
  up_to-All zero ds h = h
  up_to-All (suc k) ds h = take-All (suc k) ds h

  pub rank-All : (d : List (String × R)) (k : ℕ) → Keys P d → All P (rank num d k)
  unfolding rank
  rank-All d k h =
      up_to-All k (map (λ (kv : String × R). kv.0) (sorted num d))
        (names-All (sorted num d) (sorted-Keys d h))
