-- ===== src/Retrieval/Freshness.antt =====
-- modules/zh-retrieval-lab/freshness_lab.py: the class Store, what a principal sees, the sweep of every
-- way out of the store, and the deletion at its boundary. The corpus of the source and the documents
-- of its index are one dictionary, so the index has it. `none` is a KeyError.
pub mod Swept
pub mod Deleted
use Prim.Native.Char.{Char}
use mathlib.Core.Option.{bind}
use mastery.Prelude.{
  member, same, ℕ, zero, suc, ◌+◌, String, Bool, true, false, not, ◌&&◌, ◌||◌, Option, none, some,
  List, [], ◌∷◌, ◌++◌, map, if◌then◌else◌, keep,
}
use mastery.Prelude.Dict.{lookup, put, delete}
use mastery.Retrieval.Numbers.{Num}
use mastery.Retrieval.Index.{Index, new_index, bm25, rank}

-- An entry of META.
pub record Meta : Type 0 where
  pub acl : String
  pub updated : ℕ
  pub deleted : Bool

pub record Store {ℓ} (R : Type ℓ) : Type ℓ where
  pub index : Index R
  pub built_at : ℕ
  pub snippets : List (String × List Char)
  pub meta : List (String × Meta)

pub data Mode : Type 0 where
  pre post : Mode

-- What `unreachable` reports.
pub data Failure : Type 0 where
  search_pre search_post : List Char → Failure
  similar_to preview : String → Failure

-- `t[:12]`
abbrev pub snippet_of : ℕ → List Char → List Char
snippet_of zero cs = []
snippet_of (suc n) [] = []
snippet_of (suc n) (c ∷ cs) = c ∷ snippet_of n cs

abbrev pub seen_by : List String → Meta → Bool
seen_by principal m = not m.deleted && (same m.acl "public" || member m.acl principal)

unfoldable pub visible {ℓ} : {R : Type ℓ} → String → List String → Store R → Option Bool
unfolding lookup same member bind
visible doc principal s = bind (lookup doc s.meta) (λ m. some (seen_by principal m))

abbrev pub add_if {ℓ} : {A : Type ℓ} → A → Bool → List A → List A
add_if x true rest = x ∷ rest
add_if x false rest = rest

-- The elements of which a test that may raise a KeyError says yes.
unfoldable pub keep_where {ℓ} : {A : Type ℓ} → (A → Option Bool) → List A → Option (List A)
unfolding bind
keep_where test [] = some []
keep_where test (x ∷ xs) =
    bind (test x) (λ b. bind (keep_where test xs) (λ rest. some (add_if x b rest)))

-- The lists that the elements give, one after the other.
unfoldable pub collect {ℓ κ} :
    {A : Type ℓ} {F : Type κ} → (A → Option (List F)) → List A → Option (List F)
unfolding bind
collect f [] = some []
collect f (x ∷ xs) = bind (f x) (λ first. bind (collect f xs) (λ rest. some (first ++ rest)))

abbrev pub when {ℓ} : {A : Type ℓ} → Bool → A → List A
when true x = x ∷ []
when false x = []

abbrev pub snippet_failures : String → Option (List Char) → List Failure
snippet_failures doc none = []
snippet_failures doc (some text) = preview doc ∷ []

-- `postings.discard(doc)` for each of the postings
abbrev pub discard : String → List (String × List String) → List (String × List String)
discard doc postings =
    map (λ (p : String × List String). (p.0, keep (λ d. not (same d doc)) p.1)) postings

-- `preview`
abbrev pub previewed {ℓ} : {R : Type ℓ} → String → Store R → Option (List Char)
previewed doc s = lookup doc s.snippets

module _ {ℓ} {R : Type ℓ} (num : Num R) (analyze : List Char → List String) where
  abbrev pub store_of : List (String × List Char) → List (String × Meta) → Index R → Store R
  store_of corpus meta ix = record {
    index = ix;
    built_at = 1700000000;
    snippets = map (λ (d : String × List Char). (d.0, snippet_of 12 d.1)) corpus;
    meta = meta;
  }

  -- `Store()`, with the corpus and META of the module
  unfoldable pub new_store : List (String × List Char) → List (String × Meta) → Option (Store R)
  unfolding new_index bind
  new_store corpus meta =
      bind (new_index num analyze [] corpus) (λ ix. some (store_of corpus meta ix))

  abbrev pub search_scores :
      List String → ℕ → Mode → Store R → List (String × R) → Option (List String)
  search_scores principal k pre s scores =
      bind (keep_where (λ (kv : String × R). visible kv.0 principal s) scores)
        (λ seen. some (rank num seen k))
  search_scores principal k post s scores =
      keep_where (λ (doc : String). visible doc principal s) (rank num scores k)

  unfoldable pub search : List Char → List String → ℕ → Mode → Store R → Option (List String)
  unfolding bm25 bind keep_where visible rank
  search query principal k mode s =
      bind (bm25 num analyze query s.index) (λ scores. search_scores principal k mode s scores)

  unfoldable pub similar : String → ℕ → Store R → Option (List String)
  unfolding bm25 bind rank lookup same
  similar doc k s = bind (lookup doc s.index.docs) (λ text.
      bind (bm25 num analyze text s.index)
        (λ scores. some (keep (λ d. not (same d doc)) (rank num scores (k + 1)))))

  -- The two searches of one query.
  abbrev pub sweep_query : String → List String → Store R → List Char → Option (List Failure)
  sweep_query doc principal s q = bind (search q principal 17 pre s) (λ found.
      bind (search q principal 17 post s) (λ filtered.
        some
          (when (member doc found) (search_pre q) ++ when (member doc filtered) (search_post q))))

  abbrev pub sweep_similar : String → Store R → String → Option (List Failure)
  sweep_similar doc s other =
      if same other doc
      then some []
      else bind (similar other 17 s) (λ ds. some (when (member doc ds) (similar_to other)))

  -- `unreachable`, with the queries that it tries beside the documents
  unfoldable pub unreachable :
      List (List Char) → String → List (List String) → Store R → Option (List Failure)
  unfolding search similar collect bind lookup same member
  unreachable extra doc principals s =
      let queries = map (λ (d : String × List Char). d.1) s.index.docs ++ extra in
      bind (collect (λ principal. collect (sweep_query doc principal s) queries) principals)
        (λ searched.
          bind (collect (λ (d : String × List Char). sweep_similar doc s d.0) s.index.docs)
            (λ resembled. some (searched ++ resembled ++ snippet_failures doc (previewed doc s))))

module _ {ℓ} {R : Type ℓ} where
  abbrev pub forget : String → Index R → Index R
  forget doc ix = record ix {
    docs = delete doc ix.docs;
    terms = delete doc ix.terms;
    lengths = delete doc ix.lengths;
    postings = discard doc ix.postings;
  }

  abbrev pub deleted_from : String → Meta → Store R → Store R
  deleted_from doc m s = record s {
    meta = put doc (record m { deleted = true }) s.meta;
    snippets = delete doc s.snippets;
    index = forget doc s.index;
  }

  unfoldable pub hard_delete : String → Store R → Option (Store R)
  unfolding lookup put delete bind same
  hard_delete doc s = bind (lookup doc s.meta) (λ m. some (deleted_from doc m s))
