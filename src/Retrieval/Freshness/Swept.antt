-- ===== src/Retrieval/Freshness/Swept.antt =====
-- The ways out of a store whose postings do not have a document.
use Prim.Native.Char.{Char}
use mathlib.Core.Option.{bind}
use mastery.Prelude.{
  member, same, ℕ, ◌+◌, ◌≡◌, refl, String, Bool, true, false, not, Option, none, some, List, [],
  ◌∷◌, ◌++◌, map, keep, All, All-map, ap, ◌∙◌, if◌then◌else◌, arith,
}
use mastery.Prelude.Dict.{lookup}
use mastery.Retrieval.Numbers.{Num}
use mastery.Retrieval.Index.{bm25, rank}
use mastery.Retrieval.Index.Scored.{
  Gives, Gives-bind, is_some, Keys, Postings, IsKnown, bm25-Gives, rank-All,
}
use mastery.Retrieval.Index.Built.{Has, Keys-Has}
use mastery.Retrieval.Freshness.{
  Store, Mode, pre, post, Failure, search_pre, search_post, similar_to, seen_by, visible, add_if,
  keep_where, collect, when, snippet_failures, search, similar, previewed, sweep_query,
  sweep_similar, unreachable,
}

keep-All {ℓ κ} :
    {A : Type ℓ} (P : A → Type κ) (p : A → Bool) (xs : List A) → All P xs → All P (keep p xs)
keep-All P p [] h = tt
keep-All P p (x ∷ xs) h = elim (p x) as (λ b. All P (if b then x ∷ keep p xs else keep p xs)) [
  | true ↦ (h.0, keep-All P p xs h.1)
  | false ↦ keep-All P p xs h.1
]

add_if-All {ℓ κ} :
    {A : Type ℓ} (P : A → Type κ) (x : A) (b : Bool) (xs : List A)
    → P x
    → All P xs
    → All P (add_if x b xs)
add_if-All P x true xs h hs = (h, hs)
add_if-All P x false xs h hs = hs

pub is_some-Gives {ℓ} :
    {A : Type ℓ} (o : Option A) → is_some o ≡ true → Gives (λ (a : A). Unit {0}) o
is_some-Gives none h = absurd cc
is_some-Gives (some a) h = (a, (refl, tt))

keep_where-Gives {ℓ κ} :
    {A : Type ℓ} (P : A → Type κ) (test : A → Option Bool) (xs : List A)
    → All (λ (x : A). (is_some (test x) ≡ true) × P x) xs
    → Gives (λ (ys : List A). All P ys) (keep_where test xs)
unfolding keep_where
keep_where-Gives P test [] h = ([], (refl, tt))
keep_where-Gives P test (x ∷ xs) h = Gives-bind (test x) _ (is_some-Gives (test x) h.0.0) (λ b u.
    Gives-bind (keep_where test xs) _ (keep_where-Gives P test xs h.1)
      (λ rest hr. (add_if x b rest, (refl, add_if-All P x b rest h.0.1 hr))))

-- An empty list of failures.
abbrev pub IsNil {ℓ} : {A : Type ℓ} → List A → Type ℓ
IsNil xs = xs ≡ []

collect-Gives {ℓ κ} :
    {A : Type ℓ} {F : Type κ} (f : A → Option (List F)) (xs : List A)
    → All (λ (x : A). Gives (λ (ys : List F). IsNil ys) (f x)) xs
    → Gives (λ (ys : List F). IsNil ys) (collect f xs)
unfolding collect
collect-Gives f [] h = ([], (refl, refl))
collect-Gives f (x ∷ xs) h = Gives-bind (f x) _ h.0 (λ first hf.
    Gives-bind (collect f xs) _ (collect-Gives f xs h.1)
      (λ rest hr. (first ++ rest, (refl, ap (λ ys. ys ++ rest) hf ∙ hr))))

abbrev pub Differs : String → String → Type 0
Differs doc other = same other doc ≡ false

member-Differs : (doc : String) (ds : List String) → All (Differs doc) ds → member doc ds ≡ false
unfolding member
member-Differs doc [] h = refl
member-Differs doc (d ∷ ds) h = ground (arith, member-Differs doc ds h.1, h.0)

-- What the postings of a store hold, beside the property P.
abbrev pub IsFresh {ℓ κ} : {R : Type ℓ} → (String → Type κ) → Store R → Type κ
IsFresh P s = Postings (λ doc. IsKnown s.index doc × (Has s.meta doc × P doc)) s.index.postings

visible-is_some {ℓ} :
    {R : Type ℓ} (doc : String) (principal : List String) (s : Store R)
    → Has s.meta doc
    → is_some (visible doc principal s) ≡ true
unfolding visible bind
visible-is_some doc principal s h =
    elim (lookup doc s.meta)
        as (λ o. is_some o ≡ true → is_some (bind o (λ m. some (seen_by principal m))) ≡ true) [
          | none ↦ λ e. absurd cc
          | some m ↦ λ e. refl
        ]
      h

everywhere {ℓ κ} : {A : Type ℓ} {P : A → Type κ} (xs : List A) → ((x : A) → P x) → All P xs
everywhere [] h = tt
everywhere (x ∷ xs) h = (h x, everywhere xs h)

-- The queries of the sweep.
abbrev queries {ℓ} : {R : Type ℓ} → Store R → List (List Char) → List (List Char)
queries s extra = map (λ (d : String × List Char). d.1) s.index.docs ++ extra

module _ {ℓ} {R : Type ℓ} (num : Num R) (analyze : List Char → List String) (doc : String)
    (s : Store R) (fresh : IsFresh (Differs doc) s) where
  scores-Gives :
      (query : List Char)
      → Gives
          (λ (d : List (String × R)). Keys (λ k. Has s.meta k × Differs doc k) d)
          (bm25 num analyze query s.index)
  scores-Gives query =
      bm25-Gives num (λ k. Has s.meta k × Differs doc k) s.index analyze query fresh

  search-Gives :
      (query : List Char) (principal : List String) (k : ℕ) (mode : Mode)
      → Gives
          (λ (ds : List String). All (Differs doc) ds)
          (search num analyze query principal k mode s)
  unfolding search
  search-Gives query principal k pre = Gives-bind _ _ (scores-Gives query) (λ scores h.
      Gives-bind _ _
        (keep_where-Gives (λ (kv : String × R). Differs doc kv.0)
          (λ (kv : String × R). visible kv.0 principal s) scores
          (All-map (λ (kv : String × R) hk. (visible-is_some kv.0 principal s hk.0, hk.1)) scores
            h))
        (λ seen hs. (rank num seen k, (refl, rank-All num (Differs doc) seen k hs))))
  search-Gives query principal k post = Gives-bind _ _ (scores-Gives query) (λ scores h.
      keep_where-Gives (Differs doc) (λ d. visible d principal s) (rank num scores k)
        (All-map (λ d hd. (visible-is_some d principal s hd.0, hd.1)) (rank num scores k)
          (rank-All num (λ d. Has s.meta d × Differs doc d) scores k h)))

  similar-Gives :
      (other : String) (k : ℕ)
      → Has s.index.docs other
      → Gives (λ (ds : List String). All (Differs doc) ds) (similar num analyze other k s)
  unfolding similar
  similar-Gives other k h = Gives-bind _ _ (is_some-Gives (lookup other s.index.docs) h) (λ text u.
      Gives-bind _ _ (scores-Gives text) (λ scores hs. (
        _,
        (
          refl,
          keep-All (Differs doc) (λ d. not (same d other)) (rank num scores (k + 1))
              (All-map (λ d hd. hd.1) (rank num scores (k + 1))
                (rank-All num (λ d. Has s.meta d × Differs doc d) scores (k + 1) hs)),
        ),
      )))

  sweep_query-Gives :
      (principal : List String) (q : List Char)
      → Gives (λ (fs : List Failure). IsNil fs) (sweep_query num analyze doc principal s q)
  sweep_query-Gives principal q = Gives-bind _ _ (search-Gives q principal 17 pre) (λ found hf.
      Gives-bind _ _ (search-Gives q principal 17 post) (λ filtered hp. (
        _,
        (
          refl,
          ap (λ b. when b (search_pre q) ++ when (member doc filtered) (search_post q))
                (member-Differs doc found hf)
              ∙ ap (λ b. when b (search_post q)) (member-Differs doc filtered hp),
        ),
      )))

  sweep_similar-Gives :
      (other : String)
      → Has s.index.docs other
      → Gives (λ (fs : List Failure). IsNil fs) (sweep_similar num analyze doc s other)
  sweep_similar-Gives other h =
      elim (same other doc)
        as (λ b.
          Gives (λ (fs : List Failure). IsNil fs)
            (if b
              then some []
              else bind (similar num analyze other 17 s)
                  (λ ds. some (when (member doc ds) (similar_to other))))) [
                    | true ↦ ([], (refl, refl))
                    | false ↦ Gives-bind _ _ (similar-Gives other 17 h) (λ ds hd.
                        (_, (refl, ap (λ b. when b (similar_to other)) (member-Differs doc ds hd))))
                  ]

  pub unreachable-Gives :
      (extra : List (List Char)) (principals : List (List String))
      → lookup doc s.snippets ≡ none
      → Gives (λ (fs : List Failure). IsNil fs) (unreachable num analyze extra doc principals s)
  unfolding unreachable
  unreachable-Gives extra principals e =
      Gives-bind _ _
        (collect-Gives _ principals (
          everywhere principals (λ principal.
            collect-Gives (sweep_query num analyze doc principal s) (queries s extra)
              (everywhere (queries s extra) (λ q. sweep_query-Gives principal q)))))
        (λ searched hs.
          Gives-bind _ _
            (collect-Gives _ s.index.docs (
              All-map (λ (d : String × List Char) h. sweep_similar-Gives d.0 h) s.index.docs
                (Keys-Has s.index.docs)))
            (λ resembled hr. (
              _,
              (
                refl,
                ap (λ fs. fs ++ resembled ++ snippet_failures doc (previewed doc s)) hs
                    ∙ ap (λ fs. fs ++ snippet_failures doc (previewed doc s)) hr
                    ∙ ap (snippet_failures doc) e,
              ),
            )))
